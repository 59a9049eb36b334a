-- ===== src/Write/Old/Recorded.antt =====
-- What the log buffers say of their chunks once a new one has been put into one of them.
use native.Mathlib.Decide.{ℕ_discrete}
use fast2016_ftl.Common.{ℕ, ◌/◌, ◌≡◌, ◌≢◌, ◌⊎◌, inl, inr, refl, ==_self, ne→==-false}
use fast2016_ftl.Params.{sectors_per_chunk}
use fast2016_ftl.CleanList.{put}
use fast2016_ftl.Log.{LogCtrlBlock, put_ctrl}
use fast2016_ftl.World.{World, hot_ctrl, cold_ctrl}
use fast2016_ftl.Write.{LogSide, hot_log, cold_log, ctrl, Writer}
use fast2016_ftl.Write.Old.Buffer.{writer}

-- Another place than that of the new chunk.
abbrev pub IsApart : Writer → World → LogSide → ℕ → ℕ → Type 0
IsApart q w s b x = (s ≢ q.side) ⊎ ((b ≢ q.bank) ⊎ (x ≢ (ctrl q.side w q.bank).chunk_ptr))

abbrev pub SameCell : LogSide → ℕ → ℕ → World → World → Type 0
SameCell s b x w w' =
    ((ctrl s w' b).data_lpn x ≡ (ctrl s w b).data_lpn x)
    × ((ctrl s w' b).chunk_idx x ≡ (ctrl s w b).chunk_idx x)

abbrev pub SameFlag : LogSide → ℕ → World → World → Type 0
SameFlag s b w w' =
    (ctrl s w' b).all_chunks_in_log_are_valid ≡ (ctrl s w b).all_chunks_in_log_are_valid

-- The new chunk is recorded at its place, and the rest is as before.
pub record IsRecorded (q : Writer) (w w' : World) : Type 0 where
  pub lpn : (ctrl q.side w' q.bank).data_lpn (ctrl q.side w q.bank).chunk_ptr ≡ q.lpn
  pub idx :
      (ctrl q.side w' q.bank).chunk_idx (ctrl q.side w q.bank).chunk_ptr
      ≡ q.sect_offset / sectors_per_chunk
  pub cells : (s : LogSide) (b x : ℕ) → IsApart q w s b x → SameCell s b x w w'
  pub flags : (s : LogSide) (b : ℕ) → SameFlag s b w w'

-- The control blocks once a chunk is recorded and the next one follows.
module _ (ctrls : ℕ → LogCtrlBlock) (bank lpn idx ptr : ℕ) where
  abbrev one : ℕ → LogCtrlBlock
  one = put_ctrl ctrls bank (record (ctrls bank) {
    data_lpn = put (ctrls bank).data_lpn (ctrls bank).chunk_ptr lpn;
    chunk_idx = put (ctrls bank).chunk_idx (ctrls bank).chunk_ptr idx;
  })

  abbrev both : ℕ → LogCtrlBlock
  both = put_ctrl one bank (record (one bank) { chunk_ptr = ptr })

  both-cell :
      (b x : ℕ)
      → (b ≢ bank) ⊎ (x ≢ (ctrls bank).chunk_ptr)
      → ((both b).data_lpn x ≡ (ctrls b).data_lpn x)
        × ((both b).chunk_idx x ≡ (ctrls b).chunk_idx x)
  both-cell b x apart = elim (ℕ_discrete b bank) [
    | no ne ↦ rw (ne→==-false b bank ne) (refl, refl)
    | yes e ↦ elim apart [
      | inl ne ↦ absurd (ne e)
      | inr ne ↦
          rw e (rw (==_self bank) (rw (ne→==-false x (ctrls bank).chunk_ptr ne) (refl, refl)))
    ]
  ]

  both-flag : (b : ℕ) → (both b).all_chunks_in_log_are_valid ≡ (ctrls b).all_chunks_in_log_are_valid
  both-flag b = elim (ℕ_discrete b bank) [
    | no ne ↦ rw (ne→==-false b bank ne) refl
    | yes e ↦ rw e (rw (==_self bank) refl)
  ]

module _ (bank lpn sect n rem ptr : ℕ) (w w' : World) where
  module _ (e : hot_ctrl w' ≡ both (hot_ctrl w) bank lpn (sect / sectors_per_chunk) ptr)
      (same : cold_ctrl w' ≡ cold_ctrl w) where
    hot_cells :
        (s : LogSide) (b x : ℕ)
        → IsApart (writer hot_log bank lpn sect n rem) w s b x
        → SameCell s b x w w'
    hot_cells hot_log b x (inl ne) = absurd (ne refl)
    hot_cells hot_log b x (inr ne) =
        rw e (both-cell (hot_ctrl w) bank lpn (sect / sectors_per_chunk) ptr b x ne)
    hot_cells cold_log b x apart = rw same (refl, refl)

    hot_flags : (s : LogSide) (b : ℕ) → SameFlag s b w w'
    hot_flags hot_log b = rw e (both-flag (hot_ctrl w) bank lpn (sect / sectors_per_chunk) ptr b)
    hot_flags cold_log b = rw same refl

    pub hot-IsRecorded : IsRecorded (writer hot_log bank lpn sect n rem) w w'
    hot-IsRecorded = record {
      lpn = rw e (rw (==_self bank) (rw (==_self (hot_ctrl w bank).chunk_ptr) refl));
      idx = rw e (rw (==_self bank) (rw (==_self (hot_ctrl w bank).chunk_ptr) refl));
      cells = hot_cells;
      flags = hot_flags;
    }

  module _ (e : cold_ctrl w' ≡ both (cold_ctrl w) bank lpn (sect / sectors_per_chunk) ptr)
      (same : hot_ctrl w' ≡ hot_ctrl w) where
    cold_cells :
        (s : LogSide) (b x : ℕ)
        → IsApart (writer cold_log bank lpn sect n rem) w s b x
        → SameCell s b x w w'
    cold_cells cold_log b x (inl ne) = absurd (ne refl)
    cold_cells cold_log b x (inr ne) =
        rw e (both-cell (cold_ctrl w) bank lpn (sect / sectors_per_chunk) ptr b x ne)
    cold_cells hot_log b x apart = rw same (refl, refl)

    cold_flags : (s : LogSide) (b : ℕ) → SameFlag s b w w'
    cold_flags cold_log b = rw e (both-flag (cold_ctrl w) bank lpn (sect / sectors_per_chunk) ptr b)
    cold_flags hot_log b = rw same refl

    pub cold-IsRecorded : IsRecorded (writer cold_log bank lpn sect n rem) w w'
    cold-IsRecorded = record {
      lpn = rw e (rw (==_self bank) (rw (==_self (cold_ctrl w bank).chunk_ptr) refl));
      idx = rw e (rw (==_self bank) (rw (==_self (cold_ctrl w bank).chunk_ptr) refl));
      cells = cold_cells;
      flags = cold_flags;
    }
