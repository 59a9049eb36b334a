-- ===== src/Write/Old/Logged.antt =====
-- What the log buffers say of their chunks once a chunk has been replaced.
use native.Mathlib.Decide.{ℕ_discrete}
use fast2016_ftl.Common.{
  ℕ, ◌/◌, ◌≡◌, ◌≢◌, ◌⊎◌, inl, inr, refl, sym, subst, ◌∙◌, ap, false, ==_self, ne→==-false, invalid,
}
use fast2016_ftl.Params.{sectors_per_chunk}
use fast2016_ftl.Log.{LogCtrlBlock, put_ctrl}
use fast2016_ftl.World.{World, hot_ctrl, cold_ctrl}
use fast2016_ftl.Log.Chunk.{
  ChunkLocation, dram_hot_log, dram_cold_log, chunk_to_bank, chunk_to_sect_offset,
  without_cold_flag,
}
use fast2016_ftl.Write.{LogSide, hot_log, cold_log, ctrl, Writer}
use fast2016_ftl.Write.Old.{drop_old_idx}
use fast2016_ftl.Write.Old.Recorded.{IsApart, SameCell, SameFlag, IsRecorded}
use fast2016_ftl.Write.Old.Dropped.{dropped, same_ptr}

-- The place in a log buffer that an address stands for: side, bank and chunk.
pub data IsOld : ChunkLocation → ℕ → LogSide → ℕ → ℕ → Type 0 where
  in_hot :
      {a : ℕ}
      → IsOld dram_hot_log a hot_log (chunk_to_bank a) (chunk_to_sect_offset a / sectors_per_chunk)
  in_cold :
      {a : ℕ}
      → IsOld dram_cold_log a cold_log
          (chunk_to_bank (without_cold_flag a))
          (chunk_to_sect_offset (without_cold_flag a) / sectors_per_chunk)

-- The new chunk is recorded at its place, the old place holds no valid chunk any more, and its buffer
-- is marked so; the rest is as before.
pub record IsLogged (Old : LogSide → ℕ → ℕ → Type 0) (q : Writer) (w w' : World) : Type 0 where
  pub lpn : (ctrl q.side w' q.bank).data_lpn (ctrl q.side w q.bank).chunk_ptr ≡ q.lpn
  pub idx :
      (ctrl q.side w' q.bank).chunk_idx (ctrl q.side w q.bank).chunk_ptr
      ≡ q.sect_offset / sectors_per_chunk
  pub lost :
      (s : LogSide) (b x : ℕ) → Old s b x → IsApart q w s b x → (ctrl s w' b).data_lpn x ≡ invalid
  pub marked :
      (s : LogSide) (b x : ℕ) → Old s b x → (ctrl s w' b).all_chunks_in_log_are_valid ≡ false
  pub cells : (s : LogSide) (b x : ℕ) → ¬ Old s b x → IsApart q w s b x → SameCell s b x w w'
  pub flags : (s : LogSide) (b : ℕ) → ((x : ℕ) → ¬ Old s b x) → SameFlag s b w w'

pub IsRecorded-IsLogged :
    (Old : LogSide → ℕ → ℕ → Type 0) (q : Writer) (w w' : World)
    → ((s : LogSide) (b x : ℕ) → ¬ Old s b x)
    → IsRecorded q w w'
    → IsLogged Old q w w'
IsRecorded-IsLogged Old q w w' none_old r = record {
  lpn = r.lpn;
  idx = r.idx;
  lost = λ s b x old apart. absurd (none_old s b x old);
  marked = λ s b x old. absurd (none_old s b x old);
  cells = λ s b x ne apart. r.cells s b x apart;
  flags = λ s b ne. r.flags s b;
}

put_drop-cell :
    (ctrls : ℕ → LogCtrlBlock) (b2 o b x : ℕ)
    → (b ≢ b2) ⊎ (x ≢ o)
    → (let c = put_ctrl ctrls b2 (drop_old_idx o (ctrls b2)) b in
        (c.data_lpn x ≡ (ctrls b).data_lpn x) × (c.chunk_idx x ≡ (ctrls b).chunk_idx x))
put_drop-cell ctrls b2 o b x apart = elim (ℕ_discrete b b2) [
  | no ne ↦ rw (ne→==-false b b2 ne) (refl, refl)
  | yes e ↦ elim apart [
    | inl ne ↦ absurd (ne e)
    | inr ne ↦ rw e (rw (==_self b2) (rw (ne→==-false x o ne) (refl, refl)))
  ]
]

put_drop-flag :
    (ctrls : ℕ → LogCtrlBlock) (b2 o b : ℕ)
    → b ≢ b2
    → (put_ctrl ctrls b2 (drop_old_idx o (ctrls b2)) b).all_chunks_in_log_are_valid
      ≡ (ctrls b).all_chunks_in_log_are_valid
put_drop-flag ctrls b2 o b ne = rw (ne→==-false b b2 ne) refl

module _ (b2 o : ℕ) where
  dropped-cell :
      (s2 s : LogSide) (b x : ℕ) (w : World)
      → (s ≢ s2) ⊎ ((b ≢ b2) ⊎ (x ≢ o))
      → SameCell s b x w (dropped s2 b2 o w)
  dropped-cell hot_log hot_log b x w (inl ne) = absurd (ne refl)
  dropped-cell hot_log hot_log b x w (inr ne) = put_drop-cell (hot_ctrl w) b2 o b x ne
  dropped-cell hot_log cold_log b x w ne = (refl, refl)
  dropped-cell cold_log hot_log b x w ne = (refl, refl)
  dropped-cell cold_log cold_log b x w (inl ne) = absurd (ne refl)
  dropped-cell cold_log cold_log b x w (inr ne) = put_drop-cell (cold_ctrl w) b2 o b x ne

  dropped-flag :
      (s2 s : LogSide) (b : ℕ) (w : World)
      → (s ≢ s2) ⊎ (b ≢ b2)
      → SameFlag s b w (dropped s2 b2 o w)
  dropped-flag hot_log hot_log b w (inl ne) = absurd (ne refl)
  dropped-flag hot_log hot_log b w (inr ne) = put_drop-flag (hot_ctrl w) b2 o b ne
  dropped-flag hot_log cold_log b w ne = refl
  dropped-flag cold_log hot_log b w ne = refl
  dropped-flag cold_log cold_log b w (inl ne) = absurd (ne refl)
  dropped-flag cold_log cold_log b w (inr ne) = put_drop-flag (cold_ctrl w) b2 o b ne

  dropped-lost :
      (s2 : LogSide) (w : World)
      → (let c = ctrl s2 (dropped s2 b2 o w) b2 in
          (c.data_lpn o ≡ invalid) × (c.all_chunks_in_log_are_valid ≡ false))
  dropped-lost hot_log w = rw (==_self b2) (rw (==_self o) (refl, refl))
  dropped-lost cold_log w = rw (==_self b2) (rw (==_self o) (refl, refl))

same_side : (s s2 : LogSide) → (s ≡ s2) ⊎ (s ≢ s2)
same_side hot_log hot_log = inl refl
same_side hot_log cold_log = inr λ e. cc e
same_side cold_log hot_log = inr λ e. cc e
same_side cold_log cold_log = inl refl

differ :
    (s s2 : LogSide) (b b2 x o : ℕ)
    → ¬ ((s ≡ s2) × (b ≡ b2) × (x ≡ o))
    → (s ≢ s2) ⊎ ((b ≢ b2) ⊎ (x ≢ o))
differ s s2 b b2 x o no_match = elim (same_side s s2) [
  | inr ne ↦ inl ne
  | inl es ↦ elim (ℕ_discrete b b2) [
    | no ne ↦ inr (inl ne)
    | yes eb ↦ elim (ℕ_discrete x o) [
      | no ne ↦ inr (inr ne)
      | yes ex ↦ absurd (no_match (es, eb, ex))
    ]
  ]
]

module _ (b2 o : ℕ) (Old : LogSide → ℕ → ℕ → Type 0) (s2 : LogSide) (q : Writer) (w w' : World)
    (only : (s : LogSide) (b x : ℕ) → Old s b x → (s ≡ s2) × (b ≡ b2) × (x ≡ o)) (has : Old s2 b2 o)
    (r : IsRecorded q (dropped s2 b2 o w) w') where
  ptr : (ctrl q.side (dropped s2 b2 o w) q.bank).chunk_ptr ≡ (ctrl q.side w q.bank).chunk_ptr
  ptr = same_ptr o s2 q.side b2 q.bank w

  still-IsApart : (s : LogSide) (b x : ℕ) → IsApart q w s b x → IsApart q (dropped s2 b2 o w) s b x
  still-IsApart s b x (inl ne) = inl ne
  still-IsApart s b x (inr (inl ne)) = inr (inl ne)
  still-IsApart s b x (inr (inr ne)) = inr (inr λ e. ne (e ∙ ptr))

  was_lost :
      (s : LogSide) (b x : ℕ)
      → Old s b x
      → (let c = ctrl s (dropped s2 b2 o w) b in
          (c.data_lpn x ≡ invalid) × (c.all_chunks_in_log_are_valid ≡ false))
  was_lost s b x old = let e = only s b x old in rw (e.0, e.1, e.2) (dropped-lost b2 o s2 w)

  not_same : (s : LogSide) (b x : ℕ) → ¬ Old s b x → ¬ ((s ≡ s2) × (b ≡ b2) × (x ≡ o))
  not_same s b x ne (es, eb, ex) = ne (
      subst (λ s. Old s b x) (sym es)
        (subst (λ b. Old s2 b x) (sym eb) (subst (λ x. Old s2 b2 x) (sym ex) has)))

  elsewhere : (s : LogSide) (b : ℕ) → ¬ Old s b o → (s ≢ s2) ⊎ (b ≢ b2)
  elsewhere s b ne = elim (differ s s2 b b2 o o (not_same s b o ne)) [
    | inl a ↦ inl a
    | inr (inl a) ↦ inr a
    | inr (inr a) ↦ absurd (a refl)
  ]

  -- From the world in which the old chunk is dropped to the one before it.
  pub dropped-IsLogged : IsLogged Old q w w'
  dropped-IsLogged = record {
    lpn = ap (ctrl q.side w' q.bank).data_lpn (sym ptr) ∙ r.lpn;
    idx = ap (ctrl q.side w' q.bank).chunk_idx (sym ptr) ∙ r.idx;
    lost =
        λ s b x old apart. (r.cells s b x (still-IsApart s b x apart)).0 ∙ (was_lost s b x old).0;
    marked = λ s b x old. r.flags s b ∙ (was_lost s b x old).1;
    cells = λ s b x ne apart.
        let c = r.cells s b x (still-IsApart s b x apart) in
        let d = dropped-cell b2 o s2 s b x w (differ s s2 b b2 x o (not_same s b x ne)) in
        (c.0 ∙ d.0, c.1 ∙ d.1);
    flags = λ s b ne. r.flags s b ∙ dropped-flag b2 o s2 s b w (elsewhere s b (ne o));
  }
