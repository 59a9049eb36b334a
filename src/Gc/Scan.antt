-- ===== src/Gc/Scan.antt =====
-- The loops over the chunks of a page in `readPage`: which chunks they find valid.
use fast2016_ftl.Common.{
  ℕ, zero, suc, ◌+◌, ◌≤◌, ◌<◌, ◌≡◌, refl, Bool, true, false, not, ◌&&◌, arith, ltb, ◌==◌,
  if◌then◌else◌, u32, invalid, Bool-cases, inl, inr,
}
use fast2016_ftl.Params.{chunks_per_page}
use fast2016_ftl.Dram.{Dram}
use fast2016_ftl.Log.Chunk.{without_cold_flag}
use fast2016_ftl.Flash.{Hardware}
use fast2016_ftl.World.{GcBank}
use fast2016_ftl.Gc.{scan_chunks, take_chunk, map_search}

module _ (hw : Hardware) (recycled : Bool) (lpns : ℕ → ℕ) (base : ℕ) (m : Dram) where
  -- The address in the log of chunk `c` of the page.
  abbrev pub chunk_at : ℕ → ℕ
  chunk_at c = u32 (base + c)

  -- The place of the chunk among the entries of its data page.
  abbrev pub place : ℕ → ℕ
  place c = map_search hw (lpns c) (chunk_at c) m

  abbrev pub data_lpn : ℕ → ℕ
  data_lpn c = if recycled then without_cold_flag (lpns c) else lpns c

  -- The chunk belongs to a data page, and the map still leads to it.
  unfoldable pub is_hit : ℕ → Bool
  is_hit c = not (lpns c == invalid) && ltb (place c) chunks_per_page

  -- The number of hits among `k` chunks from `c` on.
  unfoldable pub hits : ℕ → ℕ → ℕ
  hits zero c = 0
  hits (suc k) c = if is_hit c then suc (hits k (suc c)) else hits k (suc c)

  pub hits-le : (k c : ℕ) → hits k c ≤ k
  unfolding hits
  hits-le zero c = omega arith
  hits-le (suc k) c = ground (arith, hits-le k (suc c))

  -- What the loop has done after `k` chunks from `c` on.
  pub record IsScan (k c : ℕ) (g g' : GcBank) : Type 0 where
    pub before : (x : ℕ) → x < c → g'.valid_chunks x ≡ g.valid_chunks x
    pub valid :
        (x : ℕ)
        → c ≤ x
        → x < c + k
        → g'.valid_chunks x ≡ (if is_hit x then true else g.valid_chunks x)
    pub behind : (x : ℕ) → c + k ≤ x → g'.valid_chunks x ≡ g.valid_chunks x
    pub offset_before : (x : ℕ) → x < c → g'.data_chunk_offsets x ≡ g.data_chunk_offsets x
    pub lpn_before : (x : ℕ) → x < c → g'.data_lpns x ≡ g.data_lpns x
    pub offset : (x : ℕ) → c ≤ x → x < c + k → is_hit x ≡ true → g'.data_chunk_offsets x ≡ place x
    pub lpn : (x : ℕ) → c ≤ x → x < c + k → is_hit x ≡ true → g'.data_lpns x ≡ data_lpn x
    pub in_page : g'.n_valid_chunks_in_page ≡ g.n_valid_chunks_in_page + hits k c
    pub in_blk : g'.n_valid_chunks_in_blk ≡ g.n_valid_chunks_in_blk + hits k c
    pub victim_lbn : g'.victim_lbn ≡ g.victim_lbn
    pub victim_vbn : g'.victim_vbn ≡ g.victim_vbn
    pub page_offset : g'.page_offset ≡ g.page_offset
    pub on_recycled : g'.gc_on_recycled_page ≡ g.gc_on_recycled_page
    pub gc_state : g'.gc_state ≡ g.gc_state

  abbrev step : ℕ → GcBank → GcBank
  step c g =
      if lpns c == invalid
      then g
      else if ltb (place c) chunks_per_page
      then take_chunk c (place c) (data_lpn c) g
      else g

  step-hit :
      (c : ℕ) (g : GcBank) → is_hit c ≡ true → step c g ≡ take_chunk c (place c) (data_lpn c) g
  unfolding is_hit
  step-hit c g h = ground arith

  step-miss : (c : ℕ) (g : GcBank) → is_hit c ≡ false → step c g ≡ g
  unfolding is_hit
  step-miss c g h = ground arith

  abbrev Stepped : ℕ → ℕ → GcBank → GcBank → Type 0
  Stepped k c g g1 = (g' : GcBank) → IsScan k (suc c) g1 g' → IsScan (suc k) c g g'

  -- The two counters do not wrap.
  abbrev pub Room : ℕ → GcBank → Type 0
  Room k g =
      (g.n_valid_chunks_in_page + k < 4294967296) × (g.n_valid_chunks_in_blk + k < 4294967296)

  taken :
      (k c : ℕ) (g : GcBank)
      → Room (suc k) g
      → is_hit c ≡ true
      → Stepped k c g (take_chunk c (place c) (data_lpn c) g)
  unfolding hits
  taken k c g room hit g' r = record {
    before = λ x h. ground (arith, r.before x);
    valid = λ x low high. ground (arith, hit, r.before x, r.valid x);
    behind = λ x h. ground (arith, r.behind x);
    offset_before = λ x h. ground (arith, r.offset_before x);
    lpn_before = λ x h. ground (arith, r.lpn_before x);
    offset = λ x low high h. ground (arith, r.offset_before x, r.offset x);
    lpn = λ x low high h. ground (arith, r.lpn_before x, r.lpn x);
    in_page = rw hit (omega (arith, r.in_page, room));
    in_blk = rw hit (omega (arith, r.in_blk, room));
    victim_lbn = r.victim_lbn;
    victim_vbn = r.victim_vbn;
    page_offset = r.page_offset;
    on_recycled = r.on_recycled;
    gc_state = r.gc_state;
  }

  passed : (k c : ℕ) (g : GcBank) → is_hit c ≡ false → Stepped k c g g
  unfolding hits
  passed k c g miss g' r = record {
    before = λ x h. r.before x (omega arith);
    valid = λ x low high. ground (arith, miss, r.before x, r.valid x);
    behind = λ x h. r.behind x (omega arith);
    offset_before = λ x h. r.offset_before x (omega arith);
    lpn_before = λ x h. r.lpn_before x (omega arith);
    offset = λ x low high h. ground (arith, miss, r.offset x);
    lpn = λ x low high h. ground (arith, miss, r.lpn x);
    in_page = rw miss r.in_page;
    in_blk = rw miss r.in_blk;
    victim_lbn = r.victim_lbn;
    victim_vbn = r.victim_vbn;
    page_offset = r.page_offset;
    on_recycled = r.on_recycled;
    gc_state = r.gc_state;
  }

  pub scan_chunks-IsScan :
      (k c : ℕ) (g : GcBank)
      → Room k g
      → IsScan k c g (scan_chunks k hw recycled lpns c (chunk_at c) m g)
  unfolding scan_chunks hits
  scan_chunks-IsScan zero c g room = record {
    before = λ x h. refl;
    valid = λ x low high. absurd (omega arith);
    behind = λ x h. refl;
    offset_before = λ x h. refl;
    lpn_before = λ x h. refl;
    offset = λ x low high. absurd (omega arith);
    lpn = λ x low high. absurd (omega arith);
    in_page = omega arith;
    in_blk = omega arith;
    victim_lbn = refl;
    victim_vbn = refl;
    page_offset = refl;
    on_recycled = refl;
    gc_state = refl;
  }
  scan_chunks-IsScan (suc k) c g room =
      let next : u32 (chunk_at c + 1) ≡ chunk_at (suc c) = omega arith in
      elim (Bool-cases (is_hit c)) [
        | inl hit ↦
            let g1 = take_chunk c (place c) (data_lpn c) g in
            rw (next, step-hit c g hit)
              (taken k c g room hit (scan_chunks k hw recycled lpns (suc c) (chunk_at (suc c)) m g1)
                (scan_chunks-IsScan k (suc c) g1 (omega (arith, room))))
        | inr miss ↦
            rw (next, step-miss c g miss)
              (passed k c g miss (scan_chunks k hw recycled lpns (suc c) (chunk_at (suc c)) m g)
                (scan_chunks-IsScan k (suc c) g (omega (arith, room))))
      ]
