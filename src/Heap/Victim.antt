-- ===== src/Heap/Victim.antt =====
-- `getVictim` and `getVictimValidPagesNumber`: the block at the root.
use fast2016_ftl.Common.{
  ℕ, zero, suc, ◌+◌, ◌/◌, ◌≤◌, ◌<◌, ◌≡◌, refl, true, arith, leb→le, u32, invalid, lt→ltb, ◌↔◌,
}
use fast2016_ftl.Dram.{Dram}
use fast2016_ftl.Heap.{HeapData, get_heap_el, get_pos, get_victim, get_victim_valid_pages_number}
use fast2016_ftl.Heap.Cells.{Fits, IsPos, get_heap_el-Word}
use fast2016_ftl.Heap.View.{count, in_heap, is_within, key, IsHeapTo, IsValid}

-- A block of the heap with the least number of valid chunks.
pub record IsLeast (d : HeapData) (bank : ℕ) (m : Dram) (l : ℕ) : Type 0 where
  pub blk : l < d.log_blks_per_bank
  pub member : in_heap d bank l m ≡ true
  pub least :
      (l' : ℕ)
      → l' < d.log_blks_per_bank
      → in_heap d bank l' m ≡ true
      → count d bank l m ≤ count d bank l' m

root_least :
    (k : ℕ) (d : HeapData) (bank n : ℕ) (m : Dram) (p : ℕ)
    → IsHeapTo d bank n m
    → p < k
    → 1 ≤ p
    → p ≤ n
    → key d bank m 1 ≤ key d bank m p
root_least zero d bank n m p order more low high = absurd (omega arith)
root_least (suc k) d bank n m p order more low high =
    ground (arith, order p, root_least k d bank n m (p / 2) order)

module _ (d : HeapData) (bank : ℕ) (m : Dram) ⦃fits : Fits d bank⦄ (valid : IsValid d bank m) where
  abbrev victim : ℕ
  victim = (get_heap_el d bank 1 m).lbn

  module _ (filled : 0 < d.n_el_in_heap bank) where
    root : IsPos d 1
    root = omega (arith, valid.bounded)

    count-victim : count d bank victim m ≡ key d bank m 1
    unfolding count
    count-victim = rw (valid.indexed.pos_lbn 1 root, count)

    count-key : (l : ℕ) → count d bank l m ≡ key d bank m (get_pos d bank l m)
    unfolding count
    count-key l = refl

    victim-IsLeast : IsLeast d bank m victim
    unfolding is_within
    victim-IsLeast = record {
      blk = valid.indexed.lbn_lt 1 root;
      member = rw (valid.indexed.pos_lbn 1 root) (ground arith);
      least = λ l' hl' inside.
          let hp = valid.indexed.pos_IsPos l' hl' in
          omega (
            arith,
            count-victim,
            count-key l',
            root_least (suc (get_pos d bank l' m)) d bank (d.n_el_in_heap bank) m
                (get_pos d bank l' m) valid.ordered (omega arith) hp.0 (leb→le _ _ inside),
          );
    }

    -- On a heap that is not empty `getVictim` returns a block of the heap with the least number of
    -- valid chunks, as its number on the bank, and `getVictimValidPagesNumber` returns its number
    -- of valid chunks.
    pub get_victim-IsLeast :
        (l : ℕ) × IsLeast d bank m l
        × (get_victim d bank m ≡ u32 (l + d.first_lbn))
        × (get_victim_valid_pages_number d bank m ≡ count d bank l m)
    unfolding get_victim get_victim_valid_pages_number
    get_victim-IsLeast = (victim, victim-IsLeast, refl, rw (lt→ltb _ _ filled, count-victim))

  -- `getVictimValidPagesNumber` returns INVALID exactly on an empty heap.
  pub get_victim_valid_pages_number-invalid :
      (get_victim_valid_pages_number d bank m ≡ invalid) ↔ (d.n_el_in_heap bank ≡ 0)
  unfolding get_victim_valid_pages_number
  get_victim_valid_pages_number-invalid =
      (λ e. ground (arith, get_heap_el-Word d bank 1 m), λ e. rw e)
