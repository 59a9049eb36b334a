-- ===== src/Heap/DecrementAll.antt =====
-- `decrementValidChunksAllByN`: every block of the heap loses the same number of valid chunks.
use fast2016_ftl.Common.{
  ℕ, zero, suc, ◌+◌, ◌-◌, ◌/◌, ◌≤◌, ◌<◌, ◌≡◌, refl, ◌∙◌, ◌&&◌, arith, leb, ltb, if◌then◌else◌,
}
use fast2016_ftl.Dram.{Dram, read_dram_32}
use fast2016_ftl.Heap.{
  HeapEl, HeapData, get_heap_el, get_pos, set_heap_el, decrement_all_loop,
  decrement_valid_chunks_all_by_n,
}
use fast2016_ftl.Heap.Cells.{
  Fits, IsPos, Outside, get_heap_el-set_heap_el, get_pos-set_heap_el, read-set_heap_el,
  get_heap_el-Word,
}
use fast2016_ftl.Heap.View.{count, in_heap, is_within, key, IsValid}

-- The elements from `pos` up to `last` have lost `n`.
record Lowered (d : HeapData) (bank n pos last : ℕ) (m m' : Dram) : Type 0 where
  els :
      (q : ℕ)
      → IsPos d q
      → get_heap_el d bank q m' ≡ (
          if leb pos q && leb q last
          then record (get_heap_el d bank q m) { value = key d bank m q - n }
          else get_heap_el d bank q m)
  positions : (l : ℕ) → l < d.log_blks_per_bank → get_pos d bank l m' ≡ get_pos d bank l m
  elsewhere : (a : ℕ) → Outside d bank a → read_dram_32 a m' ≡ read_dram_32 a m

module _ (d : HeapData) (bank n last : ℕ) ⦃fits : Fits d bank⦄
    (small : last ≤ d.log_blks_per_bank) where
  decrement_all_loop-Lowered :
      (k pos : ℕ) (m : Dram)
      → 1 ≤ pos
      → k + pos ≡ suc last
      → Lowered d bank n pos last m (decrement_all_loop k d bank n pos m)
  unfolding decrement_all_loop
  decrement_all_loop-Lowered zero pos m low all = record {
    els = λ q hq. ground arith;
    positions = λ l hl. refl;
    elsewhere = λ a out. refl;
  }
  decrement_all_loop-Lowered (suc k) pos m low all =
      let el = get_heap_el d bank pos m in
      let e : HeapEl = record el { value = if ltb n el.value then el.value - n else 0 } in
      let m1 = set_heap_el d bank pos e m in
      let here : IsPos d pos = omega arith in
      let rest = decrement_all_loop-Lowered k (suc pos) m1 (omega arith) (omega arith) in
      record {
        els = λ q hq. ground (
          arith,
          rest.els q hq,
          get_heap_el-set_heap_el d bank pos q e m here hq,
          get_heap_el-Word d bank pos m,
        );
        positions = λ l hl. rest.positions l hl ∙ get_pos-set_heap_el d bank l pos e m here hl;
        elsewhere = λ a out. rest.elsewhere a out ∙ read-set_heap_el d bank a pos e m here out;
      }

-- Every block of the heap has `n` less valid chunks, but not below 0; all else is as before.
pub record AllLowered (d : HeapData) (bank n : ℕ) (m m' : Dram) : Type 0 where
  pub counts :
      (l : ℕ)
      → l < d.log_blks_per_bank
      → count d bank l m' ≡ (if in_heap d bank l m then count d bank l m - n else count d bank l m)
  pub members : (l : ℕ) → l < d.log_blks_per_bank → in_heap d bank l m' ≡ in_heap d bank l m
  pub elsewhere : (a : ℕ) → Outside d bank a → read_dram_32 a m' ≡ read_dram_32 a m

module _ (d : HeapData) (bank n : ℕ) (m m' : Dram) (valid : IsValid d bank m)
    (low : Lowered d bank n 1 (d.n_el_in_heap bank) m m') where
  lbn-lowered : (q : ℕ) → IsPos d q → (get_heap_el d bank q m').lbn ≡ (get_heap_el d bank q m).lbn
  lbn-lowered q hq = ground (arith, low.els q hq)

  IsValid-lowered : IsValid d bank m'
  IsValid-lowered = record {
    bounded = valid.bounded;
    indexed =
        let ix = valid.indexed in
        record {
          lbn_lt = λ q hq. rw (lbn-lowered q hq) (ix.lbn_lt q hq);
          pos_lbn =
              λ q hq. rw (lbn-lowered q hq, low.positions _ (ix.lbn_lt q hq)) (ix.pos_lbn q hq);
          pos_IsPos = λ l hl. rw (low.positions l hl) (ix.pos_IsPos l hl);
          lbn_pos =
              λ l hl. rw (low.positions l hl, lbn-lowered _ (ix.pos_IsPos l hl)) (ix.lbn_pos l hl);
        };
    ordered = λ c p q. ground (arith, low.els c, low.els (c / 2), valid.ordered c, valid.bounded);
  }

  AllLowered-lowered : AllLowered d bank n m m'
  unfolding count is_within
  AllLowered-lowered = record {
    counts = λ l hl.
        let hp = valid.indexed.pos_IsPos l hl in
        rw (low.positions l hl, count) (ground (arith, low.els (get_pos d bank l m) hp));
    members = λ l hl. rw (low.positions l hl);
    elsewhere = low.elsewhere;
  }

-- `decrementValidChunksAllByN` lowers the number of every block in the heap by `n`, down to 0 at
-- most; it changes no other number, no membership and nothing elsewhere, and keeps the invariant.
pub decrement_all-AllLowered :
    (d : HeapData) (bank n : ℕ) (m : Dram) ⦃fits : Fits d bank⦄
    → IsValid d bank m
    → IsValid d bank (decrement_valid_chunks_all_by_n d bank n m)
      × AllLowered d bank n m (decrement_valid_chunks_all_by_n d bank n m)
unfolding decrement_valid_chunks_all_by_n
decrement_all-AllLowered d bank n m valid =
    let k = d.n_el_in_heap bank in
    let low =
      decrement_all_loop-Lowered d bank n k valid.bounded k 1 m (omega arith) (omega arith) in
    (IsValid-lowered d bank n m _ valid low, AllLowered-lowered d bank n m _ valid low)
