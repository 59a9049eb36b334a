-- ===== src/Heap/Underflow.antt =====
-- `decrementValidChunks` on a block that has no valid chunks left.
use fast2016_ftl.Common.{ℕ, ◌/◌, ◌≤◌, ◌<◌, ◌≡◌, arith, ◌==◌, if◌then◌else◌, Ends, ends, some}
use fast2016_ftl.Dram.{Dram}
use fast2016_ftl.Heap.{HeapData, get_pos, log_lbn_of, decrement_valid_chunks}
use fast2016_ftl.Heap.Cells.{Fits, IsPos, get_heap_el-Word}
use fast2016_ftl.Heap.View.{count, key, IsHeapTo, IsValid}
use fast2016_ftl.Heap.Up.{bubble_up-settled}
use fast2016_ftl.Heap.Change.{assigned, key-assigned, get_pos-assigned}

module _ (d : HeapData) (bank real : ℕ) (m : Dram) ⦃fits : Fits d bank⦄ (valid : IsValid d bank m)
    (hl : log_lbn_of d real < d.log_blks_per_bank) where
  abbrev p : ℕ
  p = get_pos d bank (log_lbn_of d real) m

  abbrev m1 : Dram
  m1 = assigned d bank p 65535 m

  at : (q : ℕ) → IsPos d q → key d bank m1 q ≡ (if p == q then 65535 else key d bank m q)
  at = key-assigned d bank m p 65535 valid.indexed (valid.indexed.pos_IsPos _ hl) (omega arith)

  decrement-m1 :
      count d bank (log_lbn_of d real) m ≡ 0 → decrement_valid_chunks d bank real m ≡ some m1
  unfolding decrement_valid_chunks count
  decrement-m1 none_left =
      let hp = valid.indexed.pos_IsPos (log_lbn_of d real) hl in
      let settled = bubble_up-settled d bank p m1 (omega arith) (omega arith) λ low.
        rw (at p hp, at (p / 2) (omega arith))
          (ground (arith, get_heap_el-Word d bank (p / 2) m)) in
      rw none_left (ground (arith, settled))

  -- The test for 0 stands under OPTION_DEBUG_HEAP only. Of a block with no valid chunks, whose element
  -- has a left or a right child in the heap with a number below 65535, `decrementValidChunks` makes one
  -- with 65535, and the heap is out of order afterwards.
  pub decrement_valid_chunks-underflow :
      (c : ℕ)
      → count d bank (log_lbn_of d real) m ≡ 0
      → c / 2 ≡ p
      → c ≤ d.n_el_in_heap bank
      → key d bank m c < 65535
      → Ends
          (λ m'.
            (count d bank (log_lbn_of d real) m' ≡ 65535)
            × ¬ IsHeapTo d bank (d.n_el_in_heap bank) m')
          (decrement_valid_chunks d bank real m)
  unfolding count
  decrement_valid_chunks-underflow c none_left child within less =
      let hp = valid.indexed.pos_IsPos (log_lbn_of d real) hl in
      rw (decrement-m1 none_left) (
        ends (
          rw (get_pos-assigned d bank m p 65535 valid.indexed hp (omega arith) _ hl, count)
              (ground (arith, at p hp)),
          λ (order : IsHeapTo d bank (d.n_el_in_heap bank) m1).
              let hc : IsPos d c = omega (arith, child, hp, within, valid.bounded) in
              let low : 1 < c = omega (arith, child, hp) in
              ground (arith, child, order c low within, at p hp, at c hc, less),
        ))
