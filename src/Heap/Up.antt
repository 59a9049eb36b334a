-- ===== src/Heap/Up.antt =====
-- `bubbleUp` restores the order when only the edge above one element may be wrong.
use fast2016_ftl.Common.{
  ℕ, zero, suc, ◌/◌, ◌%◌, ◌≤◌, ◌<◌, ◌≡◌, ◌≢◌, some, arith, ltb, ◌==◌, Ends, ends, Ends-weaken,
  Ends-if,
}
use fast2016_ftl.Dram.{Dram}
use fast2016_ftl.Heap.{HeapData, bubble_up_loop, bubble_up}
use fast2016_ftl.Heap.Cells.{Fits, IsPos}
use fast2016_ftl.Heap.View.{Indexed, key}
use fast2016_ftl.Heap.Swap.{swapped, el-swap}
use fast2016_ftl.Heap.Kept.{Kept, Kept-refl, Kept-trans, Kept-swap}
use fast2016_ftl.Heap.Down.{Restored}

-- Only the edge above `i` may be out of order, and its children do not lie below its father.
pub record UpInv (d : HeapData) (bank n : ℕ) (m : Dram) (i : ℕ) : Type 0 where
  pub edges : (c : ℕ) → 1 < c → c ≤ n → c ≢ i → key d bank m (c / 2) ≤ key d bank m c
  pub bridged : (c : ℕ) → 1 < c → c ≤ n → c / 2 ≡ i → 1 < i → key d bank m (i / 2) ≤ key d bank m c

module _ (d : HeapData) (bank : ℕ) ⦃fits : Fits d bank⦄
    (small : d.n_el_in_heap bank ≤ d.log_blks_per_bank) where
  abbrev n : ℕ
  n = d.n_el_in_heap bank

  module _ (m : Dram) (i : ℕ) (ix : Indexed d bank m) (hi : IsPos d i) (hf : IsPos d (i / 2))
      (ni : i ≤ n) where
    UpInv-swap :
        UpInv d bank n m i
        → key d bank m i < key d bank m (i / 2)
        → UpInv d bank n (swapped d bank i (i / 2) m) (i / 2)
    UpInv-swap inv below =
        let at = el-swap d bank m i (i / 2) ix hi hf in
        record {
          edges = λ c p q r.
              ground (arith, at c, at (c / 2), inv.edges c, inv.edges (i / 2), inv.bridged c);
          bridged =
              λ c p q r s. ground (arith, at c, at (i / 2 / 2), inv.edges c, inv.edges (i / 2));
        }

    Kept-swap-father : Kept d bank n m (swapped d bank i (i / 2) m)
    Kept-swap-father = Kept-swap d bank n m i (i / 2) ix hi hf ni (omega arith)

  bubble_up_loop-Restored :
      (k i : ℕ) (m : Dram)
      → i < k
      → 1 < i
      → i ≤ n
      → Indexed d bank m
      → UpInv d bank n m i
      → Ends (Restored d bank n m) (bubble_up_loop k d bank i m)
  unfolding bubble_up_loop
  bubble_up_loop-Restored zero i m fuel low high ix inv = absurd (omega arith)
  bubble_up_loop-Restored (suc k) i m fuel low high ix inv =
      let hi : IsPos d i = omega arith in
      let hf : IsPos d (i / 2) = omega arith in
      Ends-if (ltb (key d bank m i) (key d bank m (i / 2)))
        (λ below.
          let inv' = UpInv-swap m i ix hi hf high inv (ground arith) in
          let kept = Kept-swap-father m i ix hi hf high in
          Ends-if (i / 2 == 1) (λ root. ends (kept, λ c p q. inv'.edges c p q (ground arith)))
            λ deeper.
              Ends-weaken
                (bubble_up_loop-Restored k (i / 2) (swapped d bank i (i / 2) m) (omega arith)
                  (ground arith) (omega arith) kept.indexed inv')
                λ m' (kept', order). (Kept-trans kept kept', order))
        λ settled. ends (Kept-refl ix, λ c p q. ground (arith, inv.edges c))

  -- `bubbleUp` ends, and orders a heap in which only the edge above `pos` may be wrong, and in which
  -- no child of the element at `pos` lies below its father; the elements of the heap and those behind
  -- it are kept.
  pub bubble_up-Restored :
      (pos : ℕ) (m : Dram)
      → IsPos d pos
      → pos ≤ n
      → Indexed d bank m
      → UpInv d bank n m pos
      → Ends (Restored d bank n m) (bubble_up d bank pos m)
  unfolding bubble_up
  bubble_up-Restored pos m hp high ix inv =
      let same : pos % 65536 ≡ pos = omega arith in
      rw same (
        Ends-if (pos == 1) (λ root. ends (Kept-refl ix, λ c p q. inv.edges c p q (ground arith)))
          λ deeper.
            bubble_up_loop-Restored (suc pos) pos m (omega arith) (ground arith) high ix inv)

-- An element that is not below its father stays, whatever the rest of the heap is.
pub bubble_up-settled :
    (d : HeapData) (bank pos : ℕ) (m : Dram)
    → 0 < pos
    → pos < 65536
    → (1 < pos → key d bank m (pos / 2) ≤ key d bank m pos)
    → bubble_up d bank pos m ≡ some m
unfolding bubble_up bubble_up_loop
bubble_up-settled d bank pos m above word settled =
    let same : pos % 65536 ≡ pos = omega arith in rw same (ground (arith, settled))
