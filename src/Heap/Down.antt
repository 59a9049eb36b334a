-- ===== src/Heap/Down.antt =====
-- `bubbleDown` restores the order when only the edges below one element may be wrong.
use fast2016_ftl.Common.{
  ℕ, zero, suc, ◌+◌, ◌*◌, ◌/◌, ◌%◌, ◌≤◌, ◌<◌, ◌≡◌, ◌≢◌, ◌⊎◌, ◌&&◌, arith, ltb, leb, Ends, ends,
  Ends-weaken, Ends-if,
}
use fast2016_ftl.Dram.{Dram}
use fast2016_ftl.Heap.{HeapData, bubble_down_loop, bubble_down}
use fast2016_ftl.Heap.Cells.{Fits, IsPos}
use fast2016_ftl.Heap.View.{Indexed, key, IsHeapTo}
use fast2016_ftl.Heap.Swap.{swapped, el-swap, Indexed-swap}
use fast2016_ftl.Heap.Kept.{Kept, Kept-refl, Kept-trans, Kept-swap}

-- Only the edges below `i` may be out of order, and its children do not lie below its father.
pub record DownInv (d : HeapData) (bank n : ℕ) (m : Dram) (i : ℕ) : Type 0 where
  pub edges : (c : ℕ) → 1 < c → c ≤ n → c / 2 ≢ i → key d bank m (c / 2) ≤ key d bank m c
  pub bridged : (c : ℕ) → 1 < c → c ≤ n → c / 2 ≡ i → 1 < i → key d bank m (i / 2) ≤ key d bank m c

child_cases : (c f : ℕ) → c / 2 ≡ f → (c ≡ f * 2) ⊎ (c ≡ f * 2 + 1)
child_cases c f h = omega arith

-- The elements and blocks are kept, and the first `n` elements are in order.
abbrev pub Restored : HeapData → ℕ → ℕ → Dram → Dram → Type 0
Restored d bank n m m' = Kept d bank n m m' × IsHeapTo d bank n m'

module _ (d : HeapData) (bank : ℕ) (m : Dram) (f c : ℕ) ⦃fits : Fits d bank⦄ (ix : Indexed d bank m)
    (hf : IsPos d f) (hc : IsPos d c) where
  DownInv-swap :
      (n : ℕ)
      → n ≤ d.log_blks_per_bank
      → DownInv d bank n m f
      → c / 2 ≡ f
      → c ≤ n
      → key d bank m c < key d bank m f
      → ((c' : ℕ) → 1 < c' → c' ≤ n → c' / 2 ≡ f → key d bank m c ≤ key d bank m c')
      → DownInv d bank n (swapped d bank f c m) c
  DownInv-swap n hn inv half cn below least =
      let at = el-swap d bank m f c ix hf hc in
      record {
        edges = λ c' p q r.
            ground
              (arith, at c', at (c' / 2), inv.edges c', inv.bridged c', inv.bridged c, least c');
        bridged = λ c' p q r s. ground (arith, at c', at (c / 2), inv.edges c');
      }

module _ (d : HeapData) (bank : ℕ) ⦃fits : Fits d bank⦄
    (small : d.n_el_in_heap bank ≤ d.log_blks_per_bank) where
  abbrev n : ℕ
  n = d.n_el_in_heap bank

  bubble_down_loop-Restored :
      (k f : ℕ) (m : Dram)
      → 0 < k
      → n < k + f
      → IsPos d f
      → Indexed d bank m
      → DownInv d bank n m f
      → Ends (Restored d bank n m) (bubble_down_loop k d bank f m)
  unfolding bubble_down_loop
  bubble_down_loop-Restored zero f m more fuel hf ix inv = absurd (omega arith)
  bubble_down_loop-Restored (suc k) f m more fuel hf ix inv =
      rw (child1, child2)
        (Ends-if (ltb n (f * 2)) (λ out. ends (Kept-refl ix, λ c p q. ground (arith, inv.edges c)))
          λ in1.
            Ends-if (ltb n (f * 2 + 1))
              (λ out.
                Ends-if (leb (key d bank m f) (key d bank m (f * 2)))
                  (λ ok. ends (Kept-refl ix, λ c p q. ground (arith, inv.edges c)))
                  λ gt.
                    sink (bubble_down_loop-Restored k) (f * 2) (ground arith) (ground arith)
                      (ground arith) (λ c' p q r. ground (arith, child_cases c' f r)))
              λ in2.
                Ends-if
                  (leb (key d bank m f) (key d bank m (f * 2))
                    && leb (key d bank m f) (key d bank m (f * 2 + 1)))
                  (λ ok. ends (Kept-refl ix, λ c p q. ground (arith, inv.edges c)))
                  λ gt.
                    Ends-if (ltb (key d bank m (f * 2)) (key d bank m (f * 2 + 1)))
                      (λ lt.
                        sink (bubble_down_loop-Restored k) (f * 2) (ground arith) (ground arith)
                          (ground arith) (λ c' p q r. ground (arith, child_cases c' f r)))
                      λ ge.
                        sink (bubble_down_loop-Restored k) (f * 2 + 1) (ground arith) (ground arith)
                          (ground arith) (λ c' p q r. ground (arith, child_cases c' f r)))
    where
      child1 : f * 2 % 65536 ≡ f * 2
      child1 = omega arith

      child2 : (f * 2 + 1) % 65536 ≡ f * 2 + 1
      child2 = omega arith

      sink :
          ((f' : ℕ) (m' : Dram)
            → 0 < k
            → n < k + f'
            → IsPos d f'
            → Indexed d bank m'
            → DownInv d bank n m' f'
            → Ends (Restored d bank n m') (bubble_down_loop k d bank f' m'))
          → (c : ℕ) → c / 2 ≡ f
          → c ≤ n
          → key d bank m c < key d bank m f
          → ((c' : ℕ) → 1 < c' → c' ≤ n → c' / 2 ≡ f → key d bank m c ≤ key d bank m c')
          → Ends (Restored d bank n m) (bubble_down_loop k d bank c (swapped d bank f c m))
      sink ih c half cn below least =
          let hc : IsPos d c = omega arith in
          Ends-weaken
            (ih c (swapped d bank f c m) (omega arith) (omega arith) hc
              (Indexed-swap d bank m f c ix hf hc)
              (DownInv-swap d bank m f c ix hf hc n small inv half cn below least))
            λ m' (kept, order).
              (Kept-trans (Kept-swap d bank n m f c ix hf hc (omega arith) cn) kept, order)

  -- `bubbleDown` ends, and orders a heap in which only the edges below `pos` may be wrong, and in
  -- which no child of the element at `pos` lies below its father; the elements of the heap and those
  -- behind it are kept.
  pub bubble_down-Restored :
      (pos : ℕ) (m : Dram)
      → IsPos d pos
      → Indexed d bank m
      → DownInv d bank n m pos
      → Ends (Restored d bank n m) (bubble_down d bank pos m)
  unfolding bubble_down
  bubble_down-Restored pos m hp ix inv =
      let same : pos % 65536 ≡ pos = omega arith in
      rw same (bubble_down_loop-Restored (suc n) pos m (omega arith) (omega arith) hp ix inv)
