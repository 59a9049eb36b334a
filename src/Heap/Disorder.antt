-- ===== src/Heap/Disorder.antt =====
-- `resetValidChunksAndRemove` calls `bubbleDown` only: what happens when the last element would
-- have to move up.
use fast2016_ftl.Common.{
  ℕ, zero, suc, ◌+◌, ◌-◌, ◌*◌, ◌/◌, ◌%◌, ◌≤◌, ◌<◌, ◌≡◌, refl, ◌&&◌, some, arith, leb, ltb, Ends,
  ends, Ends-weaken, Ends-if, Ends-bind,
}
use fast2016_ftl.Dram.{Dram}
use fast2016_ftl.Heap.{
  HeapData, get_pos, log_lbn_of, set_n_el, bubble_down_loop, bubble_down,
  reset_valid_chunks_and_remove,
}
use fast2016_ftl.Heap.Cells.{Fits, IsPos}
use fast2016_ftl.Heap.View.{Indexed, key, IsHeapTo, IsValid}
use fast2016_ftl.Heap.Change.{assigned, Indexed-assigned}
use fast2016_ftl.Heap.Resize.{Fits-resized, Indexed-resized, n_el-resized}
use fast2016_ftl.Heap.Remove.{key2}
use fast2016_ftl.Heap.Reset.{reset_and_remove-swapped}
use fast2016_ftl.Heap.Swap.{swapped, el-swap, Indexed-swap}

-- The elements before `f` stay, and the one at `f` does not grow.
record Sunk (d : HeapData) (bank f : ℕ) (m m' : Dram) : Type 0 where
  before : (q : ℕ) → 1 ≤ q → q < f → key d bank m' q ≡ key d bank m q
  at : key d bank m' f ≤ key d bank m f

module _ (d : HeapData) (bank : ℕ) ⦃fits : Fits d bank⦄
    (small : d.n_el_in_heap bank ≤ d.log_blks_per_bank) where
  abbrev n : ℕ
  n = d.n_el_in_heap bank

  Sunk-swap :
      (f c : ℕ) (m m' : Dram)
      → Indexed d bank m
      → IsPos d f
      → IsPos d c
      → f < c
      → key d bank m c ≤ key d bank m f
      → Sunk d bank c (swapped d bank f c m) m'
      → Sunk d bank f m m'
  Sunk-swap f c m m' ix hf hc lt le rest =
      let at = el-swap d bank m f c ix hf hc in
      record {
        before = λ q low high. ground (arith, rest.before q, at q, hf);
        at = ground (arith, rest.before f, at f hf);
      }

  bubble_down_loop-Sunk :
      (k f : ℕ) (m : Dram)
      → 0 < k
      → n < k + f
      → IsPos d f
      → Indexed d bank m
      → Ends (Sunk d bank f m) (bubble_down_loop k d bank f m)
  unfolding bubble_down_loop
  bubble_down_loop-Sunk zero f m more fuel hf ix = absurd (omega arith)
  bubble_down_loop-Sunk (suc k) f m more fuel hf ix =
      rw (child1, child2)
        (Ends-if (ltb n (f * 2)) (λ out. stay)
          λ in1.
            Ends-if (ltb n (f * 2 + 1))
              (λ out.
                Ends-if (leb (key d bank m f) (key d bank m (f * 2))) (λ ok. stay)
                  λ gt.
                    sink (bubble_down_loop-Sunk k) (f * 2) (omega arith) (ground arith)
                      (ground arith))
              λ in2.
                Ends-if
                  (leb (key d bank m f) (key d bank m (f * 2))
                    && leb (key d bank m f) (key d bank m (f * 2 + 1)))
                  (λ ok. stay)
                  λ gt.
                    Ends-if (ltb (key d bank m (f * 2)) (key d bank m (f * 2 + 1)))
                      (λ lt.
                        sink (bubble_down_loop-Sunk k) (f * 2) (omega arith) (ground arith)
                          (ground arith))
                      λ ge.
                        sink (bubble_down_loop-Sunk k) (f * 2 + 1) (omega arith) (ground arith)
                          (ground arith))
    where
      child1 : f * 2 % 65536 ≡ f * 2
      child1 = omega arith

      child2 : (f * 2 + 1) % 65536 ≡ f * 2 + 1
      child2 = omega arith

      stay : Ends (Sunk d bank f m) (some m)
      stay = ends (record { before = λ q low high. refl; at = omega arith })

      sink :
          ((f' : ℕ) (m' : Dram)
            → 0 < k
            → n < k + f'
            → IsPos d f'
            → Indexed d bank m'
            → Ends (Sunk d bank f' m') (bubble_down_loop k d bank f' m'))
          → (c : ℕ) → f < c
          → c ≤ n
          → key d bank m c ≤ key d bank m f
          → Ends (Sunk d bank f m) (bubble_down_loop k d bank c (swapped d bank f c m))
      sink ih c lt cn le =
          let hc : IsPos d c = omega arith in
          Ends-weaken
            (ih c (swapped d bank f c m) (omega arith) (omega arith) hc
              (Indexed-swap d bank m f c ix hf hc))
            λ m' rest. Sunk-swap f c m m' ix hf hc lt le rest

  bubble_down-Sunk :
      (pos : ℕ) (m : Dram)
      → IsPos d pos
      → Indexed d bank m
      → Ends (Sunk d bank pos m) (bubble_down d bank pos m)
  unfolding bubble_down
  bubble_down-Sunk pos m hp ix =
      let same : pos % 65536 ≡ pos = omega arith in
      rw same (bubble_down_loop-Sunk (suc n) pos m (omega arith) (omega arith) hp ix)

module _ (d : HeapData) (bank real v : ℕ) (m : Dram) ⦃fits : Fits d bank⦄ (valid : IsValid d bank m)
    (hl : log_lbn_of d real < d.log_blks_per_bank) (word : v < 65536) where
  abbrev at : ℕ
  at = get_pos d bank (log_lbn_of d real) m

  abbrev last : ℕ
  last = d.n_el_in_heap bank

  -- `resetValidChunksAndRemove` on a block inside the heap, below the root, where the last element
  -- has fewer valid chunks than the father of the block: the heap is out of order afterwards.
  pub reset_and_remove-disorder :
      1 < at
      → at < last
      → key d bank m last < key d bank m (at / 2)
      → Ends
          (λ (d', m'). ¬ IsHeapTo d' bank (d'.n_el_in_heap bank) m')
          (reset_valid_chunks_and_remove d bank real v m)
  reset_and_remove-disorder low high below =
      let l = log_lbn_of d real in
      let hp = valid.indexed.pos_IsPos l hl in
      let hn : IsPos d last = omega (arith, valid.bounded) in
      let m1 = assigned d bank at v m in
      let ix1 = Indexed-assigned d bank m at v valid.indexed hp word in
      let e = set_n_el d bank (last - 1) in
      let key_at = key2 d bank m l v valid hl word (omega arith) at hp high in
      let key_father =
        key2 d bank m l v valid hl word (omega arith) (at / 2) (omega arith) (omega arith) in
      rw (reset_and_remove-swapped d bank real v m valid hl word (omega arith)) (
        Ends-bind
          (bubble_down-Sunk e bank ⦃fits = Fits-resized d bank (last - 1) fits⦄
            (rw (n_el-resized d bank (last - 1)) (omega (arith, valid.bounded))) at _ hp
            (Indexed-resized d bank (last - 1) (Indexed-swap d bank m1 at last ix1 hp hn)))
          λ m3 sunk. ends λ order. ground (
            arith,
            sunk.before (at / 2),
            sunk.at,
            key_at,
            key_father,
            order at low (rw (n_el-resized d bank (last - 1)) (omega arith)),
          ))
