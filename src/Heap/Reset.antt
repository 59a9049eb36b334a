-- ===== src/Heap/Reset.antt =====
-- `resetValidChunksAndRemove` as it is called: which of its branches runs, and what it does.
use native.Mathlib.Decide.{dec_le}
use fast2016_ftl.Common.{
  ℕ, ◌+◌, ◌-◌, ◌/◌, ◌%◌, ◌≤◌, ◌<◌, ◌≡◌, ap, sym, true, some, arith, leb, Ends, ends, ◌>>=◌,
}
use fast2016_ftl.Dram.{Dram}
use fast2016_ftl.Heap.{
  HeapData, get_heap_el, get_pos, log_lbn_of, set_n_el, swap, reset_valid_chunks_and_remove,
  bubble_down,
}
use fast2016_ftl.Heap.Cells.{Fits, IsPos}
use fast2016_ftl.Heap.View.{key, IsValid}
use fast2016_ftl.Heap.Swap.{swapped}
use fast2016_ftl.Heap.Change.{assigned, el-assigned_self}
use fast2016_ftl.Heap.Remove.{Removed, Removed-outside, reset_and_remove-inside}

module _ (d : HeapData) (bank real v : ℕ) (m : Dram) ⦃fits : Fits d bank⦄ (valid : IsValid d bank m)
    (hl : log_lbn_of d real < d.log_blks_per_bank) (word : v < 65536) where
  abbrev l : ℕ
  l = log_lbn_of d real

  abbrev at : ℕ
  at = get_pos d bank l m

  abbrev n : ℕ
  n = d.n_el_in_heap bank

  abbrev m1 : Dram
  m1 = assigned d bank at v m

  abbrev fewer : HeapData
  fewer = set_n_el d bank (n - 1)

  at-IsPos : IsPos d at
  at-IsPos = valid.indexed.pos_IsPos l hl

  -- The element that `swap` is handed is the one that was just written.
  exchanged :
      swap d bank (record (get_heap_el d bank at m) { value = v }) at (get_heap_el d bank n m1) n m1
      ≡ swapped d bank at n m1
  exchanged =
      ap (λ e. swap d bank e at (get_heap_el d bank n m1) n m1)
        (sym (el-assigned_self d bank m at v valid.indexed at-IsPos word))

  -- The call on a block of the heap: a swap with the last element, then `bubbleDown`.
  pub reset_and_remove-swapped :
      at ≤ n
      → reset_valid_chunks_and_remove d bank real v m
        ≡ (bubble_down fewer bank at (swapped d bank at n m1) >>= λ m3. some (fewer, m3))
  unfolding reset_valid_chunks_and_remove
  reset_and_remove-swapped within =
      let fit_v : v % 65536 ≡ v = omega arith in
      let fit_n : n % 65536 ≡ n = omega (arith, valid.bounded) in
      let less : (n + 4294967296 - 1) % 4294967296 ≡ n - 1 =
        omega (arith, valid.bounded, at-IsPos) in
      let inside : leb at n ≡ true = ground arith in rw (fit_v, fit_n, inside, less, exchanged)

  -- The call on any other block: only its number is written.
  reset_and_remove-assigned : n < at → reset_valid_chunks_and_remove d bank real v m ≡ some (d, m1)
  unfolding reset_valid_chunks_and_remove
  reset_and_remove-assigned out =
      let fit_v : v % 65536 ≡ v = omega arith in
      let fit_n : n % 65536 ≡ n = omega (arith, valid.bounded) in rw (fit_v, fit_n) (ground arith)

  -- `resetValidChunksAndRemove` gives the block the number `v` and takes it out of the heap, if it
  -- was in it; no other block's number or membership changes, nothing else is written, and the
  -- invariant holds again. The last element must not lie below the father of the block's place:
  -- so for the victim, which is at the root, and for a block that is not in the heap.
  pub reset_and_remove-Removed :
      (1 < at → at < n → key d bank m (at / 2) ≤ key d bank m n)
      → Ends
          (λ (d', m'). IsValid d' bank m' × Removed d bank l v m d' m')
          (reset_valid_chunks_and_remove d bank real v m)
  reset_and_remove-Removed lifts = elim (dec_le at n) [
    | yes within ↦
        rw (reset_and_remove-swapped within)
          (reset_and_remove-inside d bank m l v valid hl word within lifts)
    | no out ↦
        let behind : n < at = omega arith in
        rw (reset_and_remove-assigned behind)
          (ends (Removed-outside d bank m l v valid hl word behind))
  ]
