-- ===== src/Heap/Update.antt =====
-- The operations that give one block a new number of valid chunks.
use fast2016_ftl.Common.{
  ℕ, ◌+◌, ◌-◌, ◌/◌, ◌%◌, ◌≤◌, ◌<◌, ◌≡◌, false, some, arith, leb, ◌==◌, if◌then◌else◌, Ends, ends,
  Ends-weaken, Ends-if,
}
use fast2016_ftl.Dram.{Dram}
use fast2016_ftl.Heap.{
  HeapData, get_pos, log_lbn_of, increment_valid_chunks_by_n, decrement_valid_chunks,
  decrement_valid_chunks_by_n, set_valid_chunks, bubble_up, bubble_down,
}
use fast2016_ftl.Heap.Cells.{Fits, IsPos, get_heap_el-Word}
use fast2016_ftl.Heap.View.{count, in_heap, is_within, key, IsHeapTo, IsValid}
use fast2016_ftl.Heap.Down.{DownInv, bubble_down-Restored}
use fast2016_ftl.Heap.Up.{UpInv, bubble_up-Restored}
use fast2016_ftl.Heap.Change.{
  Changed, assigned, key-assigned, Indexed-assigned, Changed-assigned, Changed-Restored,
}

module _ (d : HeapData) (bank : ℕ) (m : Dram) (l v : ℕ) ⦃fits : Fits d bank⦄
    (valid : IsValid d bank m) (hl : l < d.log_blks_per_bank) (word : v < 65536) where
  abbrev n : ℕ
  n = d.n_el_in_heap bank

  abbrev p : ℕ
  p = get_pos d bank l m

  abbrev m1 : Dram
  m1 = assigned d bank p v m

  hp : IsPos d p
  hp = valid.indexed.pos_IsPos l hl

  at : (q : ℕ) → IsPos d q → key d bank m1 q ≡ (if p == q then v else key d bank m q)
  at = key-assigned d bank m p v valid.indexed hp word

  DownInv-raised : key d bank m p ≤ v → DownInv d bank n m1 p
  DownInv-raised more = record {
    edges = λ c q r s. ground (arith, at c, at (c / 2), valid.ordered c);
    bridged = λ c q r s t. ground (arith, at c, at (p / 2), valid.ordered c, valid.ordered p);
  }

  UpInv-lowered : v ≤ key d bank m p → UpInv d bank n m1 p
  UpInv-lowered less = record {
    edges = λ c q r s. ground (arith, at c, at (c / 2), valid.ordered c);
    bridged = λ c q r s t. ground (arith, at c, at (p / 2), valid.ordered c, valid.ordered p);
  }

  -- Outside the heap any value may be written.
  IsHeapTo-outside : n < p → IsHeapTo d bank n m1
  IsHeapTo-outside out = λ c q r. ground (arith, at c, at (c / 2), valid.ordered c)

  pub Valid-outside : n < p → IsValid d bank m1
  Valid-outside out = record {
    bounded = valid.bounded;
    indexed = Indexed-assigned d bank m p v valid.indexed hp word;
    ordered = IsHeapTo-outside out;
  }

  -- `setHeapEl` and, if the block is in the heap, `bubbleDown`.
  raise-Changed :
      count d bank l m ≤ v
      → Ends
          (λ m'. IsValid d bank m' × Changed d bank l v m m')
          (if leb p n then bubble_down d bank p m1 else some m1)
  unfolding count
  raise-Changed more =
      Ends-if (leb p n)
        (λ within.
          Ends-weaken
            (bubble_down-Restored d bank valid.bounded p m1 hp
              (Indexed-assigned d bank m p v valid.indexed hp word) (DownInv-raised more))
            λ m' done. Changed-Restored d bank m l v valid.indexed hl word m' valid.bounded done)
        λ out.
          ends (Valid-outside (ground arith), Changed-assigned d bank m l v valid.indexed hl word)

  -- `setHeapEl` and, if the block is in the heap, `bubbleUp`.
  lower-Changed :
      v ≤ count d bank l m
      → Ends
          (λ m'. IsValid d bank m' × Changed d bank l v m m')
          (if leb p n then bubble_up d bank p m1 else some m1)
  unfolding count
  lower-Changed less =
      Ends-if (leb p n)
        (λ within.
          Ends-weaken
            (bubble_up-Restored d bank valid.bounded p m1 hp (ground arith)
              (Indexed-assigned d bank m p v valid.indexed hp word) (UpInv-lowered less))
            λ m' done. Changed-Restored d bank m l v valid.indexed hl word m' valid.bounded done)
        λ out.
          ends (Valid-outside (ground arith), Changed-assigned d bank m l v valid.indexed hl word)

count_lt : (d : HeapData) (bank l : ℕ) (m : Dram) ⦃fits : Fits d bank⦄ → count d bank l m < 65536
unfolding count
count_lt d bank l m = (get_heap_el-Word d bank (get_pos d bank l m) m).0

module _ (d : HeapData) (bank real : ℕ) (m : Dram) ⦃fits : Fits d bank⦄ (valid : IsValid d bank m)
    (hl : log_lbn_of d real < d.log_blks_per_bank) where
  abbrev l : ℕ
  l = log_lbn_of d real

  -- `incrementValidChunksByN` adds `n` to the block's number, which must stay a UINT16, changes no
  -- other block and no block's membership, writes nowhere else and keeps the invariant.
  increment_valid_chunks_by_n-Changed :
      (n : ℕ)
      → count d bank l m + n < 65536
      → Ends
          (λ m'. IsValid d bank m' × Changed d bank l (count d bank l m + n) m m')
          (increment_valid_chunks_by_n d bank real n m)
  unfolding increment_valid_chunks_by_n count
  increment_valid_chunks_by_n-Changed n fit =
      let same : (count d bank l m + n) % 65536 ≡ count d bank l m + n = omega arith in
      rw (same, count) (raise-Changed d bank m l _ valid hl fit (omega arith))

  -- `decrementValidChunks` takes one from a number above 0, changes no other block and no block's
  -- membership, writes nowhere else and keeps the invariant.
  pub decrement_valid_chunks-Changed :
      0 < count d bank l m
      → Ends
          (λ m'. IsValid d bank m' × Changed d bank l (count d bank l m - 1) m m')
          (decrement_valid_chunks d bank real m)
  unfolding decrement_valid_chunks count
  decrement_valid_chunks-Changed some_left =
      let word = count_lt d bank l m in
      let same : (count d bank l m + 65536 - 1) % 65536 ≡ count d bank l m - 1 = omega arith in
      rw (same, count) (lower-Changed d bank m l _ valid hl (omega arith) (omega arith))

  -- `decrementValidChunksByN` takes `n` from a number of at least `n`, changes no other block and no
  -- block's membership, writes nowhere else and keeps the invariant.
  pub decrement_valid_chunks_by_n-Changed :
      (n : ℕ)
      → n ≤ count d bank l m
      → Ends
          (λ m'. IsValid d bank m' × Changed d bank l (count d bank l m - n) m m')
          (decrement_valid_chunks_by_n d bank real n m)
  unfolding decrement_valid_chunks_by_n count
  decrement_valid_chunks_by_n-Changed n enough =
      let word = count_lt d bank l m in
      let same : (count d bank l m + 65536 - n % 65536) % 65536 ≡ count d bank l m - n =
        omega arith in
      rw (same, count) (lower-Changed d bank m l _ valid hl (omega arith) (omega arith))

  -- `setValidChunks` gives a block that is not in the heap the number `n`, changes no other block
  -- and no block's membership, writes nowhere else and keeps the invariant.
  pub set_valid_chunks-Changed :
      (n : ℕ)
      → n < 65536
      → in_heap d bank l m ≡ false
      → IsValid d bank (set_valid_chunks d bank real n m)
        × Changed d bank l n m (set_valid_chunks d bank real n m)
  unfolding set_valid_chunks is_within
  set_valid_chunks-Changed n fit out =
      let same : n % 65536 ≡ n = omega arith in
      rw same (
        Valid-outside d bank m l n valid hl fit (ground arith),
        Changed-assigned d bank m l n valid.indexed hl fit,
      )
