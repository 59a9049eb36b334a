-- ===== src/Heap/Insert.antt =====
-- `insertBlkInHeap`: the block may be chosen as a victim from now on.
use fast2016_ftl.Common.{
  ℕ, ◌+◌, ◌/◌, ◌%◌, ◌≤◌, ◌<◌, ◌≡◌, refl, ◌∙◌, true, false, some, arith, ltb, ◌==◌, ==_self,
  if◌then◌else◌, Ends, ends, Ends-if, Ends-bind, ◌>>=◌,
}
use fast2016_ftl.Dram.{Dram, read_dram_32}
use fast2016_ftl.Heap.{HeapData, get_pos, log_lbn_of, set_n_el, insert_blk_in_heap, bubble_up}
use fast2016_ftl.Heap.Cells.{Fits, IsPos, Outside}
use fast2016_ftl.Heap.View.{count, in_heap, is_within, Indexed, key, IsValid}
use fast2016_ftl.Heap.Swap.{swapped, el-swap, pos-swap, Indexed-swap, count-swap, read-swap}
use fast2016_ftl.Heap.Down.{Restored}
use fast2016_ftl.Heap.Up.{UpInv}
use fast2016_ftl.Heap.Kept.{Kept-refl}
use fast2016_ftl.Heap.Resize.{
  Fits-resized, Indexed-resized, Outside-resized, count-resized, key-resized, get_pos-resized,
  in_heap-resized, IsValid-resized, bubble_up-resized,
}

-- Block `l` is in the heap; all else is as before.
pub record Inserted (d : HeapData) (bank l : ℕ) (m : Dram) (d' : HeapData) (m' : Dram)
    : Type 0 where
  pub resized : d' ≡ set_n_el d bank (d.n_el_in_heap bank + 1)
  pub counts : (l' : ℕ) → l' < d.log_blks_per_bank → count d' bank l' m' ≡ count d bank l' m
  pub members :
      (l' : ℕ)
      → l' < d.log_blks_per_bank
      → in_heap d' bank l' m' ≡ (if l == l' then true else in_heap d bank l' m)
  pub elsewhere : (a : ℕ) → Outside d bank a → read_dram_32 a m' ≡ read_dram_32 a m

module _ (d : HeapData) (bank : ℕ) (m : Dram) (l : ℕ) ⦃fits : Fits d bank⦄
    (valid : IsValid d bank m) (hl : l < d.log_blks_per_bank)
    (out : d.n_el_in_heap bank < get_pos d bank l m) where
  abbrev k : ℕ
  k = d.n_el_in_heap bank + 1

  abbrev p : ℕ
  p = get_pos d bank l m

  abbrev e : HeapData
  e = set_n_el d bank k

  instance fits_e : Fits e bank
  fits_e = Fits-resized d bank k fits

  ix : Indexed e bank m
  ix = Indexed-resized d bank k valid.indexed

  hp : IsPos e p
  hp = valid.indexed.pos_IsPos l hl

  hk : IsPos e k
  hk = omega (arith, hp)

  abbrev m2 : Dram
  m2 = swapped e bank p k m

  -- The elements before the new one stay.
  key2 : (q : ℕ) → 1 ≤ q → q < k → key e bank m2 q ≡ key d bank m q
  key2 q low high = ground (arith, el-swap e bank m p k ix hp hk q, hk) ∙ key-resized d bank k m q

  UpInv-inserted : UpInv e bank k m2 k
  UpInv-inserted = record {
    edges = λ c q r s. ground (arith, key2 c, key2 (c / 2), valid.ordered c);
    bridged = omega arith;
  }

  members2 :
      (l' : ℕ)
      → l' < d.log_blks_per_bank
      → is_within e bank k l' m2
        ≡ (if l == l' then true else is_within d bank (d.n_el_in_heap bank) l' m)
  unfolding is_within
  members2 l' hl' =
      rw (pos-swap e bank m p k ix hp hk l' hl', get_pos-resized d bank k l' m)
        (ground (
          arith,
          ix.pos_lbn k hk,
          ix.pos_lbn p hp,
          ix.lbn_pos l hl,
          ix.lbn_pos l' hl',
          get_pos-resized d bank k l m,
          get_pos-resized d bank k l' m,
        ))

  -- What a restoring run makes of the heap with the block behind its last element.
  Inserted-Restored :
      (m3 : Dram) → Restored e bank k m2 m3 → IsValid e bank m3 × Inserted d bank l m e m3
  Inserted-Restored m3 (kept, order) = (
    IsValid-resized d bank k m3 hk.1 kept.indexed order,
    record {
      resized = refl;
      counts = λ l' h.
          kept.counts l' h ∙ count-swap e bank m p k ix hp hk l' h ∙ count-resized d bank k l' m;
      members = λ l' h. in_heap-resized d bank k l' m3 ∙ kept.members l' h ∙ members2 l' h;
      elsewhere = λ a o.
          let o' = Outside-resized d bank k o in
          kept.elsewhere a o' ∙ read-swap e bank m p k ix hp hk a o';
    },
  )

  insert-Ends :
      Ends
        (λ (d', m'). IsValid d' bank m' × Inserted d bank l m d' m')
        (if ltb 1 k then bubble_up e bank k m2 >>= (λ m3. some (e, m3)) else some (e, m2))
  insert-Ends =
      let ix2 = Indexed-swap e bank m p k ix hp hk in
      Ends-if (ltb 1 k)
        (λ more.
          Ends-bind (bubble_up-resized d bank k hk.1 k m2 hk ix2 (omega arith) UpInv-inserted)
            λ m3 done. ends (Inserted-Restored m3 done))
        λ single. ends (Inserted-Restored m2 (Kept-refl ix2, λ c q r. absurd (ground arith)))

module _ (d : HeapData) (bank real : ℕ) (m : Dram) ⦃fits : Fits d bank⦄ (valid : IsValid d bank m)
    (hl : log_lbn_of d real < d.log_blks_per_bank) where
  -- `insertBlkInHeap` on a block that is not in the heap puts it in; no block's number changes and
  -- no other block's membership, nothing else is written, and the invariant holds again.
  pub insert_blk_in_heap-Inserted :
      in_heap d bank (log_lbn_of d real) m ≡ false
      → Ends
          (λ (d', m'). IsValid d' bank m' × Inserted d bank (log_lbn_of d real) m d' m')
          (insert_blk_in_heap d bank real m)
  unfolding insert_blk_in_heap is_within
  insert_blk_in_heap-Inserted out =
      let n = d.n_el_in_heap bank in
      let l = log_lbn_of d real in
      let room = valid.indexed.pos_IsPos l hl in
      let behind : n < get_pos d bank l m = ground arith in
      let word : (n + 1) % 4294967296 ≡ n + 1 = omega (arith, room) in
      let half : (n + 1) % 65536 ≡ n + 1 = omega (arith, room) in
      rw (word, ==_self bank, half, get_pos-resized d bank (n + 1) l m)
        (insert-Ends d bank m l valid hl behind)
