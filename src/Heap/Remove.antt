-- ===== src/Heap/Remove.antt =====
-- `resetValidChunksAndRemove`: the block leaves the heap with a new number of valid chunks.
use fast2016_ftl.Common.{
  ℕ, ◌-◌, ◌/◌, ◌≤◌, ◌<◌, ◌≡◌, ◌∙◌, true, false, some, arith, ◌==◌, if◌then◌else◌, Ends, ends,
  Ends-bind, ◌>>=◌,
}
use fast2016_ftl.Dram.{Dram, read_dram_32}
use fast2016_ftl.Heap.{HeapData, get_pos, set_n_el, bubble_down}
use fast2016_ftl.Heap.Cells.{Fits, IsPos, Outside}
use fast2016_ftl.Heap.View.{count, in_heap, is_within, Indexed, key, IsValid}
use fast2016_ftl.Heap.Swap.{swapped, el-swap, pos-swap, Indexed-swap, count-swap, read-swap}
use fast2016_ftl.Heap.Down.{Restored, DownInv}
use fast2016_ftl.Heap.Change.{
  assigned, lbn-assigned, key-assigned, Indexed-assigned, get_pos-assigned, Changed-assigned,
}
use fast2016_ftl.Heap.Update.{Valid-outside}
use fast2016_ftl.Heap.Resize.{
  Indexed-resized, Outside-resized, key-resized, count-resized, is_within-resized, in_heap-resized,
  bubble_down-resized, IsValid-resized,
}

-- Block `l` has `v` valid chunks and is out of the heap; all else is as before.
pub record Removed (d : HeapData) (bank l v : ℕ) (m : Dram) (d' : HeapData) (m' : Dram)
    : Type 0 where
  pub resized : d' ≡ (if in_heap d bank l m then set_n_el d bank (d.n_el_in_heap bank - 1) else d)
  pub counts :
      (l' : ℕ)
      → l' < d.log_blks_per_bank
      → count d' bank l' m' ≡ (if l == l' then v else count d bank l' m)
  pub members :
      (l' : ℕ)
      → l' < d.log_blks_per_bank
      → in_heap d' bank l' m' ≡ (if l == l' then false else in_heap d bank l' m)
  pub elsewhere : (a : ℕ) → Outside d bank a → read_dram_32 a m' ≡ read_dram_32 a m

module _ (d : HeapData) (bank : ℕ) (m : Dram) (l v : ℕ) ⦃fits : Fits d bank⦄
    (valid : IsValid d bank m) (hl : l < d.log_blks_per_bank) (word : v < 65536) where
  abbrev n : ℕ
  n = d.n_el_in_heap bank

  abbrev p : ℕ
  p = get_pos d bank l m

  abbrev m1 : Dram
  m1 = assigned d bank p v m

  abbrev m2 : Dram
  m2 = swapped d bank p n m1

  abbrev d' : HeapData
  d' = set_n_el d bank (n - 1)

  hp : IsPos d p
  hp = valid.indexed.pos_IsPos l hl

  ix1 : Indexed d bank m1
  ix1 = Indexed-assigned d bank m p v valid.indexed hp word

  -- A block that is not in the heap only gets the new number.
  pub Removed-outside : n < p → IsValid d bank m1 × Removed d bank l v m d m1
  unfolding is_within
  Removed-outside out =
      let changed = Changed-assigned d bank m l v valid.indexed hl word in
      (
        Valid-outside d bank m l v valid hl word out,
        record {
          resized = ground arith;
          counts = changed.counts;
          members = λ l' hl'. changed.members l' hl' ∙ ground (arith, valid.indexed.lbn_pos l hl);
          elsewhere = changed.elsewhere;
        },
      )

  module _ (within : p ≤ n) where
    hn : IsPos d n
    hn = omega (arith, hp, valid.bounded)

    pub key2 :
        (q : ℕ)
        → IsPos d q
        → q < n
        → key d' bank m2 q ≡ (if p == q then key d bank m n else key d bank m q)
    key2 q hq low =
        key-resized d bank (n - 1) m2 q
        ∙ ground (
          arith,
          el-swap d bank m1 p n ix1 hp hn q hq,
          key-assigned d bank m p v valid.indexed hp word q hq,
          key-assigned d bank m p v valid.indexed hp word n hn,
        )

    -- The last element must not lie below the father of the place that it takes.
    DownInv-removed :
        (1 < p → p < n → key d bank m (p / 2) ≤ key d bank m n) → DownInv d' bank (n - 1) m2 p
    DownInv-removed lifts = record {
      edges =
          λ c q r s. ground (arith, key2 c, key2 (c / 2), valid.ordered c, valid.bounded, lifts);
      bridged = λ c q r s t.
          ground (arith, key2 c, key2 (p / 2), valid.ordered c, valid.ordered p, valid.bounded);
    }

    members2 :
        (l' : ℕ)
        → l' < d.log_blks_per_bank
        → is_within d bank (n - 1) l' m2 ≡ (if l == l' then false else is_within d bank n l' m)
    unfolding is_within
    members2 l' hl' =
        rw
          (
            pos-swap d bank m1 p n ix1 hp hn l' hl',
            lbn-assigned d bank m p v valid.indexed hp word n hn,
            lbn-assigned d bank m p v valid.indexed hp word p hp,
            get_pos-assigned d bank m p v valid.indexed hp word l' hl',
            valid.indexed.lbn_pos l hl,
          )
          (ground (
            arith,
            valid.indexed.pos_lbn n hn,
            valid.indexed.lbn_pos l' hl',
            valid.indexed.lbn_pos l hl,
            hp,
          ))

    inside : is_within d bank n l m ≡ true
    unfolding is_within
    inside = ground arith

    counts2 :
        (l' : ℕ)
        → l' < d.log_blks_per_bank
        → count d bank l' m2 ≡ (if l == l' then v else count d bank l' m)
    counts2 l' hl' =
        count-swap d bank m1 p n ix1 hp hn l' hl'
        ∙ (Changed-assigned d bank m l v valid.indexed hl word).counts l' hl'

    elsewhere2 : (a : ℕ) → Outside d bank a → read_dram_32 a m2 ≡ read_dram_32 a m
    elsewhere2 a out =
        read-swap d bank m1 p n ix1 hp hn a out
        ∙ (Changed-assigned d bank m l v valid.indexed hl word).elsewhere a out

    -- What `bubbleDown` makes of the shortened heap.
    Removed-Restored :
        (m3 : Dram)
        → Restored d' bank (n - 1) m2 m3
        → IsValid d' bank m3 × Removed d bank l v m d' m3
    Removed-Restored m3 (kept, order) = (
      IsValid-resized d bank (n - 1) m3 (omega (arith, valid.bounded)) kept.indexed order,
      record {
        resized = rw inside;
        counts = λ l' hl'. kept.counts l' hl' ∙ count-resized d bank (n - 1) l' m2 ∙ counts2 l' hl';
        members = λ l' hl'.
            in_heap-resized d bank (n - 1) l' m3
            ∙ kept.members l' hl'
            ∙ is_within-resized d bank (n - 1) (n - 1) l' m2
            ∙ members2 l' hl';
        elsewhere =
            λ a out. kept.elsewhere a (Outside-resized d bank (n - 1) out) ∙ elsewhere2 a out;
      },
    )

    pub reset_and_remove-inside :
        (1 < p → p < n → key d bank m (p / 2) ≤ key d bank m n)
        → Ends
            (λ (e, m3). IsValid e bank m3 × Removed d bank l v m e m3)
            (bubble_down d' bank p m2 >>= λ m3. some (d', m3))
    reset_and_remove-inside lifts =
        Ends-bind
          (bubble_down-resized d bank (n - 1) (omega (arith, valid.bounded)) p m2 hp
            (Indexed-resized d bank (n - 1) (Indexed-swap d bank m1 p n ix1 hp hn))
            (DownInv-removed lifts))
          λ m3 done. ends (Removed-Restored m3 done)
