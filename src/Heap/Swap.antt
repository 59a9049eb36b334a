-- ===== src/Heap/Swap.antt =====
-- `swap` exchanges two elements and keeps the table of positions in step.
use fast2016_ftl.Common.{ℕ, ◌<◌, ◌≡◌, arith, ◌==◌, if◌then◌else◌}
use fast2016_ftl.Dram.{Dram, read_dram_32}
use fast2016_ftl.Heap.{HeapEl, HeapData, get_heap_el, get_pos, swap}
use fast2016_ftl.Heap.Cells.{
  Fits, IsPos, Outside, get_heap_el-set_heap_el, get_heap_el-set_pos, get_pos-set_pos,
  get_pos-set_heap_el, read-set_heap_el, read-set_pos, trunc-get_heap_el,
}
use fast2016_ftl.Heap.View.{count, Indexed}

abbrev pub swapped : HeapData → ℕ → ℕ → ℕ → Dram → Dram
swapped d bank i j m = swap d bank (get_heap_el d bank i m) i (get_heap_el d bank j m) j m

module _ (d : HeapData) (bank : ℕ) (m : Dram) (i j : ℕ) ⦃fits : Fits d bank⦄ (ix : Indexed d bank m)
    (hi : IsPos d i) (hj : IsPos d j) where
  abbrev el : ℕ → HeapEl
  el p = get_heap_el d bank p m

  pub el-swap :
      (q : ℕ)
      → IsPos d q
      → get_heap_el d bank q (swapped d bank i j m)
        ≡ (if j == q then el i else if i == q then el j else el q)
  unfolding swap
  el-swap q hq = rw (
    get_heap_el-set_pos d bank q (el j).lbn _ _ hq (ix.lbn_lt j hj),
    get_heap_el-set_pos d bank q (el i).lbn _ _ hq (ix.lbn_lt i hi),
    get_heap_el-set_heap_el d bank j q (el i) _ hj hq,
    get_heap_el-set_heap_el d bank i q (el j) m hi hq,
    trunc-get_heap_el d bank i m,
    trunc-get_heap_el d bank j m,
  )

  pub pos-swap :
      (l : ℕ)
      → l < d.log_blks_per_bank
      → get_pos d bank l (swapped d bank i j m)
        ≡ (if (el j).lbn == l then i else if (el i).lbn == l then j else get_pos d bank l m)
  unfolding swap
  pos-swap l hl =
      rw
        (
          get_pos-set_pos d bank (el j).lbn l _ _ (ix.lbn_lt j hj) hl,
          get_pos-set_pos d bank (el i).lbn l _ _ (ix.lbn_lt i hi) hl,
          get_pos-set_heap_el d bank l j (el i) _ hj hl,
          get_pos-set_heap_el d bank l i (el j) m hi hl,
        )
        (ground (arith, fits))

  pub Indexed-swap : Indexed d bank (swapped d bank i j m)
  Indexed-swap = record {
    lbn_lt = λ p hp. ground (arith, el-swap p hp, ix.lbn_lt p, ix.lbn_lt i, ix.lbn_lt j);
    pos_lbn = λ p hp. rw (el-swap p hp) (
        ground (
          arith,
          pos-swap (el i).lbn (ix.lbn_lt i hi),
          pos-swap (el j).lbn (ix.lbn_lt j hj),
          pos-swap (el p).lbn (ix.lbn_lt p hp),
          ix.pos_lbn i,
          ix.pos_lbn j,
          ix.pos_lbn p,
        ));
    pos_IsPos = λ l hl. ground (arith, pos-swap l hl, ix.pos_IsPos l);
    lbn_pos = λ l hl. rw (pos-swap l hl) (
        ground (
          arith,
          el-swap i hi,
          el-swap j hj,
          el-swap (get_pos d bank l m) (ix.pos_IsPos l hl),
          ix.pos_lbn i,
          ix.pos_lbn j,
          ix.lbn_pos l,
        ));
  }

  pub count-swap :
      (l : ℕ) → l < d.log_blks_per_bank → count d bank l (swapped d bank i j m) ≡ count d bank l m
  unfolding count
  count-swap l hl =
      rw (pos-swap l hl, count)
        (ground (
          arith,
          el-swap i hi,
          el-swap j hj,
          el-swap (get_pos d bank l m) (ix.pos_IsPos l hl),
          ix.pos_lbn i,
          ix.pos_lbn j,
          ix.lbn_pos l,
        ))

  pub read-swap :
      (a : ℕ) → Outside d bank a → read_dram_32 a (swapped d bank i j m) ≡ read_dram_32 a m
  unfolding swap
  read-swap a out = rw (
    read-set_pos d bank a (el j).lbn _ _ (ix.lbn_lt j hj) out,
    read-set_pos d bank a (el i).lbn _ _ (ix.lbn_lt i hi) out,
    read-set_heap_el d bank a j (el i) _ hj out,
    read-set_heap_el d bank a i (el j) m hi out,
  )
