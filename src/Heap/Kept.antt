-- ===== src/Heap/Kept.antt =====
-- What a rearrangement of the first `n` elements keeps.
use fast2016_ftl.Common.{ℕ, ◌≤◌, ◌<◌, ◌≡◌, refl, ◌∙◌, arith}
use fast2016_ftl.Dram.{Dram, read_dram_32}
use fast2016_ftl.Heap.{HeapData}
use fast2016_ftl.Heap.Cells.{Fits, IsPos, Outside}
use fast2016_ftl.Heap.View.{count, is_within, Indexed}
use fast2016_ftl.Heap.Swap.{swapped, pos-swap, Indexed-swap, count-swap, read-swap}

pub record Kept (d : HeapData) (bank n : ℕ) (m m' : Dram) : Type 0 where
  pub indexed : Indexed d bank m'
  pub counts : (l : ℕ) → l < d.log_blks_per_bank → count d bank l m' ≡ count d bank l m
  pub members : (l : ℕ) → l < d.log_blks_per_bank → is_within d bank n l m' ≡ is_within d bank n l m
  pub elsewhere : (a : ℕ) → Outside d bank a → read_dram_32 a m' ≡ read_dram_32 a m

module _ {d : HeapData} {bank n : ℕ} where
  pub Kept-refl : {m : Dram} → Indexed d bank m → Kept d bank n m m
  Kept-refl ix = record {
    indexed = ix;
    counts = λ l h. refl;
    members = λ l h. refl;
    elsewhere = λ a h. refl;
  }

  pub Kept-trans :
      {m m' m'' : Dram} → Kept d bank n m m' → Kept d bank n m' m'' → Kept d bank n m m''
  Kept-trans k k' = record {
    indexed = k'.indexed;
    counts = λ l h. k'.counts l h ∙ k.counts l h;
    members = λ l h. k'.members l h ∙ k.members l h;
    elsewhere = λ a h. k'.elsewhere a h ∙ k.elsewhere a h;
  }

module _ (d : HeapData) (bank n : ℕ) (m : Dram) (i j : ℕ) ⦃fits : Fits d bank⦄
    (ix : Indexed d bank m) (hi : IsPos d i) (hj : IsPos d j) (ni : i ≤ n) (nj : j ≤ n) where
  is_within-swap :
      (l : ℕ)
      → l < d.log_blks_per_bank
      → is_within d bank n l (swapped d bank i j m) ≡ is_within d bank n l m
  unfolding is_within
  is_within-swap l hl =
      rw (pos-swap d bank m i j ix hi hj l hl)
        (ground (arith, ix.pos_lbn i, ix.pos_lbn j, ix.lbn_pos l))

  pub Kept-swap : Kept d bank n m (swapped d bank i j m)
  Kept-swap = record {
    indexed = Indexed-swap d bank m i j ix hi hj;
    counts = count-swap d bank m i j ix hi hj;
    members = is_within-swap;
    elsewhere = read-swap d bank m i j ix hi hj;
  }
