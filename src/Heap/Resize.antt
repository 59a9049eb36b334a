-- ===== src/Heap/Resize.antt =====
-- The number of elements stands apart from the tables in DRAM: an assignment to it changes no
-- element, no position and no address.
use fast2016_ftl.Common.{ℕ, ◌≤◌, ◌≡◌, refl, ap, subst, arith, Ends}
use fast2016_ftl.Dram.{Dram}
use fast2016_ftl.Heap.{HeapData, get_heap_el, get_pos, set_n_el, bubble_down, bubble_up}
use fast2016_ftl.Heap.Cells.{Fits, IsPos, Outside}
use fast2016_ftl.Heap.View.{count, is_within, in_heap, Indexed, key, IsHeapTo, IsValid}
use fast2016_ftl.Heap.Down.{Restored, DownInv, bubble_down-Restored}
use fast2016_ftl.Heap.Up.{UpInv, bubble_up-Restored}

module _ (d : HeapData) (bank k : ℕ) where
  pub Fits-resized : Fits d bank → Fits (set_n_el d bank k) bank
  Fits-resized f = record {
    bank_lt = f.bank_lt;
    blks = f.blks;
    start = f.start;
    apart = f.apart;
    inside = f.inside;
  }

  pub Indexed-resized : {m : Dram} → Indexed d bank m → Indexed (set_n_el d bank k) bank m
  unfolding get_heap_el get_pos
  Indexed-resized ix = record {
    lbn_lt = ix.lbn_lt;
    pos_lbn = ix.pos_lbn;
    pos_IsPos = ix.pos_IsPos;
    lbn_pos = ix.lbn_pos;
  }

  pub Outside-resized : {a : ℕ} → Outside d bank a → Outside (set_n_el d bank k) bank a
  Outside-resized o = record { inside = o.inside; els = o.els; positions = o.positions }

  pub get_heap_el-resized :
      (p : ℕ) (m : Dram) → get_heap_el (set_n_el d bank k) bank p m ≡ get_heap_el d bank p m
  unfolding get_heap_el
  get_heap_el-resized p m = refl

  pub get_pos-resized :
      (l : ℕ) (m : Dram) → get_pos (set_n_el d bank k) bank l m ≡ get_pos d bank l m
  unfolding get_pos
  get_pos-resized l m = refl

  pub count-resized : (l : ℕ) (m : Dram) → count (set_n_el d bank k) bank l m ≡ count d bank l m
  unfolding count get_heap_el get_pos
  count-resized l m = refl

  pub is_within-resized :
      (n l : ℕ) (m : Dram) → is_within (set_n_el d bank k) bank n l m ≡ is_within d bank n l m
  unfolding is_within get_pos
  is_within-resized n l m = refl

  pub key-resized : (m : Dram) (p : ℕ) → key (set_n_el d bank k) bank m p ≡ key d bank m p
  unfolding get_heap_el
  key-resized m p = refl

  pub n_el-resized : (set_n_el d bank k).n_el_in_heap bank ≡ k
  n_el-resized = ground arith

  pub IsValid-resized :
      (m : Dram)
      → k ≤ d.log_blks_per_bank
      → Indexed (set_n_el d bank k) bank m
      → IsHeapTo (set_n_el d bank k) bank k m
      → IsValid (set_n_el d bank k) bank m
  IsValid-resized m small ix order = record {
    bounded = rw n_el-resized small;
    indexed = ix;
    ordered = λ c p q. order c p (rw n_el-resized at q);
  }

  -- Membership in the resized heap.
  pub in_heap-resized :
      (l : ℕ) (m : Dram)
      → in_heap (set_n_el d bank k) bank l m ≡ is_within (set_n_el d bank k) bank k l m
  in_heap-resized l m = ap (λ j. is_within (set_n_el d bank k) bank j l m) n_el-resized

  module _ ⦃fits : Fits d bank⦄ (small : k ≤ d.log_blks_per_bank) (pos : ℕ) (m : Dram)
      (hp : IsPos d pos) (ix : Indexed (set_n_el d bank k) bank m) where
    abbrev e : HeapData
    e = set_n_el d bank k

    pub bubble_down-resized :
        DownInv e bank k m pos → Ends (Restored e bank k m) (bubble_down e bank pos m)
    bubble_down-resized =
        subst (λ j. DownInv e bank j m pos → Ends (Restored e bank j m) (bubble_down e bank pos m))
          n_el-resized
          (bubble_down-Restored e bank ⦃fits = Fits-resized fits⦄ (rw n_el-resized small) pos m hp
            ix)

    pub bubble_up-resized :
        pos ≤ k → UpInv e bank k m pos → Ends (Restored e bank k m) (bubble_up e bank pos m)
    bubble_up-resized high =
        subst (λ j. UpInv e bank j m pos → Ends (Restored e bank j m) (bubble_up e bank pos m))
          n_el-resized
          (bubble_up-Restored e bank ⦃fits = Fits-resized fits⦄ (rw n_el-resized small) pos m hp
            (rw n_el-resized high) ix)
