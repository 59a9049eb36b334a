-- ===== src/Bank/Heaps.antt =====
-- The heaps under the view of a bank: a block is dropped, and work elsewhere changes nothing.
use fast2016_ftl.Common.{
  ℕ, ◌+◌, ◌-◌, ap, ◌/◌, ◌≤◌, ◌<◌, ◌≡◌, inl, inr, sym, ◌∙◌, Bool, true, false, arith, if◌then◌else◌,
  Ends, Ends-weaken,
}
use fast2016_ftl.Params.{num_banks, dram_base, dram_size}
use fast2016_ftl.Dram.{Dram, InDram, read_dram_32}
use fast2016_ftl.Heap.{
  HeapData, get_heap_el, get_pos, set_n_el, log_lbn_of, insert_blk_in_heap,
  reset_valid_chunks_and_remove,
}
use fast2016_ftl.Heap.Cells.{Fits}
use fast2016_ftl.Heap.View.{count, in_heap, is_within, key, IsValid}
use fast2016_ftl.Heap.Remove.{Removed}
use fast2016_ftl.Heap.Reset.{reset_and_remove-Removed}
use fast2016_ftl.Heap.Insert.{Inserted, insert_blk_in_heap-Inserted}
use fast2016_ftl.Heap.Region.{Same-tables}
use fast2016_ftl.Heap.Apart.{Same, IsValid-Same, count-Same, in_heap-Same}
use fast2016_ftl.Bank.{Blocks, drop_blk, join_blk, IsDroppable, Shows, OnlyRows}

-- The heap has its place in the DRAM.
pub record IsPlace (start bank : ℕ) : Type 0 where
  pub bank_lt : bank < num_banks
  pub low : dram_base ≤ start
  pub high : start + 65536 ≤ dram_base + dram_size

resized-fields :
    (d : HeapData) (bank n : ℕ) (c : Bool) (d' : HeapData)
    → d' ≡ (if c then set_n_el d bank n else d)
    → (d'.dram_start_addr ≡ d.dram_start_addr)
      × (d'.positions_ptr ≡ d.positions_ptr)
      × (d'.log_blks_per_bank ≡ d.log_blks_per_bank)
      × (d'.first_lbn ≡ d.first_lbn)
resized-fields d bank n true d' e = (
  ap (λ x. x.dram_start_addr) e,
  ap (λ x. x.positions_ptr) e,
  ap (λ x. x.log_blks_per_bank) e,
  ap (λ x. x.first_lbn) e,
)
resized-fields d bank n false d' e = (
  ap (λ x. x.dram_start_addr) e,
  ap (λ x. x.positions_ptr) e,
  ap (λ x. x.log_blks_per_bank) e,
  ap (λ x. x.first_lbn) e,
)

module _ (start bank : ℕ) (place : IsPlace start bank) (b : Blocks) (d : HeapData) (m : Dram)
    (s : Shows start bank b d m) where
  pub fits : Fits d bank
  fits = record {
    bank_lt = place.bank_lt;
    blks = omega (arith, s.blks);
    start = omega (arith, s.els_at, place);
    apart = omega (arith, s.els_at, s.positions_at);
    inside = omega (arith, s.positions_at, place);
  }

  -- A run that does not write to the heap.
  pub Shows-keeps :
      (m' : Dram)
      → ((a : ℕ) → InDram a → start ≤ a → a < start + 65536 → read_dram_32 a m' ≡ read_dram_32 a m)
      → Shows start bank b d m'
  Shows-keeps m' keeps =
      let same : Same d bank m m' =
        Same-tables d bank m m' fits
          (λ a ok low high. keeps a ok (omega (arith, s.els_at)) (omega (arith, s.positions_at))) in
      record {
        els_at = s.els_at;
        positions_at = s.positions_at;
        blks = s.blks;
        base = s.base;
        valid = IsValid-Same d bank m m' same s.valid;
        counts = λ l h.
            count-Same d bank m m' same l s.valid.indexed (omega (arith, s.blks)) ∙ s.counts l h;
        members = λ l h. in_heap-Same d bank m m' same l (omega (arith, s.blks)) ∙ s.members l h;
      }

  module _ (l v : ℕ) (small : l < 512) (word : v < 65536) (droppable : IsDroppable l b) where
    same_blk : log_lbn_of d l ≡ l
    same_blk = omega (arith, s.base)

    abbrev at : ℕ
    at = get_pos d bank l m

    -- The last element does not lie below the father of the block's place.
    lifts :
        1 < at
        → at < d.n_el_in_heap bank
        → key d bank m (at / 2) ≤ key d bank m (d.n_el_in_heap bank)
    unfolding count is_within
    lifts above below =
        let inside : at < d.n_el_in_heap bank = below in
        let n = d.n_el_in_heap bank in
        let last = (get_heap_el d bank n m).lbn in
        let n_pos : (1 ≤ n) × (n ≤ d.log_blks_per_bank) = omega (arith, s.valid.bounded) in
        let last_small : last < 512 = omega (arith, s.valid.indexed.lbn_lt n n_pos, s.blks) in
        let last_at : get_pos d bank last m ≡ n = s.valid.indexed.pos_lbn n n_pos in
        let last_in : in_heap d bank last m ≡ true = rw last_at (ground arith) in
        let last_count : count d bank last m ≡ key d bank m n = rw (last_at, count) in
        let here : in_heap d bank l m ≡ true = ground arith in
        let order = s.valid.ordered at above (omega arith) in
        elim droppable [
          | inl out ↦ absurd (ground (arith, here, s.members l small, out))
          | inr least ↦
              let le = least last last_small (sym (s.members last last_small) ∙ last_in) in
              omega (arith, le, order, last_count, s.counts l small, s.counts last last_small)
        ]

    dropped :
        (d' : HeapData) (m' : Dram)
        → IsValid d' bank m'
        → Removed d bank (log_lbn_of d l) v m d' m'
        → Shows start bank (drop_blk l v b) d' m'
    dropped d' m' valid r =
        let f =
          resized-fields d bank (d.n_el_in_heap bank - 1) (in_heap d bank (log_lbn_of d l) m) d'
            r.resized in
        record {
          els_at = f.0 ∙ s.els_at;
          positions_at = f.1 ∙ s.positions_at;
          blks = f.2 ∙ s.blks;
          base = f.3 ∙ s.base;
          valid = valid;
          counts = λ x h. r.counts x (omega (arith, s.blks)) ∙ rw (same_blk, s.counts x h);
          members = λ x h. r.members x (omega (arith, s.blks)) ∙ rw (same_blk, s.members x h);
        }

    pub Shows-drop :
        Ends
          (λ (d', m'). Shows start bank (drop_blk l v b) d' m' × OnlyRows start bank m m')
          (reset_valid_chunks_and_remove d bank l v m)
    Shows-drop =
        Ends-weaken
          (reset_and_remove-Removed d bank l v m ⦃fits = fits⦄ s.valid
            (omega (arith, same_blk, s.blks)) word (rw same_blk lifts))
          λ (d', m') (valid, r). (
            dropped d' m' valid r,
            λ a out. r.elsewhere a (record {
              inside = out.inside;
              els = omega (arith, out.els, s.els_at);
              positions = omega (arith, out.positions, s.positions_at);
            }),
          )

  module _ (l : ℕ) (small : l < 512) (out : b.members l ≡ false) where
    same_real : log_lbn_of d l ≡ l
    same_real = omega (arith, s.base)

    joined :
        (d' : HeapData) (m' : Dram)
        → IsValid d' bank m'
        → Inserted d bank (log_lbn_of d l) m d' m'
        → Shows start bank (join_blk l b) d' m'
    joined d' m' valid r = record {
      els_at = ap (λ x. x.dram_start_addr) r.resized ∙ s.els_at;
      positions_at = ap (λ x. x.positions_ptr) r.resized ∙ s.positions_at;
      blks = ap (λ x. x.log_blks_per_bank) r.resized ∙ s.blks;
      base = ap (λ x. x.first_lbn) r.resized ∙ s.base;
      valid = valid;
      counts = λ x h. r.counts x (omega (arith, s.blks)) ∙ s.counts x h;
      members = λ x h. r.members x (omega (arith, s.blks)) ∙ rw (same_real, s.members x h);
    }

    pub Shows-join :
        Ends
          (λ (d', m'). Shows start bank (join_blk l b) d' m' × OnlyRows start bank m m')
          (insert_blk_in_heap d bank l m)
    Shows-join =
        Ends-weaken
          (insert_blk_in_heap-Inserted d bank l m ⦃fits = fits⦄ s.valid
            (omega (arith, same_real, s.blks)) (rw same_real (s.members l small ∙ out)))
          λ (d', m') (valid, r). (
            joined d' m' valid r,
            λ a o. r.elsewhere a (record {
              inside = o.inside;
              els = omega (arith, o.els, s.els_at);
              positions = omega (arith, o.positions, s.positions_at);
            }),
          )
