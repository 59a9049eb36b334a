-- ===== src/Gc/Choice.antt =====
-- The choice of `initGC` with the default factors: which block it takes, and how it goes on.
use native.Mathlib.Decide.{dec_le}
use fast2016_ftl.Common.{
  ℕ, ◌*◌, ◌/◌, ◌≤◌, ◌<◌, ◌≡◌, ◌⊎◌, inl, inr, refl, sym, ◌∙◌, true, false, ◌∷◌, arith, u32, invalid,
  Ends, ends, leb→le, lt→ltb, le→ltb-false, ==_self,
}
use fast2016_ftl.Dram.{Dram}
use fast2016_ftl.Heap.{HeapData, get_pos, get_victim, get_victim_valid_pages_number}
use fast2016_ftl.Heap.Cells.{Fits, get_heap_el-Word}
use fast2016_ftl.Heap.View.{count, in_heap, is_within, IsValid}
use fast2016_ftl.Heap.Victim.{IsLeast, get_victim-IsLeast, get_victim_valid_pages_number-invalid}
use fast2016_ftl.Flash.{Hardware, nand_page_ptread, return_when_done}
use fast2016_ftl.World.{World, gc_read, second, cold, get_log_vbn, victim_lpn_list}
use fast2016_ftl.Gc.{init_gc, release_victim, takes_cold, victim_heap, chosen}

-- Block `l`, with `v` valid chunks, is in the heap, and no block of the heap has less.
pub record IsVictimOf (d : HeapData) (bank : ℕ) (m : Dram) (l v : ℕ) : Type 0 where
  pub least : IsLeast d bank m l
  pub valid_chunks : count d bank l m ≡ v

-- Every block of the heap has at least `v` valid chunks.
abbrev pub AtLeast : HeapData → ℕ → Dram → ℕ → Type 0
AtLeast d bank m v =
    (l : ℕ) → l < d.log_blks_per_bank → in_heap d bank l m ≡ true → v ≤ count d bank l m

module _ (d : HeapData) (bank : ℕ) (m : Dram) ⦃fits : Fits d bank⦄ (valid : IsValid d bank m) where
  abbrev number : ℕ
  number = get_victim_valid_pages_number d bank m

  number-word : number ≤ invalid
  unfolding count
  number-word = elim (dec_le (d.n_el_in_heap bank) 0) [
    | yes empty ↦
        omega (arith, (get_victim_valid_pages_number-invalid d bank m valid).1 (omega arith))
    | no filled ↦
        let (l, least, e, v) = get_victim-IsLeast d bank m valid (omega arith) in
        omega (arith, v, get_heap_el-Word d bank (get_pos d bank l m) m)
  ]

  -- The block that `getVictim` returns is below `blks`, so that the sum with 0 does not wrap.
  filled-victim :
      d.first_lbn ≡ 0
      → 0 < d.n_el_in_heap bank
      → IsVictimOf d bank m (get_victim d bank m) number × (number < invalid)
  unfolding count
  filled-victim base filled =
      let (l, least, e, v) = get_victim-IsLeast d bank m valid filled in
      let same : get_victim d bank m ≡ l = e ∙ omega (arith, base, least.blk, fits.blks) in
      (
        rw same (record { least = least; valid_chunks = sym v }),
        omega (arith, v, get_heap_el-Word d bank (get_pos d bank l m) m),
      )

  number-AtLeast : AtLeast d bank m number
  unfolding is_within
  number-AtLeast l hl member = elim (dec_le (d.n_el_in_heap bank) 0) [
    | yes empty ↦ absurd (omega (arith, empty, leb→le _ _ member, valid.indexed.pos_IsPos l hl))
    | no filled ↦
        let (v, least, e, n) = get_victim-IsLeast d bank m valid (omega arith) in
        omega (arith, n, least.least l hl member)
  ]

  -- A heap whose number is a word is not empty.
  number-filled : number < invalid → 0 < d.n_el_in_heap bank
  number-filled small = ground (arith, (get_victim_valid_pages_number-invalid d bank m valid).1)

-- What `initGC` has chosen: the victim is a block of the cold or of the second-usage heap with the
-- least number of valid chunks of all the blocks of both heaps.
pub record IsChosen (bank : ℕ) (w w1 : World) : Type 0 where
  pub victim :
      IsVictimOf
        (cold w)
        bank
        w.dram
        (w1.gc bank).victim_lbn
        (w1.ftl.log.n_valid_chunks_from_heap bank)
      ⊎ IsVictimOf
          (second w)
          bank
          w.dram
          (w1.gc bank).victim_lbn
          (w1.ftl.log.n_valid_chunks_from_heap bank)
  pub least_cold : AtLeast (cold w) bank w.dram (w1.ftl.log.n_valid_chunks_from_heap bank)
  pub least_second : AtLeast (second w) bank w.dram (w1.ftl.log.n_valid_chunks_from_heap bank)
  pub vbn : (w1.gc bank).victim_vbn ≡ get_log_vbn bank (w1.gc bank).victim_lbn w.dram
  pub none_found : (w1.gc bank).n_valid_chunks_in_blk ≡ 0

-- The bank in the state GcRead, at the first page of its victim; the last command reads the list of
-- the victim's data pages from its last page.
pub record IsReading (bank : ℕ) (w1 w' : World) : Type 0 where
  pub gc_state : (w'.gc bank).gc_state ≡ gc_read
  pub page_offset : (w'.gc bank).page_offset ≡ 0
  pub victim : (w'.gc bank).victim_lbn ≡ (w1.gc bank).victim_lbn
  pub none_found : (w'.gc bank).n_valid_chunks_in_blk ≡ (w1.gc bank).n_valid_chunks_in_blk
  pub state : w'.ftl ≡ w1.ftl
  pub issued :
      w'.issued
      ≡ nand_page_ptread bank
          (w1.gc bank).victim_vbn
          127
          0
          8
          (victim_lpn_list bank)
          return_when_done
        ∷ w1.issued

module _ (bank : ℕ) (w : World) (fit_cold : Fits (cold w) bank) (fit_second : Fits (second w) bank)
    (valid_cold : IsValid (cold w) bank w.dram) (valid_second : IsValid (second w) bank w.dram)
    (base_cold : (cold w).first_lbn ≡ 0) (base_second : (second w).first_lbn ≡ 0)
    (num : w.tuning.second_hot_factor_num ≡ 1) (den : w.tuning.second_hot_factor_den ≡ 1)
    (some_blk : (0 < (cold w).n_el_in_heap bank) ⊎ (0 < (second w).n_el_in_heap bank)) where
  abbrev m : Dram
  m = w.dram

  abbrev n_cold : ℕ
  n_cold = get_victim_valid_pages_number (cold w) bank m

  abbrev n_second : ℕ
  n_second = get_victim_valid_pages_number (second w) bank m

  factor :
      u32 (n_second * w.tuning.second_hot_factor_num) / w.tuning.second_hot_factor_den ≡ n_second
  factor =
      rw (num, den) (omega (arith, number-word (second w) bank m ⦃fits = fit_second⦄ valid_second))

  abbrev Picks : HeapData → ℕ → Type 0
  Picks d n =
      (victim_heap bank w ≡ d)
      × IsVictimOf d bank m (get_victim d bank m) n
      × (n ≤ n_cold)
      × (n ≤ n_second)

  second_filled : n_second ≤ n_cold → 0 < (second w).n_el_in_heap bank
  second_filled le = elim some_blk [
    | inl filled ↦
        let small =
          (filled-victim (cold w) bank m ⦃fits = fit_cold⦄ valid_cold base_cold filled).1 in
        number-filled (second w) bank m ⦃fits = fit_second⦄ valid_second (omega (arith, small))
    | inr filled ↦ filled
  ]

  picks : Picks (cold w) n_cold ⊎ Picks (second w) n_second
  picks = elim (dec_le n_second n_cold) [
    | yes le ↦
        let not_cold : takes_cold bank w ≡ false = rw factor (le→ltb-false n_cold n_second le) in
        let filled : 0 < (second w).n_el_in_heap bank = second_filled le in
        inr (
          rw not_cold,
          (filled-victim (second w) bank m ⦃fits = fit_second⦄ valid_second base_second filled).0,
          le,
          omega arith,
        )
    | no gt ↦
        let is_cold : takes_cold bank w ≡ true = rw factor (lt→ltb n_cold n_second (omega arith)) in
        let filled : 0 < (cold w).n_el_in_heap bank =
          number-filled (cold w) bank m ⦃fits = fit_cold⦄ valid_cold
            (omega (arith, number-word (second w) bank m ⦃fits = fit_second⦄ valid_second)) in
        inl (
          rw is_cold,
          (filled-victim (cold w) bank m ⦃fits = fit_cold⦄ valid_cold base_cold filled).0,
          omega arith,
          omega arith,
        )
  ]

  set_up :
      (d : HeapData) (n : ℕ)
      → n ≡ get_victim_valid_pages_number d bank m
      → Picks d n
      → (IsVictimOf d bank m (get_victim d bank m) n
          → IsVictimOf (cold w) bank m (get_victim d bank m) n
            ⊎ IsVictimOf (second w) bank m (get_victim d bank m) n)
      → IsChosen bank w (chosen bank w)
  set_up d n e (vh, victim, below_cold, below_second) side = record {
    victim = rw (vh, ==_self bank) (rw (sym e) (side victim));
    least_cold = λ l hl member.
        rw (vh, ==_self bank)
          (omega (arith, number-AtLeast (cold w) bank m ⦃fits = fit_cold⦄ valid_cold l hl member));
    least_second = λ l hl member.
        rw (vh, ==_self bank)
          (omega
            (arith, number-AtLeast (second w) bank m ⦃fits = fit_second⦄ valid_second l hl member));
    vbn = rw (==_self bank);
    none_found = rw (==_self bank);
  }

  chosen-IsChosen : IsChosen bank w (chosen bank w)
  chosen-IsChosen = elim picks [
    | inl p ↦ set_up (cold w) n_cold refl p inl
    | inr p ↦ set_up (second w) n_second refl p inr
  ]

  -- With both factors 1, and a block in the cold or in the second-usage heap, `initGC` chooses a
  -- block of these heaps with the least number of valid chunks of all their blocks. If it has
  -- valid chunks, the list of its data pages is read and its pages are looked at from the first
  -- one on; if it has none, it is given back at once.
  pub init_gc-IsChosen :
      (hw : Hardware)
      → IsChosen bank w (chosen bank w)
        × ((0 < (chosen bank w).ftl.log.n_valid_chunks_from_heap bank)
              × Ends (IsReading bank (chosen bank w)) (init_gc hw bank w)
            ⊎ ((chosen bank w).ftl.log.n_valid_chunks_from_heap bank ≡ 0)
              × (init_gc hw bank w ≡ release_victim hw bank (chosen bank w)))
  unfolding init_gc
  init_gc-IsChosen hw =
      let n = (chosen bank w).ftl.log.n_valid_chunks_from_heap bank in
      (
        chosen-IsChosen,
        elim (dec_le n 0) [
          | yes empty ↦ inr (omega arith, rw (le→ltb-false 0 n empty))
          | no filled ↦ inl (
            omega arith,
            rw (lt→ltb 0 n (omega arith)) (
                ends (record {
                  gc_state = rw (==_self bank);
                  page_offset = rw (==_self bank);
                  victim = rw (==_self bank);
                  none_found = rw (==_self bank);
                  state = refl;
                  issued = refl;
                })),
          )
        ],
      )
