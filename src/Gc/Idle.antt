-- ===== src/Gc/Idle.antt =====
-- `initGC` on a victim without valid chunks, under the view of the bank.
mod Tests
use fast2016_ftl.Common.{
  ℕ, ◌≤◌, ◌<◌, ◌≡◌, ◌⊎◌, inl, inr, refl, sym, ◌∙◌, true, false, arith, Ends, ==_self,
}
use fast2016_ftl.Params.{num_banks}
use fast2016_ftl.Layout.{
  heap_valid_chunks_addr_first_usage, heap_valid_chunks_addr_second_usage,
  heap_valid_chunks_addr_cold,
}
use fast2016_ftl.CleanList.Queue.{length}
use fast2016_ftl.Heap.{HeapData}
use fast2016_ftl.Heap.View.{count}
use fast2016_ftl.Dram.{Dram}
use fast2016_ftl.Flash.{Hardware}
use fast2016_ftl.Flash.Laws.{IsHardware}
use fast2016_ftl.World.{World, second, cold}
use fast2016_ftl.Bank.{Blocks, BankView, Shows, IsBank, IsDroppable, released}
use fast2016_ftl.Bank.Heaps.{IsPlace, fits}
use fast2016_ftl.Gc.{init_gc, chosen}
use fast2016_ftl.Gc.Choice.{IsVictimOf, IsChosen, init_gc-IsChosen}
use fast2016_ftl.Gc.Release.{IsReleased, release_victim-IsBank}

-- A block of the cold or of the second-usage heap is in no other heap.
pub record IsExclusive (v : BankView) : Type 0 where
  pub of_cold :
      (l : ℕ)
      → v.cold_usage.members l ≡ true
      → (v.first_usage.members l ≡ false) × (v.second_usage.members l ≡ false)
  pub of_second :
      (l : ℕ)
      → v.second_usage.members l ≡ true
      → (v.first_usage.members l ≡ false) × (v.cold_usage.members l ≡ false)

-- The victim of a heap, as the view shows it.
victim-shown :
    (start bank : ℕ) (b : Blocks) (d : HeapData) (m : Dram) (l n : ℕ)
    → Shows start bank b d m
    → IsVictimOf d bank m l n
    → (l < 512) × (b.members l ≡ true) × IsDroppable l b
victim-shown start bank b d m l n s victim =
    let small : l < 512 = omega (arith, victim.least.blk, s.blks) in
    (
      small,
      sym (s.members l small) ∙ victim.least.member,
      inr λ x h is. omega (
        arith,
        s.counts l small,
        s.counts x h,
        victim.least.least x (omega (arith, s.blks)) (s.members x h ∙ is),
      ),
    )

module _ (hw : Hardware) (ok : IsHardware hw) (bank : ℕ) (hb : bank < num_banks) (v : BankView)
    (w : World) (is : IsBank bank v w) (exclusive : IsExclusive v)
    (room : length v.clean_queue < 512) where
  abbrev victim_blk : ℕ
  victim_blk = ((chosen bank w).gc bank).victim_lbn

  chosen-IsBank : IsBank bank v (chosen bank w)
  chosen-IsBank = record {
    first_usage = is.first_usage;
    second_usage = is.second_usage;
    cold_usage = is.cold_usage;
    clean = is.clean;
  }

  droppable :
      IsChosen bank w (chosen bank w)
      → (victim_blk < 512)
        × IsDroppable victim_blk v.first_usage
        × IsDroppable victim_blk v.second_usage
        × IsDroppable victim_blk v.cold_usage
  droppable c = elim c.victim [
    | inl victim ↦
        let (small, member, drop) =
          victim-shown _ bank v.cold_usage (cold w) w.dram victim_blk _ is.cold_usage victim in
        let (out1, out2) = exclusive.of_cold victim_blk member in (small, inl out1, inl out2, drop)
    | inr victim ↦
        let (small, member, drop) =
          victim-shown _ bank v.second_usage (second w) w.dram victim_blk _ is.second_usage
            victim in
        let (out1, out2) = exclusive.of_second victim_blk member in
        (small, inl out1, drop, inl out2)
  ]

  module _ (num : w.tuning.second_hot_factor_num ≡ 1) (den : w.tuning.second_hot_factor_den ≡ 1)
      (some_blk : (0 < (cold w).n_el_in_heap bank) ⊎ (0 < (second w).n_el_in_heap bank)) where
    -- `initGC`, with both factors 1, on a bank whose victim has no valid chunks ends at once: the
    -- victim leaves the three heaps and is the last block of the queue of clean blocks, it is
    -- erased, and the collection is over. A block of the cold or of the second-usage heap must be
    -- in no other heap, one of these two heaps must have a block, and the queue must have room.
    pub init_gc-IsBank :
        (chosen bank w).ftl.log.n_valid_chunks_from_heap bank ≡ 0
        → Ends
            (λ w'. IsBank bank (released victim_blk v) w' × IsReleased bank (chosen bank w) w')
            (init_gc hw bank w)
    init_gc-IsBank empty =
        let place_cold : IsPlace heap_valid_chunks_addr_cold bank = omega arith in
        let place_second : IsPlace heap_valid_chunks_addr_second_usage bank = omega arith in
        let (c, ways) =
          init_gc-IsChosen bank w
            (fits heap_valid_chunks_addr_cold bank place_cold v.cold_usage (cold w) w.dram
              is.cold_usage)
            (fits heap_valid_chunks_addr_second_usage bank place_second v.second_usage (second w)
              w.dram is.second_usage)
            is.cold_usage.valid is.second_usage.valid is.cold_usage.base is.second_usage.base num
            den some_blk hw in
        let (small, in_first, in_second, in_cold) = droppable c in
        elim ways [
          | inl (filled, e) ↦ absurd (omega arith)
          | inr (e, released_at_once) ↦ rw released_at_once (
              release_victim-IsBank hw ok bank hb v (chosen bank w) chosen-IsBank small in_first
                in_second in_cold room)
        ]
