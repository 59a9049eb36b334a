-- ===== src/Gc/Idle/Tests.antt =====
-- `initGC` on a bank of which one block, without valid chunks, is in the cold heap.
use fast2016_ftl.Common.{ℕ, ◌<◌, ◌≡◌, inl, refl, arith, Ends, leb→le}
use fast2016_ftl.Layout.{heap_valid_chunks_addr_cold}
use fast2016_ftl.Dram.{Dram}
use fast2016_ftl.Heap.{HeapData, reset_valid_chunks_and_remove, insert_blk_in_heap}
use fast2016_ftl.Heap.View.{is_within}
use fast2016_ftl.World.{World, cold}
use fast2016_ftl.Bank.{Blocks, BankView, Shows, IsBank, OnlyRows, drop_blk, join_blk, released}
use fast2016_ftl.Bank.Heaps.{IsPlace, fits, Shows-drop, Shows-join}
use fast2016_ftl.Bank.Drop.{cold-IsBank}
use fast2016_ftl.Bank.Start.{fresh, unused}
use fast2016_ftl.Gc.{init_gc, chosen}
use fast2016_ftl.Gc.Choice.{init_gc-IsChosen}
use fast2016_ftl.Gc.Release.{IsReleased}
use fast2016_ftl.Gc.Idle.{IsExclusive, init_gc-IsBank}
use fast2016_ftl.Gc.Sample.{
  devices, devices-IsHardware, result, Ends-result, started_world, started_world-IsBank,
}

abbrev C : ℕ
C = heap_valid_chunks_addr_cold

place : IsPlace C 3
place = omega arith

started : IsBank 3 fresh started_world
started = started_world-IsBank 3 (omega arith)

-- Block 5 without valid chunks, and then in the cold heap.
abbrev none_valid : HeapData × Dram
none_valid =
    let w = started_world in
    result (cold w, w.dram) (reset_valid_chunks_and_remove (cold w) 3 5 0 w.dram)

abbrev dropped : Blocks
dropped = drop_blk 5 0 (unused 1016)

none_valid-Shows :
    Shows C 3 dropped none_valid.0 none_valid.1 × OnlyRows C 3 started_world.dram none_valid.1
none_valid-Shows =
    let w = started_world in
    Ends-result (cold w, w.dram) (reset_valid_chunks_and_remove (cold w) 3 5 0 w.dram)
      (Shows-drop C 3 place (unused 1016) (cold w) w.dram started.cold_usage 5 0 (omega arith)
        (omega arith) (inl refl))

abbrev dropped_world : World
dropped_world = record started_world {
  ftl = record started_world.ftl { heap_data_cold = none_valid.0 };
  dram = none_valid.1;
}

abbrev in_cold : HeapData × Dram
in_cold = result none_valid (insert_blk_in_heap none_valid.0 3 5 none_valid.1)

abbrev one_blk : BankView
one_blk = record fresh { cold_usage = join_blk 5 dropped }

in_cold-Shows :
    Shows C 3 one_blk.cold_usage in_cold.0 in_cold.1 × OnlyRows C 3 none_valid.1 in_cold.1
in_cold-Shows =
    Ends-result none_valid (insert_blk_in_heap none_valid.0 3 5 none_valid.1) (
      Shows-join C 3 place dropped none_valid.0 none_valid.1 none_valid-Shows.0 5 (omega arith)
        refl)

abbrev cold_world : World
cold_world = record started_world {
  ftl = record started_world.ftl { heap_data_cold = in_cold.0 };
  dram = in_cold.1;
}

cold_world-IsBank : IsBank 3 one_blk cold_world
cold_world-IsBank =
    cold-IsBank 3 (omega arith) (record fresh { cold_usage = dropped }) dropped_world
      (cold-IsBank 3 (omega arith) fresh started_world started dropped none_valid.0 none_valid.1
        none_valid-Shows.0 none_valid-Shows.1)
      one_blk.cold_usage in_cold.0 in_cold.1 in_cold-Shows.0 in_cold-Shows.1

one_blk-IsExclusive : IsExclusive one_blk
one_blk-IsExclusive = record {
  of_cold = λ l member. (refl, refl);
  of_second = λ l member. absurd (ground arith);
}

filled : 0 < (cold cold_world).n_el_in_heap 3
unfolding is_within
filled =
    let s = cold_world-IsBank.cold_usage in
    omega (
      arith,
      leb→le _ _ (s.members 5 (omega arith)),
      s.valid.indexed.pos_IsPos 5 (omega (arith, s.blks)),
    )

no_chunks : (chosen 3 cold_world).ftl.log.n_valid_chunks_from_heap 3 ≡ 0
no_chunks =
    let s = cold_world-IsBank.cold_usage in
    let t = cold_world-IsBank.second_usage in
    let (c, ways) =
      init_gc-IsChosen 3 cold_world (fits C 3 place one_blk.cold_usage _ _ s)
        (fits _ 3 (omega arith) one_blk.second_usage _ _ t) s.valid t.valid s.base t.base refl refl
        (inl filled) devices in
    omega (
      arith,
      c.least_cold 5 (omega (arith, s.blks)) (s.members 5 (omega arith)),
      s.counts 5 (omega arith),
    )

init_gc-IsBank_example :
    Ends
      (λ w'.
        IsBank 3 (released ((chosen 3 cold_world).gc 3).victim_lbn one_blk) w'
        × IsReleased 3 (chosen 3 cold_world) w')
      (init_gc devices 3 cold_world)
init_gc-IsBank_example =
    init_gc-IsBank devices devices-IsHardware 3 (omega arith) one_blk cold_world cold_world-IsBank
      one_blk-IsExclusive (omega arith) refl refl (inl filled) no_chunks
