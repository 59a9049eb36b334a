-- ===== src/Gc/Tests.antt =====
-- The theorems of the garbage collector on the world after the start, and on small heaps.
use fast2016_ftl.Common.{
  ℕ, ◌+◌, ◌*◌, ◌/◌, ◌%◌, ◌<◌, ◌≡◌, ◌≢◌, ◌⊎◌, inl, refl, false, arith, Ends, none,
}
use fast2016_ftl.Params.{num_channels}
use fast2016_ftl.Dram.{Dram, read_dram_32, write_dram_32, real_addr}
use fast2016_ftl.Log.Chunk.{cold_flag}
use fast2016_ftl.Heap.Sample.{six, memory, six-Fits, six-IsValid}
use fast2016_ftl.World.{World, victim_lpn_list}
use fast2016_ftl.Bank.{IsBank, released}
use fast2016_ftl.Bank.Start.{fresh}
use fast2016_ftl.Gc.{init_gc, release_victim, chosen, scan_page, is_marked, victim_lpns}
use fast2016_ftl.Gc.Banks.{choose_banks, Found, choose_banks-Found}
use fast2016_ftl.Gc.Choice.{IsChosen, IsReading, init_gc-IsChosen}
use fast2016_ftl.Gc.Page.{IsPage}
use fast2016_ftl.Gc.Recycled.{plain_page, scan_page-IsPage, scan_page-stops}
use fast2016_ftl.Gc.Release.{IsReleased, release_victim-IsBank}
use fast2016_ftl.Gc.Sample.{
  blank, zero_ftl, idle_bank, off, devices, devices-IsHardware, started_world, started_world-IsBank,
}

choose_banks-Found_example :
    ((5 % num_channels ≡ 2) × (choose_banks zero_ftl.log.clean_list_data_write 1 5 2 ≡ 5))
    ⊎ ((5 % num_channels ≢ 2)
        × Found zero_ftl.log.clean_list_data_write 1 2
            (5 / num_channels * num_channels + 2)
            (choose_banks zero_ftl.log.clean_list_data_write 1 5 2))
choose_banks-Found_example =
    choose_banks-Found zero_ftl.log.clean_list_data_write 1 5 2 (omega arith) (omega arith)

-- A world with the heap of six blocks as the cold one and as that of the second usage.
abbrev two_heaps : World
two_heaps = record off {
  ftl = record zero_ftl { heap_data_second_usage = six; heap_data_cold = six };
  dram = memory;
}

init_gc-IsChosen_example :
    IsChosen 0 two_heaps (chosen 0 two_heaps)
    × ((0 < (chosen 0 two_heaps).ftl.log.n_valid_chunks_from_heap 0)
          × Ends (IsReading 0 (chosen 0 two_heaps)) (init_gc devices 0 two_heaps)
        ⊎ ((chosen 0 two_heaps).ftl.log.n_valid_chunks_from_heap 0 ≡ 0)
          × (init_gc devices 0 two_heaps ≡ release_victim devices 0 (chosen 0 two_heaps)))
init_gc-IsChosen_example =
    init_gc-IsChosen 0 two_heaps six-Fits six-Fits six-IsValid six-IsValid refl refl refl refl
      (inl (omega arith)) devices

release_victim-IsBank_example :
    Ends
      (λ w'. IsBank 3 (released 7 fresh) w' × IsReleased 3 started_world w')
      (release_victim devices 3 started_world)
release_victim-IsBank_example =
    release_victim-IsBank devices devices-IsHardware 3 (omega arith) fresh started_world
      (started_world-IsBank 3 (omega arith)) (omega arith) (inl refl) (inl refl) (inl refl)
      (omega arith)

blank-unmarked : (x chunk : ℕ) → is_marked (victim_lpns 3 x blank chunk) ≡ false
unfolding read_dram_32 cold_flag
blank-unmarked x chunk = refl

scan_page-IsPage_example :
    Ends (IsPage 3 blank false idle_bank) (scan_page devices 3 blank idle_bank)
scan_page-IsPage_example =
    scan_page-IsPage devices devices-IsHardware 3 blank idle_bank (omega arith) false
      (plain_page (λ x h. blank-unmarked 125 x))

-- The first chunk of page 125 belongs to page 5 and bears the mark, the second lacks it.
abbrev mixed : Dram
mixed = write_dram_32 (victim_lpn_list 3 + 4000) (2147483648 + 5) blank

scan_page-stops_example : scan_page devices 3 mixed idle_bank ≡ none
unfolding read_dram_32 write_dram_32 real_addr cold_flag
scan_page-stops_example =
    scan_page-stops devices 3 mixed idle_bank 0 1 (omega arith) (omega arith) refl refl
      (omega arith)
