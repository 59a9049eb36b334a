-- ===== src/Bank/Start.antt =====
-- The banks as `init_metadata_sram` leaves them.
use fast2016_ftl.Common.{ℕ, ◌+◌, ◌<◌, false, Ends, Ends-weaken}
use fast2016_ftl.Params.{num_banks}
use fast2016_ftl.Dram.{Dram}
use fast2016_ftl.Heap.{HeapData}
use fast2016_ftl.Heap.Region.{IsEmptyHeap}
use fast2016_ftl.Log.Fill.{range}
use fast2016_ftl.Ftl.{init_metadata_sram}
use fast2016_ftl.Ftl.Start.{init_metadata_sram-IsReady}
use fast2016_ftl.World.{World}
use fast2016_ftl.Bank.{Blocks, BankView, Shows, IsBank}

-- No block is in a heap, and each has the number `v`.
abbrev pub unused : ℕ → Blocks
unused v = record { counts = λ l. v; members = λ l. false }

-- Blocks 0 and 1 are being written, the others are clean.
abbrev pub fresh : BankView
fresh = record {
  first_usage = unused 1008;
  second_usage = unused 1016;
  cold_usage = unused 1016;
  clean_queue = range 2 510;
}

empty-Shows :
    (start bank v : ℕ) (d : HeapData) (m : Dram)
    → bank < num_banks
    → IsEmptyHeap d start (start + 32768) 512 v m
    → Shows start bank (unused v) d m
empty-Shows start bank v d m hb h = record {
  els_at = h.els_at;
  positions_at = h.positions_at;
  blks = h.blks_per_bank;
  base = h.base;
  valid = h.valid bank hb;
  counts = λ l small. h.counts bank l hb small;
  members = λ l small. h.outside bank l hb small;
}

-- `init_metadata_sram` ends, and each bank then stands for the fresh view: all blocks with the number
-- of chunks of their usage, none in a heap, and all but the first two clean.
pub init_metadata_sram-IsBank :
    (w : World)
    → Ends
        (λ (s, m).
          (bank : ℕ) → bank < num_banks → IsBank bank fresh (record w { ftl = s; dram = m }))
        (init_metadata_sram w.ftl w.dram)
init_metadata_sram-IsBank w =
    Ends-weaken (init_metadata_sram-IsReady w.ftl w.dram) λ (s, m) ready bank hb. record {
      first_usage = empty-Shows _ bank 1008 s.heap_data_first_usage m hb ready.first_usage;
      second_usage = empty-Shows _ bank 1016 s.heap_data_second_usage m hb ready.second_usage;
      cold_usage = empty-Shows _ bank 1016 s.heap_data_cold m hb ready.cold;
      clean = (ready.log bank hb).clean;
    }
