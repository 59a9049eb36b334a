-- ===== src/Gc/Write/Tests.antt =====
-- The write of a page, and the step to the next page of the cold log, on small worlds.
use fast2016_ftl.Common.{
  ℕ, ◌+◌, ◌*◌, ◌<◌, ◌≡◌, ◌≢◌, ◌∙◌, refl, Option, none, some, arith, ◌==◌, Ends,
}
use fast2016_ftl.Dram.{Dram, InDram}
use fast2016_ftl.Log.Chunk.{log_chunk_addr}
use fast2016_ftl.Log.{IncreaseLpn, LogCtrlBlock, cold_start}
use fast2016_ftl.Log.Fill.{range}
use fast2016_ftl.Log.Cold.{increase_lpn_cold_blk}
use fast2016_ftl.Log.Cold.Next.{IsFirstPage, increase_lpn_cold_blk-IsFirstPage}
use fast2016_ftl.World.{World, GcBank, gc_write, set_cold_ctrl}
use fast2016_ftl.Bank.{IsBank, join_blk}
use fast2016_ftl.Bank.Start.{fresh}
use fast2016_ftl.Gc.Sample.{
  off, blank, idle_bank, devices, devices-IsHardware, started_world, started_world-IsBank,
}
use fast2016_ftl.Gc.Write.{map_page, call_increase, write_page, increase_cold}
use fast2016_ftl.Gc.Write.Takes.{Takes}
use fast2016_ftl.Gc.Write.Full.{entry, InPlace, IsCopied, write_page-IsCopied, map_page-entry}

-- The functions for a recycled block, and a collection in a collection, stop.
abbrev stop : IncreaseLpn → ℕ → World → Option World
stop f bank w = none

abbrev stop_gc : ℕ → World → Option World
stop_gc bank w = none

abbrev next_page : IncreaseLpn → ℕ → World → Option World
next_page = increase_cold 3 stop_gc devices stop

-- A page with one valid chunk, of five of its block.
abbrev one_chunk : GcBank
one_chunk = record idle_bank {
  gc_state = gc_write;
  n_valid_chunks_in_page = 1;
  n_valid_chunks_in_blk = 5;
  valid_chunks = λ c. c == 2;
}

-- The cold log of the bank is at the second page of block 1, with five chunks in the buffer.
abbrev partial : World
partial =
    set_cold_ctrl 3 (record (cold_start 3 1) { log_lpn = 129; chunk_ptr = 5 })
      (record off { gc = λ b. one_chunk })

-- Eight chunks of data page 6, to which the map leads.
abbrev full_page : GcBank
full_page = record one_chunk {
  n_valid_chunks_in_page = 8;
  data_lpns = λ c. 6;
  data_chunk_offsets = λ c. c;
}

abbrev place : ℕ → ℕ
place = entry 3 128 (λ c. 6) (λ c. c)

abbrev full_map : Dram
full_map = map_page 8 3 (7 * 128 + 125) (λ c. 6) (λ c. c) 0 blank

abbrev eight : World
eight = record off { gc = λ b. full_page; dram = full_map }

place-InDram : (c : ℕ) → c < 8 → InDram (place c)
place-InDram c h = omega arith

place-apart : (c c' : ℕ) → c < c' → c' < 8 → place c ≢ place c'
place-apart c c' less h = omega arith

eight-InPlace : (c : ℕ) → c < 8 → InPlace devices next_page 3 eight c
unfolding log_chunk_addr
eight-InPlace c h =
    map_page-entry 3 (7 * 128 + 125) (λ c. 6) (λ c. c) 8 0 blank
      (λ x low high. place-InDram x (omega arith))
      (λ x y low less high. place-apart x y less (omega arith)) c (omega arith) (omega arith)
    ∙ omega arith

write_page-IsCopied_example :
    (w' : World) × (write_page devices next_page 3 eight ≡ call_increase devices next_page 3 w')
    × IsCopied devices next_page 3 eight w'
write_page-IsCopied_example =
    write_page-IsCopied devices next_page 3 eight refl eight-InPlace place-InDram place-apart

-- Bank 3 at the last used page of block 1.
abbrev full_ctrl : LogCtrlBlock
full_ctrl = record (cold_start 3 1) { log_lpn = 254 }

abbrev full_blk : World
full_blk = set_cold_ctrl 3 full_ctrl started_world

full_blk-IsBank : IsBank 3 fresh full_blk
full_blk-IsBank =
    let is = started_world-IsBank 3 (omega arith) in
    record {
      first_usage = is.first_usage;
      second_usage = is.second_usage;
      cold_usage = is.cold_usage;
      clean = is.clean;
    }

abbrev collects_none : ℕ → World → Option World
collects_none bank w = some w

increase_lpn_cold_blk-IsFirstPage_example :
    Ends
      (IsFirstPage 3 (record fresh { cold_usage = join_blk 1 fresh.cold_usage }) 2 (range 3 509))
      (increase_lpn_cold_blk 1 collects_none devices 3 full_blk)
increase_lpn_cold_blk-IsFirstPage_example =
    increase_lpn_cold_blk-IsFirstPage devices devices-IsHardware 3 (omega arith) fresh full_blk
      full_blk-IsBank 0 collects_none 2 (range 3 509) (omega arith) (omega arith) (omega arith) refl
      refl refl (omega arith)
