-- ===== src/Trim/Tests.antt =====
-- TRIM on a world in which the firmware has just started, with one chunk of page 5 in the map.
use fast2016_ftl.Common.{ℕ, ◌<◌, ◌≡◌, ◌∙◌, ap, inr, arith, none, Ends}
use fast2016_ftl.Dram.{read-write_self}
use fast2016_ftl.Log.Chunk.{
  flash_w_log, log_chunk_addr, log_buf_chunk_addr, with_cold_flag, with_cold_flag-word,
  log_chunk_addr-word, dram_cold_log, find_chunk_location, find_chunk_location-flash,
  find_chunk_location-buffer, log_chunk_addr-parts, chunk_to_bank, chunk_to_lbn,
}
use fast2016_ftl.World.{World, chunks_map_table}
use fast2016_ftl.Bank.{IsBank}
use fast2016_ftl.Bank.Start.{fresh}
use fast2016_ftl.Gc.Sample.{started_world, started_world-IsBank}
use fast2016_ftl.Loss.View.{lowered}
use fast2016_ftl.Read.View.{entry}
use fast2016_ftl.Trim.{trim_chunk, trim_range}
use fast2016_ftl.Trim.Whole.{trim_whole, trim_range-eq-trim_whole}
use fast2016_ftl.Trim.Chunk.{
  map_chunk, map_chunk-IsBank, IsUnmapped, trim_chunk-outside, trim_chunk-IsBank,
}

trim_range-eq-trim_whole_example : trim_range 323 30 started_world ≡ trim_whole 3 41 started_world
trim_range-eq-trim_whole_example = trim_range-eq-trim_whole 323 30 started_world (omega arith)

-- The entry of a chunk that has been mapped.
entry-map_chunk :
    (a : ℕ) (w : World)
    → a < 4294967296
    → entry 5 (map_chunk 5 2 (omega arith) (omega arith) a w) 2 ≡ a
entry-map_chunk a w h = read-write_self (chunks_map_table 5 2) a w.dram (omega arith) ∙ omega arith

abbrev in_buffer : World
in_buffer =
    map_chunk 5 2 (omega arith) (omega arith) (with_cold_flag (log_buf_chunk_addr 1 4))
      started_world

buffer_addr-word : with_cold_flag (log_buf_chunk_addr 1 4) < 4294967296
unfolding log_buf_chunk_addr
buffer_addr-word = with_cold_flag-word (log_buf_chunk_addr 1 4) (omega arith)

in_buffer-location : find_chunk_location (entry 5 in_buffer 2) ≡ dram_cold_log
in_buffer-location =
    ap find_chunk_location
      (entry-map_chunk (with_cold_flag (log_buf_chunk_addr 1 4)) started_world buffer_addr-word)
    ∙ (find_chunk_location-buffer 1 4 (omega arith) (omega arith)).1

trim_chunk-outside_example : trim_chunk 5 2 in_buffer ≡ none
trim_chunk-outside_example = trim_chunk-outside 5 2 in_buffer (inr in_buffer-location)

abbrev in_flash : World
in_flash = map_chunk 5 2 (omega arith) (omega arith) (log_chunk_addr 2 7 3 1) started_world

in_flash-entry : entry 5 in_flash 2 ≡ log_chunk_addr 2 7 3 1
in_flash-entry =
    entry-map_chunk (log_chunk_addr 2 7 3 1) started_world (log_chunk_addr-word 2 7 3 1)

in_flash-location : find_chunk_location (entry 5 in_flash 2) ≡ flash_w_log
in_flash-location =
    ap find_chunk_location in_flash-entry
    ∙ (find_chunk_location-flash 2 7 3 1 (omega arith) (omega arith) (omega arith) (omega arith)
        (omega arith)).0

in_flash-bank : chunk_to_bank (entry 5 in_flash 2) < 16
in_flash-bank =
    let parts =
      log_chunk_addr-parts 2 7 3 1 (omega arith) (omega arith) (omega arith) (omega arith) in
    omega (arith, ap chunk_to_bank in_flash-entry, parts.0)

trim_chunk-IsBank_example :
    Ends
      (λ w'.
        IsBank
          (chunk_to_bank (entry 5 in_flash 2))
          (lowered (chunk_to_lbn (entry 5 in_flash 2)) fresh)
          w'
        × IsUnmapped 5 2 in_flash w')
      (trim_chunk 5 2 in_flash)
trim_chunk-IsBank_example =
    trim_chunk-IsBank 5 2 (omega arith) (omega arith) fresh in_flash in_flash-location in_flash-bank
      (map_chunk-IsBank 5 2 (omega arith) (omega arith) (log_chunk_addr 2 7 3 1)
        (chunk_to_bank (entry 5 in_flash 2)) fresh started_world in_flash-bank
        (started_world-IsBank (chunk_to_bank (entry 5 in_flash 2)) in_flash-bank))
      (omega arith) (omega arith) (omega arith)
