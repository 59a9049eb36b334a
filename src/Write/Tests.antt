-- ===== src/Write/Tests.antt =====
-- Writes on the worlds of `Host/Sample` and `Gc/Sample`: a chunk that is in a log buffer is written
-- anew, and a part of one that is encoded in flash.
use fast2016_ftl.Common.{
  ℕ, ap, ◌∙◌, ◌<◌, ◌-◌, inl, ◌+◌, ◌*◌, ◌≡◌, ◌>>=◌, refl, arith, Bool, false, Option, none, some,
  List, u32, Ends,
}
use fast2016_ftl.Layout.{wr_buf_ptr}
use fast2016_ftl.Dram.{read-write_self, read_dram_32, write_dram_32, real_addr}
use fast2016_ftl.Log.{IncreaseLpn, LogCtrlBlock}
use fast2016_ftl.Log.Chunk.{
  flash_w_log_encoded, log_chunk_addr, log_chunk_addr-word, with_cold_flag, with_cold_flag-word,
  without_cold_flag, without_cold_flag-with, log_chunk_addr-parts, find_chunk_location-flash,
  chunk_to_bank, find_chunk_location, log_buf_chunk_addr, find_chunk_location-buffer,
}
use fast2016_ftl.Flash.{FlashCommand}
use fast2016_ftl.World.{World, chunks_map_table}
use fast2016_ftl.Bank.Start.{fresh}
use fast2016_ftl.Gc.Sample.{started_world, started_world-IsBank, started_world-Started}
use fast2016_ftl.Trim.Chunk.{map_chunk, map_chunk-IsBank}
use fast2016_ftl.Read.View.{entry}
use fast2016_ftl.Host.Sample.{stored, readers, full_world}
use fast2016_ftl.Trim.{WriteSide}
use fast2016_ftl.Write.{LogSide, hot_log, cold_log, Writer, init_write, write_chunk_new, next_place}
use fast2016_ftl.Write.Old.{sects_to_write, write_chunk_old}
use fast2016_ftl.Write.Old.Bounds.{write_chunk_new-inside}
use fast2016_ftl.Write.Old.Buffer.{IsReady, IsAtChunk}
use fast2016_ftl.Write.Old.Overrun.{write_chunk_old-overrun}
use fast2016_ftl.Write.Old.Logged.{IsOld}
use fast2016_ftl.Write.Old.Written.{Replaced, IsUnflashed, hot, write_chunk_old-IsWritten}
use fast2016_ftl.Write.Request.{ftl_write_to}
use fast2016_ftl.Write.Request.Whole.{write_whole, ftl_write_to-eq-write_whole}

abbrev never_busy : List FlashCommand → ℕ → Bool
never_busy issued bank = false

abbrev no_next : IncreaseLpn → LogSide → ℕ → World → Option World
no_next f side bank w = none

-- Chunk 3 of page 5, to the cold log.
abbrev whole_chunk : Writer
whole_chunk = init_write 11 cold_log 5 24 8

old_entry : entry 5 full_world 3 ≡ log_buf_chunk_addr 1 4
unfolding read_dram_32 write_dram_32 real_addr log_buf_chunk_addr
old_entry = refl

old-IsUnflashed : IsUnflashed (find_chunk_location (entry 5 full_world 3))
old-IsUnflashed =
    let here = find_chunk_location-buffer 1 4 (omega arith) (omega arith) in
    rw old_entry (rw (here.0) hot)

whole_chunk-IsAtChunk : IsAtChunk 2 whole_chunk
whole_chunk-IsAtChunk = record {
  buf = omega arith;
  bank = omega arith;
  lpn = omega arith;
  inside = omega arith;
  aligned = refl;
  whole = omega arith;
  small = omega arith;
}

cold-IsReady : IsReady cold_log 11 full_world
cold-IsReady = record { at = refl; room = omega arith; plain = refl; none_ahead = refl }

write_chunk_old-IsWritten_example :
    (let a = entry 5 full_world 3 in
      Ends
        (Replaced readers never_busy no_next stored
          (IsOld (find_chunk_location a) a)
          2
          whole_chunk
          full_world)
        (write_chunk_old readers never_busy no_next 2 (whole_chunk, full_world)))
write_chunk_old-IsWritten_example =
    write_chunk_old-IsWritten readers never_busy no_next stored 2 whole_chunk full_world
      whole_chunk-IsAtChunk cold-IsReady old-IsUnflashed

abbrev idle : WriteSide
idle = record { write_buf_id = 3; stack_wrset = 3; stack_reset = 1 }

ftl_write_to-eq-write_whole_example :
    ftl_write_to readers never_busy no_next hot_log 320 64 (7, idle, full_world) ≡ (
      write_whole readers never_busy no_next hot_log 8 40 (idle, full_world) >>= λ (h1, w1).
      some (71, h1, w1))
ftl_write_to-eq-write_whole_example =
    ftl_write_to-eq-write_whole readers never_busy no_next hot_log 320 64 7 idle full_world refl
      refl (omega arith)

-- Four sectors behind the second one of a chunk.
abbrev part_of_chunk : Writer
part_of_chunk = init_write 11 cold_log 5 26 4

-- The old copy of the chunk is encoded in flash.
abbrev encoded_chunk : ℕ
encoded_chunk = with_cold_flag (log_chunk_addr 2 7 3 1)

abbrev encoded : World
encoded = map_chunk 5 3 (omega arith) (omega arith) encoded_chunk started_world

encoded-entry : entry 5 encoded 3 ≡ encoded_chunk
encoded-entry =
    let word = with_cold_flag-word (log_chunk_addr 2 7 3 1) (log_chunk_addr-word 2 7 3 1) in
    read-write_self (chunks_map_table 5 3) encoded_chunk started_world.dram (omega arith)
    ∙ omega (arith, word)

encoded-location : find_chunk_location (entry 5 encoded 3) ≡ flash_w_log_encoded
encoded-location =
    ap find_chunk_location encoded-entry
    ∙ (find_chunk_location-flash 2 7 3 1 (omega arith) (omega arith) (omega arith) (omega arith)
        (omega arith)).1

abbrev old_bank : ℕ
old_bank = chunk_to_bank (without_cold_flag (entry 5 encoded 3))

old_bank-lt : old_bank < 16
old_bank-lt =
    let parts =
      log_chunk_addr-parts 2 7 3 1 (omega arith) (omega arith) (omega arith) (omega arith) in
    let real =
      without_cold_flag-with 2 7 3 1 (omega arith) (omega arith) (omega arith) (omega arith) in
    let e : old_bank ≡ chunk_to_bank (log_chunk_addr 2 7 3 1) =
      ap (λ a. chunk_to_bank (without_cold_flag a)) encoded-entry ∙ ap chunk_to_bank real in
    omega (arith, e, parts.0)

encoded-IsReady : IsReady cold_log 11 encoded
encoded-IsReady =
    let e = (started_world-Started 11 (omega arith)).cold in
    record {
      at = ap (λ (c : LogCtrlBlock). c.log_buffer_addr) e;
      room = omega (arith, ap (λ (c : LogCtrlBlock). c.chunk_ptr) e);
      plain = ap (λ (c : LogCtrlBlock). c.update_chunk_ptr) e;
      none_ahead = ap (λ (c : LogCtrlBlock). c.next_low_page_offset) e;
    }

write_chunk_old-overrun_example :
    Ends
      (λ (q', w').
        read_dram_32 (next_place part_of_chunk encoded + 4096 + 4 * 5) w'.dram
        ≡ u32 (read_dram_32 (wr_buf_ptr 2 + 13312 + 3072 + 4 * 5) encoded.dram))
      (write_chunk_old readers never_busy no_next 2 (part_of_chunk, encoded))
write_chunk_old-overrun_example =
    write_chunk_old-overrun readers never_busy no_next 2 part_of_chunk encoded fresh 5 (omega arith)
      (omega arith) (omega arith) (omega arith) encoded-IsReady (omega arith) encoded-location
      old_bank-lt
      (map_chunk-IsBank 5 3 (omega arith) (omega arith) encoded_chunk old_bank fresh started_world
        old_bank-lt (started_world-IsBank old_bank old_bank-lt))
      (omega arith) (omega arith) (omega arith)

-- The word in front of the place of the chunk.
write_chunk_new-inside_example :
    (let a = next_place part_of_chunk full_world - 4 in
      read_dram_32 a
        (write_chunk_new 2 (sects_to_write part_of_chunk) part_of_chunk full_world).dram
      ≡ read_dram_32 a full_world.dram)
write_chunk_new-inside_example =
    write_chunk_new-inside 2 part_of_chunk full_world (next_place part_of_chunk full_world - 4)
      (omega arith) (omega arith) (omega arith) (omega arith) (inl (omega arith))
