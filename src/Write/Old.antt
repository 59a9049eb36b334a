-- ===== src/Write/Old.antt =====
-- A part of a page is written chunk by chunk: `writeChunkOld` and `writePartialPageOld` of
-- `ftl_page_mapped/write.c`, with `manageOldChunkForCompletePageWrite`.
pub mod Bounds
pub mod Buffer
pub mod Dropped
pub mod Finished
pub mod Logged
pub mod Overrun
pub mod Recorded
pub mod Written
use fast2016_ftl.Common.{
  ℕ, zero, suc, ◌+◌, ◌-◌, ◌*◌, ◌/◌, ◌%◌, Bool, true, false, not, ◌&&◌, Option, none, some, ltb,
  ◌==◌, if◌then◌else◌, ◌>>=◌, u32, sub32, invalid, List,
}
use fast2016_ftl.Params.{chunks_per_page, sectors_per_chunk}
use fast2016_ftl.CleanList.{put}
use fast2016_ftl.Log.{IncreaseLpn, LogCtrlBlock}
use fast2016_ftl.Log.Chunk.{
  ChunkLocation, invalid_chunk, flash_w_log, flash_w_log_encoded, dram_hot_log, dram_cold_log,
  find_chunk_location, without_cold_flag, chunk_to_bank, chunk_to_lbn, chunk_to_sect_offset,
}
use fast2016_ftl.Flash.{Hardware, FlashCommand}
use fast2016_ftl.World.{World, GcState, gc_idle, gc_read, gc_write, set_log}
use fast2016_ftl.Loss.{lose_chunk}
use fast2016_ftl.Read.{mapped_addr}
use fast2016_ftl.Write.{
  LogSide, hot_log, cold_log, ctrl, set_ctrl, Writer, write_chunk_new, update_dram_buf_metadata,
  write_partial_chunk_when_old_chunk_is_in_flash_log,
}
use fast2016_ftl.Write.Flush.{call_update}

-- `gcState[bank] != GcIdle`
abbrev is_collecting : GcState → Bool
is_collecting gc_idle = false
is_collecting gc_read = true
is_collecting gc_write = true

-- The collector is told if it is at work on the block.
abbrev pub tell_gc : ℕ → ℕ → World → World
tell_gc bank lbn w =
    let log = w.ftl.log in
    let told = record log {
      n_valid_chunks_from_heap =
          put log.n_valid_chunks_from_heap bank (sub32 (log.n_valid_chunks_from_heap bank) 1);
    } in
    let g = w.gc bank in
    if is_collecting g.gc_state && (lbn == g.victim_lbn) then set_log told w else w

-- The old copy in flash is no longer valid.
pub lose_old : ℕ → ℕ → World → Option World
lose_old bank lbn w = lose_chunk bank lbn w >>= λ w1. some (tell_gc bank lbn w1)

-- The old copy in a log buffer is no longer valid.
abbrev pub drop_old : ℕ → LogCtrlBlock → LogCtrlBlock
drop_old offset c = record c {
  data_lpn = put c.data_lpn offset invalid;
  all_chunks_in_log_are_valid = false;
}

abbrev pub drop_old_idx : ℕ → LogCtrlBlock → LogCtrlBlock
drop_old_idx offset c = record (drop_old offset c) { chunk_idx = put c.chunk_idx offset invalid }

pub manage_old_chunk_for_complete_page_write : ChunkLocation → ℕ → World → Option World
manage_old_chunk_for_complete_page_write invalid_chunk a w = some w
manage_old_chunk_for_complete_page_write flash_w_log a w =
    lose_old (chunk_to_bank a) (chunk_to_lbn a) w
manage_old_chunk_for_complete_page_write flash_w_log_encoded a w =
    let real = without_cold_flag a in lose_old (chunk_to_bank real) (chunk_to_lbn real) w
manage_old_chunk_for_complete_page_write dram_hot_log a w =
    let bank = chunk_to_bank a in
    some (set_ctrl hot_log bank (drop_old (a % chunks_per_page) (ctrl hot_log w bank)) w)
manage_old_chunk_for_complete_page_write dram_cold_log a w =
    let real = without_cold_flag a in
    let bank = chunk_to_bank real in
    some (set_ctrl cold_log bank (drop_old (real % chunks_per_page) (ctrl cold_log w bank)) w)

-- The `switch` of `writeChunkOld`, up to the call of `updateDramBufMetadata` that ends each case.
pub replace_chunk : ChunkLocation → Hardware → ℕ → ℕ → ℕ → Writer → World → Option World
replace_chunk invalid_chunk hw id n a q w = some (write_chunk_new id n q w)
replace_chunk flash_w_log hw id n a q w = lose_old (chunk_to_bank a) (chunk_to_lbn a) (
    if n == sectors_per_chunk
    then write_chunk_new id n q w
    else write_partial_chunk_when_old_chunk_is_in_flash_log hw id n a q w)
replace_chunk flash_w_log_encoded hw id n a q w =
    let real = without_cold_flag a in
    lose_old (chunk_to_bank real) (chunk_to_lbn real) (write_chunk_new id sectors_per_chunk q w)
replace_chunk dram_hot_log hw id n a q w =
    let bank = chunk_to_bank a in
    let offset = chunk_to_sect_offset a / sectors_per_chunk in
    some
      (write_chunk_new id n q (set_ctrl hot_log bank (drop_old_idx offset (ctrl hot_log w bank)) w))
replace_chunk dram_cold_log hw id n a q w =
    let real = without_cold_flag a in
    let bank = chunk_to_bank real in
    let offset = chunk_to_sect_offset real / sectors_per_chunk in
    some (
      write_chunk_new id n q
        (set_ctrl cold_log bank (drop_old_idx offset (ctrl cold_log w bank)) w))

-- `nSectsToWrite`
abbrev pub sects_to_write : Writer → ℕ
sects_to_write q =
    let in_chunk = q.sect_offset % sectors_per_chunk in
    if ltb (u32 (in_chunk + q.remaining_sects)) sectors_per_chunk
    then q.remaining_sects
    else sectors_per_chunk - in_chunk

abbrev pub advanced : ℕ → Writer → Writer
advanced n q = record q {
  sect_offset = u32 (q.sect_offset + n);
  remaining_sects = sub32 q.remaining_sects n;
}

module _ (hw : Hardware) (busy : List FlashCommand → ℕ → Bool)
    (increase : IncreaseLpn → LogSide → ℕ → World → Option World) where
  pub write_chunk_old : ℕ → Writer × World → Option (Writer × World)
  unfolding replace_chunk
  write_chunk_old id (q, w) =
      let n = sects_to_write q in
      let a = mapped_addr q.lpn (q.sect_offset / sectors_per_chunk) w.dram in
      replace_chunk (find_chunk_location a) hw id n a q w >>= λ w1.
      let w2 = update_dram_buf_metadata q w1 in
      call_update hw busy increase (ctrl q.side w2 q.bank).update_chunk_ptr q.side q.bank w2
      >>= λ w3. some (advanced n q, w3)

  -- With `k` rounds left; `none` means that the fuel ran out.
  pub write_partial_page_old : ℕ → ℕ → Writer × World → Option (Writer × World)
  write_partial_page_old zero id s = none
  write_partial_page_old (suc k) id (q, w) =
      let round = write_chunk_old id (q, w) >>= write_partial_page_old k id in
      if q.remaining_sects == 0 then some (q, w) else round
