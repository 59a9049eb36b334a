-- ===== src/Write/Flush.antt =====
-- A full log buffer is written to flash: `flushLogBuffer`, `flushLogBufferRecycledPage`,
-- `updateChunkPtr` and `updateChunkPtrRecycledPage` of `ftl_page_mapped/write.c`, and
-- `precacheLowPage` of `ftl_page_mapped/log.c`. The functions that the field `increaseLpn` may point to
-- are an argument, and so is `isBankBusy`, which reads a register. `none` is a loop that does not end.
use fast2016_ftl.Common.{
  ℕ, zero, suc, ◌+◌, ◌-◌, ◌%◌, Bool, true, false, not, ◌&&◌, Option, none, some, ◌==◌,
  if◌then◌else◌, ◌>>=◌, u32, invalid, List, ltb, ◌<◌, ◌≡◌, refl, arith, ==_self,
}
use fast2016_ftl.Params.{chunks_per_page, chunks_per_recycled_page, sectors_per_page}
use fast2016_ftl.Layout.{precache_for_encoding}
use fast2016_ftl.Dram.{Dram, write_dram_32}
use fast2016_ftl.Heap.{decrement_valid_chunks_by_n}
use fast2016_ftl.Log.{IncreaseLpn, LogCtrlBlock, UpdateChunkPtr, any_page, recycled_page}
use fast2016_ftl.Log.Chunk.{with_cold_flag}
use fast2016_ftl.Log.Complete.{log_page_to_offset, log_page_to_log_blk}
use fast2016_ftl.Flash.{
  Hardware, FlashCommand, nand_page_program, nand_page_ptread, return_on_issue,
}
use fast2016_ftl.World.{
  World, hot_ctrl, cold_ctrl, second, set_dram, on_dram, issue, program, get_log_vbn,
  chunks_map_table, chunk_in_lpns_list, write_words,
}
use fast2016_ftl.Loss.{lose_chunk}
use fast2016_ftl.Gc.Write.{dst_chunk_addr, map_page}
use fast2016_ftl.Write.{LogSide, hot_log, cold_log, ctrl, set_ctrl}

-- The word of the list of data pages for chunk `i`, and the entry of the map.
abbrev list_word : LogCtrlBlock → ℕ → ℕ → Dram → Dram
list_word c i lpn m =
    write_dram_32 (chunk_in_lpns_list c.lpns_list_addr (log_page_to_offset c.log_lpn) i) lpn m

abbrev map_word : LogCtrlBlock → ℕ → ℕ → Dram → Dram
map_word c i addr m = write_dram_32 (chunks_map_table (c.data_lpn i) (c.chunk_idx i)) addr m

-- The loop for a buffer with chunks that are not valid any more.
pub flush_chunks : ℕ → ℕ → LogCtrlBlock → ℕ → World → Option World
flush_chunks zero bank c i w = some w
flush_chunks (suc k) bank c i w =
    let w1 = set_dram (list_word c i (c.data_lpn i) w.dram) w in
    let mapped = some (set_dram (map_word c i (dst_chunk_addr bank c.log_lpn i) w1.dram) w1) in
    (if c.data_lpn i == invalid then lose_chunk bank (log_page_to_log_blk c.log_lpn) w1 else mapped)
    >>= flush_chunks k bank c (suc i)

-- The address of an encoded chunk.
abbrev encoded_addr : ℕ → LogCtrlBlock → ℕ → ℕ
encoded_addr bank c i = u32 (with_cold_flag (dst_chunk_addr bank c.log_lpn 0) + i)

-- The loop of `flushLogBufferRecycledPage` over the map, for a buffer with valid chunks only.
pub map_encoded : ℕ → ℕ → LogCtrlBlock → ℕ → Dram → Dram
map_encoded zero bank c i m = m
map_encoded (suc k) bank c i m =
    map_encoded k bank c (suc i) (map_word c i (encoded_addr bank c i) m)

-- The loop for a buffer with chunks that are not valid any more. It returns the number of valid ones.
pub flush_encoded : ℕ → ℕ → LogCtrlBlock → ℕ → ℕ → Dram → ℕ × Dram
flush_encoded zero bank c i valid m = (valid, m)
flush_encoded (suc k) bank c i valid m =
    let lost = c.data_lpn i == invalid in
    let m1 = if lost then m else map_word c i (encoded_addr bank c i) m in
    flush_encoded k bank c (suc i) (if lost then valid else (valid + 1) % 256)
      (list_word c i (with_cold_flag (c.data_lpn i)) m1)

-- `dataLpn[i] |= ColdLogBufBitFlag` for the chunks of a recycled page.
abbrev flagged : LogCtrlBlock → ℕ → ℕ
flagged c i = if ltb i chunks_per_recycled_page then with_cold_flag (c.data_lpn i) else c.data_lpn i

pub precache_low_page : Hardware → LogSide → ℕ → World → World
precache_low_page hw side bank w =
    let c = ctrl side w bank in
    let vbn = get_log_vbn bank (log_page_to_log_blk c.log_lpn) w.dram in
    let w1 =
      issue hw
        (nand_page_ptread bank vbn c.next_low_page_offset 0 sectors_per_page
          (precache_for_encoding bank) return_on_issue)
        w in
    set_ctrl side bank (record (ctrl side w1 bank) { precache_done = true }) w1

module _ (hw : Hardware) (busy : List FlashCommand → ℕ → Bool)
    (increase : IncreaseLpn → LogSide → ℕ → World → Option World) where
  -- `ctrlBlock_[bank_].increaseLpn(bank_, ctrlBlock_)`, after the flag for lost chunks is reset.
  abbrev step_lpn : LogSide → ℕ → World → Option World
  step_lpn side bank w = increase (ctrl side w bank).increase_lpn side bank w

  abbrev all_valid : LogSide → ℕ → World → World
  all_valid side bank w =
      set_ctrl side bank (record (ctrl side w bank) { all_chunks_in_log_are_valid = true }) w

  -- The program of the page from the log buffer.
  abbrev program_buffer : LogSide → ℕ → World → World
  program_buffer side bank w =
      let c = ctrl side w bank in
      let vbn = get_log_vbn bank (log_page_to_log_blk c.log_lpn) w.dram in
      program hw sectors_per_page
        (nand_page_program bank vbn (log_page_to_offset c.log_lpn) c.log_buffer_addr
          return_on_issue)
        w

  abbrev copy_lpns : ℕ → LogCtrlBlock → (ℕ → ℕ) → Dram → Dram
  copy_lpns k c lpns m =
      write_words k (chunk_in_lpns_list c.lpns_list_addr (log_page_to_offset c.log_lpn) 0) lpns 0 m

  pub flush_log_buffer : LogSide → ℕ → World → Option World
  unfolding flush_chunks
  flush_log_buffer side bank w =
      let c = ctrl side w bank in
      let w1 = program_buffer side bank w in
      let m = copy_lpns chunks_per_page c c.data_lpn w1.dram in
      let mapped =
        set_dram (map_page chunks_per_page bank c.log_lpn c.data_lpn c.chunk_idx 0 m) w1 in
      let some_lost = flush_chunks chunks_per_page bank c 0 w1 >>= λ w2.
      step_lpn side bank (all_valid side bank w2) in
      if c.all_chunks_in_log_are_valid then step_lpn side bank mapped else some_lost

  -- The end of a recycled page: `n` chunks of the block are taken off the heap of the second usage.
  abbrev recycled_lost : ℕ → LogSide → ℕ → ℕ → World → Option World
  recycled_lost n side bank log_lpn w =
      on_dram (decrement_valid_chunks_by_n (second w) bank (log_page_to_log_blk log_lpn) n) w
      >>= step_lpn side bank

  pub flush_log_buffer_recycled_page : LogSide → ℕ → World → Option World
  unfolding map_encoded flush_encoded
  flush_log_buffer_recycled_page side bank w =
      let c = ctrl side w bank in
      let w1 = if c.precache_done then w else precache_low_page hw side bank w in
      let w2 = program_buffer side bank w1 in
      let w3 = set_ctrl side bank (record (ctrl side w2 bank) { data_lpn = flagged c }) w2 in
      let m =
        copy_lpns chunks_per_recycled_page c (flagged c)
          (map_encoded chunks_per_recycled_page bank c 0 w3.dram) in
      let flushed = flush_encoded chunks_per_recycled_page bank c 0 0 w3.dram in
      let some_lost =
        recycled_lost (u32 (chunks_per_page - flushed.0)) side bank c.log_lpn
          (all_valid side bank (set_dram (flushed.1) w3)) in
      if c.next_low_page_offset == log_page_to_offset c.log_lpn
      then (if c.all_chunks_in_log_are_valid
          then recycled_lost (chunks_per_page - chunks_per_recycled_page) side bank c.log_lpn
              (set_dram m w3)
          else some_lost)
      else none

  -- The end of the two functions: the low page is read ahead.
  abbrev precache_idle : LogSide → ℕ → World → World
  precache_idle side bank w =
      let c = ctrl side w bank in
      if not (c.next_low_page_offset == invalid) && not c.precache_done && not (busy w.issued bank)
      then precache_low_page hw side bank w
      else w

  -- `ctrlBlock_[bank_].updateChunkPtr()`: `updateChunkPtr` or `updateChunkPtrRecycledPage`.
  abbrev pub advance : ℕ → LogSide → ℕ → World → World
  advance n side bank w =
      let c = ctrl side w bank in
      set_ctrl side bank (record c { chunk_ptr = (c.chunk_ptr + 1) % n }) w

  pub update_chunk_ptr : LogSide → ℕ → World → Option World
  update_chunk_ptr side bank w =
      let w1 = advance chunks_per_page side bank w in
      if (ctrl side w1 bank).chunk_ptr == 0
      then flush_log_buffer side bank w1
      else some (precache_idle side bank w1)

  pub update_chunk_ptr_recycled_page : LogSide → ℕ → World → Option World
  update_chunk_ptr_recycled_page side bank w =
      let w1 = advance chunks_per_recycled_page side bank w in
      if (ctrl side w1 bank).chunk_ptr == 0
      then flush_log_buffer_recycled_page side bank w1
      else some (precache_idle side bank w1)

  pub call_update : UpdateChunkPtr → LogSide → ℕ → World → Option World
  call_update any_page side bank w = update_chunk_ptr side bank w
  call_update recycled_page side bank w = update_chunk_ptr_recycled_page side bank w

  -- A chunk that is not the last one of its page, and no page to be read ahead.
  pub call_update-advance :
      (side : LogSide) (bank : ℕ) (w : World)
      → (ctrl side w bank).chunk_ptr < chunks_per_page - 1
      → (ctrl side w bank).next_low_page_offset ≡ invalid
      → call_update any_page side bank w ≡ some (advance chunks_per_page side bank w)
  unfolding call_update update_chunk_ptr
  call_update-advance hot_log bank w room none_ahead =
      let z : ((hot_ctrl w bank).chunk_ptr + 1) % chunks_per_page == 0 ≡ false = ground arith in
      rw (==_self bank) (rw z (rw none_ahead refl))
  call_update-advance cold_log bank w room none_ahead =
      let z : ((cold_ctrl w bank).chunk_ptr + 1) % chunks_per_page == 0 ≡ false = ground arith in
      rw (==_self bank) (rw z (rw none_ahead refl))
