-- ===== src/Write.antt =====
-- The host's writes on their way to a log buffer: `ftl_page_mapped/write.c`. `Writer` has the globals
-- of that file, with `ctrlBlock_` as a side of the log. A wait for a bank changes no state and is left
-- out. OPTION_NO_DRAM_ABSORB is 1, OPTION_DEBUG_WRITE and WOMCanFail are 0.
pub mod Flush
pub mod Old
pub mod Page
pub mod Request
mod Tests
use fast2016_ftl.Common.{ℕ, ◌+◌, ◌-◌, ◌*◌, ◌/◌, ◌%◌, Bool, ◌==◌, if◌then◌else◌, u32, invalid}
use fast2016_ftl.Params.{
  num_banks, chunks_per_page, sectors_per_chunk, bytes_per_sector, bytes_per_chunk, words_per_chunk,
  words_per_sector,
}
use fast2016_ftl.Layout.{wr_buf_ptr}
use fast2016_ftl.Dram.{write_dram_32}
use fast2016_ftl.CleanList.{put}
use fast2016_ftl.Log.{LogCtrlBlock}
use fast2016_ftl.Log.Chunk.{
  with_cold_flag, log_buf_chunk_addr, chunk_to_bank, chunk_to_lbn, chunk_to_page_offset,
  chunk_to_sect_offset, chunk_to_chunk_offset,
}
use fast2016_ftl.Flash.{Hardware, nand_page_ptread, return_when_done}
use fast2016_ftl.World.{
  World, hot_ctrl, cold_ctrl, set_hot_ctrl, set_cold_ctrl, set_dram, issue, get_log_vbn,
  chunks_map_table, copy_words, set_words,
}

-- `hotLogCtrl` and `coldLogCtrl`
pub data LogSide : Type 0 where
  hot_log cold_log : LogSide

-- `ctrlBlock_[bank]`, and an assignment to it.
abbrev pub ctrl : LogSide → World → ℕ → LogCtrlBlock
ctrl hot_log w = hot_ctrl w
ctrl cold_log w = cold_ctrl w

abbrev pub set_ctrl : LogSide → ℕ → LogCtrlBlock → World → World
set_ctrl hot_log bank c w = set_hot_ctrl bank c w
set_ctrl cold_log bank c w = set_cold_ctrl bank c w

pub record Writer : Type 0 where
  pub bank : ℕ
  pub side : LogSide
  pub lpn : ℕ
  pub sect_offset : ℕ
  pub n_sects : ℕ
  pub remaining_sects : ℕ

pub choose_new_bank : ℕ → ℕ
choose_new_bank chunk_number = chunk_number % num_banks

abbrev pub init_write : ℕ → LogSide → ℕ → ℕ → ℕ → Writer
init_write bank side data_lpn sect_offset n_sects = record {
  bank = bank;
  side = side;
  lpn = data_lpn;
  sect_offset = sect_offset;
  n_sects = n_sects;
  remaining_sects = n_sects;
}

-- The place in the log buffer for the next chunk.
abbrev pub next_place : Writer → World → ℕ
next_place q w = let c = ctrl q.side w q.bank in c.log_buffer_addr + c.chunk_ptr * bytes_per_chunk

-- `id` is `g_ftl_write_buf_id`.
pub write_chunk_new : ℕ → ℕ → Writer → World → World
write_chunk_new id n_sects_to_write q w =
    let src = wr_buf_ptr id + q.sect_offset * bytes_per_sector in
    let dst = next_place q w in
    let m =
      if n_sects_to_write == sectors_per_chunk
      then w.dram
      else set_words words_per_chunk dst invalid w.dram in
    set_dram
      (copy_words (n_sects_to_write * words_per_sector)
        (dst + q.sect_offset % sectors_per_chunk * bytes_per_sector) src m)
      w

-- The address in the log of the next chunk of the log buffer.
abbrev pub buffer_addr : LogSide → ℕ → ℕ → ℕ
buffer_addr hot_log bank chunk_ptr = log_buf_chunk_addr bank chunk_ptr
buffer_addr cold_log bank chunk_ptr = with_cold_flag (log_buf_chunk_addr bank chunk_ptr)

pub update_dram_buf_metadata : Writer → World → World
update_dram_buf_metadata q w =
    let idx = q.sect_offset / sectors_per_chunk in
    let c = ctrl q.side w q.bank in
    let c' = record c {
      data_lpn = put c.data_lpn c.chunk_ptr q.lpn;
      chunk_idx = put c.chunk_idx c.chunk_ptr idx;
    } in
    set_dram
      (write_dram_32 (chunks_map_table q.lpn idx) (buffer_addr q.side q.bank c.chunk_ptr) w.dram)
      (set_ctrl q.side q.bank c' w)

-- The old chunk is read to the place of the new one, and the new sectors are copied over it.
pub write_partial_chunk_when_old_chunk_is_in_flash_log :
    Hardware → ℕ → ℕ → ℕ → Writer → World → World
write_partial_chunk_when_old_chunk_is_in_flash_log hw id n_sects_to_write old q w =
    let src = wr_buf_ptr id + q.sect_offset / sectors_per_chunk * bytes_per_chunk in
    let start = q.sect_offset % sectors_per_chunk * bytes_per_sector in
    let old_bank = chunk_to_bank old in
    let vbn = get_log_vbn old_bank (chunk_to_lbn old) w.dram in
    let dst = next_place q w in
    let aligned = dst - chunk_to_chunk_offset old * bytes_per_chunk in
    let w1 =
      issue hw
        (nand_page_ptread old_bank vbn (chunk_to_page_offset old) (chunk_to_sect_offset old)
          sectors_per_chunk aligned return_when_done)
        w in
    set_dram (copy_words (n_sects_to_write * words_per_sector) (dst + start) (src + start) w1.dram)
      w1
