-- ===== src/Trim.antt =====
-- The TRIM command, `ftl_trim` and `trimRange` of `ftl_page_mapped/ftl.c`. `none` stands for an access
-- outside of the arrays that have an entry for each bank, and for a loop that has used up its fuel.
-- The wait for the buffer manager at the start of `ftl_trim` is left out.
pub mod Whole
pub mod Chunk
mod Tests
use fast2016_ftl.Common.{
  ℕ, zero, suc, ◌+◌, ◌-◌, ◌*◌, ◌/◌, ◌%◌, Bool, true, false, ◌||◌, not, Option, none, some, ltb, leb,
  ◌==◌, if◌then◌else◌, ◌>>=◌, u32, sub32, invalid,
}
use fast2016_ftl.Params.{
  num_banks, data_blk_per_bank, pages_per_blk, chunks_per_page, sectors_per_page, sectors_per_chunk,
  bytes_per_sector,
}
use fast2016_ftl.Layout.{wr_buf_ptr, num_wr_buffers}
use fast2016_ftl.Dram.{read_dram_32, write_dram_32}
use fast2016_ftl.Log.Chunk.{
  ChunkLocation, invalid_chunk, flash_w_log, flash_w_log_encoded, dram_hot_log, dram_cold_log,
  find_chunk_location, chunk_to_bank, chunk_to_lbn,
}
use fast2016_ftl.Loss.{lose_chunk}
use fast2016_ftl.World.{
  World, hot_ctrl, cold_ctrl, set_hot_ctrl, set_cold_ctrl, set_dram, chunks_map_table,
}
use fast2016_ftl.Read.{mapped_addr}
use fast2016_ftl.Rebuild.{forget_chunk}

-- An access to the entry of a bank.
abbrev pub at_bank : ℕ → Option World → Option World
at_bank bank access = if ltb bank num_banks then access else none

-- The `switch` on the location of the old chunk.
pub trim_old : ChunkLocation → ℕ → World → Option World
trim_old invalid_chunk a w = some w
trim_old flash_w_log a w =
    at_bank (chunk_to_bank a) (lose_chunk (chunk_to_bank a) (chunk_to_lbn a) w)
trim_old flash_w_log_encoded a w =
    at_bank (chunk_to_bank a) (lose_chunk (chunk_to_bank a) (chunk_to_lbn a) w)
trim_old dram_hot_log a w =
    let bank = chunk_to_bank a in
    at_bank bank (some (set_hot_ctrl bank (forget_chunk a (hot_ctrl w bank)) w))
trim_old dram_cold_log a w =
    let bank = chunk_to_bank a in
    at_bank bank (some (set_cold_ctrl bank (forget_chunk a (cold_ctrl w bank)) w))

-- A whole chunk.
pub trim_chunk : ℕ → ℕ → World → Option World
trim_chunk lpn chunk_idx w =
    let a = mapped_addr lpn chunk_idx w.dram in
    trim_old (find_chunk_location a) a w >>= λ w1.
    some (set_dram (write_dram_32 (chunks_map_table lpn chunk_idx) invalid w1.dram) w1)

-- `nSectsToTrim`
abbrev pub sects_to_trim : ℕ → ℕ → ℕ
sects_to_trim sect_offset remaining =
    let in_chunk = sect_offset % sectors_per_chunk in
    if ltb (u32 (in_chunk + remaining)) sectors_per_chunk
    then remaining
    else sectors_per_chunk - in_chunk

-- A part of a chunk is not trimmed.
abbrev pub trim_part : ℕ → ℕ → ℕ → ℕ → World → Option World
trim_part lpn chunk_idx sect_offset n w =
    if not (sect_offset % sectors_per_chunk == 0) || ltb n sectors_per_chunk
    then some w
    else trim_chunk lpn chunk_idx w

-- The inner loop, with `k` rounds left. It returns the sectors that remain.
pub trim_page : ℕ → ℕ → ℕ → ℕ → ℕ → World → Option (ℕ × World)
trim_page zero lpn chunk_idx sect_offset remaining w = none
trim_page (suc k) lpn chunk_idx sect_offset remaining w =
    let n = sects_to_trim sect_offset remaining in
    let round =
      trim_part lpn chunk_idx sect_offset n w
      >>= trim_page k lpn (suc chunk_idx) (sect_offset + n) (sub32 remaining n) in
    if remaining == 0 || leb chunks_per_page chunk_idx then some (remaining, w) else round

-- The outer loop, with `k` rounds left. The inner one has one round more than a page has chunks.
pub trim_pages : ℕ → ℕ → ℕ → ℕ → World → Option World
trim_pages zero lpn sect_offset remaining w = none
trim_pages (suc k) lpn sect_offset remaining w =
    let round =
      trim_page (suc chunks_per_page) lpn (sect_offset / sectors_per_chunk) sect_offset remaining w
      >>= λ (left, w1). trim_pages k (u32 (lpn + 1)) 0 left w1 in
    if remaining == 0 then some w else round

-- One round more than there are sectors is enough, since each round but the last takes one.
pub trim_range : ℕ → ℕ → World → Option World
unfolding trim_pages trim_page
trim_range lba n_sectors w =
    trim_pages (suc n_sectors) (lba / sectors_per_page) (lba % sectors_per_page) n_sectors w

-- The ranges of a buffer from word `i` on, with `k` ranges left: the address of the first sector in
-- the first word, and the number of sectors in the upper half of the second.
pub trim_ranges : ℕ → ℕ → ℕ → World → Option World
trim_ranges zero buf i w = some w
trim_ranges (suc k) buf i w =
    let range = read_dram_32 (buf + (i + 1) * 4) w.dram / 65536 in
    let lba = read_dram_32 (buf + i * 4) w.dram in
    let valid = ltb lba (num_banks * data_blk_per_bank * (sectors_per_page * pages_per_blk)) in
    (if range == 0 then some w else if valid then trim_range lba range w else some w)
    >>= trim_ranges k buf (i + 2)

-- `g_ftl_write_buf_id` and the registers BM_STACK_WRSET and BM_STACK_RESET.
pub record WriteSide : Type 0 where
  pub write_buf_id : ℕ
  pub stack_wrset : ℕ
  pub stack_reset : ℕ

-- The loop over the buffers from number `n` on, with `k` buffers left.
pub trim_bufs : ℕ → ℕ → ℕ → ℕ → World → Option World
unfolding trim_ranges
trim_bufs zero id n num_sectors w = some w
trim_bufs (suc k) id n num_sectors w =
    let in_buf = if ltb sectors_per_page num_sectors then sectors_per_page else num_sectors in
    trim_ranges (in_buf * bytes_per_sector / 4 / 2) (wr_buf_ptr ((id + n) % num_wr_buffers)) 0 w
    >>= trim_bufs k id (suc n) (num_sectors - in_buf)

pub ftl_trim : ℕ → WriteSide × World → Option (WriteSide × World)
unfolding trim_bufs
ftl_trim num_sectors (h, w) =
    let n = u32 (num_sectors + sectors_per_page - 1) / sectors_per_page in
    let id = (h.write_buf_id + n) % num_wr_buffers in
    trim_bufs n h.write_buf_id 0 num_sectors w >>= λ w1.
    some (record { write_buf_id = id; stack_wrset = id; stack_reset = 1 }, w1)
