-- ===== src/Rebuild.antt =====
-- The rebuilding of a data page, `rebuildPageToFtlBuf` of `ftl_page_mapped/read.c`: each chunk of the
-- request comes from where it is in the log. `flash_finish` waits and changes no state.
pub mod Page
use fast2016_ftl.Common.{
  ℕ, zero, suc, ◌+◌, ◌-◌, ◌*◌, ◌/◌, ◌%◌, Bool, true, false, Option, none, some, ◌==◌, if◌then◌else◌,
  ◌>>=◌, u32, invalid,
}
use fast2016_ftl.Params.{chunks_per_page, sectors_per_chunk, bytes_per_chunk, words_per_chunk}
use fast2016_ftl.Layout.{ftl_buf}
use fast2016_ftl.Dram.{read_dram_32}
use fast2016_ftl.CleanList.{put}
use fast2016_ftl.Log.{LogCtrlBlock}
use fast2016_ftl.Log.Chunk.{
  ChunkLocation, invalid_chunk, flash_w_log, flash_w_log_encoded, dram_hot_log, dram_cold_log,
  find_chunk_location, without_cold_flag, chunk_to_bank,
}
use fast2016_ftl.Flash.{Hardware}
use fast2016_ftl.World.{
  World, hot_ctrl, cold_ctrl, set_hot_ctrl, set_cold_ctrl, set_dram, set_words,
}
use fast2016_ftl.Read.{
  Mode, gc_mode, read_mode, Request, Progress, mark_done, copy_chunk, src_offset_of, mapped_addr,
  chunk_in_flash_log, chunk_in_flash_log_encoded,
}

pub init_read : ℕ → ℕ → ℕ → Mode → Request
init_read data_lpn sect_offset n_sects mode = record {
  lpn = data_lpn;
  sect_offset = sect_offset;
  n_sects = n_sects;
  mode = mode;
  last_chunk = u32 (sect_offset + n_sects + sectors_per_chunk - 1) / sectors_per_chunk;
}

-- The chunk leaves the log buffer in `GcMode`.
abbrev pub forget_chunk : ℕ → LogCtrlBlock → LogCtrlBlock
forget_chunk chunk c = record c { data_lpn = put c.data_lpn (chunk % chunks_per_page) invalid }

pub forget_hot : Mode → ℕ → World → World
forget_hot read_mode a w = w
forget_hot gc_mode a w =
    let bank = chunk_to_bank a in set_hot_ctrl bank (forget_chunk a (hot_ctrl w bank)) w

pub forget_cold : Mode → ℕ → World → World
forget_cold read_mode a w = w
forget_cold gc_mode a w =
    let bank = chunk_to_bank a in set_cold_ctrl bank (forget_chunk a (cold_ctrl w bank)) w

-- The `switch` of `rebuildPageToFtlBuf` on the location of the chunk.
pub rebuild_chunk : ChunkLocation → Hardware → Request → ℕ → ℕ → Progress → Option Progress
rebuild_chunk invalid_chunk hw q idx a (done, w) =
    let dst = ftl_buf 0 + idx * bytes_per_chunk in
    some (done, set_dram (set_words words_per_chunk dst invalid w.dram) w)
rebuild_chunk flash_w_log hw q idx a p = chunk_in_flash_log hw q idx a p
rebuild_chunk flash_w_log_encoded hw q idx a p =
    chunk_in_flash_log_encoded hw q idx (without_cold_flag a) p
rebuild_chunk dram_hot_log hw q idx a (done, w) =
    let dst = ftl_buf 0 + idx * bytes_per_chunk in
    let src = (hot_ctrl w (chunk_to_bank a)).log_buffer_addr + src_offset_of a in
    some (done, forget_hot q.mode a (copy_chunk dst src w))
rebuild_chunk dram_cold_log hw q idx a (done, w) =
    let real = without_cold_flag a in
    let dst = ftl_buf 0 + idx * bytes_per_chunk in
    let src = (cold_ctrl w (chunk_to_bank real)).log_buffer_addr + src_offset_of real in
    some (done, forget_cold q.mode real (copy_chunk dst src w))

-- The loop over the chunks of the request from `idx` on, with `k` chunks left.
pub rebuild_chunks : ℕ → Hardware → Request → ℕ → Progress → Option Progress
rebuild_chunks zero hw q idx p = some p
rebuild_chunks (suc k) hw q idx (done, w) =
    let a = mapped_addr q.lpn idx w.dram in
    let rebuilt = rebuild_chunk (find_chunk_location a) hw q idx a (mark_done done idx, w) in
    (if done idx then some (done, w) else rebuilt) >>= rebuild_chunks k hw q (suc idx)

pub rebuild_page_to_ftl_buf : Hardware → ℕ → ℕ → ℕ → Mode → World → Option World
unfolding init_read rebuild_chunks
rebuild_page_to_ftl_buf hw data_lpn sect_offset n_sects mode w =
    let q = init_read data_lpn sect_offset n_sects mode in
    let start = sect_offset / sectors_per_chunk in
    rebuild_chunks (q.last_chunk - start) hw q start (λ c. false, w) >>= λ (done, w1). some w1
