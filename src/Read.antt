-- ===== src/Read.antt =====
-- The rebuilding of a data page from the log, `rebuildPageToFtlBuf` of `ftl_page_mapped/read.c` with
-- the functions that it calls. The chunks of the page are gathered in the first
-- buffer of the translation layer. `flash_finish` waits and changes no state.
pub mod View
pub mod Gather
pub mod Copy
pub mod Flash
pub mod Encoded
pub mod Served
use fast2016_ftl.Common.{
  ℕ, zero, suc, ◌+◌, ◌-◌, ◌*◌, ◌/◌, ◌%◌, Bool, true, false, ◌&&◌, Option, none, some, ltb, ◌==◌,
  if◌then◌else◌, ◌>>=◌, u32, sub32, invalid,
}
use fast2016_ftl.Params.{
  chunks_per_page, sectors_per_page, sectors_per_chunk, sectors_per_encoded_chunk, bytes_per_chunk,
  bytes_per_sector, words_per_chunk, words_per_sector,
}
use fast2016_ftl.Layout.{temp_buf_addr, ftl_buf, rd_buf_ptr, num_rd_buffers}
use fast2016_ftl.Dram.{Dram, read_dram_32}
use fast2016_ftl.CleanList.{put}
use fast2016_ftl.Log.{LogCtrlBlock}
use fast2016_ftl.Log.Chunk.{
  ChunkLocation, invalid_chunk, flash_w_log, flash_w_log_encoded, dram_hot_log, dram_cold_log,
  find_chunk_location, without_cold_flag, chunk_to_bank, chunk_to_lbn, chunk_to_page_offset,
  chunk_to_sect_offset,
}
use fast2016_ftl.Flash.{Hardware, nand_page_ptread, return_when_done}
use fast2016_ftl.Loss.{lose_chunk}
use fast2016_ftl.World.{
  World, hot_ctrl, cold_ctrl, set_hot_ctrl, set_cold_ctrl, set_dram, issue, get_log_vbn,
  chunks_map_table, copy_words, set_words,
}

-- GcMode and ReadMode
pub data Mode : Type 0 where
  gc_mode read_mode : Mode

-- The globals that `initRead` sets.
pub record Request : Type 0 where
  pub lpn : ℕ
  pub sect_offset : ℕ
  pub n_sects : ℕ
  pub mode : Mode
  pub last_chunk : ℕ

-- `chunksDone_` and the world.
abbrev pub Progress : Type 0
Progress = (ℕ → Bool) × World

abbrev pub mark_done : (ℕ → Bool) → ℕ → ℕ → Bool
mark_done done idx c = if c == idx then true else done c

-- `chunksInPage`, `srcChunkByteOffsets` and `chunkIdxs`, of which only the first `chunksInPage` entries
-- are read.
pub record Sources : Type 0 where
  pub chunks_in_page : ℕ
  pub src_offsets : ℕ → ℕ
  pub chunk_idxs : ℕ → ℕ

-- `read_dram_32(ChunksMapTable(lpn_, i))`
abbrev pub mapped_addr : ℕ → ℕ → Dram → ℕ
mapped_addr lpn i m = read_dram_32 (chunks_map_table lpn i) m

abbrev pub src_offset_of : ℕ → ℕ
src_offset_of chunk_addr = chunk_to_sect_offset chunk_addr * bytes_per_sector

pub chunks_in_same_flash_page : ℕ → ℕ → Bool
chunks_in_same_flash_page a b =
    chunk_to_bank a == chunk_to_bank b
    && chunk_to_lbn a == chunk_to_lbn b
    && chunk_to_page_offset a == chunk_to_page_offset b

abbrev pub one_source : ℕ → ℕ → Sources
one_source old idx = record {
  chunks_in_page = 1;
  src_offsets = λ j. src_offset_of old;
  chunk_idxs = λ j. idx;
}

abbrev pub add_source : ℕ → ℕ → Sources → Sources
add_source addr i s = record {
  chunks_in_page = suc s.chunks_in_page;
  src_offsets = put s.src_offsets s.chunks_in_page (src_offset_of addr);
  chunk_idxs = put s.chunk_idxs s.chunks_in_page i;
}

-- The `switch` of `setupFlashPageRead` on the location of the next chunk.
pub join_source : ChunkLocation → ℕ → ℕ → ℕ → Sources → Sources
join_source flash_w_log old next i s =
    if chunks_in_same_flash_page old next then add_source next i s else s
join_source invalid_chunk old next i s = s
join_source flash_w_log_encoded old next i s = s
join_source dram_hot_log old next i s = s
join_source dram_cold_log old next i s = s

-- The loop over the chunks from `i` on, with `k` chunks left.
pub setup_flash_page_read : ℕ → ℕ → ℕ → (ℕ → Bool) → Dram → ℕ → Sources → Sources
setup_flash_page_read zero lpn old done m i s = s
setup_flash_page_read (suc k) lpn old done m i s =
    let next = mapped_addr lpn i m in
    setup_flash_page_read k lpn old done m (suc i)
      (if done i then s else join_source (find_chunk_location next) old next i s)

-- The `switch` of `setupFlashPageReadEncoded`.
pub join_source_encoded : ChunkLocation → ℕ → ℕ → ℕ → Sources → Sources
join_source_encoded flash_w_log_encoded old next i s =
    let real = without_cold_flag next in
    if chunks_in_same_flash_page old real then add_source real i s else s
join_source_encoded invalid_chunk old next i s = s
join_source_encoded flash_w_log old next i s = s
join_source_encoded dram_hot_log old next i s = s
join_source_encoded dram_cold_log old next i s = s

pub setup_flash_page_read_encoded : ℕ → ℕ → ℕ → (ℕ → Bool) → Dram → ℕ → Sources → Sources
setup_flash_page_read_encoded zero lpn old done m i s = s
setup_flash_page_read_encoded (suc k) lpn old done m i s =
    let next = mapped_addr lpn i m in
    setup_flash_page_read_encoded k lpn old done m (suc i)
      (if done i then s else join_source_encoded (find_chunk_location next) old next i s)

-- A read in `GcMode` takes the chunk from its block.
pub account : Mode → ℕ → ℕ → World → Option World
account gc_mode bank lbn w = lose_chunk bank lbn w
account read_mode bank lbn w = some w

-- `mem_copy` of a chunk.
abbrev pub copy_chunk : ℕ → ℕ → World → World
copy_chunk dst src w = set_dram (copy_words words_per_chunk dst src w.dram) w

-- The loop of `readCompletePage` over the sources from `j` on, with `k` of them left.
pub copy_sources : ℕ → Mode → ℕ → Sources → ℕ → Progress → Option Progress
copy_sources zero mode old s j p = some p
copy_sources (suc k) mode old s j (done, w) =
    let idx = s.chunk_idxs j in
    account mode (chunk_to_bank old) (chunk_to_lbn old)
      (copy_chunk (ftl_buf 0 + idx * bytes_per_chunk) (temp_buf_addr + s.src_offsets j) w)
    >>= λ w1. copy_sources k mode old s (suc j) (mark_done done idx, w1)

-- `nand_page_ptread` of a part of the page of a chunk.
abbrev pub read_part : Hardware → ℕ → ℕ → ℕ → ℕ → World → World
read_part hw chunk_addr sect n_sects buf w =
    let bank = chunk_to_bank chunk_addr in
    issue hw
      (nand_page_ptread bank (get_log_vbn bank (chunk_to_lbn chunk_addr) w.dram)
        (chunk_to_page_offset chunk_addr) sect n_sects buf return_when_done)
      w

pub read_complete_page : Hardware → Mode → ℕ → Sources → Progress → Option Progress
unfolding copy_sources
read_complete_page hw mode old s (done, w) =
    copy_sources s.chunks_in_page mode old s 0
      (done, read_part hw old 0 sectors_per_page temp_buf_addr w)

-- `FTL_BUF(0) + (chunkIdxs[0]*BYTES_PER_CHUNK) - srcChunkByteOffsets[0]`
abbrev pub aligned_dst : Sources → ℕ
aligned_dst s = sub32 (ftl_buf 0 + s.chunk_idxs 0 * bytes_per_chunk) (s.src_offsets 0)

pub read_one_chunk : Hardware → Mode → ℕ → Sources → World → Option World
unfolding account
read_one_chunk hw mode old s w =
    account mode (chunk_to_bank old) (chunk_to_lbn old)
      (read_part hw old (s.src_offsets 0 / bytes_per_sector) sectors_per_chunk (aligned_dst s) w)

pub read_one_chunk_encoded : Hardware → Mode → ℕ → Sources → World → Option World
unfolding account
read_one_chunk_encoded hw mode old s w = account mode (chunk_to_bank old) (chunk_to_lbn old) (
    copy_chunk (aligned_dst s) temp_buf_addr (
      read_part hw old (s.src_offsets 0 / bytes_per_sector) sectors_per_encoded_chunk temp_buf_addr
        w))

-- Nothing is decoded yet: `readCompletePageEncoded` does the same as `readCompletePage`.
abbrev pub read_complete_page_encoded : Hardware → Mode → ℕ → Sources → Progress → Option Progress
read_complete_page_encoded hw mode old s p = read_complete_page hw mode old s p

-- `readFlashPage` and `readFlashPageEncoded`; `none` is the `while(1)` of the latter.
pub read_flash_page : Hardware → Mode → ℕ → Sources → Progress → Option Progress
read_flash_page hw mode old s (done, w) =
    if ltb 2 s.chunks_in_page
    then read_complete_page hw mode old s (done, w)
    else (read_one_chunk hw mode old s w >>= λ w1. some (done, w1))

pub read_flash_page_encoded : Hardware → Mode → ℕ → Sources → Progress → Option Progress
read_flash_page_encoded hw mode old s (done, w) =
    if ltb 3 s.chunks_in_page
    then none
    else if ltb 1 s.chunks_in_page
    then read_complete_page_encoded hw mode old s (done, w)
    else (read_one_chunk_encoded hw mode old s w >>= λ w1. some (done, w1))

pub chunk_in_flash_log : Hardware → Request → ℕ → ℕ → Progress → Option Progress
unfolding setup_flash_page_read
chunk_in_flash_log hw q idx old (done, w) =
    read_flash_page hw q.mode old
      (setup_flash_page_read (q.last_chunk - suc idx) q.lpn old done w.dram (suc idx)
        (one_source old idx))
      (done, w)

pub chunk_in_flash_log_encoded : Hardware → Request → ℕ → ℕ → Progress → Option Progress
unfolding setup_flash_page_read_encoded
chunk_in_flash_log_encoded hw q idx old (done, w) =
    read_flash_page_encoded hw q.mode old
      (setup_flash_page_read_encoded (q.last_chunk - suc idx) q.lpn old done w.dram (suc idx)
        (one_source old idx))
      (done, w)
