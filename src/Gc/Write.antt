-- ===== src/Gc/Write.antt =====
-- The valid chunks of a victim's page on their way to the cold log: `writePage` of
-- `ftl_page_mapped/garbage_collection.c`, and the functions of `ftl_page_mapped/write.c` that write a
-- chunk during a collection. The functions that the field `increaseLpn` may point to are an
-- argument. The copy of a chunk waits for the bank, which changes no state.
pub mod Page
pub mod Full
pub mod Takes
mod Tests
use fast2016_ftl.Common.{
  ℕ, zero, suc, ◌+◌, ◌*◌, ◌/◌, ◌%◌, Bool, true, false, Option, none, some, ◌==◌, if◌then◌else◌,
  ◌>>=◌, u32, sub32, invalid,
}
use fast2016_ftl.Params.{
  chunks_per_page, sectors_per_page, sectors_per_chunk, bytes_per_page, log_blk_per_bank,
  chunks_per_blk,
}
use fast2016_ftl.Dram.{Dram, read_dram_32, write_dram_32}
use fast2016_ftl.Heap.{decrement_valid_chunks}
use fast2016_ftl.CleanList.{put}
use fast2016_ftl.Log.{
  IncreaseLpn, LogCtrlBlock, hot_blk_first_usage, hot_blk_second_usage, cold_blk, cold_blk_reused,
}
use fast2016_ftl.Log.Chunk.{with_cold_flag, log_chunk_addr, log_buf_chunk_addr}
use fast2016_ftl.Log.Cold.{increase_lpn_cold_blk}
use fast2016_ftl.Log.Complete.{log_page_to_offset, log_page_to_log_blk}
use fast2016_ftl.Flash.{Hardware, nand_page_program, return_on_issue}
use fast2016_ftl.World.{
  World, GcBank, gc_read, gc_write, GcState, gc_idle, first, second, cold, cold_ctrl, set_cold_ctrl,
  set_dram, on_dram, set_gc, program, get_log_vbn, chunks_map_table, chunk_in_lpns_list, gc_buf,
  write_words, copy_words,
}

-- The address in the log of a chunk of the page `log_lpn` of the bank.
abbrev pub dst_chunk_addr : ℕ → ℕ → ℕ → ℕ
dst_chunk_addr bank log_lpn i =
    u32 (bank * log_blk_per_bank * chunks_per_blk + log_lpn * chunks_per_page + i)

-- The loop over the chunks of the log buffer, with `k` chunks left: the map leads to the page in
-- flash, or, for a chunk that is no longer valid, the block loses it in each heap.
pub map_chunks : ℕ → ℕ → ℕ → LogCtrlBlock → ℕ → World → Option World
map_chunks zero bank log_lpn c i w = some w
map_chunks (suc k) bank log_lpn c i w =
    let lbn = log_page_to_log_blk log_lpn in
    let mapped = some (
      set_dram
        (write_dram_32 (chunks_map_table (c.data_lpn i) (c.chunk_idx i))
          (dst_chunk_addr bank log_lpn i) w.dram)
        w) in
    let lost = on_dram (decrement_valid_chunks (first w) bank lbn) w >>= λ w1.
    on_dram (decrement_valid_chunks (second w1) bank lbn) w1 >>= λ w2.
    on_dram (decrement_valid_chunks (cold w2) bank lbn) w2 in
    (if c.data_lpn i == invalid then lost else mapped) >>= map_chunks k bank log_lpn c (suc i)

-- The loop for a buffer with valid chunks only.
pub map_page : ℕ → ℕ → ℕ → (ℕ → ℕ) → (ℕ → ℕ) → ℕ → Dram → Dram
map_page zero bank log_lpn data_lpn chunk_idx i m = m
map_page (suc k) bank log_lpn data_lpn chunk_idx i m =
    map_page k bank log_lpn data_lpn chunk_idx (suc i) (
      write_dram_32 (chunks_map_table (data_lpn i) (chunk_idx i)) (dst_chunk_addr bank log_lpn i) m)

-- The program of a page of the cold log from `buf`, and the copy of its data pages to the list.
abbrev pub program_page : Hardware → ℕ → ℕ → (ℕ → ℕ) → World → World
program_page hw bank buf lpns w =
    let c = cold_ctrl w bank in
    let page = log_page_to_offset c.log_lpn in
    let vbn = get_log_vbn bank (log_page_to_log_blk c.log_lpn) w.dram in
    let w1 = program hw sectors_per_page (nand_page_program bank vbn page buf return_on_issue) w in
    set_dram
      (write_words chunks_per_page (chunk_in_lpns_list c.lpns_list_addr page 0) lpns 0 w1.dram) w1

-- The function that the field `increaseLpn` of the cold log points to. Those for a recycled block are
-- an argument, and so is the collector that `increaseLpnColdBlk` calls, with the rounds of its loop.
abbrev pub increase_cold :
    ℕ
    → (ℕ → World → Option World)
    → Hardware
    → (IncreaseLpn → ℕ → World → Option World)
    → IncreaseLpn
    → ℕ
    → World
    → Option World
increase_cold k gc hw other hot_blk_first_usage = other hot_blk_first_usage
increase_cold k gc hw other hot_blk_second_usage = other hot_blk_second_usage
increase_cold k gc hw other cold_blk = increase_lpn_cold_blk k gc hw
increase_cold k gc hw other cold_blk_reused = other cold_blk_reused

module _ (hw : Hardware) (increase : IncreaseLpn → ℕ → World → Option World) where
  -- `coldLogCtrl[bank].increaseLpn(bank, coldLogCtrl)`
  abbrev pub call_increase : ℕ → World → Option World
  call_increase bank w = increase (cold_ctrl w bank).increase_lpn bank w

  pub flush_log_buffer_during_gc : ℕ → World → Option World
  unfolding map_chunks map_page
  flush_log_buffer_during_gc bank w =
      let c = cold_ctrl w bank in
      let w1 = program_page hw bank c.log_buffer_addr c.data_lpn w in
      let all_valid =
        call_increase bank (
          set_dram (map_page chunks_per_page bank c.log_lpn c.data_lpn c.chunk_idx 0 w1.dram) w1) in
      let some_lost = map_chunks chunks_per_page bank c.log_lpn c 0 w1 >>= λ w2.
      call_increase bank (
        set_cold_ctrl bank (record (cold_ctrl w2 bank) { all_chunks_in_log_are_valid = true })
          w2) in
      if c.all_chunks_in_log_are_valid then all_valid else some_lost

  pub update_chunk_ptr_during_gc : ℕ → World → Option World
  update_chunk_ptr_during_gc bank w =
      let c = cold_ctrl w bank in
      let next = (c.chunk_ptr + 1) % chunks_per_page in
      let w1 = set_cold_ctrl bank (record c { chunk_ptr = next }) w in
      if next == 0 then flush_log_buffer_during_gc bank w1 else some w1

  pub update_dram_buf_metadata_during_gc : ℕ → ℕ → ℕ → World → World
  update_dram_buf_metadata_during_gc bank lpn sect_offset w =
      let c = cold_ctrl w bank in
      let idx = sect_offset / sectors_per_chunk in
      let addr = with_cold_flag (log_buf_chunk_addr bank c.chunk_ptr) in
      let c' = record c {
        data_lpn = put c.data_lpn c.chunk_ptr lpn;
        chunk_idx = put c.chunk_idx c.chunk_ptr idx;
      } in
      set_dram (write_dram_32 (chunks_map_table lpn idx) addr w.dram) (set_cold_ctrl bank c' w)

  pub write_chunk_on_log_block_during_gc : ℕ → ℕ → ℕ → ℕ → ℕ → World → Option World
  write_chunk_on_log_block_during_gc bank data_lpn chunk_offset chunk_in_buf buf w =
      let c = cold_ctrl w bank in
      let bytes_per_chunk = bytes_per_page / chunks_per_page in
      let src = u32 (buf + chunk_in_buf * bytes_per_chunk) in
      let dst = u32 (c.log_buffer_addr + c.chunk_ptr * bytes_per_chunk) in
      let w1 = set_dram (copy_words (bytes_per_chunk / 4) dst src w.dram) w in
      update_chunk_ptr_during_gc bank
        (update_dram_buf_metadata_during_gc bank data_lpn (chunk_offset * sectors_per_chunk) w1)

  -- `logChunkBase`
  abbrev pub log_chunk_base : ℕ → GcBank → ℕ
  log_chunk_base bank g =
      let base = log_chunk_addr bank g.victim_lbn g.page_offset 0 in
      if g.gc_on_recycled_page then with_cold_flag base else base

  -- The entry of the map for a chunk of the page.
  abbrev pub mapped_to : GcBank → ℕ → Dram → ℕ
  mapped_to g chunk =
      read_dram_32 (chunks_map_table (g.data_lpns chunk) (g.data_chunk_offsets chunk))

  -- The first chunk, of `k` from `chunk` on, to which the map does not lead any more.
  pub first_moved : ℕ → ℕ → GcBank → ℕ → Dram → Option ℕ
  first_moved zero base g chunk m = none
  first_moved (suc k) base g chunk m =
      let rest = first_moved k base g (suc chunk) m in
      if mapped_to g chunk m == u32 (base + chunk) then rest else some chunk

  abbrev pub unmark : (ℕ → Bool) → ℕ → ℕ → Bool
  unmark valid chunk c = if c == chunk then false else valid c

  -- A page whose eight chunks all are valid still: it is programmed as it is. `copied` is the world in
  -- which `increaseLpn` is called.
  abbrev pub copied : ℕ → World → World
  copied bank w =
      let g = w.gc bank in
      let log_lpn = (cold_ctrl w bank).log_lpn in
      let w1 = program_page hw bank (gc_buf bank) g.data_lpns w in
      let m = map_page chunks_per_page bank log_lpn g.data_lpns g.data_chunk_offsets 0 w1.dram in
      set_gc bank
        (record g {
          n_valid_chunks_in_page = 0;
          gc_on_recycled_page = false;
          gc_state = gc_read;
          page_offset = (g.page_offset + 1) % 256;
        })
        (set_dram m w1)

  pub write_full_page : ℕ → World → Option World
  write_full_page bank w = call_increase bank (copied bank w)

  -- The loop over the chunks of a page, with `k` rounds left, while there are valid chunks.
  pub write_chunks : ℕ → ℕ → ℕ → ℕ → World → Option World
  write_chunks zero bank base chunk w = none
  write_chunks (suc k) bank base chunk w =
      let g = w.gc bank in
      let taken = record g {
        valid_chunks = unmark g.valid_chunks chunk;
        n_valid_chunks_in_page = sub32 g.n_valid_chunks_in_page 1;
      } in
      let w1 = set_gc bank taken w in
      let written =
        write_chunk_on_log_block_during_gc bank (g.data_lpns chunk) (g.data_chunk_offsets chunk)
          chunk (gc_buf bank) w1 in
      let moved = some (
        set_gc bank (record taken { n_valid_chunks_in_blk = sub32 g.n_valid_chunks_in_blk 1 }) w) in
      let step =
        if g.valid_chunks chunk
        then (if mapped_to g chunk w.dram == u32 (base + chunk) then written else moved)
        else some w in
      let round = step >>= write_chunks k bank base (suc chunk) in
      if g.n_valid_chunks_in_page == 0 then some w else round

  -- `gcState[bank] == GcWrite`
  pub is_writing : GcState → Bool
  is_writing gc_idle = false
  is_writing gc_read = false
  is_writing gc_write = true

  pub write_partial_page : ℕ → World → Option World
  unfolding write_chunks
  write_partial_page bank w =
      write_chunks (suc chunks_per_page) bank (log_chunk_base bank (w.gc bank)) 0 w >>= λ w1.
      let g = w1.gc bank in
      let next =
        set_gc bank
          (record g {
            gc_state = gc_read;
            gc_on_recycled_page = false;
            page_offset = (g.page_offset + 1) % 256;
          })
          w1 in
      some (if is_writing g.gc_state then next else w1)

  -- The chunk that was moved is invalidated before the page is written chunk by chunk.
  abbrev pub without_chunk : ℕ → GcBank → GcBank
  without_chunk chunk g = record g {
    valid_chunks = unmark g.valid_chunks chunk;
    n_valid_chunks_in_page = sub32 g.n_valid_chunks_in_page 1;
    n_valid_chunks_in_blk = sub32 g.n_valid_chunks_in_blk 1;
  }

  abbrev after_check : ℕ → World → Option ℕ → Option World
  after_check bank w none = write_full_page bank w
  after_check bank w (some chunk) =
      write_partial_page bank (set_gc bank (without_chunk chunk (w.gc bank)) w)

  pub write_page : ℕ → World → Option World
  unfolding first_moved
  write_page bank w =
      let g = w.gc bank in
      let checked =
        after_check bank w (first_moved chunks_per_page (log_chunk_base bank g) g 0 w.dram) in
      if g.n_valid_chunks_in_page == 8 then checked else write_partial_page bank w
