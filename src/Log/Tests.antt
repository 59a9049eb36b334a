-- ===== src/Log/Tests.antt =====
-- `initLog` from a state in which everything is 0, and addresses of chunks.
use fast2016_ftl.Common.{true, false, ℕ, refl, ◌%◌, ◌≤◌, ◌<◌, ◌+◌, ◌*◌, ◌≡◌, arith, false, Ends}
use fast2016_ftl.Dram.{Dram}
use fast2016_ftl.CleanList.{ListData}
use fast2016_ftl.Log.{LogCtrlBlock, LogState, hot_blk_first_usage, any_page, init_log}
use fast2016_ftl.Params.{chunks_per_page, pages_per_blk, sectors_per_chunk}
use fast2016_ftl.Log.Chunk.{
  flash_w_log, flash_w_log_encoded, dram_hot_log, dram_cold_log, find_chunk_location,
  with_cold_flag, log_chunk_addr, log_buf_chunk_addr, chunk_to_bank, chunk_to_lbn, chunk_to_lpn,
  chunk_to_page_offset, chunk_to_chunk_offset, chunk_to_sect_offset, log_chunk_addr-parts,
  find_chunk_location-flash, find_chunk_location-buffer,
}
use fast2016_ftl.Heap.View.{count}
use fast2016_ftl.Heap.Sample.{six, memory, six-Fits, six-IsValid, six-counts}
use fast2016_ftl.Log.Complete.{
  log_page_to_log_blk, log_page_to_offset, get_lpn_for_complete_page, MovedUp,
  get_lpn_for_complete_page-MovedUp,
}
use fast2016_ftl.Log.Start.{AllStarted, init_log-Started}

abbrev blank : Dram
blank a = 0

abbrev zero_list : ListData
zero_list = record {
  clean_list_head = λ b. 0;
  clean_list_tail = λ b. 0;
  clean_list_unused_nodes = λ b. 0;
  size = λ b. 0;
}

abbrev zero_ctrl : LogCtrlBlock
zero_ctrl = record {
  log_lpn = 0;
  lpns_list_addr = 0;
  log_buffer_addr = 0;
  chunk_ptr = 0;
  data_lpn = λ chunk. 0;
  chunk_idx = λ chunk. 0;
  increase_lpn = hot_blk_first_usage;
  update_chunk_ptr = any_page;
  next_low_page_offset = 0;
  all_chunks_in_log_are_valid = false;
  use_recycled_page = false;
  precache_done = false;
}

abbrev zero_state : LogState
zero_state = record {
  clean_list_data_write = zero_list;
  hot_log_ctrl = λ b. zero_ctrl;
  cold_log_ctrl = λ b. zero_ctrl;
  adaptive_step_down = λ b. 0;
  adaptive_step_up = λ b. 0;
  n_step_ups = λ b. 0;
  n_step_downs = λ b. 0;
  n_valid_chunks_from_heap = λ b. 0;
  init_step_down = 2;
  init_step_up = 1;
}

init_log-Started_example : Ends (AllStarted blank) (init_log zero_state blank)
init_log-Started_example = init_log-Started zero_state blank

-- Chunk 5 of page 3 of block 200 in bank 9.
log_chunk_addr-parts_example :
    (let a = log_chunk_addr 9 200 3 5 in
      (chunk_to_bank a ≡ 9)
      × (chunk_to_lbn a ≡ 200)
      × (chunk_to_page_offset a ≡ 3)
      × (chunk_to_chunk_offset a ≡ 5)
      × (chunk_to_lpn a ≡ 200 * pages_per_blk + 3)
      × (chunk_to_sect_offset a ≡ 5 * sectors_per_chunk))
log_chunk_addr-parts_example =
    log_chunk_addr-parts 9 200 3 5 (omega arith) (omega arith) (omega arith) (omega arith)

find_chunk_location-flash_example :
    (find_chunk_location (log_chunk_addr 9 200 3 5) ≡ flash_w_log)
    × (find_chunk_location (with_cold_flag (log_chunk_addr 9 200 3 5)) ≡ flash_w_log_encoded)
find_chunk_location-flash_example =
    find_chunk_location-flash 9 200 3 5 (omega arith) (omega arith) (omega arith) (omega arith)
      (omega arith)

find_chunk_location-buffer_example :
    (let a = log_buf_chunk_addr 9 5 in
      (find_chunk_location a ≡ dram_hot_log)
      × (find_chunk_location (with_cold_flag a) ≡ dram_cold_log)
      × (chunk_to_bank a ≡ 9)
      × (chunk_to_chunk_offset a ≡ 5))
find_chunk_location-buffer_example = find_chunk_location-buffer 9 5 (omega arith) (omega arith)

-- Page 5 of block 1, a low page that is recycled.
abbrev recycled : ℕ → LogCtrlBlock
recycled b = record zero_ctrl { log_lpn = 133; use_recycled_page = true }

low_page :
    (log_page_to_log_blk 133 < 7)
    × (chunks_per_page ≤ count six 0 (log_page_to_log_blk 133) memory)
    × (log_page_to_offset 133 % 2 ≡ 1)
    × (log_page_to_offset 133 < 127)
unfolding log_page_to_log_blk log_page_to_offset
low_page = (omega arith, omega (arith, six-counts), omega arith, omega arith)

get_lpn_for_complete_page-MovedUp_example :
    Ends
      (MovedUp six 0 recycled memory ⦃fits = six-Fits⦄ six-IsValid refl)
      (get_lpn_for_complete_page six 0 recycled memory)
get_lpn_for_complete_page-MovedUp_example =
    get_lpn_for_complete_page-MovedUp six 0 recycled memory ⦃fits = six-Fits⦄ six-IsValid refl
      low_page.0 low_page.1 refl (λ later. low_page.2) low_page.3
