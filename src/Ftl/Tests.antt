-- ===== src/Ftl/Tests.antt =====
-- The start of the translation layer from a state in which everything is 0.
use fast2016_ftl.Common.{false, Ends}
use fast2016_ftl.Dram.{Dram}
use fast2016_ftl.CleanList.{ListData}
use fast2016_ftl.Heap.{HeapData}
use fast2016_ftl.Log.{LogCtrlBlock, LogState, hot_blk_first_usage, any_page}
use fast2016_ftl.Ftl.{FtlState, init_metadata_sram}
use fast2016_ftl.Ftl.Start.{IsReady, init_metadata_sram-IsReady}

abbrev blank : Dram
blank a = 0

abbrev zero_list : ListData
zero_list = record {
  clean_list_head = λ b. 0;
  clean_list_tail = λ b. 0;
  clean_list_unused_nodes = λ b. 0;
  size = λ b. 0;
}

abbrev zero_ctrl : LogCtrlBlock
zero_ctrl = record {
  log_lpn = 0;
  lpns_list_addr = 0;
  log_buffer_addr = 0;
  chunk_ptr = 0;
  data_lpn = λ chunk. 0;
  chunk_idx = λ chunk. 0;
  increase_lpn = hot_blk_first_usage;
  update_chunk_ptr = any_page;
  next_low_page_offset = 0;
  all_chunks_in_log_are_valid = false;
  use_recycled_page = false;
  precache_done = false;
}

abbrev zero_state : LogState
zero_state = record {
  clean_list_data_write = zero_list;
  hot_log_ctrl = λ b. zero_ctrl;
  cold_log_ctrl = λ b. zero_ctrl;
  adaptive_step_down = λ b. 0;
  adaptive_step_up = λ b. 0;
  n_step_ups = λ b. 0;
  n_step_downs = λ b. 0;
  n_valid_chunks_from_heap = λ b. 0;
  init_step_down = 2;
  init_step_up = 1;
}

abbrev zero_heap : HeapData
zero_heap = record {
  positions_ptr = 0;
  n_el_in_heap = λ b. 0;
  dram_start_addr = 0;
  log_blks_per_bank = 0;
  first_lbn = 0;
}

abbrev zero_ftl : FtlState
zero_ftl = record {
  free_list_head = λ b. 0;
  free_list_tail = λ b. 0;
  heap_data_first_usage = zero_heap;
  heap_data_second_usage = zero_heap;
  heap_data_cold = zero_heap;
  log = zero_state;
}

init_metadata_sram-IsReady_example :
    Ends (λ (s', m'). IsReady s' m') (init_metadata_sram zero_ftl blank)
init_metadata_sram-IsReady_example = init_metadata_sram-IsReady zero_ftl blank
