-- ===== src/Ftl.antt =====
-- The start of the translation layer: `init_metadata_sram` of `ftl_page_mapped/ftl.c`, which sets up
-- the three heaps and the log. The free lists of each bank are set to 0 and not used here.
pub mod Start
mod Tests
use fast2016_ftl.Common.{ℕ, ◌+◌, Option, some, ◌>>=◌}
use fast2016_ftl.Params.{
  num_banks, log_blk_per_bank, chunks_per_log_blk_first_usage, chunks_per_log_blk_second_usage,
}
use fast2016_ftl.Layout.{
  heap_valid_chunks_addr_first_usage, heap_valid_chunks_positions_first_usage,
  heap_valid_chunks_addr_second_usage, heap_valid_chunks_positions_second_usage,
  heap_valid_chunks_addr_cold, heap_valid_chunks_positions_cold,
}
use fast2016_ftl.Dram.{Dram}
use fast2016_ftl.Heap.{HeapData, valid_chunks_heap_init}
use fast2016_ftl.Log.{LogState, init_log}

-- The globals that `init_metadata_sram` sets; the loop over the banks sets each entry of the two
-- free lists.
pub record FtlState : Type 0 where
  pub free_list_head : ℕ → ℕ
  pub free_list_tail : ℕ → ℕ
  pub heap_data_first_usage : HeapData
  pub heap_data_second_usage : HeapData
  pub heap_data_cold : HeapData
  pub log : LogState

-- One heap: its two tables are placed, and every block gets the initial number.
abbrev pub init_heap : HeapData → ℕ → ℕ → ℕ → Dram → HeapData × Dram
init_heap d els positions initial_value =
    valid_chunks_heap_init (record d { dram_start_addr = els; positions_ptr = positions })
      log_blk_per_bank 0 initial_value

pub init_metadata_sram : FtlState → Dram → Option (FtlState × Dram)
init_metadata_sram s m =
    let first =
      init_heap s.heap_data_first_usage heap_valid_chunks_addr_first_usage
        heap_valid_chunks_positions_first_usage chunks_per_log_blk_first_usage m in
    let second =
      init_heap s.heap_data_second_usage heap_valid_chunks_addr_second_usage
        heap_valid_chunks_positions_second_usage chunks_per_log_blk_second_usage first.1 in
    let cold =
      init_heap s.heap_data_cold heap_valid_chunks_addr_cold heap_valid_chunks_positions_cold
        chunks_per_log_blk_second_usage second.1 in
    init_log s.log cold.1 >>= λ (log, m'). some (
      record {
        free_list_head = λ b. 0;
        free_list_tail = λ b. 0;
        heap_data_first_usage = first.0;
        heap_data_second_usage = second.0;
        heap_data_cold = cold.0;
        log = log;
      },
      m',
    )
