-- ===== src/Log.antt =====
-- The log blocks that are being written: `ftl_page_mapped/log.c`, with the type `LogCtrlBlock` of
-- `ftl_page_mapped/ftl_metadata.h`. Of each bank one block takes the hot data and one the cold.
pub mod Chunk
pub mod Cold
pub mod Complete
pub mod Fill
pub mod Start
mod Tests
use fast2016_ftl.Common.{
  ℕ, zero, suc, ◌+◌, ◌*◌, Option, none, some, Bool, true, false, ◌==◌, if◌then◌else◌, ◌>>=◌, u32,
  invalid,
}
use fast2016_ftl.Params.{num_banks, pages_per_blk, log_blk_per_bank}
use fast2016_ftl.Layout.{lpns_buf_base_1, lpns_buf_base_2, hot_log_buf, cold_log_buf, clean_list}
use fast2016_ftl.Dram.{Dram}
use fast2016_ftl.CleanList.{ListData, put, clean_list_init, clean_list_push, clean_list_pop}

-- The functions that the field `increaseLpn` may point to.
pub data IncreaseLpn : Type 0 where
  hot_blk_first_usage : IncreaseLpn
  hot_blk_second_usage : IncreaseLpn
  cold_blk : IncreaseLpn
  cold_blk_reused : IncreaseLpn

-- The functions that the field `updateChunkPtr` may point to.
pub data UpdateChunkPtr : Type 0 where
  any_page : UpdateChunkPtr
  recycled_page : UpdateChunkPtr

-- The two arrays have CHUNKS_PER_PAGE entries, all of which `initLog` sets.
pub record LogCtrlBlock : Type 0 where
  pub log_lpn : ℕ
  pub lpns_list_addr : ℕ
  pub log_buffer_addr : ℕ
  pub chunk_ptr : ℕ
  pub data_lpn : ℕ → ℕ
  pub chunk_idx : ℕ → ℕ
  pub increase_lpn : IncreaseLpn
  pub update_chunk_ptr : UpdateChunkPtr
  pub next_low_page_offset : ℕ
  pub all_chunks_in_log_are_valid : Bool
  pub use_recycled_page : Bool
  pub precache_done : Bool

-- The globals that `initLog` sets, and the two that it reads.
pub record LogState : Type 0 where
  pub clean_list_data_write : ListData
  pub hot_log_ctrl : ℕ → LogCtrlBlock
  pub cold_log_ctrl : ℕ → LogCtrlBlock
  pub adaptive_step_down : ℕ → ℕ
  pub adaptive_step_up : ℕ → ℕ
  pub n_step_ups : ℕ → ℕ
  pub n_step_downs : ℕ → ℕ
  pub n_valid_chunks_from_heap : ℕ → ℕ
  pub init_step_down : ℕ
  pub init_step_up : ℕ

-- The control blocks that `initLog` builds for a block.
abbrev pub hot_start : ℕ → ℕ → LogCtrlBlock
hot_start bank lbn = record {
  log_lpn = u32 (lbn * pages_per_blk);
  lpns_list_addr = lpns_buf_base_1 bank;
  log_buffer_addr = hot_log_buf bank;
  chunk_ptr = 0;
  data_lpn = λ chunk. invalid;
  chunk_idx = λ chunk. invalid;
  increase_lpn = hot_blk_first_usage;
  update_chunk_ptr = any_page;
  next_low_page_offset = invalid;
  all_chunks_in_log_are_valid = true;
  use_recycled_page = false;
  precache_done = true;
}

abbrev pub cold_start : ℕ → ℕ → LogCtrlBlock
cold_start bank lbn = record {
  log_lpn = u32 (lbn * pages_per_blk);
  lpns_list_addr = lpns_buf_base_2 bank;
  log_buffer_addr = cold_log_buf bank;
  chunk_ptr = 0;
  data_lpn = λ chunk. invalid;
  chunk_idx = λ chunk. invalid;
  increase_lpn = cold_blk;
  update_chunk_ptr = any_page;
  next_low_page_offset = invalid;
  all_chunks_in_log_are_valid = true;
  use_recycled_page = false;
  precache_done = true;
}

-- The inner loop: `k` blocks from `lbn` on go to the list of clean blocks.
pub push_blks : ℕ → ℕ → ListData → ℕ → Dram → Option (ListData × Dram)
push_blks zero lbn d bank m = some (d, m)
push_blks (suc k) lbn d bank m =
    clean_list_push d bank lbn m >>= λ (d', m'). push_blks k (suc lbn) d' bank m'

-- `ctrl[bank] = v`
abbrev pub put_ctrl : (ℕ → LogCtrlBlock) → ℕ → LogCtrlBlock → ℕ → LogCtrlBlock
put_ctrl ctrl bank v b = if b == bank then v else ctrl b

-- What `initLog` makes of a bank, given its clean list and the two blocks taken from it.
abbrev pub started : LogState → ℕ → ListData → ℕ → ℕ → LogState
started s bank d hot cold = record s {
  clean_list_data_write = d;
  hot_log_ctrl = put_ctrl s.hot_log_ctrl bank (hot_start bank hot);
  cold_log_ctrl = put_ctrl s.cold_log_ctrl bank (cold_start bank cold);
  adaptive_step_down = put s.adaptive_step_down bank s.init_step_down;
  adaptive_step_up = put s.adaptive_step_up bank s.init_step_up;
  n_step_ups = put s.n_step_ups bank 0;
  n_step_downs = put s.n_step_downs bank 0;
  n_valid_chunks_from_heap = put s.n_valid_chunks_from_heap bank invalid;
}

init_bank : LogState → ℕ → Dram → Option (LogState × Dram)
unfolding push_blks
init_bank s bank m = push_blks log_blk_per_bank 0 s.clean_list_data_write bank m >>= λ (d1, m1).
    clean_list_pop d1 bank m1 >>= λ (hot, d2, m2).
    clean_list_pop d2 bank m2 >>= λ (cold, d3, m3). some (started s bank d3 hot cold, m3)

init_log_banks : ℕ → LogState → ℕ → Dram → Option (LogState × Dram)
init_log_banks zero s bank m = some (s, m)
init_log_banks (suc k) s bank m =
    init_bank s bank m >>= λ (s', m'). init_log_banks k s' (suc bank) m'

pub init_log : LogState → Dram → Option (LogState × Dram)
unfolding init_log_banks
init_log s m =
    let r = clean_list_init s.clean_list_data_write (clean_list 0) log_blk_per_bank m in
    init_log_banks num_banks (record s { clean_list_data_write = r.0 }) 0 r.1
