-- ===== src/World.antt =====
-- The state of the translation layer while it works: the globals of `ftl_page_mapped/ftl_metadata.c`
-- and of `ftl_page_mapped/garbage_collection.c`, the DRAM, the flash commands issued, the last one
-- first, and the number of sectors programmed.
pub mod Words
use fast2016_ftl.Common.{
  ℕ, ◌≤◌, ◌<◌, ◌≡◌, ◌⊎◌, refl, ◌∙◌, arith, ne→==-false, zero, suc, ◌+◌, ◌*◌, Bool, Option, some,
  ◌==◌, if◌then◌else◌, ◌>>=◌, List, ◌∷◌, u32,
}
use fast2016_ftl.Params.{dram_base, dram_size, log_blk_per_bank, chunks_per_page, bytes_per_page}
use fast2016_ftl.Layout.{log_bmt_addr, chunks_map_table_addr, victim_lpn_list_addr, gc_buf_addr}
use fast2016_ftl.Dram.{Dram, InDram, read-write, read_dram_32, write_dram_32}
use fast2016_ftl.Dram.Bytes.{read_dram_16}
use fast2016_ftl.Heap.{HeapData}
use fast2016_ftl.CleanList.{ListData}
use fast2016_ftl.Log.{LogState, LogCtrlBlock, put_ctrl}
use fast2016_ftl.Ftl.{FtlState}
use fast2016_ftl.Flash.{FlashCommand, Hardware}

-- GcIdle, GcRead and GcWrite
pub data GcState : Type 0 where
  gc_idle gc_read gc_write : GcState

-- The entries of one bank in the arrays of the garbage collector.
pub record GcBank : Type 0 where
  pub gc_state : GcState
  pub victim_lbn : ℕ
  pub victim_vbn : ℕ
  pub n_valid_chunks_in_blk : ℕ
  pub n_valid_chunks_in_page : ℕ
  pub page_offset : ℕ
  pub gc_on_recycled_page : Bool
  pub valid_chunks : ℕ → Bool
  pub data_lpns : ℕ → ℕ
  pub data_chunk_offsets : ℕ → ℕ

-- The configuration and the adaptive threshold for the reuse of blocks.
pub record Tuning : Type 0 where
  pub hot_first_accumulated : ℕ → ℕ
  pub clean_blks_after_gc_hot : ℕ
  pub second_hot_factor_num : ℕ
  pub second_hot_factor_den : ℕ
  pub clean_blks_background_gc_threshold : ℕ
  pub n_valid_chunks_in_page_to_reuse_threshold : ℕ
  pub adaptive_window_size : ℕ
  pub adaptive_window : ℕ → ℕ → ℕ
  pub max_step_ups : ℕ
  pub max_step_downs : ℕ

pub record World : Type 0 where
  pub ftl : FtlState
  pub gc : ℕ → GcBank
  pub tuning : Tuning
  pub dram : Dram
  pub issued : List FlashCommand
  pub tot_sec_writes : ℕ

abbrev pub first : World → HeapData
first w = w.ftl.heap_data_first_usage

abbrev pub second : World → HeapData
second w = w.ftl.heap_data_second_usage

abbrev pub cold : World → HeapData
cold w = w.ftl.heap_data_cold

abbrev pub clean : World → ListData
clean w = w.ftl.log.clean_list_data_write

abbrev pub set_gc : ℕ → GcBank → World → World
set_gc bank g w = record w { gc = λ b. if b == bank then g else w.gc b }

abbrev pub set_log : LogState → World → World
set_log log w = record w { ftl = record w.ftl { log = log } }

-- Operations on a heap or on the list of clean blocks, in the world.
abbrev pub on_first : (HeapData → Dram → Option (HeapData × Dram)) → World → Option World
on_first f w = f (first w) w.dram >>= λ (d, m).
    some (record w { ftl = record w.ftl { heap_data_first_usage = d }; dram = m })

abbrev pub on_second : (HeapData → Dram → Option (HeapData × Dram)) → World → Option World
on_second f w = f (second w) w.dram >>= λ (d, m).
    some (record w { ftl = record w.ftl { heap_data_second_usage = d }; dram = m })

abbrev pub on_cold : (HeapData → Dram → Option (HeapData × Dram)) → World → Option World
on_cold f w = f (cold w) w.dram >>= λ (d, m).
    some (record w { ftl = record w.ftl { heap_data_cold = d }; dram = m })

abbrev pub on_clean : (ListData → Dram → Option (ListData × Dram)) → World → Option World
on_clean f w = f (clean w) w.dram >>= λ (d, m). some (record w {
  ftl = record w.ftl { log = record w.ftl.log { clean_list_data_write = d } };
  dram = m;
})

-- `flash_issue_cmd`
abbrev pub issue : Hardware → FlashCommand → World → World
issue hw c w = record w { dram = hw.transfer w.issued c w.dram; issued = c ∷ w.issued }

-- A call of `nand_page_program` or of `nand_page_ptprogram`, with the number of sectors.
abbrev pub program : Hardware → ℕ → FlashCommand → World → World
program hw sectors c w = issue hw c (record w { tot_sec_writes = u32 (w.tot_sec_writes + sectors) })

abbrev pub hot_ctrl : World → ℕ → LogCtrlBlock
hot_ctrl w = w.ftl.log.hot_log_ctrl

abbrev pub cold_ctrl : World → ℕ → LogCtrlBlock
cold_ctrl w = w.ftl.log.cold_log_ctrl

abbrev pub set_cold_ctrl : ℕ → LogCtrlBlock → World → World
set_cold_ctrl bank c w = record w {
  ftl = record w.ftl {
    log = record w.ftl.log { cold_log_ctrl = put_ctrl w.ftl.log.cold_log_ctrl bank c };
  };
}

abbrev pub set_hot_ctrl : ℕ → LogCtrlBlock → World → World
set_hot_ctrl bank c w = record w {
  ftl = record w.ftl {
    log = record w.ftl.log { hot_log_ctrl = put_ctrl w.ftl.log.hot_log_ctrl bank c };
  };
}

abbrev pub set_dram : Dram → World → World
set_dram m w = record w { dram = m }

-- A run that only changes the DRAM.
abbrev pub on_dram : (Dram → Option Dram) → World → Option World
on_dram f w = f w.dram >>= λ m. some (set_dram m w)

-- `get_log_vbn` of `ftl_page_mapped/log.c`, and the macros of `ftl_page_mapped/dram_layout.h`.
abbrev pub get_log_vbn : ℕ → ℕ → Dram → ℕ
get_log_vbn bank log_lbn m =
    read_dram_16 (u32 (log_bmt_addr + (bank * log_blk_per_bank + log_lbn) * 2)) m

abbrev pub chunks_map_table : ℕ → ℕ → ℕ
chunks_map_table lpn chunk_idx =
    u32 (chunks_map_table_addr + lpn * chunks_per_page * 4 + chunk_idx * 4)

abbrev pub victim_lpn_list : ℕ → ℕ
victim_lpn_list bank = victim_lpn_list_addr + bank * bytes_per_page

abbrev pub gc_buf : ℕ → ℕ
gc_buf bank = gc_buf_addr + bank * bytes_per_page

abbrev pub chunk_in_lpns_list : ℕ → ℕ → ℕ → ℕ
chunk_in_lpns_list base page_offset chunk =
    u32 (base + page_offset * chunks_per_page * 4 + chunk * 4)

-- `mem_copy` of an array of words in SRAM to DRAM, and of a buffer in DRAM to another one, and
-- `mem_set_dram`, with `k` words left.
pub write_words : ℕ → ℕ → (ℕ → ℕ) → ℕ → Dram → Dram
write_words zero dst f i m = m
write_words (suc k) dst f i m = write_words k dst f (suc i) (write_dram_32 (dst + 4 * i) (f i) m)

pub copy_words : ℕ → ℕ → ℕ → Dram → Dram
copy_words zero dst src m = m
copy_words (suc k) dst src m =
    copy_words k (dst + 4) (src + 4) (write_dram_32 dst (read_dram_32 src m) m)

pub set_words : ℕ → ℕ → ℕ → Dram → Dram
set_words zero addr val m = m
set_words (suc k) addr val m = set_words k (addr + 4) val (write_dram_32 addr val m)

-- `mem_set_dram` writes nowhere else.
pub set_words-outside :
    (k addr val : ℕ) (m : Dram) (a : ℕ)
    → InDram a
    → dram_base ≤ addr
    → addr + 4 * k ≤ dram_base + dram_size
    → (a < addr) ⊎ (addr + 4 * k ≤ a)
    → read_dram_32 a (set_words k addr val m) ≡ read_dram_32 a m
unfolding set_words
set_words-outside zero addr val m a ok low high out = refl
set_words-outside (suc k) addr val m a ok low high out =
    set_words-outside k (addr + 4) val (write_dram_32 addr val m) a ok (omega arith) (omega arith)
      (omega (arith, out))
    ∙ read-write addr a val m (omega arith) ok
    ∙ rw (ne→==-false addr a (omega (arith, out)))
