-- ===== src/Gc/Sample.antt =====
-- A world in which the firmware has started on a memory of zeros, with devices that search word by
-- word and transfer nothing.
use native.Mathlib.Decide.{dec_le, ℕ_discrete}
use fast2016_ftl.Common.{
  ℕ, zero, suc, ◌+◌, ◌*◌, ◌≤◌, ◌<◌, ◌≡◌, ◌≢◌, refl, subst, false, Option, none, some, [], arith,
  ◌==◌, if◌then◌else◌, Ends, ends,
}
use fast2016_ftl.Params.{num_banks}
use fast2016_ftl.Dram.{Dram, read_dram_32}
use fast2016_ftl.Heap.{HeapData}
use fast2016_ftl.Log.{cold_start, hot_start}
use fast2016_ftl.Log.Start.{Started}
use fast2016_ftl.Ftl.{FtlState, init_metadata_sram}
use fast2016_ftl.Ftl.Start.{IsReady, init_metadata_sram-IsReady}
use fast2016_ftl.Flash.{Hardware}
use fast2016_ftl.Flash.Laws.{IsHardware}
use fast2016_ftl.World.{World, GcBank, Tuning, gc_idle}
use fast2016_ftl.Bank.{IsBank}
use fast2016_ftl.Bank.Start.{fresh, init_metadata_sram-IsBank}

-- The first of `k` items from `i` on with the value.
pub find_word : ℕ → ℕ → ℕ → ℕ → Dram → ℕ
find_word zero i addr val m = i
find_word (suc k) i addr val m =
    let rest = find_word k (suc i) addr val m in
    if read_dram_32 (addr + 4 * i) m == val then i else rest

find_word-found :
    (k i addr val : ℕ) (m : Dram)
    → find_word k i addr val m < i + k
    → read_dram_32 (addr + 4 * find_word k i addr val m) m ≡ val
unfolding find_word
find_word-found zero i addr val m h = absurd (omega arith)
find_word-found (suc k) i addr val m h = ground (arith, find_word-found k (suc i) addr val m)

find_word-missing :
    (k i addr val : ℕ) (m : Dram)
    → i + k ≤ find_word k i addr val m
    → (j : ℕ) → i ≤ j
    → j < i + k
    → read_dram_32 (addr + 4 * j) m ≢ val
unfolding find_word
find_word-missing zero i addr val m h j low high = absurd (omega arith)
find_word-missing (suc k) i addr val m h j low high =
    elim (ℕ_discrete (read_dram_32 (addr + 4 * i) m) val) [
      | yes e ↦ absurd (ground arith)
      | no ne ↦ elim (dec_le j i) [
        | yes le ↦
            let here : i ≡ j = omega arith in
            subst (λ x. read_dram_32 (addr + 4 * x) m ≢ val) here ne
        | no gt ↦
            let rest : suc i + k ≤ find_word k (suc i) addr val m = ground arith in
            find_word-missing k (suc i) addr val m rest j (omega arith) (omega arith)
      ]
    ]

abbrev pub devices : Hardware
devices = record {
  transfer = λ before c m. m;
  search_equ = λ addr n val m. find_word n 0 addr val m;
}

pub devices-IsHardware : IsHardware devices
devices-IsHardware = record {
  in_prog_keeps = λ before bank option dma_addr dma_cnt col row flag m. refl;
  erase_keeps = λ before bank option row flag m. refl;
  found = λ addr n val m h. find_word-found n 0 addr val m (omega (arith, h));
  not_found = λ addr n val m h i small.
      find_word-missing n 0 addr val m (omega (arith, h)) i (omega arith) (omega (arith, small));
}

abbrev pub blank : Dram
blank a = 0

abbrev pub zero_heap : HeapData
zero_heap = record {
  positions_ptr = 0;
  n_el_in_heap = λ b. 0;
  dram_start_addr = 0;
  log_blks_per_bank = 0;
  first_lbn = 0;
}

abbrev pub zero_ftl : FtlState
zero_ftl = record {
  free_list_head = λ b. 0;
  free_list_tail = λ b. 0;
  heap_data_first_usage = zero_heap;
  heap_data_second_usage = zero_heap;
  heap_data_cold = zero_heap;
  log = record {
    clean_list_data_write = record {
      clean_list_head = λ b. 0;
      clean_list_tail = λ b. 0;
      clean_list_unused_nodes = λ b. 0;
      size = λ b. 0;
    };
    hot_log_ctrl = λ b. hot_start b 0;
    cold_log_ctrl = λ b. cold_start b 1;
    adaptive_step_down = λ b. 0;
    adaptive_step_up = λ b. 0;
    n_step_ups = λ b. 0;
    n_step_downs = λ b. 0;
    n_valid_chunks_from_heap = λ b. 0;
    init_step_down = 1;
    init_step_up = 1;
  };
}

-- Block 7 is the victim of every bank.
abbrev pub idle_bank : GcBank
idle_bank = record {
  gc_state = gc_idle;
  victim_lbn = 7;
  victim_vbn = 9;
  n_valid_chunks_in_blk = 0;
  n_valid_chunks_in_page = 0;
  page_offset = 125;
  gc_on_recycled_page = false;
  valid_chunks = λ c. false;
  data_lpns = λ c. 0;
  data_chunk_offsets = λ c. 0;
}

abbrev pub tuned : Tuning
tuned = record {
  hot_first_accumulated = λ b. 0;
  clean_blks_after_gc_hot = 2;
  second_hot_factor_num = 1;
  second_hot_factor_den = 1;
  clean_blks_background_gc_threshold = 1;
  n_valid_chunks_in_page_to_reuse_threshold = 0;
  adaptive_window_size = 5;
  adaptive_window = λ b i. 1024;
  max_step_ups = 7;
  max_step_downs = 7;
}

abbrev pub off : World
off = record {
  ftl = zero_ftl;
  gc = λ b. idle_bank;
  tuning = tuned;
  dram = blank;
  issued = [];
  tot_sec_writes = 0;
}

-- The result of a run that ends.
abbrev pub result {ℓ} : {A : Type ℓ} → A → Option A → A
result a none = a
result a (some b) = b

pub Ends-result {ℓ κ} :
    {A : Type ℓ} {P : A → Type κ} (a : A) (r : Option A) → Ends P r → P (result a r)
Ends-result a _ (ends p) = p

abbrev pub started_world : World
started_world =
    let r = result (zero_ftl, blank) (init_metadata_sram zero_ftl blank) in
    record off { ftl = r.0; dram = r.1 }

pub started_world-IsBank : (bank : ℕ) → bank < num_banks → IsBank bank fresh started_world
started_world-IsBank =
    Ends-result (zero_ftl, blank) (init_metadata_sram zero_ftl blank)
      (init_metadata_sram-IsBank off)

pub started_world-Started :
    (bank : ℕ) → bank < num_banks → Started started_world.ftl.log bank started_world.dram
started_world-Started =
    let r = init_metadata_sram zero_ftl blank in
    (Ends-result {P = λ (s, m). IsReady s m} (zero_ftl, blank) r
      (init_metadata_sram-IsReady zero_ftl blank)).log
