-- ===== src/Ftl/Start.antt =====
-- What `init_metadata_sram` leaves: three heaps without members, apart from each other, and the log.
use fast2016_ftl.Common.{ℕ, ◌+◌, ◌≤◌, ◌<◌, ◌≡◌, inl, arith, Ends, ends, Ends-bind}
use fast2016_ftl.Params.{num_banks}
use fast2016_ftl.Layout.{
  heap_valid_chunks_addr_first_usage, heap_valid_chunks_positions_first_usage,
  heap_valid_chunks_addr_second_usage, heap_valid_chunks_positions_second_usage,
  heap_valid_chunks_addr_cold, heap_valid_chunks_positions_cold,
}
use fast2016_ftl.Dram.{Dram}
use fast2016_ftl.Heap.{HeapData}
use fast2016_ftl.Heap.Init.{FitsAll}
use fast2016_ftl.Heap.Region.{
  IsEmptyHeap, IsEmptyHeap-Same, valid_chunks_heap_init-IsEmptyHeap,
  valid_chunks_heap_init-elsewhere,
}
use fast2016_ftl.Log.Start.{Started, SameBelow, init_log-Started}
use fast2016_ftl.Ftl.{FtlState, init_heap, init_metadata_sram}

-- The three heaps and the log after the start, in one memory.
pub record IsReady (s : FtlState) (m : Dram) : Type 0 where
  pub first_usage :
      IsEmptyHeap s.heap_data_first_usage heap_valid_chunks_addr_first_usage
        heap_valid_chunks_positions_first_usage 512 1008 m
  pub second_usage :
      IsEmptyHeap s.heap_data_second_usage heap_valid_chunks_addr_second_usage
        heap_valid_chunks_positions_second_usage 512 1016 m
  pub cold :
      IsEmptyHeap s.heap_data_cold heap_valid_chunks_addr_cold heap_valid_chunks_positions_cold 512
        1016 m
  pub log : (b : ℕ) → b < num_banks → Started s.log b m

-- A heap whose tables lie one behind the other between the first heap and the clean lists.
placed-FitsAll :
    (d : HeapData) (els positions v : ℕ) (m : Dram)
    → IsEmptyHeap d els positions 512 v m
    → heap_valid_chunks_addr_first_usage ≤ els
    → positions ≡ els + 32768
    → positions ≤ heap_valid_chunks_positions_cold
    → FitsAll d
placed-FitsAll d els positions v m h low next high b hb = record {
  bank_lt = hb;
  blks = omega (arith, h.blks_per_bank);
  start = omega (arith, h.els_at);
  apart = omega (arith, h.els_at, h.positions_at);
  inside = omega (arith, h.positions_at);
}

module _ (d : HeapData) (els positions v : ℕ) (m : Dram)
    (low : heap_valid_chunks_addr_first_usage ≤ els) (next : positions ≡ els + 32768)
    (high : positions ≤ heap_valid_chunks_positions_cold) where
  abbrev d1 : HeapData
  d1 = record d { dram_start_addr = els; positions_ptr = positions }

  start-FitsAll : FitsAll (record d1 { log_blks_per_bank = 512; first_lbn = 0 })
  start-FitsAll b hb = record {
    bank_lt = hb;
    blks = omega arith;
    start = omega arith;
    apart = omega arith;
    inside = omega arith;
  }

  init_heap-IsEmptyHeap :
      v < 65536
      → IsEmptyHeap
          (init_heap d els positions v m).0
          els
          positions
          512
          v
          (init_heap d els positions v m).1
  init_heap-IsEmptyHeap word =
      valid_chunks_heap_init-IsEmptyHeap d1 512 v m start-FitsAll word (omega arith)

  -- Another heap, of which the tables lie on one side.
  init_heap-keeps :
      (e : HeapData) (els' positions' w : ℕ)
      → heap_valid_chunks_addr_first_usage ≤ els'
      → positions' ≡ els' + 32768
      → positions' + 32768 ≤ els
      → IsEmptyHeap e els' positions' 512 w m
      → IsEmptyHeap e els' positions' 512 w (init_heap d els positions v m).1
  init_heap-keeps e els' positions' w low' next' before h =
      IsEmptyHeap-Same e els' positions' 512 w m (init_heap d els positions v m).1
        (placed-FitsAll e els' positions' w m h low' next' (omega arith))
        (λ a ok from to.
          valid_chunks_heap_init-elsewhere d1 512 0 v m start-FitsAll a (record {
            inside = ok;
            els_out = inl (omega arith);
            positions_out = inl (omega arith);
          }))
        h

-- `initLog` writes behind the heaps.
init_log-keeps :
    (e : HeapData) (els positions w : ℕ) (m m' : Dram)
    → SameBelow m m'
    → heap_valid_chunks_addr_first_usage ≤ els
    → positions ≡ els + 32768
    → positions ≤ heap_valid_chunks_positions_cold
    → IsEmptyHeap e els positions 512 w m
    → IsEmptyHeap e els positions 512 w m'
init_log-keeps e els positions w m m' same low next high h =
    IsEmptyHeap-Same e els positions 512 w m m' (placed-FitsAll e els positions w m h low next high)
      (λ a ok from to. same a ok (omega arith)) h

-- `init_metadata_sram` ends; afterwards, in one memory, each of the three heaps is valid and without
-- members in every bank, its blocks have the number of chunks of their usage, and the log of every
-- bank is set up.
pub init_metadata_sram-IsReady :
    (s : FtlState) (m : Dram) → Ends (λ (s', m'). IsReady s' m') (init_metadata_sram s m)
unfolding init_metadata_sram
init_metadata_sram-IsReady s m =
    let A = heap_valid_chunks_addr_first_usage in
    let PA = heap_valid_chunks_positions_first_usage in
    let B = heap_valid_chunks_addr_second_usage in
    let PB = heap_valid_chunks_positions_second_usage in
    let C = heap_valid_chunks_addr_cold in
    let PC = heap_valid_chunks_positions_cold in
    let da = s.heap_data_first_usage in
    let db = s.heap_data_second_usage in
    let dc = s.heap_data_cold in
    let first = init_heap da A PA 1008 m in
    let second = init_heap db B PB 1016 first.1 in
    let cold = init_heap dc C PC 1016 second.1 in
    let e1 =
      init_heap-IsEmptyHeap da A PA 1008 m (omega arith) (omega arith) (omega arith)
        (omega arith) in
    let e2 =
      init_heap-IsEmptyHeap db B PB 1016 first.1 (omega arith) (omega arith) (omega arith)
        (omega arith) in
    let e3 =
      init_heap-IsEmptyHeap dc C PC 1016 second.1 (omega arith) (omega arith) (omega arith)
        (omega arith) in
    let e1' =
      init_heap-keeps db B PB 1016 first.1 (omega arith) (omega arith) (omega arith) first.0 A PA
        1008 (omega arith) (omega arith) (omega arith) e1 in
    let e1'' =
      init_heap-keeps dc C PC 1016 second.1 (omega arith) (omega arith) (omega arith) first.0 A PA
        1008 (omega arith) (omega arith) (omega arith) e1' in
    let e2' =
      init_heap-keeps dc C PC 1016 second.1 (omega arith) (omega arith) (omega arith) second.0 B PB
        1016 (omega arith) (omega arith) (omega arith) e2 in
    Ends-bind (init_log-Started s.log cold.1) λ (log, m') (ready, same). ends (record {
      first_usage =
          init_log-keeps first.0 A PA 1008 cold.1 m' same (omega arith) (omega arith) (omega arith)
            e1'';
      second_usage =
          init_log-keeps second.0 B PB 1016 cold.1 m' same (omega arith) (omega arith) (omega arith)
            e2';
      cold =
          init_log-keeps cold.0 C PC 1016 cold.1 m' same (omega arith) (omega arith) (omega arith)
            e3;
      log = ready;
    })
