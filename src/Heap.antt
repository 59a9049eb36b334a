-- ===== src/Heap.antt =====
-- The heap of log blocks by valid chunks, one for each bank: `ftl_page_mapped/heap.c`, with the
-- types `heapEl` and `heapData`. The elements and the positions stand in DRAM, the number of
-- elements in SRAM. OPTION_DEBUG_HEAP is 0, so the checks that stop the firmware are left out.
pub mod Cells
pub mod View
pub mod Swap
pub mod Kept
pub mod Down
pub mod Up
pub mod Change
pub mod Update
pub mod Underflow
pub mod Resize
pub mod Remove
pub mod Reset
pub mod Insert
pub mod Victim
pub mod Apart
pub mod Init
pub mod DecrementAll
pub mod Disorder
pub mod Region
pub mod Sample
mod Tests
use fast2016_ftl.Common.{
  ℕ, zero, suc, ◌+◌, ◌-◌, ◌*◌, ◌/◌, ◌%◌, Bool, ◌&&◌, Option, none, some, ltb, leb, ◌==◌,
  if◌then◌else◌, ◌>>=◌, u16, u32, sub16, sub32, invalid,
}
use fast2016_ftl.Params.{num_banks, log_blk_per_bank}
use fast2016_ftl.Dram.{Dram, read_dram_32, write_dram_32}

pub record HeapEl : Type 0 where
  pub value : ℕ
  pub lbn : ℕ

pub record HeapData : Type 0 where
  pub positions_ptr : ℕ
  pub n_el_in_heap : ℕ → ℕ
  pub dram_start_addr : ℕ
  pub log_blks_per_bank : ℕ
  pub first_lbn : ℕ

-- `stubUnion`: the two UINT16 of an element as one little-endian word.
pub pack : HeapEl → ℕ
pack e = u16 e.value + 65536 * u16 e.lbn

pub unpack : ℕ → HeapEl
unpack w = record { value = w % 65536; lbn = w / 65536 % 65536 }

-- `ValidChunksAddr` and `HeapPositions` of `ftl_page_mapped/dram_layout.h`.
pub valid_chunks_addr : ℕ → ℕ → ℕ → ℕ
valid_chunks_addr start bank pos = u32 (start + bank * log_blk_per_bank * 4 + pos * 4)

pub heap_positions : ℕ → ℕ → ℕ → ℕ
heap_positions base bank blk = u32 (base + (bank * log_blk_per_bank + blk) * 4)

-- Positions start from 1.
pub set_heap_el : HeapData → ℕ → ℕ → HeapEl → Dram → Dram
set_heap_el d bank pos el =
    write_dram_32 (valid_chunks_addr d.dram_start_addr bank (sub32 (u16 pos) 1)) (pack el)

pub get_heap_el : HeapData → ℕ → ℕ → Dram → HeapEl
get_heap_el d bank pos m =
    unpack (read_dram_32 (valid_chunks_addr d.dram_start_addr bank (sub32 (u16 pos) 1)) m)

-- The word of a block in the table of positions.
pub get_pos : HeapData → ℕ → ℕ → Dram → ℕ
get_pos d bank lbn = read_dram_32 (heap_positions d.positions_ptr bank lbn)

pub set_pos : HeapData → ℕ → ℕ → ℕ → Dram → Dram
set_pos d bank lbn pos = write_dram_32 (heap_positions d.positions_ptr bank lbn) pos

pub swap : HeapData → ℕ → HeapEl → ℕ → HeapEl → ℕ → Dram → Dram
swap d bank el1 pos1 el2 pos2 m =
    let m1 = set_heap_el d bank pos1 el2 m in
    let m2 = set_heap_el d bank pos2 el1 m1 in
    let m3 = set_pos d bank el1.lbn (u16 pos2) m2 in set_pos d bank el2.lbn (u16 pos1) m3

-- The loop of `bubbleDown`; the children of `father` are computed anew in each round.
bubble_down_loop : ℕ → HeapData → ℕ → ℕ → Dram → Option Dram
bubble_down_loop zero d bank pos_father m = none
bubble_down_loop (suc k) d bank pos_father m =
    let pos_child1 = u16 (pos_father * 2) in
    let pos_child2 = u16 (pos_father * 2 + 1) in
    let father = get_heap_el d bank pos_father m in
    let child1 = get_heap_el d bank pos_child1 m in
    let child2 = get_heap_el d bank pos_child2 m in
    let down1 =
      bubble_down_loop k d bank pos_child1 (swap d bank father pos_father child1 pos_child1 m) in
    let down2 =
      bubble_down_loop k d bank pos_child2 (swap d bank father pos_father child2 pos_child2 m) in
    if ltb (d.n_el_in_heap bank) pos_child1
    then some m
    else if ltb (d.n_el_in_heap bank) pos_child2
    then if leb father.value child1.value then some m else down1
    else if leb father.value child1.value && leb father.value child2.value
    then some m
    else if ltb child1.value child2.value
    then down1
    else down2

pub bubble_down : HeapData → ℕ → ℕ → Dram → Option Dram
unfolding bubble_down_loop
bubble_down d bank pos = bubble_down_loop (suc (d.n_el_in_heap bank)) d bank (u16 pos)

bubble_up_loop : ℕ → HeapData → ℕ → ℕ → Dram → Option Dram
bubble_up_loop zero d bank pos_child m = none
bubble_up_loop (suc k) d bank pos_child m =
    let pos_father = pos_child / 2 in
    let child = get_heap_el d bank pos_child m in
    let father = get_heap_el d bank pos_father m in
    let m' = swap d bank child pos_child father pos_father m in
    let up = bubble_up_loop k d bank pos_father m' in
    if ltb child.value father.value then if pos_father == 1 then some m' else up else some m

pub bubble_up : HeapData → ℕ → ℕ → Dram → Option Dram
unfolding bubble_up_loop
bubble_up d bank pos m =
    if u16 pos == 1 then some m else bubble_up_loop (suc (u16 pos)) d bank (u16 pos) m

-- The number of a block among those that the heap counts.
abbrev pub log_lbn_of : HeapData → ℕ → ℕ
log_lbn_of d real_log_lbn = u16 (sub32 (u16 real_log_lbn) d.first_lbn)

pub increment_valid_chunks_by_n : HeapData → ℕ → ℕ → ℕ → Dram → Option Dram
increment_valid_chunks_by_n d bank real_log_lbn n m =
    let pos = get_pos d bank (log_lbn_of d real_log_lbn) m in
    let el = get_heap_el d bank pos m in
    let m' = set_heap_el d bank pos (record el { value = u16 (el.value + n) }) m in
    if leb pos (d.n_el_in_heap bank) then bubble_down d bank pos m' else some m'

-- One round for each position from `pos` on.
decrement_all_loop : ℕ → HeapData → ℕ → ℕ → ℕ → Dram → Dram
decrement_all_loop zero d bank n pos m = m
decrement_all_loop (suc k) d bank n pos m =
    let el = get_heap_el d bank pos m in
    let less = if ltb n el.value then el.value - n else 0 in
    decrement_all_loop k d bank n (suc pos) (set_heap_el d bank pos (record el { value = less }) m)

pub decrement_valid_chunks_all_by_n : HeapData → ℕ → ℕ → Dram → Dram
unfolding decrement_all_loop
decrement_valid_chunks_all_by_n d bank n = decrement_all_loop (d.n_el_in_heap bank) d bank n 1

-- The test for a value of 0 stands under OPTION_DEBUG_HEAP, so the value may wrap.
pub decrement_valid_chunks : HeapData → ℕ → ℕ → Dram → Option Dram
decrement_valid_chunks d bank real_log_lbn m =
    let pos = get_pos d bank (log_lbn_of d real_log_lbn) m in
    let el = get_heap_el d bank pos m in
    let m' = set_heap_el d bank pos (record el { value = sub16 el.value 1 }) m in
    if leb pos (d.n_el_in_heap bank) then bubble_up d bank pos m' else some m'

pub decrement_valid_chunks_by_n : HeapData → ℕ → ℕ → ℕ → Dram → Option Dram
decrement_valid_chunks_by_n d bank real_log_lbn n m =
    let pos = get_pos d bank (log_lbn_of d real_log_lbn) m in
    let el = get_heap_el d bank pos m in
    let m' = set_heap_el d bank pos (record el { value = sub16 el.value (u16 n) }) m in
    if leb pos (d.n_el_in_heap bank) then bubble_up d bank pos m' else some m'

pub set_valid_chunks : HeapData → ℕ → ℕ → ℕ → Dram → Dram
set_valid_chunks d bank real_log_lbn initial_value m =
    let pos = get_pos d bank (log_lbn_of d real_log_lbn) m in
    let el = get_heap_el d bank pos m in
    set_heap_el d bank pos (record el { value = u16 initial_value }) m

-- `data->nElInHeap[bank] = n`
abbrev pub set_n_el : HeapData → ℕ → ℕ → HeapData
set_n_el d bank n = record d { n_el_in_heap = λ b. if b == bank then n else d.n_el_in_heap b }

pub reset_valid_chunks_and_remove : HeapData → ℕ → ℕ → ℕ → Dram → Option (HeapData × Dram)
reset_valid_chunks_and_remove d bank real_log_lbn initial_value m =
    let pos = get_pos d bank (log_lbn_of d real_log_lbn) m in
    let el = record (get_heap_el d bank pos m) { value = u16 initial_value } in
    let m1 = set_heap_el d bank pos el m in
    let last_pos = u16 (d.n_el_in_heap bank) in
    let m2 = swap d bank el pos (get_heap_el d bank last_pos m1) last_pos m1 in
    let d' = set_n_el d bank (sub32 (d.n_el_in_heap bank) 1) in
    if leb pos last_pos then (bubble_down d' bank pos m2 >>= λ m3. some (d', m3)) else some (d, m1)

pub insert_blk_in_heap : HeapData → ℕ → ℕ → Dram → Option (HeapData × Dram)
insert_blk_in_heap d bank real_log_lbn m =
    let d' = set_n_el d bank (u32 (d.n_el_in_heap bank + 1)) in
    let pos = get_pos d' bank (log_lbn_of d' real_log_lbn) m in
    let el = get_heap_el d' bank pos m in
    let last_pos = u16 (d'.n_el_in_heap bank) in
    let m' = swap d' bank el pos (get_heap_el d' bank last_pos m) last_pos m in
    if ltb 1 (d'.n_el_in_heap bank)
    then (bubble_up d' bank last_pos m' >>= λ m2. some (d', m2))
    else some (d', m')

pub get_victim : HeapData → ℕ → Dram → ℕ
get_victim d bank m = u32 ((get_heap_el d bank 1 m).lbn + d.first_lbn)

pub get_victim_valid_pages_number : HeapData → ℕ → Dram → ℕ
get_victim_valid_pages_number d bank m =
    if ltb 0 (d.n_el_in_heap bank) then (get_heap_el d bank 1 m).value else invalid

-- The inner loop of `ValidChunksHeapInit`, with `k` blocks left.
pub init_blks : ℕ → HeapData → ℕ → ℕ → ℕ → ℕ → Dram → Dram
init_blks zero d bank initial_value i pos m = m
init_blks (suc k) d bank initial_value i pos m =
    let m1 = set_pos d bank i pos m in
    let m2 = set_heap_el d bank pos (record { value = u16 initial_value; lbn = u16 i }) m1 in
    init_blks k d bank initial_value (suc i) (u16 (pos + 1)) m2

pub init_banks : ℕ → HeapData → ℕ → ℕ → Dram → HeapData × Dram
init_banks zero d bank initial_value m = (d, m)
init_banks (suc k) d bank initial_value m =
    init_banks k (set_n_el d bank 0) (suc bank) initial_value
      (init_blks d.log_blks_per_bank d bank initial_value 0 1 m)

pub valid_chunks_heap_init : HeapData → ℕ → ℕ → ℕ → Dram → HeapData × Dram
valid_chunks_heap_init d blks_per_bank first_lbn initial_value m =
    let d' = record d { log_blks_per_bank = blks_per_bank; first_lbn = first_lbn } in
    init_banks num_banks d' 0 initial_value m
