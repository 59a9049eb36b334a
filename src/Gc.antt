-- ===== src/Gc.antt =====
-- The garbage collector of a bank: `ftl_page_mapped/garbage_collection.c`. It chooses a victim among
-- the blocks of the cold and of the second-usage heap, looks at its pages one by one, and gives the
-- block back to the list of clean blocks. `none` stands for the `while(1)` of the error paths.
pub mod Window
pub mod Banks
pub mod Choice
pub mod Scan
pub mod Page
pub mod Recycled
pub mod Release
pub mod ReadPage
pub mod Write
pub mod Idle
pub mod Sample
mod Tests
use fast2016_ftl.Common.{
  ℕ, zero, suc, ◌+◌, ◌-◌, ◌*◌, ◌/◌, ◌%◌, Bool, true, false, ◌&&◌, ◌||◌, not, Option, none, some,
  ltb, ◌==◌, if◌then◌else◌, ◌>>=◌, u32, invalid,
}
use fast2016_ftl.Params.{
  pages_per_blk, bytes_per_sector, sectors_per_page, chunks_per_page, chunks_per_recycled_page,
  chunks_per_log_blk, chunks_per_log_blk_first_usage, chunks_per_log_blk_second_usage,
  used_pages_per_log_blk,
}
use fast2016_ftl.Dram.{Dram, read_dram_32}
use fast2016_ftl.Heap.{
  HeapData, get_victim, get_victim_valid_pages_number, reset_valid_chunks_and_remove,
}
use fast2016_ftl.CleanList.{put, clean_list_push}
use fast2016_ftl.Log.Chunk.{cold_flag, without_cold_flag, with_cold_flag, log_chunk_addr}
use fast2016_ftl.Flash.{
  Hardware, nand_page_ptread, nand_block_erase, return_on_issue, return_when_done,
}
use fast2016_ftl.World.{
  GcBank, World, gc_idle, gc_read, gc_write, second, cold, set_gc, on_first, on_second, on_cold,
  on_clean, issue, get_log_vbn, chunks_map_table, victim_lpn_list, gc_buf,
}

-- The end of `initGC` and of `readPage`: the victim leaves the heaps, is erased and becomes clean.
pub release_victim : Hardware → ℕ → World → Option World
release_victim hw bank w =
    let lbn = (w.gc bank).victim_lbn in
    let v1 = chunks_per_log_blk_first_usage in
    let v2 = chunks_per_log_blk_second_usage in
    on_first (λ d m. reset_valid_chunks_and_remove d bank lbn v1 m) w >>= λ w1.
    on_second (λ d m. reset_valid_chunks_and_remove d bank lbn v2 m) w1 >>= λ w2.
    on_cold (λ d m. reset_valid_chunks_and_remove d bank lbn v2 m) w2 >>= λ w3.
    on_clean (λ d m. clean_list_push d bank lbn m)
      (issue hw (nand_block_erase bank (w3.gc bank).victim_vbn) w3)
    >>= λ w4. some (set_gc bank (record (w4.gc bank) { gc_state = gc_idle }) w4)

-- The loop over the adaptive window, from its last index `i` down to 1.
pub shift_window : ℕ → (ℕ → ℕ) → ℕ → ℕ
shift_window zero window = window
shift_window (suc i) window = shift_window i (put window (suc i) (window i))

-- The test of `initGC` between the victims of the two heaps.
abbrev pub takes_cold : ℕ → World → Bool
takes_cold bank w = ltb (get_victim_valid_pages_number (cold w) bank w.dram) (
    u32 (get_victim_valid_pages_number (second w) bank w.dram * w.tuning.second_hot_factor_num)
    / w.tuning.second_hot_factor_den)

-- The heap that `initGC` takes the victim from.
abbrev pub victim_heap : ℕ → World → HeapData
victim_heap bank w = if takes_cold bank w then cold w else second w

-- The globals that `initGC` sets before it looks at the number of valid chunks.
abbrev pub chosen : ℕ → World → World
chosen bank w =
    let valid = get_victim_valid_pages_number (victim_heap bank w) bank w.dram in
    let lbn = get_victim (victim_heap bank w) bank w.dram in
    let window = w.tuning.adaptive_window bank in
    let shifted = put (shift_window (w.tuning.adaptive_window_size - 1) window) 0 valid in
    record w {
      gc = λ b.
          if b == bank
          then record (w.gc bank) {
            n_valid_chunks_in_blk = 0;
            victim_lbn = lbn;
            victim_vbn = get_log_vbn bank lbn w.dram;
          }
          else w.gc b;
      ftl = record w.ftl {
        log = record w.ftl.log {
          n_valid_chunks_from_heap = put w.ftl.log.n_valid_chunks_from_heap bank valid;
        };
      };
      tuning = record w.tuning {
        adaptive_window = λ b. if b == bank then shifted else w.tuning.adaptive_window b;
      };
    }

pub init_gc : Hardware → ℕ → World → Option World
init_gc hw bank w =
    let w1 = chosen bank w in
    let g = w1.gc bank in
    let list_sectors = (4 * chunks_per_log_blk + bytes_per_sector - 1) / bytes_per_sector in
    let read =
      nand_page_ptread bank g.victim_vbn (pages_per_blk - 1) 0 list_sectors (victim_lpn_list bank)
        return_when_done in
    if ltb 0 (w1.ftl.log.n_valid_chunks_from_heap bank)
    then some (
        set_gc bank (record g { gc_on_recycled_page = false; page_offset = 0; gc_state = gc_read })
          (issue hw read w1))
    else release_victim hw bank w1

-- `victimLpns`, the entries of the list for one page.
abbrev pub victim_lpns : ℕ → ℕ → Dram → ℕ → ℕ
victim_lpns bank page m chunk =
    read_dram_32 (victim_lpn_list bank + page * chunks_per_page * 4 + 4 * chunk) m

-- `lpn != INVALID && lpn & ColdLogBufBitFlag`
abbrev pub is_marked : ℕ → Bool
is_marked lpn = not (lpn == invalid) && ltb 0 (cold_flag lpn)

-- The loop that finds out whether the page is a recycled one, with `k` chunks left.
pub find_recycled : ℕ → (ℕ → ℕ) → ℕ → Bool → Option Bool
find_recycled zero lpns chunk recycled = some recycled
find_recycled (suc k) lpns chunk recycled =
    let rest = find_recycled k lpns (suc chunk) (recycled || is_marked (lpns chunk)) in
    if recycled && not (lpns chunk == invalid) && not (is_marked (lpns chunk)) then none else rest

abbrev pub mark : (ℕ → Bool) → ℕ → ℕ → Bool
mark valid chunk c = if c == chunk then true else valid c

-- What the two loops over the chunks of a page do with a chunk that the map finds at its place `i`.
abbrev pub take_chunk : ℕ → ℕ → ℕ → GcBank → GcBank
take_chunk chunk i lpn g = record g {
  data_chunk_offsets = put g.data_chunk_offsets chunk i;
  data_lpns = put g.data_lpns chunk lpn;
  valid_chunks = mark g.valid_chunks chunk;
  n_valid_chunks_in_page = u32 (g.n_valid_chunks_in_page + 1);
  n_valid_chunks_in_blk = u32 (g.n_valid_chunks_in_blk + 1);
}

-- The place of the address `addr` among the entries that the map has for the page `lpn`.
abbrev pub map_search : Hardware → ℕ → ℕ → Dram → ℕ
map_search hw lpn addr m = hw.search_equ (chunks_map_table lpn 0) chunks_per_page addr m

-- The loop over the chunks of a page, with `k` chunks left. On a recycled page the mark is taken off
-- the page's number.
pub scan_chunks : ℕ → Hardware → Bool → (ℕ → ℕ) → ℕ → ℕ → Dram → GcBank → GcBank
scan_chunks zero hw recycled lpns chunk addr m g = g
scan_chunks (suc k) hw recycled lpns chunk addr m g =
    let lpn = lpns chunk in
    let i = map_search hw lpn addr m in
    let data_lpn = if recycled then without_cold_flag lpn else lpn in
    scan_chunks k hw recycled lpns (suc chunk) (u32 (addr + 1)) m (
      if lpn == invalid
      then g
      else if ltb i chunks_per_page
      then take_chunk chunk i data_lpn g
      else g)

-- The start of a round of `readPage`.
abbrev pub page_start : Bool → GcBank → GcBank
page_start recycled g = record g {
  n_valid_chunks_in_page = 0;
  valid_chunks = λ chunk. false;
  gc_on_recycled_page = recycled;
}

-- The two cases of a page, once it is known whether it is recycled.
abbrev pub scan_as : Hardware → ℕ → Dram → GcBank → Bool → GcBank
scan_as hw bank m g recycled =
    let lpns = victim_lpns bank g.page_offset m in
    let addr = log_chunk_addr bank g.victim_lbn g.page_offset 0 in
    if recycled
    then scan_chunks chunks_per_recycled_page hw true lpns 0 (with_cold_flag addr) m
        (page_start true g)
    else scan_chunks chunks_per_page hw false lpns 0 addr m (page_start false g)

-- A round of `readPage` up to the test of the number of valid chunks.
pub scan_page : Hardware → ℕ → Dram → GcBank → Option GcBank
unfolding find_recycled scan_chunks
scan_page hw bank m g =
    find_recycled chunks_per_recycled_page (victim_lpns bank g.page_offset m) 0 false
    >>= λ recycled. some (scan_as hw bank m g recycled)

-- The read of a page with valid chunks into the buffer of the collector.
abbrev pub page_read : Hardware → ℕ → World → GcBank → World
page_read hw bank w g =
    issue hw
      (nand_page_ptread bank g.victim_vbn g.page_offset 0 sectors_per_page (gc_buf bank)
        return_on_issue)
      (set_gc bank (record g { gc_state = gc_write }) w)

-- The end of a round: a page with valid chunks is read, and else the next page follows.
abbrev pub page_end : (GcBank → Option World) → Hardware → ℕ → World → GcBank → Option World
page_end next hw bank w g =
    if ltb 0 g.n_valid_chunks_in_page then some (page_read hw bank w g) else next g

-- What follows the loop of `readPage`.
abbrev pub pages_end : Hardware → ℕ → World → Option World
pages_end hw bank w =
    if (w.gc bank).n_valid_chunks_in_blk == w.ftl.log.n_valid_chunks_from_heap bank
    then release_victim hw bank w
    else none

-- `pageOffset[bank]++`, of a UINT8.
abbrev pub next_page : ℕ → World → GcBank → World
next_page bank w g = set_gc bank (record g { page_offset = (g.page_offset + 1) % 256 }) w

-- The loop of `readPage`, with `k` rounds left, and what follows it.
pub read_page_loop : ℕ → Hardware → ℕ → World → Option World
read_page_loop zero hw bank w = none
read_page_loop (suc k) hw bank w =
    let round =
      scan_page hw bank w.dram (w.gc bank)
      >>= page_end (λ g. read_page_loop k hw bank (next_page bank w g)) hw bank w in
    if ltb (w.gc bank).page_offset used_pages_per_log_blk then round else pages_end hw bank w

pub read_page : Hardware → ℕ → World → Option World
unfolding read_page_loop
read_page hw bank = read_page_loop (suc used_pages_per_log_blk) hw bank
