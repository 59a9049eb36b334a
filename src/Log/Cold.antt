-- ===== src/Log/Cold.antt =====
-- The next page of the block for cold data: `increaseLpnColdBlk` of `ftl_page_mapped/log.c`, where
-- CanReuseBlksForColdData is 0. The garbage collector that it calls is an argument.
pub mod Next
use fast2016_ftl.Common.{
  ℕ, ◌<◌, ◌≡◌, refl, arith, false, zero, suc, ◌+◌, ◌-◌, ◌*◌, ◌/◌, Option, none, some, ltb, ◌==◌,
  if◌then◌else◌, ◌>>=◌, u32, invalid,
}
use fast2016_ftl.Params.{
  pages_per_blk, used_pages_per_log_blk, chunks_per_log_blk, chunks_per_blk, bytes_per_sector,
}
use fast2016_ftl.Heap.{insert_blk_in_heap}
use fast2016_ftl.CleanList.{clean_list_pop, clean_list_size}
use fast2016_ftl.Log.Complete.{log_page_to_offset, log_page_to_log_blk}
use fast2016_ftl.Flash.{Hardware, nand_page_ptprogram, return_when_done}
use fast2016_ftl.World.{
  World, clean, cold_ctrl, set_cold_ctrl, set_dram, on_cold, program, get_log_vbn, set_words,
}

-- `cleanListPop`, in the world, and what is done with the block.
abbrev pub pop_clean : ℕ → World → (ℕ → World → Option World) → Option World
pop_clean bank w next = clean_list_pop (clean w) bank w.dram >>= λ (lbn, d, m). next lbn (record w {
  ftl = record w.ftl { log = record w.ftl.log { clean_list_data_write = d } };
  dram = m;
})

-- The loop that collects until two blocks are clean, with `k` rounds left.
pub collect_while_short : ℕ → (ℕ → World → Option World) → ℕ → World → Option World
collect_while_short zero gc bank w = none
collect_while_short (suc k) gc bank w =
    let round = gc bank w >>= collect_while_short k gc bank in
    if ltb (clean_list_size (clean w) bank) 2 then round else some w

-- The full block: its list of data pages is written to its last page and cleared.
abbrev pub close_blk : Hardware → ℕ → World → World
close_blk hw bank w =
    let c = cold_ctrl w bank in
    let list_sectors = (4 * chunks_per_log_blk + bytes_per_sector - 1) / bytes_per_sector in
    let vbn = get_log_vbn bank (log_page_to_log_blk c.log_lpn) w.dram in
    let w1 =
      program hw list_sectors
        (nand_page_ptprogram bank vbn (pages_per_blk - 1) 0 list_sectors c.lpns_list_addr
          return_when_done)
        w in
    set_dram (set_words chunks_per_blk c.lpns_list_addr invalid w1.dram) w1

pub increase_lpn_cold_blk : ℕ → (ℕ → World → Option World) → Hardware → ℕ → World → Option World
unfolding collect_while_short
increase_lpn_cold_blk k gc hw bank w =
    let lpn = (cold_ctrl w bank).log_lpn in
    let full =
      on_cold (λ d m. insert_blk_in_heap d bank (log_page_to_log_blk lpn) m) (close_blk hw bank w)
      >>= λ w1. pop_clean bank w1 λ lbn w2. collect_while_short k gc bank (
          set_cold_ctrl bank (record (cold_ctrl w2 bank) { log_lpn = u32 (lbn * pages_per_blk) })
            w2) in
    if log_page_to_offset lpn == used_pages_per_log_blk - 1
    then full
    else some (set_cold_ctrl bank (record (cold_ctrl w bank) { log_lpn = u32 (lpn + 1) }) w)

-- A page that is not the last one of its block.
pub increase_lpn_cold_blk-within :
    (k : ℕ) (gc : ℕ → World → Option World) (hw : Hardware) (bank : ℕ) (w : World)
    → log_page_to_offset (cold_ctrl w bank).log_lpn < used_pages_per_log_blk - 1
    → increase_lpn_cold_blk k gc hw bank w
      ≡ some (
          set_cold_ctrl bank
            (record (cold_ctrl w bank) { log_lpn = u32 ((cold_ctrl w bank).log_lpn + 1) })
            w)
unfolding increase_lpn_cold_blk
increase_lpn_cold_blk-within k gc hw bank w h =
    let t : (log_page_to_offset (cold_ctrl w bank).log_lpn == used_pages_per_log_blk - 1) ≡ false =
      ground (arith, h) in
    rw t refl
