-- ===== src/Write/Page.antt =====
-- A piece of a data page: `writeToLogBlk` and `writeCompletePage` of `ftl_page_mapped/write.c`, with
-- `nand_page_ptprogram_from_host` of `target_spw/flash_wrapper.c`.
use fast2016_ftl.Common.{
  ℕ, zero, suc, ◌+◌, ◌*◌, ◌/◌, ◌%◌, Bool, Option, some, leb, ◌==◌, if◌then◌else◌, ◌>>=◌, u32, List,
}
use fast2016_ftl.Params.{
  chunks_per_page, chunks_per_recycled_page, sectors_per_page, sectors_per_chunk, bytes_per_sector,
}
use fast2016_ftl.Layout.{wr_buf_ptr, num_wr_buffers}
use fast2016_ftl.Dram.{Dram}
use fast2016_ftl.Log.{IncreaseLpn, LogCtrlBlock}
use fast2016_ftl.Log.Chunk.{find_chunk_location}
use fast2016_ftl.Log.Complete.{log_page_to_offset, log_page_to_log_blk, get_lpn_for_complete_page}
use fast2016_ftl.Flash.{Hardware, FlashCommand, in_prog, row_of}
use fast2016_ftl.World.{
  World, second, set_dram, set_log, program, get_log_vbn, chunks_map_table, chunk_in_lpns_list,
  write_words,
}
use fast2016_ftl.Read.{mapped_addr}
use fast2016_ftl.Gc.Write.{dst_chunk_addr}
use fast2016_ftl.Trim.{WriteSide}
use fast2016_ftl.Write.{LogSide, hot_log, cold_log, ctrl, Writer, choose_new_bank, init_write}
use fast2016_ftl.Write.Old.{manage_old_chunk_for_complete_page_write, write_partial_page_old}

-- FO_P | FO_E | FO_B_SATA_W
abbrev fo_p_e_sata : ℕ
fo_p_e_sata = 1 + 6 + 128

abbrev pub nand_page_ptprogram_from_host : ℕ → ℕ → ℕ → ℕ → ℕ → ℕ → FlashCommand
nand_page_ptprogram_from_host id bank vblock page_num sect_offset num_sectors =
    in_prog bank fo_p_e_sata (wr_buf_ptr id) (u32 (num_sectors * bytes_per_sector)) sect_offset
      (row_of vblock page_num) 0

abbrev pub set_ctrls : LogSide → (ℕ → LogCtrlBlock) → World → World
set_ctrls hot_log c w = set_log (record w.ftl.log { hot_log_ctrl = c }) w
set_ctrls cold_log c w = set_log (record w.ftl.log { cold_log_ctrl = c }) w

-- A call of `getLpnForCompletePage`.
abbrev pub page_lpn : LogSide → ℕ → World → Option (ℕ × World)
page_lpn side bank w =
    get_lpn_for_complete_page (second w) bank (ctrl side w) w.dram >>= λ (lpn, c, m).
    some (lpn, set_ctrls side c (set_dram m w))

-- The old chunks, whose addresses were read before, with `k` chunks left.
pub manage_old : ℕ → ℕ → Dram → ℕ → World → Option World
manage_old zero lpn m i w = some w
manage_old (suc k) lpn m i w =
    let a = mapped_addr lpn i m in
    manage_old_chunk_for_complete_page_write (find_chunk_location a) a w
    >>= manage_old k lpn m (suc i)

abbrev next_buf : ℕ → ℕ
next_buf id = (id + 1) % num_wr_buffers

module _ (hw : Hardware) (busy : List FlashCommand → ℕ → Bool)
    (increase : IncreaseLpn → LogSide → ℕ → World → Option World) where
  pub write_complete_page : Writer → WriteSide × World → Option (WriteSide × World)
  unfolding manage_old
  write_complete_page q (h, w) = page_lpn q.side q.bank w >>= λ (lpn, w1).
      let c = ctrl q.side w1 q.bank in
      let vbn = get_log_vbn q.bank (log_page_to_log_blk lpn) w1.dram in
      let command =
        nand_page_ptprogram_from_host h.write_buf_id q.bank vbn (log_page_to_offset lpn) 0
          sectors_per_page in
      let w2 = program hw sectors_per_page command w1 in
      manage_old chunks_per_page q.lpn w2.dram 0 w2 >>= λ w3.
      let list = chunk_in_lpns_list c.lpns_list_addr (log_page_to_offset lpn) 0 in
      let m = write_words chunks_per_page list (λ i. q.lpn) 0 w3.dram in
      let mapped =
        write_words chunks_per_page (chunks_map_table q.lpn 0) (dst_chunk_addr q.bank lpn) 0 m in
      increase (ctrl q.side w3 q.bank).increase_lpn q.side q.bank (set_dram mapped w3) >>= λ w4.
      let h' = record h { write_buf_id = next_buf h.write_buf_id } in
      if leb chunks_per_recycled_page (ctrl q.side w4 q.bank).chunk_ptr
      then (page_lpn q.side q.bank w4 >>= λ (lpn', w5). some (h', w5))
      else some (h', w4)

  -- The wait for the buffer manager in `syncWithWriteLimit` is left out.
  pub write_to_log_blk : LogSide → ℕ → ℕ → ℕ → WriteSide × World → Option (WriteSide × World)
  write_to_log_blk side data_lpn sect_offset n_sects (h, w) =
      let chunk = u32 (data_lpn * chunks_per_page + sect_offset / sectors_per_chunk) in
      let q = init_write (choose_new_bank chunk) side data_lpn sect_offset n_sects in
      let part =
        write_partial_page_old hw busy increase (suc n_sects) h.write_buf_id (q, w) >>= λ (q', w1).
        some (h, w1) in
      if n_sects == sectors_per_page then write_complete_page q (h, w) else part
