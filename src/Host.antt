-- ===== src/Host.antt =====
-- The interface to the SATA layer: `readFromLogBlk` of `ftl_page_mapped/read.c` and `ftl_read` of
-- `ftl_page_mapped/ftl.c`. A page is handed to the host in a buffer of its own; the registers of the
-- buffer manager say which buffers are ready.
pub mod Read
pub mod Request
pub mod Sample
mod Tests
use fast2016_ftl.Common.{
  ℕ, zero, suc, ◌+◌, ◌-◌, ◌*◌, ◌/◌, ◌%◌, ◌^◌, Option, none, some, ltb, ◌==◌, if◌then◌else◌, ◌>>=◌,
  sub32, u32,
}
use fast2016_ftl.Params.{sectors_per_page, bytes_per_sector, words_per_sector}
use fast2016_ftl.Layout.{ftl_buf, rd_buf_ptr, num_rd_buffers}
use fast2016_ftl.Flash.{Hardware}
use fast2016_ftl.World.{World, set_dram, copy_words}
use fast2016_ftl.Read.{read_mode}
use fast2016_ftl.Rebuild.{rebuild_page_to_ftl_buf}

-- `g_ftl_read_buf_id` and the registers BM_STACK_RDSET and BM_STACK_RESET.
pub record ReadSide : Type 0 where
  pub read_buf_id : ℕ
  pub stack_rdset : ℕ
  pub stack_reset : ℕ

pub read_from_log_blk : Hardware → ℕ → ℕ → ℕ → ReadSide × World → Option (ReadSide × World)
read_from_log_blk hw data_lpn sect_offset n_sects (h, w) =
    let dst = rd_buf_ptr h.read_buf_id + sect_offset * bytes_per_sector in
    let src = ftl_buf 0 + sect_offset * bytes_per_sector in
    rebuild_page_to_ftl_buf hw data_lpn sect_offset n_sects read_mode w >>= λ w1.
    let id = (h.read_buf_id + 1) % num_rd_buffers in
    some (
      record { read_buf_id = id; stack_rdset = id; stack_reset = 2 },
      set_dram (copy_words (n_sects * words_per_sector) dst src w1.dram) w1,
    )

-- The loop of `ftl_read` with `k` rounds left; `none` means that the fuel ran out.
pub read_pages : ℕ → Hardware → ℕ → ℕ → ℕ → ReadSide × World → Option (ReadSide × World)
read_pages zero hw lpn sect_offset remain_sects s = none
read_pages (suc k) hw lpn sect_offset remain_sects s =
    let n =
      if ltb (u32 (sect_offset + remain_sects)) sectors_per_page
      then remain_sects
      else sectors_per_page - sect_offset in
    let round =
      read_from_log_blk hw lpn sect_offset n s
      >>= read_pages k hw (u32 (lpn + 1)) 0 (sub32 remain_sects n) in
    if remain_sects == 0 then some s else round

-- `lba & overwriteLbaMask`; the position of the bit for overwriting is 26.
abbrev pub masked_lba : ℕ → ℕ
masked_lba lba = lba % 2 ^ 26

-- One round more than there are sectors is enough, since each round but the last reads one.
pub ftl_read : Hardware → ℕ → ℕ → ReadSide × World → Option (ReadSide × World)
unfolding read_pages
ftl_read hw lba num_sectors s =
    read_pages (suc num_sectors) hw (masked_lba lba / sectors_per_page)
      (masked_lba lba % sectors_per_page) num_sectors s
