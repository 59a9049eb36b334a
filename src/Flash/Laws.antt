-- ===== src/Flash/Laws.antt =====
-- What the firmware relies on in its devices.
use fast2016_ftl.Common.{u32, ℕ, ◌+◌, ◌*◌, ◌≤◌, ◌<◌, ◌≡◌, ◌≢◌, List}
use fast2016_ftl.Params.{pages_per_blk}
use fast2016_ftl.Dram.{Dram, read_dram_32}
use fast2016_ftl.Flash.{
  nand_page_ptprogram, nand_block_erase, return_on_issue, FlashCommand, in_prog, erase, Hardware,
}

-- A program and an erasure do not change the DRAM. The search returns the place of an item with the
-- value, or the number of items if there is none.
pub record IsHardware (hw : Hardware) : Type 0 where
  pub in_prog_keeps :
      (before : List FlashCommand) (bank option dma_addr dma_cnt col row flag : ℕ) (m : Dram)
      → hw.transfer before (in_prog bank option dma_addr dma_cnt col row flag) m ≡ m
  pub erase_keeps :
      (before : List FlashCommand) (bank option row flag : ℕ) (m : Dram)
      → hw.transfer before (erase bank option row flag) m ≡ m
  pub found :
      (addr n val : ℕ) (m : Dram)
      → hw.search_equ addr n val m < n
      → read_dram_32 (addr + 4 * hw.search_equ addr n val m) m ≡ val
  pub not_found :
      (addr n val : ℕ) (m : Dram)
      → n ≤ hw.search_equ addr n val m
      → (i : ℕ) → i < n
      → read_dram_32 (addr + 4 * i) m ≢ val

module _ (hw : Hardware) (ok : IsHardware hw) where
  pub transfer-nand_block_erase :
      (before : List FlashCommand) (bank vblock : ℕ) (m : Dram)
      → hw.transfer before (nand_block_erase bank vblock) m ≡ m
  unfolding nand_block_erase
  transfer-nand_block_erase before bank vblock m =
      ok.erase_keeps before bank 1 (u32 (vblock * pages_per_blk)) return_on_issue m

  pub transfer-nand_page_ptprogram :
      (before : List FlashCommand) (bank vblock page_num sect_offset num_sectors buf flag : ℕ)
      (m : Dram)
      → hw.transfer before
          (nand_page_ptprogram bank vblock page_num sect_offset num_sectors buf flag)
          m
        ≡ m
  unfolding nand_page_ptprogram
  transfer-nand_page_ptprogram before bank vblock page_num sect_offset num_sectors buf flag m =
      ok.in_prog_keeps before bank _ buf _ sect_offset _ flag m
