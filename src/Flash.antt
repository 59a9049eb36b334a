-- ===== src/Flash.antt =====
-- The commands of the flash controller that the translation layer issues:
-- `target_spw/flash_wrapper.c`. A command is the value of the FCP registers that count for it; what
-- the controller does with it is a parameter, `Hardware`. OPTION_2_PLANE is 1, so FO_P is 1.
pub mod Laws
pub mod Reader
use fast2016_ftl.Common.{ℕ, ◌+◌, ◌*◌, ◌%◌, List, ◌∷◌, u32}
use fast2016_ftl.Params.{pages_per_blk, bytes_per_page, bytes_per_sector, sectors_per_page}
use fast2016_ftl.Dram.{Dram}

-- FC_COL_ROW_READ_OUT, FC_COL_ROW_IN_PROG and FC_ERASE. The arguments are the bank, FCP_OPTION,
-- FCP_DMA_ADDR, FCP_DMA_CNT, FCP_COL, FCP_ROW_L and the flag of `flash_issue_cmd`.
pub data FlashCommand : Type 0 where
  read_out : (bank option dma_addr dma_cnt col row flag : ℕ) → FlashCommand
  in_prog : (bank option dma_addr dma_cnt col row flag : ℕ) → FlashCommand
  erase : (bank option row flag : ℕ) → FlashCommand

abbrev pub return_on_issue : ℕ
return_on_issue = 0

abbrev pub return_when_done : ℕ
return_when_done = 2

-- FO_P | FO_E and FO_P | FO_E | FO_B_W_DRDY
abbrev pub fo_p_e : ℕ
fo_p_e = 1 + 6

abbrev pub fo_p_e_drdy : ℕ
fo_p_e_drdy = 1 + 6 + 64

abbrev pub row_of : ℕ → ℕ → ℕ
row_of vblock page_num = u32 (vblock * pages_per_blk + page_num)

pub nand_page_ptread : ℕ → ℕ → ℕ → ℕ → ℕ → ℕ → ℕ → FlashCommand
nand_page_ptread bank vblock page_num sect_offset num_sectors buf_addr flag =
    read_out bank fo_p_e buf_addr (u32 (num_sectors * bytes_per_sector)) sect_offset
      (row_of vblock page_num) flag

pub nand_page_program : ℕ → ℕ → ℕ → ℕ → ℕ → FlashCommand
nand_page_program bank vblock page_num buf_addr flag =
    in_prog bank fo_p_e_drdy buf_addr bytes_per_page 0 (row_of vblock page_num) flag

pub nand_page_ptprogram : ℕ → ℕ → ℕ → ℕ → ℕ → ℕ → ℕ → FlashCommand
nand_page_ptprogram bank vblock page_num sect_offset num_sectors buf_addr flag =
    in_prog bank fo_p_e_drdy buf_addr (u32 (num_sectors * bytes_per_sector)) sect_offset
      (row_of vblock page_num) flag

pub nand_block_erase : ℕ → ℕ → FlashCommand
nand_block_erase bank vblock = erase bank 1 (u32 (vblock * pages_per_blk)) return_on_issue

-- The devices that the firmware drives: the flash controller, which writes to DRAM when it carries
-- out a command, given the commands before it, and the memory utility, which searches a table of
-- words (address and number of words) for a value.
pub record Hardware : Type 0 where
  pub transfer : List FlashCommand → FlashCommand → Dram → Dram
  pub search_equ : ℕ → ℕ → ℕ → Dram → ℕ
