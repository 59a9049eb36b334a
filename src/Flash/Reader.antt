-- ===== src/Flash/Reader.antt =====
-- What the firmware relies on when it reads from flash.
use fast2016_ftl.Common.{ℕ, ◌+◌, ◌*◌, ◌≤◌, ◌<◌, ◌≡◌, ◌⊎◌, List, ◌∷◌, arith, u32, sym, subst}
use fast2016_ftl.Params.{dram_base, dram_size, bytes_per_sector, sectors_per_page, words_per_sector}
use fast2016_ftl.Dram.{Dram, InDram, read_dram_32}
use fast2016_ftl.Flash.{FlashCommand, read_out, Hardware, fo_p_e, nand_page_ptread, row_of}

-- The content of flash after the commands: the words of a page of a bank.
abbrev pub PageWord : Type 0
PageWord = List FlashCommand → ℕ → ℕ → ℕ → ℕ

-- A read puts sector `s` of the page at `s` sectors from FCP_DMA_ADDR on, changes no other word, and
-- leaves what is in flash.
pub record IsReader (hw : Hardware) (page_word : PageWord) : Type 0 where
  pub word :
      (before : List FlashCommand) (bank row i : ℕ) → page_word before bank row i < 4294967296
  pub kept :
      (before : List FlashCommand) (bank option dma_addr dma_cnt col row flag b r i : ℕ)
      → page_word (read_out bank option dma_addr dma_cnt col row flag ∷ before) b r i
        ≡ page_word before b r i
  pub placed :
      (before : List FlashCommand) (bank dma_addr words col row flag : ℕ) (m : Dram) (i : ℕ)
      → dram_base ≤ dma_addr + col * bytes_per_sector
      → dma_addr + col * bytes_per_sector + 4 * words ≤ dram_base + dram_size
      → i < words
      → read_dram_32
          (dma_addr + col * bytes_per_sector + 4 * i)
          (hw.transfer before (read_out bank fo_p_e dma_addr (4 * words) col row flag) m)
        ≡ page_word before bank row (col * words_per_sector + i)
  pub outside :
      (before : List FlashCommand) (bank dma_addr words col row flag : ℕ) (m : Dram) (a : ℕ)
      → dram_base ≤ dma_addr + col * bytes_per_sector
      → dma_addr + col * bytes_per_sector + 4 * words ≤ dram_base + dram_size
      → InDram a
      → (a < dma_addr + col * bytes_per_sector)
        ⊎ (dma_addr + col * bytes_per_sector + 4 * words ≤ a)
      → read_dram_32 a
          (hw.transfer before (read_out bank fo_p_e dma_addr (4 * words) col row flag) m)
        ≡ read_dram_32 a m

module _ (hw : Hardware) (page_word : PageWord) (reader : IsReader hw page_word)
    (before : List FlashCommand) (bank vblock page_num sect n buf flag : ℕ) (m : Dram)
    (small : n ≤ sectors_per_page) (low : dram_base ≤ buf + sect * bytes_per_sector)
    (high : buf + sect * bytes_per_sector + 4 * (n * words_per_sector)
      ≤ dram_base + dram_size) where
  abbrev after : Dram
  after = hw.transfer before (nand_page_ptread bank vblock page_num sect n buf flag) m

  bytes : u32 (n * bytes_per_sector) ≡ 4 * (n * words_per_sector)
  bytes = omega arith

  pub nand_page_ptread-placed :
      (i : ℕ)
      → i < n * words_per_sector
      → read_dram_32 (buf + sect * bytes_per_sector + 4 * i) after
        ≡ page_word before bank (row_of vblock page_num) (sect * words_per_sector + i)
  unfolding nand_page_ptread
  nand_page_ptread-placed i h =
      subst
        (λ cnt.
          read_dram_32 (buf + sect * bytes_per_sector + 4 * i)
            (hw.transfer before (read_out bank fo_p_e buf cnt sect (row_of vblock page_num) flag) m)
          ≡ page_word before bank (row_of vblock page_num) (sect * words_per_sector + i))
        (sym bytes)
        (reader.placed before bank buf (n * words_per_sector) sect (row_of vblock page_num) flag m i
          low high h)

  pub nand_page_ptread-outside :
      (a : ℕ)
      → InDram a
      → (a < buf + sect * bytes_per_sector)
        ⊎ (buf + sect * bytes_per_sector + 4 * (n * words_per_sector) ≤ a)
      → read_dram_32 a after ≡ read_dram_32 a m
  unfolding nand_page_ptread
  nand_page_ptread-outside a ok out =
      subst
        (λ cnt.
          read_dram_32 a
            (hw.transfer before (read_out bank fo_p_e buf cnt sect (row_of vblock page_num) flag) m)
          ≡ read_dram_32 a m)
        (sym bytes)
        (reader.outside before bank buf (n * words_per_sector) sect (row_of vblock page_num) flag m
          a low high ok out)

-- A read leaves what is in flash.
pub nand_page_ptread-kept :
    (hw : Hardware) (page_word : PageWord) (reader : IsReader hw page_word)
    (before : List FlashCommand) (bank vblock page_num sect n buf flag b r i : ℕ)
    → page_word (nand_page_ptread bank vblock page_num sect n buf flag ∷ before) b r i
      ≡ page_word before b r i
unfolding nand_page_ptread
nand_page_ptread-kept hw page_word reader before bank vblock page_num sect n buf flag b r i =
    reader.kept before bank fo_p_e buf (u32 (n * bytes_per_sector)) sect (row_of vblock page_num)
      flag b r i
