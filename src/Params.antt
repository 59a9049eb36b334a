-- ===== src/Params.antt =====
-- The geometry of the device: `include/jasmine.h`, `include/nand.h` (flash type K9LCG08U1M),
-- `include/bank.h` (BANK_BMP 0x0F0F0F0F), `include/sata.h` and `ftl_page_mapped/ftl_parameters.h`.
use fast2016_ftl.Common.{ℕ, ◌+◌, ◌-◌, ◌*◌, ◌/◌}

abbrev pub num_banks : ℕ
num_banks = 16

abbrev pub num_banks_max : ℕ
num_banks_max = 32

abbrev pub num_channels : ℕ
num_channels = 4

abbrev pub dram_base : ℕ
dram_base = 0x4000_0000

abbrev pub dram_size : ℕ
dram_size = 65_075_200

abbrev pub dram_ecc_unit : ℕ
dram_ecc_unit = 128

-- nand.h: SECTORS_PER_PHYPAGE 16; two chips per channel and two planes.
abbrev pub sectors_per_page : ℕ
sectors_per_page = 16 * (2 * 2)

abbrev pub bytes_per_sector : ℕ
bytes_per_sector = 512

abbrev pub bytes_per_page : ℕ
bytes_per_page = bytes_per_sector * sectors_per_page

abbrev pub pages_per_blk : ℕ
pages_per_blk = 128

abbrev pub vblks_per_bank : ℕ
vblks_per_bank = (4096 + 56) / 2

abbrev pub spare_vblks_per_bank : ℕ
spare_vblks_per_bank = 56 / 2

abbrev pub num_psectors : ℕ
num_psectors =
    sectors_per_page * pages_per_blk * ((vblks_per_bank - spare_vblks_per_bank) * num_banks)

abbrev pub num_lsectors : ℕ
num_lsectors = num_psectors / 4

abbrev pub num_lpages : ℕ
num_lpages = (num_lsectors + sectors_per_page - 1) / sectors_per_page

abbrev pub num_data_blk : ℕ
num_data_blk = (num_lpages + pages_per_blk - 1) / pages_per_blk

abbrev pub data_blk_per_bank : ℕ
data_blk_per_bank = (num_data_blk + num_banks - 1) / num_banks

abbrev pub log_blk_per_bank : ℕ
log_blk_per_bank = data_blk_per_bank

abbrev pub chunks_per_page : ℕ
chunks_per_page = 8

abbrev pub chunks_per_recycled_page : ℕ
chunks_per_recycled_page = 4

abbrev pub chunks_per_blk : ℕ
chunks_per_blk = chunks_per_page * pages_per_blk

abbrev pub used_pages_per_log_blk : ℕ
used_pages_per_log_blk = pages_per_blk - 1

abbrev pub chunks_per_log_blk : ℕ
chunks_per_log_blk = used_pages_per_log_blk * chunks_per_page

abbrev pub chunks_per_log_blk_first_usage : ℕ
chunks_per_log_blk_first_usage = (pages_per_blk - 2) * chunks_per_page

abbrev pub chunks_per_log_blk_second_usage : ℕ
chunks_per_log_blk_second_usage = (pages_per_blk - 1) * chunks_per_page

abbrev pub sectors_per_chunk : ℕ
sectors_per_chunk = sectors_per_page / chunks_per_page

abbrev pub bytes_per_chunk : ℕ
bytes_per_chunk = bytes_per_page / chunks_per_page

abbrev pub sectors_per_encoded_chunk : ℕ
sectors_per_encoded_chunk = 21

-- The words of a chunk and of a sector.
abbrev pub words_per_chunk : ℕ
words_per_chunk = bytes_per_chunk / 4

abbrev pub words_per_sector : ℕ
words_per_sector = bytes_per_sector / 4
