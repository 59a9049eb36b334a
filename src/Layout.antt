-- ===== src/Layout.antt =====
-- The segments of DRAM: `ftl_page_mapped/dram_layout.h`, with the sizes of
-- `ftl_page_mapped/ftl_parameters.h` (Overwrite is 0).
use fast2016_ftl.Common.{ℕ, ◌+◌, ◌-◌, ◌*◌, ◌/◌, ◌≤◌, arith}
use fast2016_ftl.Params.{
  num_banks, num_banks_max, dram_base, dram_size, dram_ecc_unit, bytes_per_page, vblks_per_bank,
  pages_per_blk, data_blk_per_bank, log_blk_per_bank, chunks_per_page, chunks_per_blk,
}

-- Rounded up to whole units of the error correction.
abbrev ecc_units : ℕ → ℕ
ecc_units bytes = (bytes + dram_ecc_unit - 1) / dram_ecc_unit * dram_ecc_unit

abbrev copy_buf_bytes : ℕ
copy_buf_bytes = num_banks_max * bytes_per_page

abbrev ftl_buf_bytes : ℕ
ftl_buf_bytes = num_banks * bytes_per_page

abbrev gc_buf_bytes : ℕ
gc_buf_bytes = num_banks * bytes_per_page

abbrev hil_buf_bytes : ℕ
hil_buf_bytes = 1 * bytes_per_page

abbrev temp_buf_bytes : ℕ
temp_buf_bytes = 1 * bytes_per_page

abbrev log_buf_bytes : ℕ
log_buf_bytes = num_banks * bytes_per_page

abbrev lpns_in_log_bytes : ℕ
lpns_in_log_bytes = ecc_units (num_banks * chunks_per_blk * 4)

abbrev victim_lpn_list_bytes : ℕ
victim_lpn_list_bytes = num_banks * bytes_per_page

abbrev bad_blk_bmp_bytes : ℕ
bad_blk_bmp_bytes = ecc_units (vblks_per_bank * num_banks / 8)

abbrev log_bmt_bytes : ℕ
log_bmt_bytes = ecc_units (num_banks * log_blk_per_bank * 2)

abbrev heap_valid_chunks_bytes : ℕ
heap_valid_chunks_bytes = ecc_units (num_banks * log_blk_per_bank * 4)

abbrev heap_valid_chunks_positions_bytes : ℕ
heap_valid_chunks_positions_bytes = ecc_units (num_banks * log_blk_per_bank * 4)

abbrev clean_list_nodes_bytes : ℕ
clean_list_nodes_bytes = ecc_units (num_banks * log_blk_per_bank * 8)

abbrev precache_for_encoding_bytes : ℕ
precache_for_encoding_bytes = num_banks * bytes_per_page

abbrev chunks_map_table_bytes : ℕ
chunks_map_table_bytes = num_banks * data_blk_per_bank * pages_per_blk * chunks_per_page * 4

abbrev dram_bytes_other : ℕ
dram_bytes_other =
    copy_buf_bytes + ftl_buf_bytes + gc_buf_bytes + hil_buf_bytes + temp_buf_bytes + log_buf_bytes
    + log_buf_bytes + lpns_in_log_bytes + lpns_in_log_bytes + lpns_in_log_bytes
    + victim_lpn_list_bytes + bad_blk_bmp_bytes + log_bmt_bytes + chunks_map_table_bytes
    + heap_valid_chunks_bytes + heap_valid_chunks_positions_bytes + heap_valid_chunks_bytes
    + heap_valid_chunks_positions_bytes + heap_valid_chunks_bytes
    + heap_valid_chunks_positions_bytes + clean_list_nodes_bytes + clean_list_nodes_bytes
    + precache_for_encoding_bytes

abbrev num_rw_buffers : ℕ
num_rw_buffers = (dram_size - dram_bytes_other) / bytes_per_page - 1

abbrev pub num_rd_buffers : ℕ
num_rd_buffers = (num_rw_buffers / 2 + num_banks - 1) / num_banks * num_banks

abbrev pub num_wr_buffers : ℕ
num_wr_buffers = num_rw_buffers - num_rd_buffers

abbrev pub wr_buf_addr : ℕ
wr_buf_addr = dram_base + num_rd_buffers * bytes_per_page

abbrev copy_buf_addr : ℕ
copy_buf_addr = wr_buf_addr + num_wr_buffers * bytes_per_page

abbrev pub ftl_buf_addr : ℕ
ftl_buf_addr = copy_buf_addr + copy_buf_bytes

abbrev pub gc_buf_addr : ℕ
gc_buf_addr = ftl_buf_addr + ftl_buf_bytes

abbrev hil_buf_addr : ℕ
hil_buf_addr = gc_buf_addr + gc_buf_bytes

abbrev pub temp_buf_addr : ℕ
temp_buf_addr = hil_buf_addr + hil_buf_bytes

abbrev hot_log_buf_addr : ℕ
hot_log_buf_addr = temp_buf_addr + temp_buf_bytes

abbrev cold_log_buf_addr : ℕ
cold_log_buf_addr = hot_log_buf_addr + log_buf_bytes

abbrev lpns_in_log_1_addr : ℕ
lpns_in_log_1_addr = cold_log_buf_addr + log_buf_bytes

abbrev lpns_in_log_2_addr : ℕ
lpns_in_log_2_addr = lpns_in_log_1_addr + lpns_in_log_bytes

abbrev lpns_in_log_3_addr : ℕ
lpns_in_log_3_addr = lpns_in_log_2_addr + lpns_in_log_bytes

abbrev pub victim_lpn_list_addr : ℕ
victim_lpn_list_addr = lpns_in_log_3_addr + lpns_in_log_bytes

abbrev bad_blk_bmp_addr : ℕ
bad_blk_bmp_addr = victim_lpn_list_addr + victim_lpn_list_bytes

abbrev pub log_bmt_addr : ℕ
log_bmt_addr = bad_blk_bmp_addr + bad_blk_bmp_bytes

abbrev pub chunks_map_table_addr : ℕ
chunks_map_table_addr = log_bmt_addr + log_bmt_bytes

abbrev pub heap_valid_chunks_addr_first_usage : ℕ
heap_valid_chunks_addr_first_usage = chunks_map_table_addr + chunks_map_table_bytes

abbrev pub heap_valid_chunks_positions_first_usage : ℕ
heap_valid_chunks_positions_first_usage =
    heap_valid_chunks_addr_first_usage + heap_valid_chunks_bytes

abbrev pub heap_valid_chunks_addr_second_usage : ℕ
heap_valid_chunks_addr_second_usage =
    heap_valid_chunks_positions_first_usage + heap_valid_chunks_positions_bytes

abbrev pub heap_valid_chunks_positions_second_usage : ℕ
heap_valid_chunks_positions_second_usage =
    heap_valid_chunks_addr_second_usage + heap_valid_chunks_bytes

abbrev pub heap_valid_chunks_addr_cold : ℕ
heap_valid_chunks_addr_cold =
    heap_valid_chunks_positions_second_usage + heap_valid_chunks_positions_bytes

abbrev pub heap_valid_chunks_positions_cold : ℕ
heap_valid_chunks_positions_cold = heap_valid_chunks_addr_cold + heap_valid_chunks_bytes

abbrev pub clean_list_nodes_addr : ℕ
clean_list_nodes_addr = heap_valid_chunks_positions_cold + heap_valid_chunks_positions_bytes

abbrev end_addr : ℕ
end_addr =
    clean_list_nodes_addr + clean_list_nodes_bytes + clean_list_nodes_bytes
    + precache_for_encoding_bytes

-- RD_BUF_PTR and WR_BUF_PTR
abbrev pub rd_buf_ptr : ℕ → ℕ
rd_buf_ptr id = dram_base + id * bytes_per_page

abbrev pub wr_buf_ptr : ℕ → ℕ
wr_buf_ptr id = wr_buf_addr + id * bytes_per_page

-- Buffers of a bank
abbrev pub ftl_buf : ℕ → ℕ
ftl_buf bank = ftl_buf_addr + bank * bytes_per_page

abbrev pub hot_log_buf : ℕ → ℕ
hot_log_buf bank = hot_log_buf_addr + bank * bytes_per_page

abbrev pub cold_log_buf : ℕ → ℕ
cold_log_buf bank = cold_log_buf_addr + bank * bytes_per_page

abbrev pub lpns_buf_base_1 : ℕ → ℕ
lpns_buf_base_1 bank = lpns_in_log_1_addr + bank * chunks_per_blk * 4

abbrev pub lpns_buf_base_2 : ℕ → ℕ
lpns_buf_base_2 bank = lpns_in_log_2_addr + bank * chunks_per_blk * 4

abbrev pub clean_list : ℕ → ℕ
clean_list bank = clean_list_nodes_addr + bank * log_blk_per_bank * 8

-- PrecacheForEncoding
abbrev pub precache_for_encoding : ℕ → ℕ
precache_for_encoding bank =
    clean_list_nodes_addr + clean_list_nodes_bytes + clean_list_nodes_bytes + bank * bytes_per_page

-- The segments end inside the DRAM.
end_addr-le : end_addr ≤ dram_base + dram_size
end_addr-le = omega arith
