-- ===== src/Log/Chunk.antt =====
-- The address of a chunk in the log, `findChunkLocation` of `ftl_page_mapped/log.c` and the macros of
-- `ftl_page_mapped/ftl_parameters.h`. The last page of the last block of a bank stands for the
-- buffers in DRAM, and bit 31 for the cold, encoded log.
use fast2016_ftl.Common.{
  ℕ, ◌+◌, ◌-◌, ◌*◌, ◌/◌, ◌%◌, ◌≤◌, ◌<◌, ◌≡◌, ◌⊎◌, refl, arith, ltb, leb, ◌==◌, if◌then◌else◌, u32,
  invalid,
}
use fast2016_ftl.Params.{
  num_banks, log_blk_per_bank, pages_per_blk, chunks_per_page, chunks_per_blk, sectors_per_chunk,
}

pub data ChunkLocation : Type 0 where
  invalid_chunk : ChunkLocation
  flash_w_log : ChunkLocation
  flash_w_log_encoded : ChunkLocation
  dram_hot_log : ChunkLocation
  dram_cold_log : ChunkLocation

abbrev pub dram_log_buf_lpn : ℕ
dram_log_buf_lpn = log_blk_per_bank * pages_per_blk - 1

-- `a & ColdLogBufBitFlag`, `a & ~ColdLogBufBitFlag` and `a | ColdLogBufBitFlag` of a UINT32 `a`.
unfoldable pub cold_flag : ℕ → ℕ
cold_flag a = a / 2147483648 % 2 * 2147483648

pub without_cold_flag : ℕ → ℕ
without_cold_flag a = a % 2147483648

pub with_cold_flag : ℕ → ℕ
with_cold_flag a = if a / 2147483648 % 2 == 1 then a else a + 2147483648

pub chunk_to_bank : ℕ → ℕ
chunk_to_bank chunk = chunk / (log_blk_per_bank * chunks_per_blk)

pub chunk_to_chunk_offset_in_bank : ℕ → ℕ
chunk_to_chunk_offset_in_bank chunk = chunk % (log_blk_per_bank * chunks_per_blk)

pub chunk_to_lbn : ℕ → ℕ
chunk_to_lbn chunk = chunk_to_chunk_offset_in_bank chunk / chunks_per_page / pages_per_blk

pub chunk_to_lpn : ℕ → ℕ
chunk_to_lpn chunk = chunk_to_chunk_offset_in_bank chunk / chunks_per_page

pub chunk_to_page_offset : ℕ → ℕ
chunk_to_page_offset chunk = chunk_to_chunk_offset_in_bank chunk / chunks_per_page % pages_per_blk

pub chunk_to_sect_offset : ℕ → ℕ
chunk_to_sect_offset chunk =
    chunk_to_chunk_offset_in_bank chunk % chunks_per_page * sectors_per_chunk

pub chunk_to_chunk_offset : ℕ → ℕ
chunk_to_chunk_offset chunk = chunk % chunks_per_page

-- `logChunkAddr` for the chunk of a page.
unfoldable pub log_chunk_addr : ℕ → ℕ → ℕ → ℕ → ℕ
log_chunk_addr bank lbn page_offset chunk = u32 (
    bank * log_blk_per_bank * chunks_per_blk
    + lbn * chunks_per_blk
    + page_offset * chunks_per_page
    + chunk)

pub find_chunk_location : ℕ → ChunkLocation
find_chunk_location chunk_addr =
    if chunk_addr == invalid
    then invalid_chunk
    else if ltb 0 (cold_flag chunk_addr)
    then (if leb (dram_log_buf_lpn * chunks_per_page)
          (chunk_to_chunk_offset_in_bank (without_cold_flag chunk_addr))
        then dram_cold_log
        else flash_w_log_encoded)
    else if leb (dram_log_buf_lpn * chunks_per_page) (chunk_to_chunk_offset_in_bank chunk_addr)
    then dram_hot_log
    else flash_w_log

pub log_chunk_addr-word :
    (bank lbn page chunk : ℕ) → log_chunk_addr bank lbn page chunk < 4294967296
unfolding log_chunk_addr
log_chunk_addr-word bank lbn page chunk = omega arith

pub with_cold_flag-word : (a : ℕ) → a < 4294967296 → with_cold_flag a < 4294967296
unfolding with_cold_flag
with_cold_flag-word a h = ground arith

module _ (bank lbn page chunk : ℕ) (hb : bank < num_banks) (hl : lbn < log_blk_per_bank)
    (hp : page < pages_per_blk) (hc : chunk < chunks_per_page) where
  abbrev a : ℕ
  a = log_chunk_addr bank lbn page chunk

  a-small : a < 8388608
  unfolding log_chunk_addr
  a-small = omega arith

  -- The macros take the address of a chunk apart: its bank, its block, its page in the block and in
  -- the bank, its place in the page and its first sector there.
  pub log_chunk_addr-parts :
      (chunk_to_bank a ≡ bank)
      × (chunk_to_lbn a ≡ lbn)
      × (chunk_to_page_offset a ≡ page)
      × (chunk_to_chunk_offset a ≡ chunk)
      × (chunk_to_lpn a ≡ lbn * pages_per_blk + page)
      × (chunk_to_sect_offset a ≡ chunk * sectors_per_chunk)
  unfolding log_chunk_addr chunk_to_bank chunk_to_lbn chunk_to_page_offset chunk_to_chunk_offset
      chunk_to_lpn chunk_to_sect_offset chunk_to_chunk_offset_in_bank
  log_chunk_addr-parts =
      (omega arith, omega arith, omega arith, omega arith, omega arith, omega arith)

  -- The bit of the cold log is set and removed without loss.
  pub without_cold_flag-with : without_cold_flag (with_cold_flag a) ≡ a
  unfolding without_cold_flag with_cold_flag
  without_cold_flag-with = ground (arith, a-small)

  -- A chunk in a page before the last one of its block is found in flash: as it is without the bit of
  -- the cold log, and encoded with it.
  pub find_chunk_location-flash :
      page < pages_per_blk - 1
      → (find_chunk_location a ≡ flash_w_log)
        × (find_chunk_location (with_cold_flag a) ≡ flash_w_log_encoded)
  unfolding find_chunk_location chunk_to_chunk_offset_in_bank cold_flag without_cold_flag
      with_cold_flag log_chunk_addr
  find_chunk_location-flash used = (ground arith, ground arith)

-- The address of a chunk in the log buffer of a bank.
unfoldable pub log_buf_chunk_addr : ℕ → ℕ → ℕ
log_buf_chunk_addr bank chunk_ptr =
    u32 (bank * log_blk_per_bank * chunks_per_blk + dram_log_buf_lpn * chunks_per_page + chunk_ptr)

-- A chunk of the hot log buffer is found there, and with the bit of the cold log set in the cold
-- one; its bank and its place in the buffer are those it was written to.
pub find_chunk_location-buffer :
    (bank chunk_ptr : ℕ)
    → bank < num_banks
    → chunk_ptr < chunks_per_page
    → (let a = log_buf_chunk_addr bank chunk_ptr in
        (find_chunk_location a ≡ dram_hot_log)
        × (find_chunk_location (with_cold_flag a) ≡ dram_cold_log)
        × (chunk_to_bank a ≡ bank)
        × (chunk_to_chunk_offset a ≡ chunk_ptr))
unfolding find_chunk_location chunk_to_chunk_offset_in_bank cold_flag without_cold_flag
    with_cold_flag log_buf_chunk_addr chunk_to_bank chunk_to_chunk_offset
find_chunk_location-buffer bank chunk_ptr hb hc =
    (ground arith, ground arith, omega arith, omega arith)

pub chunk_to_lbn-lt : (a : ℕ) → chunk_to_lbn a < log_blk_per_bank
unfolding chunk_to_lbn chunk_to_chunk_offset_in_bank
chunk_to_lbn-lt a = omega arith

pub chunk_to_sect_offset-lt :
    (a : ℕ) → chunk_to_sect_offset a + sectors_per_chunk ≤ sectors_per_chunk * chunks_per_page
unfolding chunk_to_sect_offset
chunk_to_sect_offset-lt a = omega arith

-- A chunk starts at a multiple of its size.
pub chunk_to_sect_offset-whole :
    (a : ℕ)
    → chunk_to_sect_offset a ≡ chunk_to_sect_offset a / sectors_per_chunk * sectors_per_chunk
unfolding chunk_to_sect_offset
chunk_to_sect_offset-whole a = omega arith

pub find_chunk_location-invalid : find_chunk_location invalid ≡ invalid_chunk
unfolding find_chunk_location
find_chunk_location-invalid = refl

-- The bit of the cold log is not part of the address: with it the bank is none of the device.
pub chunk_to_bank-flag :
    (a : ℕ)
    → (find_chunk_location a ≡ flash_w_log_encoded) ⊎ (find_chunk_location a ≡ dram_cold_log)
    → num_banks ≤ chunk_to_bank a
unfolding find_chunk_location chunk_to_bank cold_flag
chunk_to_bank-flag a h = ground arith

pub without_cold_flag-with_cold_flag :
    (bank chunk_ptr : ℕ)
    → bank < num_banks
    → chunk_ptr < chunks_per_page
    → without_cold_flag (with_cold_flag (log_buf_chunk_addr bank chunk_ptr))
      ≡ log_buf_chunk_addr bank chunk_ptr
unfolding without_cold_flag with_cold_flag log_buf_chunk_addr
without_cold_flag-with_cold_flag bank chunk_ptr hb hc = ground arith

pub chunk_to_sect_offset-buffer :
    (bank chunk_ptr : ℕ)
    → bank < num_banks
    → chunk_ptr < chunks_per_page
    → chunk_to_sect_offset (log_buf_chunk_addr bank chunk_ptr) ≡ chunk_ptr * sectors_per_chunk
unfolding chunk_to_sect_offset chunk_to_chunk_offset_in_bank log_buf_chunk_addr
chunk_to_sect_offset-buffer bank chunk_ptr hb hc = omega arith

pub log_buf_chunk_addr-word : (bank chunk_ptr : ℕ) → log_buf_chunk_addr bank chunk_ptr < 4294967296
unfolding log_buf_chunk_addr
log_buf_chunk_addr-word bank chunk_ptr = omega arith
