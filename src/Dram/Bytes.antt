-- ===== src/Dram/Bytes.antt =====
-- The accesses of `target_spw/mem_util.c` to a part of a word: 16 bits, 8 bits, and single bits. Each
-- reads the aligned word, changes the part and hands the whole word to `mem_copy`. OPTION_DEBUG_DRAM
-- is 0; `none` stands for the `while(1)` of the bit operations outside of the DRAM.
pub mod Laws
use fast2016_ftl.Common.{
  Bool, ℕ, zero, suc, ◌+◌, ◌*◌, ◌/◌, ◌%◌, Option, none, some, ltb, leb, ◌==◌, ◌||◌, if◌then◌else◌,
  u16, u32,
}
use fast2016_ftl.Params.{dram_base, dram_size}
use fast2016_ftl.Dram.{Dram, read_dram_32, write_dram_32}

-- `addr & 0xFFFFFFFC`
abbrev pub aligned_addr : ℕ → ℕ
aligned_addr addr = addr / 4 * 4

-- `1 << (offset * 8)` for an offset in a word.
abbrev pub byte_weight : ℕ → ℕ
byte_weight offset =
    if offset == 0 then 1 else if offset == 1 then 256 else if offset == 2 then 65536 else 16777216

-- `(old & ~((size - 1) << (offset * 8))) | (val << (offset * 8))` for a `val` below `size`.
abbrev pub replace_part : ℕ → ℕ → ℕ → ℕ → ℕ
replace_part old size offset val = u32 (
    old % byte_weight offset
    + val * byte_weight offset
    + old / (size * byte_weight offset) * (size * byte_weight offset))

pub write_dram_16 : ℕ → ℕ → Dram → Dram
write_dram_16 addr val m =
    write_dram_32 (aligned_addr addr)
      (replace_part (read_dram_32 (aligned_addr addr) m) 65536 (addr % 4) (u16 val)) m

pub write_dram_8 : ℕ → ℕ → Dram → Dram
write_dram_8 addr val m =
    write_dram_32 (aligned_addr addr)
      (replace_part (read_dram_32 (aligned_addr addr) m) 256 (addr % 4) (val % 256)) m

pub read_dram_8 : ℕ → Dram → ℕ
read_dram_8 addr m = read_dram_32 (aligned_addr addr) m / byte_weight (addr % 4) % 256

pub read_dram_16 : ℕ → Dram → ℕ
read_dram_16 addr m = u16 (read_dram_32 (aligned_addr addr) m / byte_weight (addr % 4))

-- `val | (1 << n)`, `val & ~(1 << n)` and `val & (1 << n)`.
pub or_bit : ℕ → ℕ → ℕ
or_bit zero val = val / 2 * 2 + 1
or_bit (suc n) val = or_bit n (val / 2) * 2 + val % 2

pub and_not_bit : ℕ → ℕ → ℕ
and_not_bit zero val = val / 2 * 2
and_not_bit (suc n) val = and_not_bit n (val / 2) * 2 + val % 2

pub and_bit : ℕ → ℕ → ℕ
and_bit zero val = val % 2
and_bit (suc n) val = and_bit n (val / 2) * 2

-- The test of the bit operations, of the base address only.
abbrev pub outside_dram : ℕ → Bool
outside_dram base_addr = ltb base_addr dram_base || leb (dram_base + dram_size) base_addr

-- The word of a bit and its place in the word.
abbrev pub bit_word : ℕ → ℕ → ℕ
bit_word base_addr bit_offset = aligned_addr (u32 (base_addr + bit_offset / 8))

abbrev pub new_bit_offset : ℕ → ℕ → ℕ
new_bit_offset base_addr bit_offset = u32 (base_addr * 8 + bit_offset) % 32

pub set_bit_dram : ℕ → ℕ → Dram → Option Dram
set_bit_dram base_addr bit_offset m =
    if outside_dram base_addr
    then none
    else some (
        write_dram_32 (bit_word base_addr bit_offset)
          (or_bit (new_bit_offset base_addr bit_offset)
            (read_dram_32 (bit_word base_addr bit_offset) m))
          m)

pub clr_bit_dram : ℕ → ℕ → Dram → Option Dram
clr_bit_dram base_addr bit_offset m =
    if outside_dram base_addr
    then none
    else some (
        write_dram_32 (bit_word base_addr bit_offset)
          (and_not_bit (new_bit_offset base_addr bit_offset)
            (read_dram_32 (bit_word base_addr bit_offset) m))
          m)

pub tst_bit_dram : ℕ → ℕ → Dram → Option ℕ
tst_bit_dram base_addr bit_offset m =
    if outside_dram base_addr
    then none
    else some (
        and_bit (new_bit_offset base_addr bit_offset)
          (read_dram_32 (bit_word base_addr bit_offset) m))
