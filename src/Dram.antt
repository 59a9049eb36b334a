-- ===== src/Dram.antt =====
-- Words of DRAM: `_read_dram_32` and `_write_dram_32` of `target_spw/mem_util.c`.
pub mod Bytes
use fast2016_ftl.Common.{
  ℕ, ◌+◌, ◌*◌, ◌/◌, ◌%◌, ◌≤◌, ◌<◌, ◌≡◌, ◌≢◌, ◌∙◌, ==_self, ne→==-false, arith, ◌==◌, if◌then◌else◌,
  u32, sub32,
}
use fast2016_ftl.Params.{dram_base, dram_size, dram_ecc_unit}

-- The words of the DRAM by their physical address, where the parity of the data stands between
-- the 128-byte units.
abbrev pub Dram : Type 0
Dram = ℕ → ℕ

-- An address that the layout gives to data.
pub record InDram (a : ℕ) : Type 0 where
  pub above : dram_base ≤ a
  pub below : a < dram_base + dram_size

unfoldable pub real_addr : ℕ → ℕ
real_addr a =
    u32 (dram_base + sub32 a dram_base / dram_ecc_unit * 132 + sub32 a dram_base % dram_ecc_unit)

unfoldable pub read_dram_32 : ℕ → Dram → ℕ
read_dram_32 a d = d (real_addr a)

-- `_write_dram_32` hands the word to the memory utility, `mem_copy`, which leaves out the parity bytes
-- as `_read_dram_32` does by `real_addr`.
unfoldable pub write_dram_32 : ℕ → ℕ → Dram → Dram
write_dram_32 a v d p = if real_addr a == p then u32 v else d p

-- The parity bytes leave every address of the layout its own place.
real_addr-injective : (a b : ℕ) → InDram a → InDram b → real_addr a ≡ real_addr b → a ≡ b
unfolding real_addr
real_addr-injective a b h k e = omega arith

-- A word written is read back at its address, and every other word stays.
pub read-write :
    (a b v : ℕ) (d : Dram)
    → InDram a
    → InDram b
    → read_dram_32 b (write_dram_32 a v d) ≡ (if a == b then u32 v else read_dram_32 b d)
unfolding read_dram_32 write_dram_32
read-write a b v d h k = ground (arith, real_addr-injective a b h k)

pub read-write_self : (a v : ℕ) (d : Dram) → InDram a → read_dram_32 a (write_dram_32 a v d) ≡ u32 v
read-write_self a v d h = read-write a a v d h h ∙ rw (==_self a)

pub read-write_other :
    (a b v : ℕ) (d : Dram)
    → InDram a
    → InDram b
    → a ≢ b
    → read_dram_32 b (write_dram_32 a v d) ≡ read_dram_32 b d
read-write_other a b v d h k apart = read-write a b v d h k ∙ rw (ne→==-false a b apart)
