-- ===== src/Heap/Cells.antt =====
-- Single cells of the heap in DRAM: what a write to an element or to a position changes.
use fast2016_ftl.Common.{
  ℕ, ◌+◌, ◌*◌, ◌≤◌, ◌<◌, ◌≡◌, ◌⊎◌, arith, ◌==◌, if◌then◌else◌, u16, u32, sub32,
}
use fast2016_ftl.Params.{num_banks, dram_base, dram_size, log_blk_per_bank}
use fast2016_ftl.Dram.{Dram, InDram, read_dram_32, read-write}
use fast2016_ftl.Heap.{
  HeapEl, HeapData, pack, unpack, valid_chunks_addr, heap_positions, set_heap_el, get_heap_el,
  get_pos, set_pos,
}

-- The two tables of a heap lie in DRAM, the positions behind the elements, and the heap has a
-- row for the bank.
pub record Fits (d : HeapData) (bank : ℕ) : Type 0 where
  pub bank_lt : bank < num_banks
  pub blks : d.log_blks_per_bank ≤ log_blk_per_bank
  pub start : dram_base ≤ d.dram_start_addr
  pub apart : d.dram_start_addr + num_banks * log_blk_per_bank * 4 ≤ d.positions_ptr
  pub inside : d.positions_ptr + num_banks * log_blk_per_bank * 4 ≤ dram_base + dram_size

-- The address lies in none of the two rows of the bank.
pub record Outside (d : HeapData) (bank a : ℕ) : Type 0 where
  pub inside : InDram a
  pub els : (a < d.dram_start_addr + bank * 2048) ⊎ (d.dram_start_addr + bank * 2048 + 2048 ≤ a)
  pub positions : (a < d.positions_ptr + bank * 2048) ⊎ (d.positions_ptr + bank * 2048 + 2048 ≤ a)

pub unpack-pack : (e : HeapEl) → unpack (pack e) ≡ record { value = u16 e.value; lbn = u16 e.lbn }
unfolding unpack pack
unpack-pack e = ground arith

pub pack-lt : (e : HeapEl) → pack e < 4294967296
unfolding pack
pack-lt e = omega arith

-- `p` is a position of the heap, and `l` a block.
abbrev pub IsPos : HeapData → ℕ → Type 0
IsPos d p = (1 ≤ p) × (p ≤ d.log_blks_per_bank)

-- A position that another write leaves alone, or that takes the element written.
abbrev pub trunc : HeapEl → HeapEl
trunc e = record { value = u16 e.value; lbn = u16 e.lbn }

-- The index that `setHeapEl` and `getHeapEl` pass on.
abbrev pub el_addr : HeapData → ℕ → ℕ → ℕ
el_addr d bank p = valid_chunks_addr d.dram_start_addr bank (sub32 (u16 p) 1)

abbrev pub pos_addr : HeapData → ℕ → ℕ → ℕ
pos_addr d bank l = heap_positions d.positions_ptr bank l

module _ (d : HeapData) (bank : ℕ) ⦃fits : Fits d bank⦄ where
  pub el_addr-eq :
      (p : ℕ) → IsPos d p → el_addr d bank p + 4 ≡ d.dram_start_addr + bank * 2048 + p * 4
  unfolding valid_chunks_addr
  el_addr-eq p h = omega arith

  pub pos_addr-eq :
      (l : ℕ) → l < d.log_blks_per_bank → pos_addr d bank l ≡ d.positions_ptr + bank * 2048 + l * 4
  unfolding heap_positions
  pos_addr-eq l h = omega arith

  pub el_addr-InDram : (p : ℕ) → IsPos d p → InDram (el_addr d bank p)
  el_addr-InDram p h = omega (arith, el_addr-eq p h)

  pub pos_addr-InDram : (l : ℕ) → l < d.log_blks_per_bank → InDram (pos_addr d bank l)
  pos_addr-InDram l h = omega (arith, pos_addr-eq l h)

  -- Elements and positions, each under a write to an element and to a position.
  pub get_heap_el-set_heap_el :
      (p q : ℕ) (e : HeapEl) (m : Dram)
      → IsPos d p
      → IsPos d q
      → get_heap_el d bank q (set_heap_el d bank p e m)
        ≡ (if p == q then trunc e else get_heap_el d bank q m)
  unfolding get_heap_el set_heap_el
  get_heap_el-set_heap_el p q e m hp hq =
      rw
        (read-write (el_addr d bank p) (el_addr d bank q) (pack e) m (el_addr-InDram p hp)
          (el_addr-InDram q hq))
        (ground (arith, el_addr-eq p hp, el_addr-eq q hq, unpack-pack e, pack-lt e))

  pub get_pos-set_pos :
      (k l v : ℕ) (m : Dram)
      → k < d.log_blks_per_bank
      → l < d.log_blks_per_bank
      → get_pos d bank l (set_pos d bank k v m) ≡ (if k == l then u32 v else get_pos d bank l m)
  unfolding get_pos set_pos
  get_pos-set_pos k l v m hk hl =
      rw
        (read-write (pos_addr d bank k) (pos_addr d bank l) v m (pos_addr-InDram k hk)
          (pos_addr-InDram l hl))
        (ground (arith, pos_addr-eq k hk, pos_addr-eq l hl))

  pub get_heap_el-set_pos :
      (p l v : ℕ) (m : Dram)
      → IsPos d p
      → l < d.log_blks_per_bank
      → get_heap_el d bank p (set_pos d bank l v m) ≡ get_heap_el d bank p m
  unfolding get_heap_el set_pos
  get_heap_el-set_pos p l v m hp hl =
      rw
        (read-write (pos_addr d bank l) (el_addr d bank p) v m (pos_addr-InDram l hl)
          (el_addr-InDram p hp))
        (ground (arith, pos_addr-eq l hl, el_addr-eq p hp))

  pub get_pos-set_heap_el :
      (l p : ℕ) (e : HeapEl) (m : Dram)
      → IsPos d p
      → l < d.log_blks_per_bank
      → get_pos d bank l (set_heap_el d bank p e m) ≡ get_pos d bank l m
  unfolding get_pos set_heap_el
  get_pos-set_heap_el l p e m hp hl =
      rw
        (read-write (el_addr d bank p) (pos_addr d bank l) (pack e) m (el_addr-InDram p hp)
          (pos_addr-InDram l hl))
        (ground (arith, pos_addr-eq l hl, el_addr-eq p hp))

  -- Elsewhere in DRAM both writes change nothing.
  pub read-set_heap_el :
      (a p : ℕ) (e : HeapEl) (m : Dram)
      → IsPos d p
      → Outside d bank a
      → read_dram_32 a (set_heap_el d bank p e m) ≡ read_dram_32 a m
  unfolding set_heap_el
  read-set_heap_el a p e m hp out =
      rw (read-write (el_addr d bank p) a (pack e) m (el_addr-InDram p hp) out.inside)
        (ground (arith, el_addr-eq p hp, out))

  pub read-set_pos :
      (a l v : ℕ) (m : Dram)
      → l < d.log_blks_per_bank
      → Outside d bank a
      → read_dram_32 a (set_pos d bank l v m) ≡ read_dram_32 a m
  unfolding set_pos
  read-set_pos a l v m hl out =
      rw (read-write (pos_addr d bank l) a v m (pos_addr-InDram l hl) out.inside)
        (ground (arith, pos_addr-eq l hl, out))

  pub get_heap_el-Word :
      (p : ℕ) (m : Dram)
      → ((get_heap_el d bank p m).value < 65536) × ((get_heap_el d bank p m).lbn < 65536)
  unfolding get_heap_el unpack
  get_heap_el-Word p m = omega arith

  pub trunc-get_heap_el :
      (p : ℕ) (m : Dram) → trunc (get_heap_el d bank p m) ≡ get_heap_el d bank p m
  unfolding get_heap_el unpack
  trunc-get_heap_el p m = ground arith
