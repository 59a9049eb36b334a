-- ===== src/Heap/Sample.antt =====
-- A heap of six blocks, with a seventh block outside it.
use native.Mathlib.Decide.{dec_le}
use fast2016_ftl.Common.{ℕ, zero, suc, ◌+◌, ◌/◌, ◌≤◌, ◌<◌, ◌≡◌, refl, subst, false, arith}
use fast2016_ftl.Params.{dram_base}
use fast2016_ftl.Dram.{Dram, read_dram_32, write_dram_32, real_addr}
use fast2016_ftl.Heap.{
  HeapData, pack, unpack, valid_chunks_addr, heap_positions, get_heap_el, get_pos, set_heap_el,
  set_pos,
}
use fast2016_ftl.Heap.Cells.{Fits, IsPos}
use fast2016_ftl.Heap.View.{count, in_heap, is_within, key, IsHeapTo, IsValid}

abbrev pub six : HeapData
six = record {
  positions_ptr = dram_base + 32768;
  n_el_in_heap = λ b. 6;
  dram_start_addr = dram_base;
  log_blks_per_bank = 7;
  first_lbn = 0;
}

-- The element at a position and the position of its block.
abbrev pub entry : ℕ → ℕ → ℕ → Dram → Dram
entry pos value lbn m =
    set_pos six 0 lbn pos (set_heap_el six 0 pos (record { value = value; lbn = lbn }) m)

abbrev pub blank : Dram
blank a = 0

abbrev pub memory : Dram
memory =
    entry 1 0 2
      (entry 2 10 0 (entry 3 2 4 (entry 4 11 1 (entry 5 12 3 (entry 6 3 5 (entry 7 1 6 blank))))))

pub six-Fits : Fits six 0
six-Fits = record {
  bank_lt = omega arith;
  blks = omega arith;
  start = omega arith;
  apart = omega arith;
  inside = omega arith;
}

-- `P` holds at each of `k` numbers from `a` on.
abbrev Each : (ℕ → Type 0) → ℕ → ℕ → Type 0
Each P a zero = Unit
Each P a (suc k) = P a × Each P (suc a) k

each : (P : ℕ → Type 0) (a k p : ℕ) → Each P a k → a ≤ p → p < a + k → P p
each P a zero p hs low high = absurd (omega arith)
each P a (suc k) p (h, hs) low high = elim (dec_le p a) [
  | yes le ↦ subst P (omega arith) h
  | no gt ↦ each P (suc a) k p hs (omega arith) (omega arith)
]

pub six-lbn_lt : (p : ℕ) → IsPos six p → (get_heap_el six 0 p memory).lbn < 7
unfolding get_heap_el set_heap_el set_pos valid_chunks_addr heap_positions pack unpack read_dram_32
    write_dram_32 real_addr
six-lbn_lt p h =
    each (λ p. (get_heap_el six 0 p memory).lbn < 7) 1 7 p
      (
        omega arith,
        (
          omega arith,
          (omega arith, (omega arith, (omega arith, (omega arith, (omega arith, tt))))),
        ),
      )
      h.0 (omega (arith, h))

pub six-pos_lbn : (p : ℕ) → IsPos six p → get_pos six 0 (get_heap_el six 0 p memory).lbn memory ≡ p
unfolding get_pos get_heap_el set_heap_el set_pos valid_chunks_addr heap_positions pack unpack
    read_dram_32 write_dram_32 real_addr
six-pos_lbn p h =
    each (λ p. get_pos six 0 (get_heap_el six 0 p memory).lbn memory ≡ p) 1 7 p
      (refl, (refl, (refl, (refl, (refl, (refl, (refl, tt))))))) h.0 (omega (arith, h))

pub six-IsPos : (l : ℕ) → l < 7 → IsPos six (get_pos six 0 l memory)
unfolding get_pos get_heap_el set_heap_el set_pos valid_chunks_addr heap_positions pack unpack
    read_dram_32 write_dram_32 real_addr
six-IsPos l h =
    each (λ l. IsPos six (get_pos six 0 l memory)) 0 7 l
      (
        (omega arith, omega arith),
        (
          (omega arith, omega arith),
          (
            (omega arith, omega arith),
            (
              (omega arith, omega arith),
              (
                (omega arith, omega arith),
                ((omega arith, omega arith), ((omega arith, omega arith), tt)),
              ),
            ),
          ),
        ),
      )
      (omega arith) h

pub six-lbn_pos : (l : ℕ) → l < 7 → (get_heap_el six 0 (get_pos six 0 l memory) memory).lbn ≡ l
unfolding get_pos get_heap_el set_heap_el set_pos valid_chunks_addr heap_positions pack unpack
    read_dram_32 write_dram_32 real_addr
six-lbn_pos l h =
    each (λ l. (get_heap_el six 0 (get_pos six 0 l memory) memory).lbn ≡ l) 0 7 l
      (refl, (refl, (refl, (refl, (refl, (refl, (refl, tt))))))) (omega arith) h

pub six-ordered : IsHeapTo six 0 6 memory
unfolding get_pos get_heap_el set_heap_el set_pos valid_chunks_addr heap_positions pack unpack
    read_dram_32 write_dram_32 real_addr
six-ordered c low high =
    each (λ c. key six 0 memory (c / 2) ≤ key six 0 memory c) 2 5 c
      (omega arith, (omega arith, (omega arith, (omega arith, (omega arith, tt))))) low
      (omega arith)

pub six-IsValid : IsValid six 0 memory
six-IsValid = record {
  bounded = omega arith;
  indexed = record {
    lbn_lt = six-lbn_lt;
    pos_lbn = six-pos_lbn;
    pos_IsPos = six-IsPos;
    lbn_pos = six-lbn_pos;
  };
  ordered = six-ordered;
}

-- Block 1 has 11 valid chunks and block 2 none; block 6 is not in the heap.
pub six-counts :
    (count six 0 1 memory ≡ 11) × (count six 0 2 memory ≡ 0) × (in_heap six 0 6 memory ≡ false)
unfolding count is_within get_pos get_heap_el set_heap_el set_pos valid_chunks_addr heap_positions
    pack unpack read_dram_32 write_dram_32 real_addr
six-counts = (refl, refl, refl)

-- The last element, with 3, is not below the root.
pub six-last :
    1 < get_pos six 0 4 memory
    → get_pos six 0 4 memory < 6
    → key six 0 memory (get_pos six 0 4 memory / 2) ≤ key six 0 memory 6
unfolding get_pos get_heap_el set_heap_el set_pos valid_chunks_addr heap_positions pack unpack
    read_dram_32 write_dram_32 real_addr
six-last low high = omega arith

-- Block 2 is the root.
pub six-root : (3 / 2 ≡ get_pos six 0 2 memory) × (key six 0 memory 3 < 65535)
unfolding get_pos get_heap_el set_heap_el set_pos valid_chunks_addr heap_positions pack unpack
    read_dram_32 write_dram_32 real_addr
six-root = (refl, omega arith)

-- Block 1 stands at position 4, below an element with 10.
pub six-inner :
    (1 < get_pos six 0 1 memory)
    × (get_pos six 0 1 memory < 6)
    × (key six 0 memory 6 < key six 0 memory (get_pos six 0 1 memory / 2))
unfolding get_pos get_heap_el set_heap_el set_pos valid_chunks_addr heap_positions pack unpack
    read_dram_32 write_dram_32 real_addr
six-inner = (omega arith, omega arith, omega arith)
