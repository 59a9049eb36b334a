-- ===== src/CleanList/Init.antt =====
-- `cleanListInit`: every bank gets a row of unused nodes, linked in order.
use fast2016_ftl.Common.{ℕ, zero, suc, ◌+◌, ◌*◌, ◌≤◌, ◌<◌, ◌≡◌, refl, sym, subst, [], arith}
use native.Mathlib.Nat.{mul-le-mul_left}
use fast2016_ftl.Params.{num_banks}
use fast2016_ftl.Dram.{Dram, InDram, read_dram_32}
use fast2016_ftl.CleanList.{ListData, put, init_banks, clean_list_init}
use fast2016_ftl.CleanList.Chain.{Row}
use fast2016_ftl.CleanList.Queue.{Holds}
use fast2016_ftl.CleanList.Rows.{
  Linked-same, Ready, Ready-Holds, one_row, one_row-Linked, one_row-same, next_row,
}

-- The address of the row of the `i`-th bank from `a` on.
abbrev row_at : ℕ → ℕ → ℕ → ℕ
row_at a n i = a + 8 * (n * i)

Ready-at :
    (d : ListData) (m : Dram) (n b b' lo lo' : ℕ)
    → b ≡ b'
    → lo ≡ lo'
    → Ready d b lo n m
    → Ready d b' lo' n m
Ready-at d m n b b' lo lo' e e' r =
    subst (λ x. Ready d x lo' n m) e (subst (λ x. Ready d b x n m) e' r)

-- What `k` banks from `bank` on become.
record Rows (d : ListData) (bank a n : ℕ) (m : Dram) (k : ℕ) (d' : ListData) (m' : Dram)
    : Type 0 where
  ready : (i : ℕ) → i < k → Ready d' (bank + i) (row_at a n i) n m'
  kept :
      (b : ℕ)
      → b < bank
      → (d'.clean_list_head b ≡ d.clean_list_head b)
        × (d'.clean_list_tail b ≡ d.clean_list_tail b)
        × (d'.clean_list_unused_nodes b ≡ d.clean_list_unused_nodes b)
        × (d'.size b ≡ d.size b)
  below : (b : ℕ) → InDram b → b < a → read_dram_32 b m' ≡ read_dram_32 b m

-- The fields of a bank that has just been set up.
abbrev fresh : ListData → ℕ → ℕ → ListData
fresh d bank a = record {
  clean_list_unused_nodes = put d.clean_list_unused_nodes bank a;
  clean_list_head = put d.clean_list_head bank 0;
  clean_list_tail = put d.clean_list_tail bank 0;
  size = put d.size bank 0;
}

module _ (k : ℕ) (d : ListData) (bank a n : ℕ) (m : Dram) (pos : 1 ≤ n)
    (row : Row a (n * suc k)) where
  first-Row : Row a n
  first-Row = record { aligned = row.aligned; above = row.above; below = omega (arith, row) }

  rest-Row : Row (a + 8 * n) (n * k)
  rest-Row = record {
    aligned = omega (arith, row);
    above = omega (arith, row);
    below = omega (arith, row);
  }

  Rows-cons :
      (d' : ListData) (m' : Dram)
      → Rows (fresh d bank a) (suc bank) (a + 8 * n) n (one_row n a m) k d' m'
      → Rows d bank a n m (suc k) d' m'
  Rows-cons d' m' r =
      let ready_first : Ready d' bank a n m' = record {
        head = ground (arith, r.kept bank);
        tail = ground (arith, r.kept bank);
        unused = ground (arith, r.kept bank);
        empty = ground (arith, r.kept bank);
        linked =
            Linked-same a n (one_row n a m) m' first-Row (one_row-Linked n a m pos first-Row)
              r.below;
      } in
      record {
        ready = λ i. elim i as (λ i. i < suc k → Ready d' (bank + i) (row_at a n i) n m') [
          | zero ↦ λ h.
              Ready-at d' m' n bank (bank + 0) a (row_at a n 0) (omega arith) (omega arith)
                ready_first
          | suc j ↦ λ h.
              Ready-at d' m' n (suc bank + j) (bank + suc j) (row_at (a + 8 * n) n j)
                (row_at a n (suc j)) (omega arith) (omega arith) (r.ready j (omega arith))
        ];
        kept = λ b h. ground (arith, r.kept b);
        below = λ b ok h. ground (arith, r.below b ok, one_row-same n a m pos first-Row b ok);
      }

init_banks-Rows :
    (k : ℕ) (d : ListData) (bank a n : ℕ) (m : Dram)
    → 1 ≤ n
    → Row a (n * k)
    → Rows d bank a n m k (init_banks k d bank a n m).0 (init_banks k d bank a n m).1
unfolding init_banks
init_banks-Rows zero d bank a n m pos row = record {
  ready = λ i h. absurd (omega arith);
  kept = λ b h. (refl, refl, refl, refl);
  below = λ b ok h. refl;
}
init_banks-Rows (suc k) d bank a n m pos row =
    subst
      (λ x.
        Rows d bank a n m (suc k) (init_banks k (fresh d bank a) (suc bank) x n (one_row n a m)).0
          (init_banks k (fresh d bank a) (suc bank) x n (one_row n a m)).1)
      (sym (next_row n a m pos (first-Row k d bank a n m pos row)))
      (Rows-cons k d bank a n m pos row
        (init_banks k (fresh d bank a) (suc bank) (a + 8 * n) n (one_row n a m)).0
        (init_banks k (fresh d bank a) (suc bank) (a + 8 * n) n (one_row n a m)).1
        (init_banks-Rows k (fresh d bank a) (suc bank) (a + 8 * n) n (one_row n a m) pos
          (rest-Row k d bank a n m pos row)))

row_fits : (n b k : ℕ) → b < k → n * b + n ≤ n * k
row_fits n b k h = omega (arith, mul-le-mul_left {m = suc b} {n = k} n h)

-- After `cleanListInit` on an aligned stretch of DRAM for `n` nodes per bank, `n` at least 1, the
-- list of each bank is empty and has room for `n` blocks, in a row of its own.
pub clean_list_init-Holds :
    (d : ListData) (start_addr n : ℕ) (m : Dram)
    → 1 ≤ n
    → Row start_addr (n * num_banks)
    → (bank : ℕ) → bank < num_banks
    → Holds
        (clean_list_init d start_addr n m).0
        bank
        (start_addr + 8 * (n * bank))
        n
        []
        (clean_list_init d start_addr n m).1
unfolding clean_list_init
clean_list_init-Holds d start_addr n m pos row bank h =
    let r = (init_banks-Rows num_banks d 0 start_addr n m pos row).ready bank h in
    Ready-Holds (clean_list_init d start_addr n m).0 bank (row_at start_addr n bank) n
      (clean_list_init d start_addr n m).1 pos
      (record {
        aligned = omega (arith, row);
        above = omega (arith, row);
        below = ground (arith, row, row_fits n bank num_banks h);
      })
      (Ready-at (clean_list_init d start_addr n m).0 (clean_list_init d start_addr n m).1 n
        (0 + bank) bank (row_at start_addr n bank) (row_at start_addr n bank) (omega arith) refl r)

-- `cleanListInit` writes nothing before its rows.
pub clean_list_init-below :
    (d : ListData) (start_addr n : ℕ) (m : Dram)
    → 1 ≤ n
    → Row start_addr (n * num_banks)
    → (b : ℕ) → InDram b
    → b < start_addr
    → read_dram_32 b (clean_list_init d start_addr n m).1 ≡ read_dram_32 b m
unfolding clean_list_init
clean_list_init-below d start_addr n m pos row =
    (init_banks-Rows num_banks d 0 start_addr n m pos row).below
