-- ===== src/CleanList/Chain.antt =====
-- Chains of nodes: the `next` words lead from one node to the following, and from the last to NULL.
use fast2016_ftl.Common.{ℕ, ◌+◌, ◌*◌, ◌%◌, ◌≤◌, ◌<◌, ◌≡◌, ◌≢◌, List, [], ◌∷◌, arith}
use fast2016_ftl.Params.{dram_base, dram_size}
use fast2016_ftl.Dram.{Dram, InDram, read_dram_32}
use fast2016_ftl.CleanList.{next_of}

-- `n` nodes from the address `lo` on.
pub record Row (lo n : ℕ) : Type 0 where
  pub aligned : lo % 8 ≡ 0
  pub above : dram_base ≤ lo
  pub below : lo + 8 * n ≤ dram_base + dram_size

pub record IsNode (lo n a : ℕ) : Type 0 where
  pub aligned : a % 8 ≡ 0
  pub above : lo ≤ a
  pub below : a < lo + 8 * n

abbrev pub NotIn : ℕ → List ℕ → Type 0
NotIn a [] = Unit
NotIn a (b ∷ bs) = (a ≢ b) × NotIn a bs

abbrev pub Distinct : List ℕ → Type 0
Distinct [] = Unit
Distinct (b ∷ bs) = NotIn b bs × Distinct bs

-- The nodes `bs`, from the first at `a` on.
abbrev pub Chain : ℕ → ℕ → Dram → ℕ → List ℕ → Type 0
Chain lo n m a [] = a ≡ 0
Chain lo n m a (b ∷ bs) = (a ≡ b) × IsNode lo n b × Chain lo n m (read_dram_32 (b + 4) m) bs

-- `t` is the address of the last node, or NULL.
abbrev pub LastIs : ℕ → List ℕ → Type 0
LastIs t [] = t ≡ 0
LastIs t (b ∷ []) = t ≡ b
LastIs t (b ∷ c ∷ bs) = LastIs t (c ∷ bs)

-- The blocks that the nodes hold.
abbrev pub contents : Dram → List ℕ → List ℕ
contents m [] = []
contents m (b ∷ bs) = read_dram_32 b m ∷ contents m bs

module _ {lo n : ℕ} (row : Row lo n) where
  pub next_of-eq : (a : ℕ) → IsNode lo n a → next_of a ≡ a + 4
  next_of-eq a h = omega (arith, row)

  pub lbn-InDram : (a : ℕ) → IsNode lo n a → InDram a
  lbn-InDram a h = omega (arith, row)

  pub next-InDram : (a : ℕ) → IsNode lo n a → InDram (a + 4)
  next-InDram a h = omega (arith, row)
