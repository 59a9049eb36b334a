-- ===== src/CleanList/Writes.antt =====
-- What a write to a node does to a chain and to the blocks that it holds.
use fast2016_ftl.Common.{
  ℕ, ◌+◌, ◌≡◌, ◌≢◌, refl, sym, ◌∙◌, List, [], ◌∷◌, ◌++◌, arith, ◌==◌, if◌then◌else◌, u32,
}
use fast2016_ftl.Dram.{Dram, read_dram_32, write_dram_32, read-write}
use fast2016_ftl.CleanList.Chain.{
  Row, IsNode, NotIn, Distinct, Chain, LastIs, contents, lbn-InDram, next-InDram,
}

module _ {lo n : ℕ} (row : Row lo n) (x : ℕ) (hx : IsNode lo n x) (v : ℕ) (m : Dram) where
  abbrev next_written : Dram
  next_written = write_dram_32 (x + 4) v m

  abbrev lbn_written : Dram
  lbn_written = write_dram_32 x v m

  pub next-next_written :
      (b : ℕ)
      → IsNode lo n b
      → read_dram_32 (b + 4) next_written ≡ (if x == b then u32 v else read_dram_32 (b + 4) m)
  next-next_written b hb =
      rw (read-write (x + 4) (b + 4) v m (next-InDram row x hx) (next-InDram row b hb))
        (ground arith)

  pub spared :
      (b : ℕ) → IsNode lo n b → x ≢ b → read_dram_32 (b + 4) next_written ≡ read_dram_32 (b + 4) m
  spared b hb ne = ground (arith, next-next_written b hb)

  pub lbn-next_written : (b : ℕ) → IsNode lo n b → read_dram_32 b next_written ≡ read_dram_32 b m
  lbn-next_written b hb =
      rw (read-write (x + 4) b v m (next-InDram row x hx) (lbn-InDram row b hb))
        (ground (arith, hx, hb))

  pub next-lbn_written :
      (b : ℕ) → IsNode lo n b → read_dram_32 (b + 4) lbn_written ≡ read_dram_32 (b + 4) m
  next-lbn_written b hb =
      rw (read-write x (b + 4) v m (lbn-InDram row x hx) (next-InDram row b hb))
        (ground (arith, hx, hb))

  pub lbn-lbn_written :
      (b : ℕ)
      → IsNode lo n b
      → read_dram_32 b lbn_written ≡ (if x == b then u32 v else read_dram_32 b m)
  lbn-lbn_written b hb = read-write x b v m (lbn-InDram row x hx) (lbn-InDram row b hb)

  pub Chain-next_written :
      (a : ℕ) (bs : List ℕ) → Chain lo n m a bs → NotIn x bs → Chain lo n next_written a bs
  Chain-next_written a [] c out = c
  Chain-next_written a (b ∷ bs) (e, hb, c) (ne, out) =
      (e, hb, Chain-next_written (read_dram_32 (b + 4) next_written) bs (rw (spared b hb ne) c) out)

  pub Chain-lbn_written : (a : ℕ) (bs : List ℕ) → Chain lo n m a bs → Chain lo n lbn_written a bs
  Chain-lbn_written a [] c = c
  Chain-lbn_written a (b ∷ bs) (e, hb, c) =
      (e, hb, rw (next-lbn_written b hb) (Chain-lbn_written (read_dram_32 (b + 4) m) bs c))

  pub contents-next_written :
      (a : ℕ) (bs : List ℕ) → Chain lo n m a bs → contents next_written bs ≡ contents m bs
  contents-next_written a [] c = refl
  contents-next_written a (b ∷ bs) (e, hb, c) =
      rw (lbn-next_written b hb, contents-next_written (read_dram_32 (b + 4) m) bs c)

  pub contents-lbn_written :
      (a : ℕ) (bs : List ℕ)
      → Chain lo n m a bs
      → NotIn x bs
      → contents lbn_written bs ≡ contents m bs
  contents-lbn_written a [] c out = refl
  contents-lbn_written a (b ∷ bs) (e, hb, c) (ne, out) =
      rw (contents-lbn_written (read_dram_32 (b + 4) m) bs c out)
        (ground (arith, lbn-lbn_written b hb))

-- The last node of a chain, and a chain that grows behind it.
pub LastIs-IsNode :
    {lo n : ℕ} (m : Dram) (a t b : ℕ) (bs : List ℕ)
    → Chain lo n m a (b ∷ bs)
    → LastIs t (b ∷ bs)
    → IsNode lo n t
LastIs-IsNode m a t b [] (e, hb, c) last = rw last hb
LastIs-IsNode m a t b (d ∷ bs) (e, hb, c) last =
    LastIs-IsNode m (read_dram_32 (b + 4) m) t d bs c last

pub LastIs-ne : (x t b : ℕ) (bs : List ℕ) → NotIn x (b ∷ bs) → LastIs t (b ∷ bs) → t ≢ x
LastIs-ne x t b [] out last = λ e. out.0 (sym e ∙ last)
LastIs-ne x t b (d ∷ bs) out last = LastIs-ne x t d bs out.1 last

pub Chain-snoc :
    {lo n : ℕ} (row : Row lo n) (x : ℕ) (m : Dram) (t a b : ℕ) (bs : List ℕ)
    → IsNode lo n x
    → IsNode lo n t
    → read_dram_32 (x + 4) m ≡ 0
    → Chain lo n m a (b ∷ bs)
    → LastIs t (b ∷ bs)
    → Distinct (b ∷ bs)
    → NotIn x (b ∷ bs)
    → Chain lo n (write_dram_32 (t + 4) x m) a (b ∷ (bs ++ x ∷ []))
Chain-snoc row x m t a b [] hx ht null (e, hb, c) last distinct out = (
  e,
  hb,
  (
    ground (arith, next-next_written row t ht x m b hb, row, hx),
    hx,
    spared row t ht x m x hx (LastIs-ne x t b [] out last) ∙ null,
  ),
)
Chain-snoc row x m t a b (d ∷ bs) hx ht null (e, hb, c) last distinct out = (
  e,
  hb,
  rw (spared row t ht x m b hb (LastIs-ne b t d bs distinct.0 last))
      (Chain-snoc row x m t (read_dram_32 (b + 4) m) d bs hx ht null c last distinct.1 out.1),
)

pub LastIs-snoc : (x b : ℕ) (bs : List ℕ) → LastIs x (b ∷ (bs ++ x ∷ []))
LastIs-snoc x b [] = refl
LastIs-snoc x b (c ∷ bs) = LastIs-snoc x c bs
