-- ===== src/CleanList/Rows.antt =====
-- One bank in `cleanListInit`: a row of unused nodes, linked in order.
use fast2016_ftl.Common.{
  ℕ, zero, suc, ◌+◌, ◌-◌, ◌*◌, ◌≤◌, ◌<◌, ◌≡◌, ◌⊎◌, refl, sym, ap, subst, ◌∙◌, List, [], ◌∷◌, arith,
  ◌==◌, if◌then◌else◌, u32,
}
use fast2016_ftl.Dram.{Dram, InDram, read_dram_32, write_dram_32, read-write}
use fast2016_ftl.CleanList.{ListData, next_of, link_nodes}
use fast2016_ftl.CleanList.Chain.{Row, NotIn, Distinct, Chain}
use fast2016_ftl.CleanList.Queue.{length, Holds}

-- The nodes in address order.
nodes : ℕ → ℕ → List ℕ
nodes zero a = []
nodes (suc k) a = a ∷ nodes k (a + 8)

length-nodes : (k a : ℕ) → length (nodes k a) ≡ k
unfolding nodes
length-nodes zero a = refl
length-nodes (suc k) a = omega (arith, length-nodes k (a + 8))

NotIn-nodes : (k a b : ℕ) → b < a → NotIn b (nodes k a)
unfolding nodes
NotIn-nodes zero a b h = tt
NotIn-nodes (suc k) a b h = (omega arith, NotIn-nodes k (a + 8) b (omega arith))

Distinct-nodes : (k a : ℕ) → Distinct (nodes k a)
unfolding nodes
Distinct-nodes zero a = tt
Distinct-nodes (suc k) a = (NotIn-nodes k (a + 8) a (omega arith), Distinct-nodes k (a + 8))

-- The `next` words of a row.
pub Linked : ℕ → ℕ → Dram → Type 0
Linked lo n m =
    (i : ℕ) → i < n → read_dram_32 (lo + 8 * i + 4) m ≡ (if suc i == n then 0 else lo + 8 * i + 8)

nodes-Chain :
    (lo n : ℕ) (m : Dram)
    → Row lo n
    → Linked lo n m
    → (k j : ℕ) → j + k ≡ n
    → Chain lo n m (if k == 0 then 0 else lo + 8 * j) (nodes k (lo + 8 * j))
unfolding nodes Linked
nodes-Chain lo n m row h zero j e = refl
nodes-Chain lo n m row h (suc k) j e =
    (ground arith, omega (arith, row), ground (arith, h j, nodes-Chain lo n m row h k (suc j)))

-- A bank as `cleanListInit` leaves it.
pub record Ready (d : ListData) (bank lo n : ℕ) (m : Dram) : Type 0 where
  pub head : d.clean_list_head bank ≡ 0
  pub tail : d.clean_list_tail bank ≡ 0
  pub unused : d.clean_list_unused_nodes bank ≡ lo
  pub empty : d.size bank ≡ 0
  pub linked : Linked lo n m

pub Ready-Holds :
    (d : ListData) (bank lo n : ℕ) (m : Dram)
    → 1 ≤ n
    → Row lo n
    → Ready d bank lo n m
    → Holds d bank lo n [] m
Ready-Holds d bank lo n m pos row r = record {
  bs = [];
  fs = nodes n lo;
  queue = record {
    row = row;
    used = r.head;
    free = ground (arith, r.unused, nodes-Chain lo n m row r.linked n 0);
    last = r.tail;
    size = r.empty;
    distinct = Distinct-nodes n lo;
    total = omega (arith, length-nodes n lo);
  };
  blocks = refl;
}

-- The inner loop: `k` linked nodes from `a` on.
record LinksOf (k a : ℕ) (m : Dram) (last : ℕ) (m' : Dram) : Type 0 where
  node : last ≡ a + 8 * k
  next : (i : ℕ) → i < k → read_dram_32 (a + 8 * i + 4) m' ≡ a + 8 * i + 8
  same : (b : ℕ) → InDram b → (b < a) ⊎ (a + 8 * k ≤ b) → read_dram_32 b m' ≡ read_dram_32 b m

link_nodes-step :
    (k a : ℕ) (m : Dram)
    → Row a (suc (suc k))
    → link_nodes (suc k) a m ≡ link_nodes k (a + 8) (write_dram_32 (a + 4) (a + 8) m)
unfolding link_nodes
link_nodes-step k a m row =
    let e : u32 (a + 8) ≡ a + 8 = omega (arith, row) in
    let e' : next_of a ≡ a + 4 = omega (arith, row) in
    ap (λ x. link_nodes k x (write_dram_32 (next_of a) x m)) e
    ∙ ap (λ x. link_nodes k (a + 8) (write_dram_32 x (a + 8) m)) e'

-- One more node in front.
grow :
    (k a : ℕ) (m : Dram) (last : ℕ) (m' : Dram)
    → Row a (suc (suc k))
    → LinksOf k (a + 8) (write_dram_32 (a + 4) (a + 8) m) last m'
    → LinksOf (suc k) a m last m'
grow k a m last m' row l =
    let wrote : (b : ℕ)
        → InDram b
        → read_dram_32 b (write_dram_32 (a + 4) (a + 8) m)
          ≡ (if a + 4 == b then u32 (a + 8) else read_dram_32 b m) =
      λ b ok. read-write (a + 4) b (a + 8) m (omega (arith, row)) ok in
    record {
      node = omega (arith, l.node);
      next = λ i h.
          elim i as (λ i. i < suc k → read_dram_32 (a + 8 * i + 4) m' ≡ a + 8 * i + 8) [
            | zero ↦ λ h. ground (arith, l.same (a + 4), wrote (a + 4), row)
            | suc j ↦ λ h. ground (arith, l.next j)
          ]
            h;
      same = λ b ok out. ground (arith, l.same b ok, wrote b ok);
    }

link_nodes-LinksOf :
    (k a : ℕ) (m : Dram) → Row a (suc k) → LinksOf k a m (link_nodes k a m).0 (link_nodes k a m).1
unfolding link_nodes
link_nodes-LinksOf zero a m row = record {
  node = omega arith;
  next = λ i h. absurd (omega arith);
  same = λ b ok out. refl;
}
link_nodes-LinksOf (suc k) a m row =
    subst (λ r. LinksOf (suc k) a m r.0 r.1) (sym (link_nodes-step k a m row))
      (grow k a m (link_nodes k (a + 8) (write_dram_32 (a + 4) (a + 8) m)).0
        (link_nodes k (a + 8) (write_dram_32 (a + 4) (a + 8) m)).1 row
        (link_nodes-LinksOf k (a + 8) (write_dram_32 (a + 4) (a + 8) m) (omega (arith, row))))

-- One bank: the last node is the end of the chain.
abbrev pub one_row : ℕ → ℕ → Dram → Dram
one_row n a m = write_dram_32 (next_of (link_nodes (n - 1) a m).0) 0 (link_nodes (n - 1) a m).1

module _ (n a : ℕ) (m : Dram) (pos : 1 ≤ n) (row : Row a n) where
  links : LinksOf (n - 1) a m (link_nodes (n - 1) a m).0 (link_nodes (n - 1) a m).1
  links = link_nodes-LinksOf (n - 1) a m (omega (arith, row))

  last-next : next_of (link_nodes (n - 1) a m).0 ≡ a + 8 * (n - 1) + 4
  last-next = omega (arith, row, links.node)

  one_row-read :
      (b : ℕ)
      → InDram b
      → read_dram_32 b (one_row n a m)
        ≡ (if a + 8 * (n - 1) + 4 == b then u32 0 else read_dram_32 b (link_nodes (n - 1) a m).1)
  one_row-read b ok =
      rw last-next
        (read-write (a + 8 * (n - 1) + 4) b 0 (link_nodes (n - 1) a m).1 (omega (arith, row)) ok)

  pub one_row-Linked : Linked a n (one_row n a m)
  unfolding Linked
  one_row-Linked i h = ground (arith, one_row-read (a + 8 * i + 4), links.next i, row)

  pub one_row-same :
      (b : ℕ)
      → InDram b
      → (b < a) ⊎ (a + 8 * n ≤ b)
      → read_dram_32 b (one_row n a m) ≡ read_dram_32 b m
  one_row-same b ok out = ground (arith, one_row-read b ok, links.same b ok)

  pub next_row : u32 ((link_nodes (n - 1) a m).0 + 8) ≡ a + 8 * n
  next_row = omega (arith, row, links.node)

-- A row whose memory is kept stays linked.
pub Linked-same :
    (lo n : ℕ) (m m' : Dram)
    → Row lo n
    → Linked lo n m
    → ((b : ℕ) → InDram b → b < lo + 8 * n → read_dram_32 b m' ≡ read_dram_32 b m)
    → Linked lo n m'
unfolding Linked
Linked-same lo n m m' row l same i h =
    same (lo + 8 * i + 4) (omega (arith, row)) (omega arith) ∙ l i h
