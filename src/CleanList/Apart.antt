-- ===== src/CleanList/Apart.antt =====
-- Work on the list of one bank leaves the lists of the others alone.
use fast2016_ftl.Common.{ℕ, ◌+◌, ◌*◌, ◌≤◌, ◌<◌, ◌≡◌, ◌≢◌, ◌⊎◌, refl, ◌∙◌, List, [], ◌∷◌, arith}
use fast2016_ftl.Dram.{Dram, InDram, read_dram_32}
use fast2016_ftl.CleanList.{ListData}
use fast2016_ftl.CleanList.Chain.{Row, Chain, contents, lbn-InDram, next-InDram}
use fast2016_ftl.CleanList.Queue.{Holds, Untouched}

pub Untouched-refl : (d : ListData) (bank lo n : ℕ) (m : Dram) → Untouched d bank lo n m d m
Untouched-refl d bank lo n m = record {
  lists = λ b ne. (refl, refl, refl, refl);
  memory = λ a ok out. refl;
}

pub Untouched-trans :
    (d d' d'' : ListData) (bank lo n : ℕ) (m m' m'' : Dram)
    → Untouched d bank lo n m d' m'
    → Untouched d' bank lo n m' d'' m''
    → Untouched d bank lo n m d'' m''
Untouched-trans d d' d'' bank lo n m m' m'' u v = record {
  lists = λ b ne. (
    (v.lists b ne).0 ∙ (u.lists b ne).0,
    (v.lists b ne).1 ∙ (u.lists b ne).1,
    (v.lists b ne).2 ∙ (u.lists b ne).2,
    (v.lists b ne).3 ∙ (u.lists b ne).3,
  );
  memory = λ a ok out. v.memory a ok out ∙ u.memory a ok out;
}

module _ (lo n : ℕ) (row : Row lo n) (m m' : Dram)
    (same : (a : ℕ)
      → InDram a
      → lo ≤ a
      → a < lo + 8 * n
      → read_dram_32 a m' ≡ read_dram_32 a m) where
  Chain-same : (a : ℕ) (bs : List ℕ) → Chain lo n m a bs → Chain lo n m' a bs
  Chain-same a [] c = c
  Chain-same a (b ∷ bs) (e, hb, c) = (
    e,
    hb,
    rw (same (b + 4) (next-InDram row b hb) (omega arith) (omega (arith, row)))
        (Chain-same (read_dram_32 (b + 4) m) bs c),
  )

  contents-same : (a : ℕ) (bs : List ℕ) → Chain lo n m a bs → contents m' bs ≡ contents m bs
  contents-same a [] c = refl
  contents-same a (b ∷ bs) (e, hb, c) = rw (
    same b (lbn-InDram row b hb) (omega arith) (omega (arith, row)),
    contents-same (read_dram_32 (b + 4) m) bs c,
  )

-- A queue of bank `b` in a row apart from that of `bank`.
pub Holds-Untouched :
    (d d' : ListData) (bank lo n b lo' n' : ℕ) (xs : List ℕ) (m m' : Dram)
    → Untouched d bank lo n m d' m'
    → b ≢ bank
    → (lo + 8 * n ≤ lo') ⊎ (lo' + 8 * n' ≤ lo)
    → Holds d b lo' n' xs m
    → Holds d' b lo' n' xs m'
Holds-Untouched d d' bank lo n b lo' n' xs m m' u ne apart h =
    let same : (a : ℕ)
        → InDram a
        → lo' ≤ a
        → a < lo' + 8 * n'
        → read_dram_32 a m' ≡ read_dram_32 a m =
      λ a ok low high. u.memory a ok (ground arith) in
    let q = h.queue in
    record {
      bs = h.bs;
      fs = h.fs;
      queue = record {
        row = q.row;
        used =
            rw (u.lists b ne).0
              (Chain-same lo' n' q.row m m' same (d.clean_list_head b) h.bs q.used);
        free =
            rw (u.lists b ne).2
              (Chain-same lo' n' q.row m m' same (d.clean_list_unused_nodes b) h.fs q.free);
        last = rw (u.lists b ne).1 q.last;
        size = (u.lists b ne).3 ∙ q.size;
        distinct = q.distinct;
        total = q.total;
      };
      blocks = contents-same lo' n' q.row m m' same (d.clean_list_head b) h.bs q.used ∙ h.blocks;
    }

-- A run that does not write to the row.
pub Holds-same :
    (d : ListData) (b lo n : ℕ) (xs : List ℕ) (m m' : Dram)
    → ((a : ℕ) → InDram a → lo ≤ a → a < lo + 8 * n → read_dram_32 a m' ≡ read_dram_32 a m)
    → Holds d b lo n xs m
    → Holds d b lo n xs m'
Holds-same d b lo n xs m m' same h =
    let q = h.queue in
    record {
      bs = h.bs;
      fs = h.fs;
      queue = record {
        row = q.row;
        used = Chain-same lo n q.row m m' same (d.clean_list_head b) h.bs q.used;
        free = Chain-same lo n q.row m m' same (d.clean_list_unused_nodes b) h.fs q.free;
        last = q.last;
        size = q.size;
        distinct = q.distinct;
        total = q.total;
      };
      blocks = contents-same lo n q.row m m' same (d.clean_list_head b) h.bs q.used ∙ h.blocks;
    }
