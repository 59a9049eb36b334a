-- ===== src/CleanList/Pushed.antt =====
-- One run of `cleanListPush`, on an empty list and on a list with blocks.
use fast2016_ftl.Common.{
  ℕ, ◌+◌, ◌*◌, ◌≤◌, ◌<◌, ◌≡◌, ◌⊎◌, inl, inr, refl, ap, ◌∙◌, List, [], ◌∷◌, ◌++◌, arith, ◌==◌,
  if◌then◌else◌, u32, some, ==_self,
}
use fast2016_ftl.Dram.{Dram, InDram, read_dram_32, write_dram_32, read-write}
use fast2016_ftl.CleanList.{ListData, put, clean_list_push}
use fast2016_ftl.CleanList.Chain.{
  IsNode, NotIn, Distinct, Chain, LastIs, contents, next_of-eq, lbn-InDram, next-InDram,
}
use fast2016_ftl.CleanList.Writes.{
  next-next_written, lbn-next_written, lbn-lbn_written, Chain-next_written, Chain-lbn_written,
  contents-next_written, contents-lbn_written, LastIs-IsNode, Chain-snoc, LastIs-snoc,
}
use fast2016_ftl.CleanList.Queue.{
  length, IsQueue, Untouched, contents-append, length-append, Distinct-append_left,
  Distinct-append_right, NotIn-middle,
}

pub append_assoc : (bs : List ℕ) (x : ℕ) (fs : List ℕ) → (bs ++ x ∷ []) ++ fs ≡ bs ++ x ∷ fs
append_assoc [] x fs = refl
append_assoc (b ∷ bs) x fs = rw (append_assoc bs x fs)

LastIs-NotIn :
    (t b : ℕ) (bs cs : List ℕ) → LastIs t (b ∷ bs) → Distinct ((b ∷ bs) ++ cs) → NotIn t cs
LastIs-NotIn t b [] cs last h = rw last h.0
LastIs-NotIn t b (d ∷ bs) cs last h = LastIs-NotIn t d bs cs last h.1

module _ (d : ListData) (bank lo n : ℕ) (m : Dram) (lbn : ℕ) (small : lbn < 4294967296) where
  -- The state after a push onto `bs`, for the node `x`.
  abbrev pub Pushed : List ℕ → ℕ → List ℕ → ListData × Dram → Type 0
  Pushed bs x fs (d', m') =
      IsQueue d' bank lo n m' (bs ++ x ∷ []) fs
      × (contents m' (bs ++ x ∷ []) ≡ contents m bs ++ lbn ∷ [])
      × Untouched d bank lo n m d' m'

  abbrev pub pushed_data : ℕ → ListData
  pushed_data x = record {
    clean_list_head =
        put d.clean_list_head bank
          (if d.clean_list_head bank == 0 then x else d.clean_list_head bank);
    clean_list_tail = put d.clean_list_tail bank x;
    clean_list_unused_nodes = put d.clean_list_unused_nodes bank (read_dram_32 (x + 4) m);
    size = put d.size bank (u32 (d.size bank + 1));
  }

  module _ (x : ℕ) (fs : List ℕ) where
    abbrev pub filled : Dram
    filled = write_dram_32 (x + 4) 0 (write_dram_32 x lbn m)

    abbrev pub linked : Dram
    linked =
        if d.clean_list_tail bank == 0
        then filled
        else write_dram_32 (d.clean_list_tail bank + 4) x filled

    module _ (bs : List ℕ) (q : IsQueue d bank lo n m bs (x ∷ fs)) where
      x-IsNode : IsNode lo n x
      x-IsNode = q.free.1

      pub run :
          (d.clean_list_tail bank ≡ 0) ⊎ IsNode lo n (d.clean_list_tail bank)
          → clean_list_push d bank lbn m ≡ some (pushed_data x, linked)
      unfolding clean_list_push
      run (inl null) =
          rw (q.free.0, next_of-eq q.row x x-IsNode, null)
            (ground
              (arith, q.row, x-IsNode, lbn-InDram q.row x x-IsNode, next-InDram q.row x x-IsNode))
      run (inr node) =
          rw (q.free.0, next_of-eq q.row x x-IsNode, next_of-eq q.row (d.clean_list_tail bank) node)
            (ground (arith, q.row, x-IsNode, node))

      -- What the writes to the new node itself leave.
      filled-Chain : (a : ℕ) (cs : List ℕ) → Chain lo n m a cs → NotIn x cs → Chain lo n filled a cs
      filled-Chain a cs c out =
          Chain-next_written q.row x x-IsNode 0 (write_dram_32 x lbn m) a cs
            (Chain-lbn_written q.row x x-IsNode lbn m a cs c) out

      filled-contents :
          (a : ℕ) (cs : List ℕ)
          → Chain lo n m a cs
          → NotIn x cs
          → contents filled cs ≡ contents m cs
      filled-contents a cs c out =
          contents-next_written q.row x x-IsNode 0 (write_dram_32 x lbn m) a cs
            (Chain-lbn_written q.row x x-IsNode lbn m a cs c)
          ∙ contents-lbn_written q.row x x-IsNode lbn m a cs c out

      filled-lbn : read_dram_32 x filled ≡ lbn
      filled-lbn =
          lbn-next_written q.row x x-IsNode 0 (write_dram_32 x lbn m) x x-IsNode
          ∙ ground (arith, lbn-lbn_written q.row x x-IsNode lbn m x x-IsNode)

      filled-next : read_dram_32 (x + 4) filled ≡ 0
      filled-next =
          ground (arith, next-next_written q.row x x-IsNode 0 (write_dram_32 x lbn m) x x-IsNode)

      x-NotIn_bs : NotIn x bs
      x-NotIn_bs = NotIn-middle x bs fs q.distinct

      x-NotIn_fs : NotIn x fs
      x-NotIn_fs = (Distinct-append_right bs (x ∷ fs) q.distinct).0

      pushed-Distinct : Distinct ((bs ++ x ∷ []) ++ fs)
      pushed-Distinct = rw (append_assoc bs x fs) q.distinct

      pushed-total : length (bs ++ x ∷ []) + length fs ≡ n
      pushed-total = omega (arith, length-append bs (x ∷ []), q.total)

      pushed-size : u32 (d.size bank + 1) ≡ length (bs ++ x ∷ [])
      pushed-size = omega (arith, length-append bs (x ∷ []), q.total, q.size, q.row)

      untouched :
          (m' : Dram)
          → ((a : ℕ)
              → InDram a
              → (a < lo) ⊎ (lo + 8 * n ≤ a)
              → read_dram_32 a m' ≡ read_dram_32 a m)
          → Untouched d bank lo n m (pushed_data x) m'
      untouched m' h = record {
        lists = λ b ne. (ground arith, ground arith, ground arith, ground arith);
        memory = h;
      }

      filled-outside :
          (a : ℕ)
          → InDram a
          → (a < lo) ⊎ (lo + 8 * n ≤ a)
          → read_dram_32 a filled ≡ read_dram_32 a m
      filled-outside a ok out =
          rw
            (
              read-write (x + 4) a 0 (write_dram_32 x lbn m) (next-InDram q.row x x-IsNode) ok,
              read-write x a lbn m (lbn-InDram q.row x x-IsNode) ok,
            )
            (ground (arith, x-IsNode))

    -- The two shapes of the list before the push.
    pub Pushed-first : IsQueue d bank lo n m [] (x ∷ fs) → Pushed [] x fs (pushed_data x, filled)
    Pushed-first q = (
      record {
        row = q.row;
        used = (ground (arith, q.used), x-IsNode [] q, filled-next [] q);
        free = ground (
          arith,
          ==_self bank,
          filled-Chain [] q (read_dram_32 (x + 4) m) fs q.free.2 (x-NotIn_fs [] q),
        );
        last = ground arith;
        size = ground (arith, pushed-size [] q);
        distinct = pushed-Distinct [] q;
        total = pushed-total [] q;
      },
      rw (filled-lbn [] q),
      untouched [] q filled (filled-outside [] q),
    )

    module _ (b : ℕ) (bs : List ℕ) (q : IsQueue d bank lo n m (b ∷ bs) (x ∷ fs)) where
      abbrev t : ℕ
      t = d.clean_list_tail bank

      abbrev joined : Dram
      joined = write_dram_32 (t + 4) x filled

      pub t-IsNode : IsNode lo n t
      t-IsNode = LastIs-IsNode m (d.clean_list_head bank) t b bs q.used q.last

      t-NotIn_fs : NotIn t fs
      t-NotIn_fs = (LastIs-NotIn t b bs (x ∷ fs) q.last q.distinct).1

      old-Chain : Chain lo n filled (d.clean_list_head bank) (b ∷ bs)
      old-Chain =
          filled-Chain (b ∷ bs) q (d.clean_list_head bank) (b ∷ bs) q.used (x-NotIn_bs (b ∷ bs) q)

      old_contents : contents joined (b ∷ bs) ≡ contents m (b ∷ bs)
      old_contents =
          contents-next_written q.row t t-IsNode x filled (d.clean_list_head bank) (b ∷ bs)
            old-Chain
          ∙ filled-contents (b ∷ bs) q (d.clean_list_head bank) (b ∷ bs) q.used
              (x-NotIn_bs (b ∷ bs) q)

      new_lbn : read_dram_32 x joined ≡ lbn
      new_lbn =
          lbn-next_written q.row t t-IsNode x filled x (x-IsNode (b ∷ bs) q) ∙ filled-lbn (b ∷ bs) q

      joined-free : Chain lo n joined (read_dram_32 (x + 4) m) fs
      joined-free =
          Chain-next_written q.row t t-IsNode x filled (read_dram_32 (x + 4) m) fs
            (filled-Chain (b ∷ bs) q (read_dram_32 (x + 4) m) fs q.free.2 (x-NotIn_fs (b ∷ bs) q))
            t-NotIn_fs

      joined-outside :
          (a : ℕ)
          → InDram a
          → (a < lo) ⊎ (lo + 8 * n ≤ a)
          → read_dram_32 a joined ≡ read_dram_32 a m
      joined-outside a ok out =
          rw
            (
              read-write (t + 4) a x filled (next-InDram q.row t t-IsNode) ok,
              filled-outside (b ∷ bs) q a ok out,
            )
            (ground (arith, t-IsNode))

      joined-contents : contents joined (b ∷ (bs ++ x ∷ [])) ≡ contents m (b ∷ bs) ++ lbn ∷ []
      joined-contents =
          contents-append joined (b ∷ bs) (x ∷ [])
          ∙ ap (λ xs. xs ++ contents joined (x ∷ [])) old_contents
          ∙ ap (λ y. contents m (b ∷ bs) ++ y ∷ []) new_lbn

      joined-Chain : Chain lo n joined (d.clean_list_head bank) (b ∷ (bs ++ x ∷ []))
      joined-Chain =
          Chain-snoc q.row x filled t (d.clean_list_head bank) b bs (x-IsNode (b ∷ bs) q) t-IsNode
            (filled-next (b ∷ bs) q) old-Chain q.last
            (Distinct-append_left (b ∷ bs) (x ∷ fs) q.distinct) (x-NotIn_bs (b ∷ bs) q)

      pub Pushed-after : Pushed (b ∷ bs) x fs (pushed_data x, joined)
      Pushed-after = (
        record {
          row = q.row;
          used = ground (arith, q.used, joined-Chain);
          free = ground (arith, ==_self bank, joined-free);
          last = ground (arith, LastIs-snoc x b bs);
          size = ground (arith, pushed-size (b ∷ bs) q);
          distinct = pushed-Distinct (b ∷ bs) q;
          total = pushed-total (b ∷ bs) q;
        },
        joined-contents,
        untouched (b ∷ bs) q joined joined-outside,
      )
