-- ===== src/CleanList/Pop.antt =====
-- `cleanListPop`: the block at the front of the queue leaves it, and its node becomes unused.
use fast2016_ftl.Common.{
  ℕ, ◌+◌, ◌*◌, ◌≤◌, ◌<◌, ◌≡◌, ◌⊎◌, ap, ◌∙◌, List, [], ◌∷◌, arith, ◌==◌, if◌then◌else◌, u32, sub32,
  none, some, Ends, ends, ==_self,
}
use fast2016_ftl.Dram.{Dram, InDram, read_dram_32, write_dram_32, read-write}
use fast2016_ftl.CleanList.{ListData, put, clean_list_pop}
use fast2016_ftl.CleanList.Chain.{IsNode, NotIn, Chain, LastIs, contents, next_of-eq, next-InDram}
use fast2016_ftl.CleanList.Writes.{
  next-next_written, Chain-next_written, contents-next_written, LastIs-ne,
}
use fast2016_ftl.CleanList.Queue.{
  length, IsQueue, Holds, Untouched, NotIn-append_left, NotIn-append_right, Distinct-middle,
}

abbrev head_of : List ℕ → ℕ
head_of [] = 0
head_of (x ∷ xs) = x

abbrev tail_of : List ℕ → List ℕ
tail_of [] = []
tail_of (x ∷ xs) = xs

-- The tail without the front node.
LastIs-rest :
    (t b : ℕ) (bs : List ℕ) → NotIn b bs → LastIs t (b ∷ bs) → LastIs (if b == t then 0 else t) bs
LastIs-rest t b [] out last = ground (arith, last)
LastIs-rest t b (c ∷ bs) out last = ground (arith, LastIs-ne b t c bs out last, last)

module _ (d : ListData) (bank lo n : ℕ) (m : Dram) where
  -- The state after the pop of the node `b` in front of `bs`.
  abbrev popped_data : ℕ → ListData
  popped_data b = record {
    clean_list_head = put d.clean_list_head bank (read_dram_32 (b + 4) m);
    clean_list_tail =
        put d.clean_list_tail bank
          (if b == d.clean_list_tail bank then 0 else d.clean_list_tail bank);
    clean_list_unused_nodes = put d.clean_list_unused_nodes bank b;
    size = put d.size bank (sub32 (d.size bank) 1);
  }

  abbrev unlinked : ℕ → Dram
  unlinked b = write_dram_32 (b + 4) (d.clean_list_unused_nodes bank) m

  module _ (b : ℕ) (bs fs : List ℕ) (q : IsQueue d bank lo n m (b ∷ bs) fs) where
    b-IsNode : IsNode lo n b
    b-IsNode = q.used.1

    run : clean_list_pop d bank m ≡ some (read_dram_32 b m, popped_data b, unlinked b)
    unfolding clean_list_pop
    run =
        rw (q.used.0, next_of-eq q.row b b-IsNode)
          (ground (arith, q.row, b-IsNode, q.size, next-InDram q.row b b-IsNode))

    unused_word : u32 (d.clean_list_unused_nodes bank) ≡ d.clean_list_unused_nodes bank
    unused_word =
        elim fs
            as (λ fs.
              Chain lo n m (d.clean_list_unused_nodes bank) fs
              → u32 (d.clean_list_unused_nodes bank) ≡ d.clean_list_unused_nodes bank) [
                | [] ↦ λ c. omega (arith, c)
                | f ∷ gs ↦ λ c. omega (arith, c.0, c.1, q.row)
              ]
          q.free

    b-next : read_dram_32 (b + 4) (unlinked b) ≡ d.clean_list_unused_nodes bank
    b-next = ground (
      arith,
      next-next_written q.row b b-IsNode (d.clean_list_unused_nodes bank) m b b-IsNode,
      unused_word,
    )

    popped-used : Chain lo n (unlinked b) (read_dram_32 (b + 4) m) bs
    popped-used =
        Chain-next_written q.row b b-IsNode (d.clean_list_unused_nodes bank) m
          (read_dram_32 (b + 4) m) bs q.used.2 (NotIn-append_left b bs fs q.distinct.0)

    popped-free : Chain lo n (unlinked b) (read_dram_32 (b + 4) (unlinked b)) fs
    popped-free = rw b-next (
        Chain-next_written q.row b b-IsNode (d.clean_list_unused_nodes bank) m
          (d.clean_list_unused_nodes bank) fs q.free (NotIn-append_right b bs fs q.distinct.0))

    popped-contents : contents (unlinked b) bs ≡ contents m bs
    popped-contents =
        contents-next_written q.row b b-IsNode (d.clean_list_unused_nodes bank) m
          (read_dram_32 (b + 4) m) bs q.used.2

    popped-outside :
        (a : ℕ)
        → InDram a
        → (a < lo) ⊎ (lo + 8 * n ≤ a)
        → read_dram_32 a (unlinked b) ≡ read_dram_32 a m
    popped-outside a ok out =
        rw
          (read-write (b + 4) a (d.clean_list_unused_nodes bank) m (next-InDram q.row b b-IsNode)
            ok)
          (ground (arith, b-IsNode))

    popped-last : LastIs (if b == d.clean_list_tail bank then 0 else d.clean_list_tail bank) bs
    popped-last =
        LastIs-rest (d.clean_list_tail bank) b bs (NotIn-append_left b bs fs q.distinct.0) q.last

    popped : IsQueue (popped_data b) bank lo n (unlinked b) bs (b ∷ fs)
    popped = record {
      row = q.row;
      used = ground (arith, ==_self bank, popped-used);
      free = (ground arith, b-IsNode, popped-free);
      last = ground (arith, ==_self bank, popped-last);
      size = ground (arith, q.size, q.total, q.row);
      distinct = Distinct-middle b bs fs q.distinct;
      total = omega (arith, q.total);
    }

    popped-Untouched : Untouched d bank lo n m (popped_data b) (unlinked b)
    popped-Untouched = record {
      lists = λ b ne. (ground arith, ground arith, ground arith, ground arith);
      memory = popped-outside;
    }

  pop_some :
      (bs fs : List ℕ) (x : ℕ) (xs : List ℕ)
      → IsQueue d bank lo n m bs fs
      → contents m bs ≡ x ∷ xs
      → Ends
          (λ (y, d', m'). (y ≡ x) × Holds d' bank lo n xs m' × Untouched d bank lo n m d' m')
          (clean_list_pop d bank m)
  pop_some [] fs x xs q e = absurd (omega (arith, ap length e))
  pop_some (b ∷ bs) fs x xs q e = rw (run b bs fs q) (
      ends (
        ap head_of e,
        record {
          bs = bs;
          fs = b ∷ fs;
          queue = popped b bs fs q;
          blocks = popped-contents b bs fs q ∙ ap tail_of e;
        },
        popped-Untouched b bs fs q,
      ))

  pop_none :
      (bs fs : List ℕ)
      → IsQueue d bank lo n m bs fs
      → contents m bs ≡ []
      → clean_list_pop d bank m ≡ none
  unfolding clean_list_pop
  pop_none [] fs q e = ground (arith, q.used)
  pop_none (b ∷ bs) fs q e = absurd (omega (arith, ap length e))

  -- The pop from a queue with a block in front ends with that block and with the rest as the queue;
  -- the lists of the other banks and the memory outside the row stay.
  pub clean_list_pop-Holds :
      (x : ℕ) (xs : List ℕ)
      → Holds d bank lo n (x ∷ xs) m
      → Ends
          (λ (y, d', m'). (y ≡ x) × Holds d' bank lo n xs m' × Untouched d bank lo n m d' m')
          (clean_list_pop d bank m)
  clean_list_pop-Holds x xs h = pop_some h.bs h.fs x xs h.queue h.blocks

  -- The pop from an empty queue stops the firmware.
  clean_list_pop-empty : Holds d bank lo n [] m → clean_list_pop d bank m ≡ none
  clean_list_pop-empty h = pop_none h.bs h.fs h.queue h.blocks
