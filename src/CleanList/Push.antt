-- ===== src/CleanList/Push.antt =====
-- `cleanListPush`: the block goes to the end of the queue.
use fast2016_ftl.Common.{
  ℕ, ◌+◌, ◌<◌, ◌≡◌, inl, inr, ap, ◌∙◌, List, [], ◌∷◌, ◌++◌, arith, none, Ends, ends, Ends-weaken,
}
use fast2016_ftl.Dram.{Dram}
use fast2016_ftl.CleanList.{ListData, clean_list_push}
use fast2016_ftl.CleanList.Chain.{contents}
use fast2016_ftl.CleanList.Queue.{length, IsQueue, Holds, Untouched, length-contents}
use fast2016_ftl.CleanList.Pushed.{Pushed, run, Pushed-first, Pushed-after, t-IsNode}

module _ (d : ListData) (bank lo n : ℕ) (m : Dram) (lbn : ℕ) (small : lbn < 4294967296) where
  pushed :
      (bs : List ℕ) (x : ℕ) (fs : List ℕ)
      → IsQueue d bank lo n m bs (x ∷ fs)
      → Ends (Pushed d bank lo n m lbn small bs x fs) (clean_list_push d bank lbn m)
  pushed [] x fs q =
      rw (run d bank lo n m lbn small x fs [] q (inl q.last))
        (ends (ground (arith, q.last, Pushed-first d bank lo n m lbn small x fs q)))
  pushed (b ∷ bs) x fs q =
      rw
        (run d bank lo n m lbn small x fs (b ∷ bs) q
          (inr (t-IsNode d bank lo n m lbn small x fs b bs q)))
        (ends (
          ground (
            arith,
            t-IsNode d bank lo n m lbn small x fs b bs q,
            Pushed-after d bank lo n m lbn small x fs b bs q,
          )))

  -- The number of blocks in the queue, and the room that the unused nodes make.
  blocks_room :
      (bs fs xs : List ℕ)
      → IsQueue d bank lo n m bs fs
      → contents m bs ≡ xs
      → length xs + length fs ≡ n
  blocks_room bs fs xs q e = omega (arith, q.total, length-contents m bs, ap length e)

  push_room :
      (bs fs xs : List ℕ)
      → IsQueue d bank lo n m bs fs
      → contents m bs ≡ xs
      → length xs < n
      → Ends
          (λ (d', m'). Holds d' bank lo n (xs ++ lbn ∷ []) m' × Untouched d bank lo n m d' m')
          (clean_list_push d bank lbn m)
  push_room bs [] xs q e room = absurd (omega (arith, blocks_room bs [] xs q e))
  push_room bs (x ∷ fs) xs q e room = Ends-weaken (pushed bs x fs q) (λ (d', m') (q', c, u). (
    record { bs = bs ++ x ∷ []; fs = fs; queue = q'; blocks = c ∙ ap (λ ys. ys ++ lbn ∷ []) e },
    u,
  ))

  push_full :
      (bs fs xs : List ℕ)
      → IsQueue d bank lo n m bs fs
      → contents m bs ≡ xs
      → length xs ≡ n
      → clean_list_push d bank lbn m ≡ none
  unfolding clean_list_push
  push_full bs [] xs q e full = ground (arith, q.free)
  push_full bs (x ∷ fs) xs q e full = absurd (omega (arith, blocks_room bs (x ∷ fs) xs q e))

  module _ (xs : List ℕ) (h : Holds d bank lo n xs m) where
    -- The push of a block onto a queue with room ends with the block at the end of the queue; the
    -- lists of the other banks and the memory outside the row stay.
    pub clean_list_push-Holds :
        length xs < n
        → Ends
            (λ (d', m'). Holds d' bank lo n (xs ++ lbn ∷ []) m' × Untouched d bank lo n m d' m')
            (clean_list_push d bank lbn m)
    clean_list_push-Holds room = push_room h.bs h.fs xs h.queue h.blocks room

    -- The push onto a queue that fills its row stops the firmware.
    clean_list_push-full : length xs ≡ n → clean_list_push d bank lbn m ≡ none
    clean_list_push-full full = push_full h.bs h.fs xs h.queue h.blocks full
