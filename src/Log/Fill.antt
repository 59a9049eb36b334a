-- ===== src/Log/Fill.antt =====
-- The loop that hands all blocks of a bank to the list of clean blocks.
use fast2016_ftl.Common.{
  ℕ, zero, suc, ◌+◌, ◌≤◌, ◌<◌, ◌≡◌, refl, List, [], ◌∷◌, ◌++◌, arith, Ends, ends, Ends-weaken,
  Ends-bind,
}
use fast2016_ftl.Dram.{Dram}
use fast2016_ftl.CleanList.{ListData}
use fast2016_ftl.CleanList.Queue.{length, Holds, Untouched, length-append}
use fast2016_ftl.CleanList.Push.{clean_list_push-Holds}
use fast2016_ftl.CleanList.Pushed.{append_assoc}
use fast2016_ftl.CleanList.Apart.{Untouched-refl, Untouched-trans}
use fast2016_ftl.Log.{push_blks}

-- The numbers `lbn`, `lbn + 1` and so on, `k` of them.
abbrev pub range : ℕ → ℕ → List ℕ
range lbn zero = []
range lbn (suc k) = lbn ∷ range (suc lbn) k

append_nil : (xs : List ℕ) → xs ++ [] ≡ xs
append_nil [] = refl
append_nil (x ∷ xs) = rw (append_nil xs)

pub push_blks-Holds :
    (k lbn : ℕ) (d : ListData) (bank lo n : ℕ) (xs : List ℕ) (m : Dram)
    → lbn + k < 4294967296
    → length xs + k ≤ n
    → Holds d bank lo n xs m
    → Ends
        (λ (d', m'). Holds d' bank lo n (xs ++ range lbn k) m' × Untouched d bank lo n m d' m')
        (push_blks k lbn d bank m)
unfolding push_blks
push_blks-Holds zero lbn d bank lo n xs m small room h =
    ends (rw (append_nil xs) h, Untouched-refl d bank lo n m)
push_blks-Holds (suc k) lbn d bank lo n xs m small room h =
    Ends-bind (clean_list_push-Holds d bank lo n m lbn (omega arith) xs h (omega arith))
      λ (d1, m1) (h1, u1).
        Ends-weaken
          (push_blks-Holds k (suc lbn) d1 bank lo n (xs ++ lbn ∷ []) m1 (omega arith)
            (omega (arith, length-append xs (lbn ∷ []))) h1)
          λ (d2, m2) (h2, u2). (
            rw (append_assoc xs lbn (range (suc lbn) k)) at h2,
            Untouched-trans d d1 d2 bank lo n m m1 m2 u1 u2,
          )
