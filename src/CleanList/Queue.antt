-- ===== src/CleanList/Queue.antt =====
-- The list of a bank as a queue of blocks.
use fast2016_ftl.Common.{
  ℕ, suc, ◌+◌, ◌*◌, ◌≤◌, ◌<◌, ◌≡◌, ◌≢◌, ◌⊎◌, refl, sym, List, [], ◌∷◌, ◌++◌, arith,
}
use fast2016_ftl.Dram.{Dram, InDram, read_dram_32}
use fast2016_ftl.CleanList.{ListData}
use fast2016_ftl.CleanList.Chain.{Row, NotIn, Distinct, Chain, LastIs, contents}

abbrev pub length : List ℕ → ℕ
length [] = 0
length (x ∷ xs) = suc (length xs)

-- The nodes of the bank's row are divided between the list, `bs`, and the unused ones, `fs`.
pub record IsQueue (d : ListData) (bank lo n : ℕ) (m : Dram) (bs fs : List ℕ) : Type 0 where
  pub row : Row lo n
  pub used : Chain lo n m (d.clean_list_head bank) bs
  pub free : Chain lo n m (d.clean_list_unused_nodes bank) fs
  pub last : LastIs (d.clean_list_tail bank) bs
  pub size : d.size bank ≡ length bs
  pub distinct : Distinct (bs ++ fs)
  pub total : length bs + length fs ≡ n

-- The list of the bank is the queue `xs`, with room for `n` blocks.
pub record Holds (d : ListData) (bank lo n : ℕ) (xs : List ℕ) (m : Dram) : Type 0 where
  pub bs : List ℕ
  pub fs : List ℕ
  pub queue : IsQueue d bank lo n m bs fs
  pub blocks : contents m bs ≡ xs

-- Nothing has changed but the list of the bank and its row.
pub record Untouched (d : ListData) (bank lo n : ℕ) (m : Dram) (d' : ListData) (m' : Dram)
    : Type 0 where
  pub lists :
      (b : ℕ)
      → b ≢ bank
      → (d'.clean_list_head b ≡ d.clean_list_head b)
        × (d'.clean_list_tail b ≡ d.clean_list_tail b)
        × (d'.clean_list_unused_nodes b ≡ d.clean_list_unused_nodes b)
        × (d'.size b ≡ d.size b)
  pub memory :
      (a : ℕ) → InDram a → (a < lo) ⊎ (lo + 8 * n ≤ a) → read_dram_32 a m' ≡ read_dram_32 a m

pub contents-append :
    (m : Dram) (bs cs : List ℕ) → contents m (bs ++ cs) ≡ contents m bs ++ contents m cs
contents-append m [] cs = refl
contents-append m (b ∷ bs) cs = rw (contents-append m bs cs)

pub length-contents : (m : Dram) (bs : List ℕ) → length (contents m bs) ≡ length bs
length-contents m [] = refl
length-contents m (b ∷ bs) = rw (length-contents m bs)

pub length-append : (xs ys : List ℕ) → length (xs ++ ys) ≡ length xs + length ys
length-append [] ys = omega arith
length-append (x ∷ xs) ys = omega (arith, length-append xs ys)

-- Distinctness of a list that is put together.
pub NotIn-append_left : (x : ℕ) (bs cs : List ℕ) → NotIn x (bs ++ cs) → NotIn x bs
NotIn-append_left x [] cs h = tt
NotIn-append_left x (b ∷ bs) cs h = (h.0, NotIn-append_left x bs cs h.1)

pub NotIn-append_right : (x : ℕ) (bs cs : List ℕ) → NotIn x (bs ++ cs) → NotIn x cs
NotIn-append_right x [] cs h = h
NotIn-append_right x (b ∷ bs) cs h = NotIn-append_right x bs cs h.1

pub Distinct-append_left : (bs cs : List ℕ) → Distinct (bs ++ cs) → Distinct bs
Distinct-append_left [] cs h = tt
Distinct-append_left (b ∷ bs) cs h = (NotIn-append_left b bs cs h.0, Distinct-append_left bs cs h.1)

pub Distinct-append_right : (bs cs : List ℕ) → Distinct (bs ++ cs) → Distinct cs
Distinct-append_right [] cs h = h
Distinct-append_right (b ∷ bs) cs h = Distinct-append_right bs cs h.1

NotIn-insert : (x y : ℕ) (bs cs : List ℕ) → x ≢ y → NotIn x (bs ++ cs) → NotIn x (bs ++ y ∷ cs)
NotIn-insert x y [] cs ne h = (ne, h)
NotIn-insert x y (b ∷ bs) cs ne h = (h.0, NotIn-insert x y bs cs ne h.1)

-- The middle element, found in front.
pub NotIn-middle : (x : ℕ) (bs cs : List ℕ) → Distinct (bs ++ x ∷ cs) → NotIn x bs
NotIn-middle x [] cs h = tt
NotIn-middle x (b ∷ bs) cs h =
    (λ e. (NotIn-append_right b bs (x ∷ cs) h.0).0 (sym e), NotIn-middle x bs cs h.1)

-- The front element, moved to the middle.
pub Distinct-middle : (x : ℕ) (bs cs : List ℕ) → Distinct (x ∷ (bs ++ cs)) → Distinct (bs ++ x ∷ cs)
Distinct-middle x [] cs h = h
Distinct-middle x (b ∷ bs) cs h =
    (NotIn-insert b x bs cs (λ e. h.0.0 (sym e)) h.1.0, Distinct-middle x bs cs (h.0.1, h.1.1))
