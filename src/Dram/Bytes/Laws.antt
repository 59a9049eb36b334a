-- ===== src/Dram/Bytes/Laws.antt =====
-- A part of a word that is written is read back, and the other parts stay.
use native.Mathlib.Decide.{ℕ_discrete}
use fast2016_ftl.Common.{
  ℕ, zero, suc, ◌+◌, ◌*◌, ◌/◌, ◌%◌, ◌<◌, ◌≡◌, ◌≢◌, sym, ap, ◌∙◌, ltb, ◌==◌, if◌then◌else◌, u16,
  arith, Ends, ends, Bool, true, false,
}
use fast2016_ftl.Dram.{Dram, InDram, read_dram_32, write_dram_32, read-write}
use fast2016_ftl.Dram.Bytes.{
  aligned_addr, replace_part, write_dram_16, write_dram_8, read_dram_16, read_dram_8, or_bit,
  and_not_bit, and_bit, bit_word, new_bit_offset, outside_dram, set_bit_dram, clr_bit_dram,
  tst_bit_dram,
}

-- Half words at even addresses: the one written is read back, every other one stays.
read_dram_16-write_dram_16 :
    (a b v : ℕ) (m : Dram)
    → InDram a
    → InDram b
    → a % 2 ≡ 0
    → b % 2 ≡ 0
    → ((c : ℕ) → read_dram_32 c m < 4294967296)
    → read_dram_16 b (write_dram_16 a v m) ≡ (if a == b then u16 v else read_dram_16 b m)
unfolding read_dram_16 write_dram_16
read_dram_16-write_dram_16 a b v m ha hb even even' words = ground (
  arith,
  read-write (aligned_addr a) (aligned_addr b)
      (replace_part (read_dram_32 (aligned_addr a) m) 65536 (a % 4) (u16 v)) m,
  words (aligned_addr a),
  ha,
  hb,
)

-- Bytes: the one written is read back, every other one stays.
read_dram_8-write_dram_8 :
    (a b v : ℕ) (m : Dram)
    → InDram a
    → InDram b
    → ((c : ℕ) → read_dram_32 c m < 4294967296)
    → read_dram_8 b (write_dram_8 a v m) ≡ (if a == b then v % 256 else read_dram_8 b m)
unfolding read_dram_8 write_dram_8
read_dram_8-write_dram_8 a b v m ha hb words = ground (
  arith,
  read-write (aligned_addr a) (aligned_addr b)
      (replace_part (read_dram_32 (aligned_addr a) m) 256 (a % 4) (v % 256)) m,
  words (aligned_addr a),
  ha,
  hb,
)

-- A bit of a word, as the caller of `tst_bit_dram` reads the result.
abbrev pub is_set : ℕ → ℕ → Bool
is_set n val = ltb 0 (and_bit n val)

is_set-suc : (n v w : ℕ) → v / 2 ≡ w → is_set (suc n) v ≡ is_set n w
unfolding and_bit
is_set-suc n v w e = ground (arith, ap (and_bit n) e)

is_set-or_bit : (n k v : ℕ) → is_set k (or_bit n v) ≡ (if n == k then true else is_set k v)
unfolding and_bit or_bit
is_set-or_bit zero zero v = ground arith
is_set-or_bit zero (suc k) v = is_set-suc k (v / 2 * 2 + 1) (v / 2) (omega arith) ∙ ground arith
is_set-or_bit (suc n) zero v = ground arith
is_set-or_bit (suc n) (suc k) v =
    is_set-suc k (or_bit n (v / 2) * 2 + v % 2) (or_bit n (v / 2)) (omega arith)
    ∙ ground (arith, is_set-or_bit n k (v / 2))

is_set-and_not_bit :
    (n k v : ℕ) → is_set k (and_not_bit n v) ≡ (if n == k then false else is_set k v)
unfolding and_bit and_not_bit
is_set-and_not_bit zero zero v = ground arith
is_set-and_not_bit zero (suc k) v = is_set-suc k (v / 2 * 2) (v / 2) (omega arith) ∙ ground arith
is_set-and_not_bit (suc n) zero v = ground arith
is_set-and_not_bit (suc n) (suc k) v =
    is_set-suc k (and_not_bit n (v / 2) * 2 + v % 2) (and_not_bit n (v / 2)) (omega arith)
    ∙ ground (arith, is_set-and_not_bit n k (v / 2))

-- The values of `w` bits.
within : ℕ → ℕ → Bool
within zero v = v == 0
within (suc w) v = within w (v / 2)

within-or_bit : (w n v : ℕ) → n < w → within w v ≡ true → within w (or_bit n v) ≡ true
unfolding within or_bit
within-or_bit zero n v small h = absurd (omega arith)
within-or_bit (suc w) zero v small h = ap (within w) (omega arith) ∙ h
within-or_bit (suc w) (suc n) v small h =
    ap (within w) (omega arith) ∙ within-or_bit w n (v / 2) (omega arith) h

within-and_not_bit : (w n v : ℕ) → n < w → within w v ≡ true → within w (and_not_bit n v) ≡ true
unfolding within and_not_bit
within-and_not_bit zero n v small h = absurd (omega arith)
within-and_not_bit (suc w) zero v small h = ap (within w) (omega arith) ∙ h
within-and_not_bit (suc w) (suc n) v small h =
    ap (within w) (omega arith) ∙ within-and_not_bit w n (v / 2) (omega arith) h

within-32 : (v : ℕ) → v < 4294967296 → within 32 v ≡ true
unfolding within
within-32 v h = ground arith

lt-within : (v : ℕ) → within 32 v ≡ true → v < 4294967296
unfolding within
lt-within v h = ground arith

-- The words of the DRAM are 32 bits wide.
abbrev pub IsWords : Dram → Type 0
IsWords m = (c : ℕ) → read_dram_32 c m < 4294967296

or_bit-lt : (n v : ℕ) → n < 32 → v < 4294967296 → or_bit n v < 4294967296
or_bit-lt n v small h = lt-within (or_bit n v) (within-or_bit 32 n v small (within-32 v h))

and_not_bit-lt : (n v : ℕ) → n < 32 → v < 4294967296 → and_not_bit n v < 4294967296
and_not_bit-lt n v small h =
    lt-within (and_not_bit n v) (within-and_not_bit 32 n v small (within-32 v h))

-- The bit number `i` of a table at an aligned address inside the DRAM.
pub record IsBit (base i : ℕ) : Type 0 where
  pub base_aligned : base % 4 ≡ 0
  pub base_above : InDram base
  pub bit_below : InDram (base + i / 8)

equal : (a b : ℕ) → a ≡ b → (a == b) ≡ true
equal a b e = ground arith

different : (a b : ℕ) → a ≢ b → (a == b) ≡ false
different a b ne = ground arith

module _ (base i j : ℕ) (hi : IsBit base i) (hj : IsBit base j) (m : Dram) (words : IsWords m) where
  abbrev other : Bool
  other = is_set (new_bit_offset base j) (read_dram_32 (bit_word base j) m)

  word-InDram : InDram (bit_word base i)
  word-InDram = omega (arith, hi)

  word-InDram' : InDram (bit_word base j)
  word-InDram' = omega (arith, hj)

  -- The same word and the same place in it are the same bit.
  same_bit :
      i ≢ j → bit_word base i ≡ bit_word base j → new_bit_offset base i ≢ new_bit_offset base j
  same_bit ne e e' = ne (omega (arith, hi, hj))

  inside : outside_dram base ≡ false
  inside = ground (arith, hi)

  -- What a write of `v` to the word of `i` makes of the bit `j`, if it makes bit `i` what `b` says and
  -- keeps the other bits of the word.
  bit_after :
      (v : ℕ) (b : Bool)
      → v < 4294967296
      → ((k : ℕ)
          → is_set k v ≡ (
              if new_bit_offset base i == k
              then b
              else is_set k (read_dram_32 (bit_word base i) m)))
      → is_set
          (new_bit_offset base j)
          (read_dram_32 (bit_word base j) (write_dram_32 (bit_word base i) v m))
        ≡ (if i == j then b else other)
  bit_after v b small kept =
      let wrote = read-write (bit_word base i) (bit_word base j) v m word-InDram word-InDram' in
      let ni = new_bit_offset base i in
      let nj = new_bit_offset base j in
      elim (ℕ_discrete (bit_word base i) (bit_word base j)) [
        | yes e ↦
            let fresh : read_dram_32 (bit_word base j) (write_dram_32 (bit_word base i) v m) ≡ v =
              ground (arith, wrote) in
            ap (is_set nj) fresh ∙ kept nj ∙ elim (ℕ_discrete i j) [
              | yes e' ↦
                  let same : ni ≡ nj = omega arith in
                  ap (λ c. if c then b else is_set nj (read_dram_32 (bit_word base i) m))
                    (equal ni nj same)
                  ∙ sym (ap (λ c. if c then b else other) (equal i j e'))
              | no ne' ↦
                  ap (λ c. if c then b else is_set nj (read_dram_32 (bit_word base i) m))
                    (different ni nj (same_bit ne' e))
                  ∙ ap (λ a. is_set nj (read_dram_32 a m)) e
                  ∙ sym (ap (λ c. if c then b else other) (different i j ne'))
            ]
        | no ne ↦
            let kept' : read_dram_32 (bit_word base j) (write_dram_32 (bit_word base i) v m)
                ≡ read_dram_32 (bit_word base j) m =
              ground (arith, wrote) in
            let apart : i ≢ j = λ e. ne (ap (bit_word base) e) in
            ap (is_set nj) kept' ∙ sym (ap (λ c. if c then b else other) (different i j apart))
      ]

  -- `set_bit_dram` on a bit of a table ends, and then `tst_bit_dram` finds it set and every other bit of
  -- the table as before.
  set_bit_dram-tst :
      Ends
        (λ m'. Ends (λ r. ltb 0 r ≡ (if i == j then true else other)) (tst_bit_dram base j m'))
        (set_bit_dram base i m)
  unfolding set_bit_dram tst_bit_dram
  set_bit_dram-tst =
      let w = read_dram_32 (bit_word base i) m in
      let n = new_bit_offset base i in
      rw inside (
        ends (
          ends (
            bit_after (or_bit n w) true (or_bit-lt n w (omega arith) (words (bit_word base i)))
              (λ k. is_set-or_bit n k w))))

  -- `clr_bit_dram` on a bit of a table ends, and then `tst_bit_dram` finds it clear and every other bit
  -- of the table as before.
  clr_bit_dram-tst :
      Ends
        (λ m'. Ends (λ r. ltb 0 r ≡ (if i == j then false else other)) (tst_bit_dram base j m'))
        (clr_bit_dram base i m)
  unfolding clr_bit_dram tst_bit_dram
  clr_bit_dram-tst =
      let w = read_dram_32 (bit_word base i) m in
      let n = new_bit_offset base i in
      rw inside (
        ends (
          ends (
            bit_after (and_not_bit n w) false
              (and_not_bit-lt n w (omega arith) (words (bit_word base i)))
              (λ k. is_set-and_not_bit n k w))))

-- A half word depends on its word only.
pub read_dram_16-same :
    (addr : ℕ) (m m' : Dram)
    → read_dram_32 (aligned_addr addr) m' ≡ read_dram_32 (aligned_addr addr) m
    → read_dram_16 addr m' ≡ read_dram_16 addr m
unfolding read_dram_16
read_dram_16-same addr m m' e = rw e
