-- ===== src/Gc/Banks.antt =====
-- The banks that `garbageCollectLog` collects at once, one for each channel:
-- `ftl_page_mapped/garbage_collection.c`. Of the channel of the bank that needs room it takes this
-- bank, of the others a bank that is short of clean blocks.
use native.Mathlib.Decide.{dec_le, ℕ_discrete}
use fast2016_ftl.Common.{
  ℕ, zero, suc, ◌+◌, ◌-◌, ◌*◌, ◌/◌, ◌%◌, ◌≤◌, ◌<◌, ◌≡◌, ◌≢◌, ◌⊎◌, inl, inr, refl, arith, ltb, ◌==◌,
  if◌then◌else◌, invalid, lt→ltb, le→ltb-false, ne→==-false,
}
use fast2016_ftl.Params.{num_banks, num_channels}
use fast2016_ftl.CleanList.{ListData, clean_list_size}

-- The loop over the columns, with `k` columns left.
pub try_columns : ℕ → ListData → ℕ → ℕ → ℕ
try_columns zero d threshold bank = invalid
try_columns (suc k) d threshold bank =
    let rest = try_columns k d threshold ((bank + num_channels) % num_banks) in
    if ltb (clean_list_size d bank) threshold then bank else rest

-- `banks[i]`
pub choose_banks : ListData → ℕ → ℕ → ℕ → ℕ
unfolding try_columns
choose_banks d threshold bank_ i =
    if bank_ % num_channels == i
    then bank_
    else try_columns (num_banks / num_channels - bank_ / num_channels) d threshold
        (bank_ / num_channels * num_channels + i)

module _ (d : ListData) (threshold : ℕ) where
  -- Bank `b` is the first of the banks of channel `i` from `lo` on that is short of clean blocks.
  pub record IsFirstShort (i lo b : ℕ) : Type 0 where
    pub bank_lt : b < num_banks
    pub from : lo ≤ b
    pub channel : b % num_channels ≡ i
    pub short : d.size b < threshold
    pub first : (c : ℕ) → lo ≤ c → c < b → c % num_channels ≡ i → threshold ≤ d.size c

  -- No bank of channel `i` from `lo` on is short of clean blocks.
  abbrev pub NoneShort : ℕ → ℕ → Type 0
  NoneShort i lo = (c : ℕ) → lo ≤ c → c < num_banks → c % num_channels ≡ i → threshold ≤ d.size c

  -- What the search in channel `i` from bank `lo` on finds.
  abbrev pub Found : ℕ → ℕ → ℕ → Type 0
  Found i lo r = IsFirstShort i lo r ⊎ ((r ≡ invalid) × NoneShort i lo)

  later :
      (i lo r : ℕ)
      → lo % num_channels ≡ i
      → threshold ≤ d.size lo
      → Found i (lo + 4) r
      → Found i lo r
  later i lo r channel full (inl f) = inl (record {
    bank_lt = f.bank_lt;
    from = omega (arith, f.from);
    channel = f.channel;
    short = f.short;
    first = λ c low high same. elim (dec_le c lo) [
      | yes le ↦ ground arith
      | no gt ↦ f.first c (omega arith) high same
    ];
  })
  later i lo r channel full (inr (e, all)) = inr (
    e,
    λ c low high same. elim (dec_le c lo) [
      | yes le ↦ ground arith
      | no gt ↦ all c (omega arith) high same
    ],
  )

  -- A round in which the bank is taken, or not.
  Found-round :
      (i lo rest : ℕ)
      → lo < num_banks
      → lo % num_channels ≡ i
      → Found i (lo + 4) rest
      → Found i lo (if ltb (clean_list_size d lo) threshold then lo else rest)
  unfolding clean_list_size
  Found-round i lo rest small channel next = elim (dec_le threshold (d.size lo)) [
    | yes full ↦ rw (le→ltb-false (d.size lo) threshold full) (later i lo rest channel full next)
    | no short ↦ rw (lt→ltb (d.size lo) threshold (omega arith)) (
        inl (record {
          bank_lt = small;
          from = omega arith;
          channel = channel;
          short = omega arith;
          first = λ c low high same. absurd (omega arith);
        }))
  ]

  try_columns-Found :
      (k i lo : ℕ)
      → lo + 4 * k ≡ num_banks + i
      → i < num_channels
      → lo % num_channels ≡ i
      → Found i lo (try_columns k d threshold lo)
  unfolding try_columns
  try_columns-Found zero i lo end channels channel =
      inr (refl, λ c low high same. absurd (omega arith))
  try_columns-Found (suc zero) i lo end channels channel =
      Found-round i lo invalid (omega arith) channel
        (inr (refl, λ c low high same. absurd (omega arith)))
  try_columns-Found (suc (suc k)) i lo end channels channel =
      let next : (lo + num_channels) % num_banks ≡ lo + 4 = omega arith in
      rw next (
        Found-round i lo (try_columns (suc k) d threshold (lo + 4)) (omega arith) channel
          (try_columns-Found (suc k) i (lo + 4) (omega arith) channels (omega arith)))

  -- Of its own channel `garbageCollectLog` collects the bank that it was called for; of each other
  -- channel it collects the first bank, from the column of that bank on, with fewer clean blocks
  -- than the threshold, and none if there is no such bank. It does not come back to the columns
  -- before that of the bank.
  pub choose_banks-Found :
      (bank_ i : ℕ)
      → bank_ < num_banks
      → i < num_channels
      → ((bank_ % num_channels ≡ i) × (choose_banks d threshold bank_ i ≡ bank_))
        ⊎ ((bank_ % num_channels ≢ i)
            × Found i (bank_ / num_channels * num_channels + i) (choose_banks d threshold bank_ i))
  unfolding choose_banks
  choose_banks-Found bank_ i small channels = elim (ℕ_discrete (bank_ % num_channels) i) [
    | yes own ↦ inl (own, ground arith)
    | no other ↦ inr (
      other,
      rw (ne→==-false (bank_ % num_channels) i other) (
          try_columns-Found (num_banks / num_channels - bank_ / num_channels) i
            (bank_ / num_channels * num_channels + i) (omega arith) channels (omega arith)),
    )
  ]
