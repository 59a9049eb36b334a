-- ===== src/Gc/Recycled.antt =====
-- The rounds of `readPage` on plain and on recycled pages.
use native.Mathlib.Decide.{dec_le}
use fast2016_ftl.Common.{
  ℕ, zero, suc, ◌+◌, ◌≤◌, ◌<◌, ◌≡◌, ◌≢◌, ◌⊎◌, inl, inr, Bool-cases, subst, refl, Bool, true, false,
  none, some, arith, u32, invalid, Ends, ends,
}
use fast2016_ftl.Dram.{Dram}
use fast2016_ftl.Log.Chunk.{
  log_chunk_addr, log_chunk_addr-word, with_cold_flag, with_cold_flag-word,
}
use fast2016_ftl.Flash.{Hardware}
use fast2016_ftl.Flash.Laws.{IsHardware}
use fast2016_ftl.World.{GcBank}
use fast2016_ftl.Gc.{
  scan_chunks, find_recycled, is_marked, page_start, scan_as, scan_page, victim_lpns,
}
use fast2016_ftl.Gc.Scan.{IsScan, scan_chunks-IsScan}
use fast2016_ftl.Gc.Page.{IsPage, scanned-IsPage}

module _ (lpns : ℕ → ℕ) where
  find_recycled-plain :
      (k c : ℕ)
      → ((x : ℕ) → c ≤ x → x < c + k → is_marked (lpns x) ≡ false)
      → find_recycled k lpns c false ≡ some false
  unfolding find_recycled
  find_recycled-plain zero c all = refl
  find_recycled-plain (suc k) c all =
      rw (all c (omega arith) (omega arith))
        (find_recycled-plain k (suc c) (λ x low high. all x (omega arith) (omega arith)))

  -- The chunk bears the mark, or the page has no chunk there.
  abbrev pub MarkedOrNone : ℕ → Type 0
  MarkedOrNone x = (is_marked (lpns x) ≡ true) ⊎ (lpns x ≡ invalid)

  find_recycled-true :
      (k c : ℕ)
      → ((x : ℕ) → c ≤ x → x < c + k → MarkedOrNone x)
      → find_recycled k lpns c true ≡ some true
  unfolding find_recycled
  find_recycled-true zero c all = refl
  find_recycled-true (suc k) c all =
      let rest = find_recycled-true k (suc c) (λ x low high. all x (omega arith) (omega arith)) in
      ground (arith, all c (omega arith) (omega arith), rest)

  find_recycled-marked :
      (k c i : ℕ)
      → ((x : ℕ) → c ≤ x → x < c + k → MarkedOrNone x)
      → c ≤ i
      → i < c + k
      → is_marked (lpns i) ≡ true
      → find_recycled k lpns c false ≡ some true
  unfolding find_recycled
  find_recycled-marked zero c i all low high marked = absurd (omega arith)
  find_recycled-marked (suc k) c i all low high marked = elim (Bool-cases (is_marked (lpns c))) [
    | inl here ↦
        rw here (find_recycled-true k (suc c) (λ x low high. all x (omega arith) (omega arith)))
    | inr miss ↦
        let behind : c ≢ i = λ e. ground (arith, marked, miss, e) in
        rw miss (
          find_recycled-marked k (suc c) i (λ x low high. all x (omega arith) (omega arith))
            (omega (arith, behind)) (omega arith) marked)
  ]

  find_recycled-stops :
      (k c j : ℕ)
      → c ≤ j
      → j < c + k
      → is_marked (lpns j) ≡ false
      → lpns j ≢ invalid
      → find_recycled k lpns c true ≡ none
  unfolding find_recycled
  find_recycled-stops zero c j low high plain used = absurd (omega arith)
  find_recycled-stops (suc k) c j low high plain used = elim (dec_le j c) [
    | yes le ↦
        let here : c ≡ j = omega arith in
        let plain' : is_marked (lpns c) ≡ false = rw here plain in
        let used' : lpns c ≢ invalid = rw here used in ground arith
    | no gt ↦
        let rest = find_recycled-stops k (suc c) j (omega arith) (omega arith) plain used in
        ground (arith, rest)
  ]

  find_recycled-stops_from :
      (k c i j : ℕ)
      → c ≤ i
      → i < j
      → j < c + k
      → is_marked (lpns i) ≡ true
      → is_marked (lpns j) ≡ false
      → lpns j ≢ invalid
      → find_recycled k lpns c false ≡ none
  unfolding find_recycled
  find_recycled-stops_from zero c i j low less high marked plain used = absurd (omega arith)
  find_recycled-stops_from (suc k) c i j low less high marked plain used =
      elim (Bool-cases (is_marked (lpns c))) [
        | inl here ↦
            rw here (find_recycled-stops k (suc c) j (omega arith) (omega arith) plain used)
        | inr miss ↦
            let behind : c ≢ i = λ e. ground (arith, marked, miss, e) in
            rw miss (
              find_recycled-stops_from k (suc c) i j (omega (arith, behind)) less (omega arith)
                marked plain used)
      ]

-- The marks of the first four chunks of a page agree: none of them has one, or one has, and none
-- that is used lacks it.
pub data HasKind (lpns : ℕ → ℕ) : Bool → Type 0 where
  plain_page : ((x : ℕ) → x < 4 → is_marked (lpns x) ≡ false) → HasKind lpns false
  marked_page :
      (i : ℕ)
      → i < 4
      → is_marked (lpns i) ≡ true
      → ((x : ℕ) → x < 4 → MarkedOrNone lpns x)
      → HasKind lpns true

module _ (hw : Hardware) (ok : IsHardware hw) (bank : ℕ) (m : Dram) (g : GcBank)
    (room : g.n_valid_chunks_in_blk + 8 < 4294967296) where
  abbrev lpns : ℕ → ℕ
  lpns = victim_lpns bank g.page_offset m

  abbrev addr : ℕ
  addr = log_chunk_addr bank g.victim_lbn g.page_offset 0

  -- The scan starts at the word that stands for the first chunk.
  started-IsScan :
      (recycled : Bool) (k base : ℕ)
      → base < 4294967296
      → k ≤ 8
      → IsScan hw recycled lpns base m k 0
          (page_start recycled g)
          (scan_chunks k hw recycled lpns 0 base m (page_start recycled g))
  started-IsScan recycled k base word few =
      let e : u32 (base + 0) ≡ base = omega (arith, word) in
      subst
        (λ x.
          IsScan hw recycled lpns base m k 0 (page_start recycled g)
            (scan_chunks k hw recycled lpns 0 x m (page_start recycled g)))
        e
        (scan_chunks-IsScan hw recycled lpns base m k 0 (page_start recycled g)
          (omega (arith, room, few)))

  scan_as-IsPage : (recycled : Bool) → IsPage bank m recycled g (scan_as hw bank m g recycled)
  scan_as-IsPage true = scanned-IsPage hw ok bank m true g (scan_as hw bank m g true) (
      started-IsScan true 4 (with_cold_flag addr)
        (with_cold_flag-word addr (log_chunk_addr-word bank g.victim_lbn g.page_offset 0))
        (omega arith))
  scan_as-IsPage false = scanned-IsPage hw ok bank m false g (scan_as hw bank m g false) (
      started-IsScan false 8 addr (log_chunk_addr-word bank g.victim_lbn g.page_offset 0)
        (omega arith))

  -- A round of `readPage` on a page whose marks agree ends, and looks at it as a recycled page if it
  -- has one: exactly the chunks are found valid to whose place in the log the map leads, with their
  -- places in the map, and they are counted. The counter of the block must not wrap.
  pub scan_page-IsPage :
      (r : Bool) → HasKind lpns r → Ends (IsPage bank m r g) (scan_page hw bank m g)
  unfolding scan_page
  scan_page-IsPage _ (plain_page all) =
      rw (find_recycled-plain lpns 4 0 (λ x low high. all x (omega arith)))
        (ends (scan_as-IsPage false))
  scan_page-IsPage _ (marked_page i h marked all) =
      rw
        (find_recycled-marked lpns 4 0 i (λ x low high. all x (omega arith)) (omega arith)
          (omega arith) marked)
        (ends (scan_as-IsPage true))

-- A used chunk without the mark, behind one with it among the first four, stops the firmware.
pub scan_page-stops :
    (hw : Hardware) (bank : ℕ) (m : Dram) (g : GcBank) (i j : ℕ)
    → i < j
    → j < 4
    → is_marked (victim_lpns bank g.page_offset m i) ≡ true
    → is_marked (victim_lpns bank g.page_offset m j) ≡ false
    → victim_lpns bank g.page_offset m j ≢ invalid
    → scan_page hw bank m g ≡ none
unfolding scan_page
scan_page-stops hw bank m g i j less h marked blank used = rw (
    find_recycled-stops_from (victim_lpns bank g.page_offset m) 4 0 i j (omega arith) less
      (omega arith) marked blank used)
