-- ===== src/Gc/Page.antt =====
-- A round of `readPage`: the page of the victim as the map of the chunks describes it.
use native.Mathlib.Decide.{dec_le}
use fast2016_ftl.Common.{
  ℕ, zero, suc, ◌+◌, ◌*◌, ◌≤◌, ◌<◌, ◌≡◌, ◌≢◌, ◌↔◌, refl, sym, subst, ◌∙◌, Bool, true, false, arith,
  if◌then◌else◌, u32, invalid,
}
use fast2016_ftl.Params.{chunks_per_page}
use fast2016_ftl.Dram.{Dram, read_dram_32}
use fast2016_ftl.Log.Chunk.{with_cold_flag, without_cold_flag, log_chunk_addr}
use fast2016_ftl.Flash.{Hardware}
use fast2016_ftl.Flash.Laws.{IsHardware}
use fast2016_ftl.World.{GcBank, chunks_map_table}
use fast2016_ftl.Gc.{page_start, victim_lpns}
use fast2016_ftl.Gc.Scan.{IsScan, chunk_at, place, is_hit, hits}

-- Some entry of the map for the data page `lpn` is the address `addr`.
pub record Leads (lpn addr : ℕ) (m : Dram) : Type 0 where
  pub entry : ℕ
  pub small : entry < chunks_per_page
  pub leads : read_dram_32 (chunks_map_table lpn 0 + 4 * entry) m ≡ addr

module _ (hw : Hardware) (ok : IsHardware hw) (recycled : Bool) (lpns : ℕ → ℕ) (base : ℕ)
    (m : Dram) where
  pub hit→ :
      (c : ℕ)
      → is_hit hw recycled lpns base m c ≡ true
      → (lpns c ≢ invalid)
        × (place hw recycled lpns base m c < chunks_per_page)
        × (read_dram_32 (chunks_map_table (lpns c) 0 + 4 * place hw recycled lpns base m c) m
            ≡ chunk_at hw recycled lpns base m c)
  unfolding is_hit
  hit→ c h =
      let small : place hw recycled lpns base m c < chunks_per_page = ground arith in
      (ground arith, small, ok.found _ _ _ m small)

  pub hit← :
      (c : ℕ)
      → lpns c ≢ invalid
      → Leads (lpns c) (chunk_at hw recycled lpns base m c) m
      → is_hit hw recycled lpns base m c ≡ true
  unfolding is_hit
  hit← c ne l = elim (dec_le chunks_per_page (place hw recycled lpns base m c)) [
    | yes le ↦ absurd (ok.not_found _ _ _ m le l.entry l.small l.leads)
    | no gt ↦ ground arith
  ]

-- The number of true values of `f` among `k` from `c` on.
abbrev pub count_true : ℕ → ℕ → (ℕ → Bool) → ℕ
count_true zero c f = 0
count_true (suc k) c f = if f c then suc (count_true k (suc c) f) else count_true k (suc c) f

count_true-hits :
    (hw : Hardware) (recycled : Bool) (lpns : ℕ → ℕ) (base : ℕ) (m : Dram) (k c : ℕ) (f : ℕ → Bool)
    → ((x : ℕ) → c ≤ x → x < c + k → f x ≡ is_hit hw recycled lpns base m x)
    → count_true k c f ≡ hits hw recycled lpns base m k c
unfolding hits
count_true-hits hw recycled lpns base m zero c f same = refl
count_true-hits hw recycled lpns base m (suc k) c f same = rw (
  same c (omega arith) (omega arith),
  count_true-hits hw recycled lpns base m k (suc c) f
      (λ x low high. same x (omega arith) (omega arith)),
)

-- A page of a recycled block has four chunks, and their addresses bear the flag of the cold log.
abbrev pub page_chunks : Bool → ℕ
page_chunks recycled = if recycled then 4 else 8

abbrev pub page_base : Bool → ℕ → ℕ → ℕ → ℕ
page_base recycled bank lbn page =
    if recycled
    then with_cold_flag (log_chunk_addr bank lbn page 0)
    else log_chunk_addr bank lbn page 0

-- What a round of `readPage` finds out about the page: which of its chunks are valid, the data page
-- of each of them and its place there, and how many they are.
pub record IsPage (bank : ℕ) (m : Dram) (recycled : Bool) (g g' : GcBank) : Type 0 where
  pub valid :
      (c : ℕ)
      → c < 8
      → ((g'.valid_chunks c ≡ true) ↔ (
          (c < page_chunks recycled)
          × (victim_lpns bank g.page_offset m c ≢ invalid)
          × Leads
              (victim_lpns bank g.page_offset m c)
              (u32 (page_base recycled bank g.victim_lbn g.page_offset + c))
              m))
  pub origin :
      (c : ℕ)
      → c < 8
      → g'.valid_chunks c ≡ true
      → (g'.data_chunk_offsets c < chunks_per_page)
        × (read_dram_32
              (chunks_map_table (victim_lpns bank g.page_offset m c) 0
                + 4 * g'.data_chunk_offsets c)
              m
            ≡ u32 (page_base recycled bank g.victim_lbn g.page_offset + c))
        × (g'.data_lpns c ≡ (
            if recycled
            then without_cold_flag (victim_lpns bank g.page_offset m c)
            else victim_lpns bank g.page_offset m c))
  pub in_page : g'.n_valid_chunks_in_page ≡ count_true 8 0 g'.valid_chunks
  pub in_blk : g'.n_valid_chunks_in_blk ≡ g.n_valid_chunks_in_blk + g'.n_valid_chunks_in_page
  pub on_recycled : g'.gc_on_recycled_page ≡ recycled
  pub victim_lbn : g'.victim_lbn ≡ g.victim_lbn
  pub victim_vbn : g'.victim_vbn ≡ g.victim_vbn
  pub page_offset : g'.page_offset ≡ g.page_offset

-- The count over the whole page, of a value that is false behind the chunks of the page.
count_page :
    (hw : Hardware) (recycled : Bool) (lpns : ℕ → ℕ) (base : ℕ) (m : Dram) (f : ℕ → Bool)
    → ((c : ℕ) → c < page_chunks recycled → f c ≡ is_hit hw recycled lpns base m c)
    → ((c : ℕ) → page_chunks recycled ≤ c → f c ≡ false)
    → count_true 8 0 f ≡ hits hw recycled lpns base m (page_chunks recycled) 0
count_page hw true lpns base m f same rest =
    let four = count_true-hits hw true lpns base m 4 0 f (λ x low high. same x (omega arith)) in
    ground (
      arith,
      four,
      rest 4 (omega arith),
      rest 5 (omega arith),
      rest 6 (omega arith),
      rest 7 (omega arith),
    )
count_page hw false lpns base m f same rest =
    count_true-hits hw false lpns base m 8 0 f (λ x low high. same x (omega arith))

module _ (hw : Hardware) (ok : IsHardware hw) (bank : ℕ) (m : Dram) (recycled : Bool)
    (g g' : GcBank) where
  abbrev lpns : ℕ → ℕ
  lpns = victim_lpns bank g.page_offset m

  abbrev base : ℕ
  base = page_base recycled bank g.victim_lbn g.page_offset

  abbrev n : ℕ
  n = page_chunks recycled

  abbrev hit : ℕ → Bool
  hit = is_hit hw recycled lpns base m

  module _ (r : IsScan hw recycled lpns base m n 0 (page_start recycled g) g') where
    valid-hit : (c : ℕ) → c < n → g'.valid_chunks c ≡ hit c
    valid-hit c h = ground (arith, r.valid c)

    valid-n : (c : ℕ) → g'.valid_chunks c ≡ true → c < n
    valid-n c h = ground (arith, r.behind c)

    pub scanned-IsPage : IsPage bank m recycled g g'
    scanned-IsPage = record {
      valid = λ c h. (
        λ v.
            let small = valid-n c v in
            let (ne, inside, leads) =
              hit→ hw ok recycled lpns base m c (sym (valid-hit c small) ∙ v) in
            (
              small,
              ne,
              record { entry = place hw recycled lpns base m c; small = inside; leads = leads },
            ),
        λ (small, ne, l). valid-hit c small ∙ hit← hw ok recycled lpns base m c ne l,
      );
      origin = λ c h v.
          let small = valid-n c v in
          let is = sym (valid-hit c small) ∙ v in
          let (ne, inside, leads) = hit→ hw ok recycled lpns base m c is in
          rw (r.offset c (omega arith) (omega (arith, small)) is)
            (inside, leads, r.lpn c (omega arith) (omega (arith, small)) is);
      in_page = omega (
        arith,
        r.in_page,
        count_page hw recycled lpns base m g'.valid_chunks valid-hit
            (λ c h. r.behind c (omega arith)),
      );
      in_blk = omega (arith, r.in_blk, r.in_page);
      on_recycled = r.on_recycled;
      victim_lbn = r.victim_lbn;
      victim_vbn = r.victim_vbn;
      page_offset = r.page_offset;
    }

count_true-zero :
    (k c : ℕ) (f : ℕ → Bool) → count_true k c f ≡ 0 → (x : ℕ) → c ≤ x → x < c + k → f x ≡ false
count_true-zero zero c f e x low high = absurd (omega arith)
count_true-zero (suc k) c f e x low high = elim (dec_le x c) [
  | yes le ↦
      let here : c ≡ x = omega arith in
      let first : f c ≡ false = ground arith in subst (λ y. f y ≡ false) here first
  | no gt ↦
      let rest : count_true k (suc c) f ≡ 0 = ground arith in
      count_true-zero k (suc c) f rest x (omega arith) (omega arith)
]

-- The map leads to no chunk of the page.
abbrev pub IsBlank : ℕ → Dram → Bool → ℕ → ℕ → Type 0
IsBlank bank m recycled lbn page =
    (c : ℕ)
    → c < page_chunks recycled
    → victim_lpns bank page m c ≢ invalid
    → ¬ Leads (victim_lpns bank page m c) (u32 (page_base recycled bank lbn page + c)) m

page_chunks-le : (recycled : Bool) → page_chunks recycled ≤ 8
page_chunks-le true = omega arith
page_chunks-le false = omega arith

pub IsPage-IsBlank :
    (bank : ℕ) (m : Dram) (recycled : Bool) (g g' : GcBank)
    → IsPage bank m recycled g g'
    → g'.n_valid_chunks_in_page ≡ 0
    → IsBlank bank m recycled g.victim_lbn g.page_offset
IsPage-IsBlank bank m recycled g g' p e c small ne l =
    let small8 : c < 8 = omega (arith, page_chunks-le recycled) in
    let off =
      count_true-zero 8 0 g'.valid_chunks (sym p.in_page ∙ e) c (omega arith) (omega arith) in
    let on = (p.valid c small8).1 (small, ne, l) in absurd (ground (arith, off, on))
