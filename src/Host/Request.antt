-- ===== src/Host/Request.antt =====
-- A whole request of the host: the loop of `ftl_read` over the pages.
use native.Mathlib.Decide.{dec_lt}
use fast2016_ftl.Common.{
  ℕ, zero, suc, ◌+◌, ◌-◌, ◌*◌, ◌/◌, ◌%◌, ◌≤◌, ◌<◌, ◌≡◌, ◌⊎◌, inl, inr, refl, sym, subst, ◌∙◌, ap,
  arith, Bool-cases, ◌==◌, true, false, if◌then◌else◌, u32, sub32, ltb, lt→ltb, le→ltb-false, Ends,
  ends, Ends-weaken, Ends-bind,
}
use fast2016_ftl.Params.{
  bytes_per_page, words_per_sector, sectors_per_page, sectors_per_chunk, num_lsectors,
}
use fast2016_ftl.Layout.{rd_buf_ptr, num_rd_buffers}
use fast2016_ftl.Dram.{InDram, read_dram_32}
use fast2016_ftl.Flash.{Hardware}
use fast2016_ftl.Flash.Reader.{PageWord, IsReader}
use fast2016_ftl.World.{World}
use fast2016_ftl.Read.View.{chunk_word, entry, entry-served, IsServed, IsLaidOut, IsPlain}
use fast2016_ftl.Read.Served.{chunk_word-served, IsLaidOut-served}
use fast2016_ftl.Host.{ReadSide, read_pages, ftl_read, masked_lba}
use fast2016_ftl.Host.Read.{
  sector_word, sector_buf, IsPlainSector, Delivers, IsHanded, read_from_log_blk-IsHanded,
}

module _ (page_word : PageWord) (w w1 : World) (laid : IsLaidOut w)
    (served : IsServed page_word w w1) where
  entry-sector :
      (s : ℕ)
      → s < num_lsectors
      → entry (s / sectors_per_page) w1 (s % sectors_per_page / sectors_per_chunk)
        ≡ entry (s / sectors_per_page) w (s % sectors_per_page / sectors_per_chunk)
  entry-sector s h = entry-served page_word w w1 served _ _ (omega arith) (omega arith)

  IsPlainSector-served : (s : ℕ) → s < num_lsectors → IsPlainSector w s → IsPlainSector w1 s
  IsPlainSector-served s h plain = subst IsPlain (sym (entry-sector s h)) plain

  sector_word-served :
      (s i : ℕ)
      → s < num_lsectors
      → IsPlainSector w s
      → i < words_per_sector
      → sector_word page_word w1 s i ≡ sector_word page_word w s i
  sector_word-served s i h plain hi =
      let k = s % sectors_per_chunk * words_per_sector + i in
      ap (λ a. chunk_word page_word w1 a k) (entry-sector s h)
      ∙ chunk_word-served page_word w laid w1 served _ k plain (omega arith)

-- The pages that `n` sectors from `s` on lie in.
abbrev pub pages_of : ℕ → ℕ → ℕ
pages_of s n = (s % sectors_per_page + n + sectors_per_page - 1) / sectors_per_page

-- The buffer for sector `x` of a request that starts at sector `s`, in the buffer `id`.
abbrev pub buf_for : ℕ → ℕ → ℕ → ℕ
buf_for id s x = (id + (x / sectors_per_page - s / sectors_per_page)) % num_rd_buffers

-- The sectors of a request that the first round reads.
abbrev in_page : ℕ → ℕ → ℕ
in_page s n =
    if ltb (u32 (s % sectors_per_page + n)) sectors_per_page
    then n
    else sectors_per_page - s % sectors_per_page

in_page_bounds :
    (s n : ℕ)
    → 0 < n
    → n ≤ num_lsectors
    → (0 < in_page s n)
      × (s % sectors_per_page + in_page s n ≤ sectors_per_page)
      × (in_page s n ≤ n)
      × ((n - in_page s n ≡ 0) ⊎ (s % sectors_per_page + in_page s n ≡ sectors_per_page))
in_page_bounds s n h small = elim (dec_lt (s % sectors_per_page + n) sectors_per_page) [
  | yes less ↦
      let t : ltb (u32 (s % sectors_per_page + n)) sectors_per_page ≡ true =
        lt→ltb _ _ (omega arith) in
      rw t (omega arith, omega arith, omega arith, inl (omega arith))
  | no more ↦
      let t : ltb (u32 (s % sectors_per_page + n)) sectors_per_page ≡ false =
        le→ltb-false _ _ (omega arith) in
      rw t (omega arith, omega arith, omega arith, inr (omega arith))
]

module _ (hw : Hardware) (page_word : PageWord) (reader : IsReader hw page_word) where
  -- `n` sectors from `s` on have been handed to the host, page by page.
  pub record IsRead (h h' : ReadSide) (w w' : World) (s n : ℕ) : Type 0 where
    pub served : IsServed page_word w w'
    pub buf_id : h'.read_buf_id ≡ (h.read_buf_id + pages_of s n) % num_rd_buffers
    pub rdset : h'.stack_rdset ≡ h'.read_buf_id
    pub reset : h'.stack_reset ≡ (if n == 0 then h.stack_reset else 2)
    pub sectors :
        (x : ℕ)
        → s ≤ x
        → x < s + n
        → Delivers hw page_word reader w (buf_for h.read_buf_id s x) x w'
    pub others :
        (d a : ℕ)
        → pages_of s n ≤ d
        → d < num_rd_buffers
        → InDram a
        → rd_buf_ptr ((h.read_buf_id + d) % num_rd_buffers) ≤ a
        → a < rd_buf_ptr ((h.read_buf_id + d) % num_rd_buffers) + bytes_per_page
        → read_dram_32 a w'.dram ≡ read_dram_32 a w.dram

  -- One page and then the others.
  IsRead-page :
      (h h1 h' : ReadSide) (w w1 w' : World) (s n rest : ℕ)
      → IsLaidOut w
      → h.read_buf_id < num_rd_buffers
      → s + n + rest ≤ num_lsectors
      → 0 < n
      → s % sectors_per_page + n ≤ sectors_per_page
      → (rest ≡ 0) ⊎ (s % sectors_per_page + n ≡ sectors_per_page)
      → pages_of s (n + rest) ≤ num_rd_buffers
      → ((x : ℕ) → s ≤ x → x < s + n + rest → IsPlainSector w x)
      → IsHanded hw page_word reader h h1 w w1 s n
      → IsRead h1 h' w1 w' (s / sectors_per_page * sectors_per_page + sectors_per_page) rest
      → IsRead h h' w w' s (n + rest)
  IsRead-page h h1 h' w w1 w' s n rest laid hid fits some_sector in_page last few plain page pages =
      let next = s / sectors_per_page * sectors_per_page + sectors_per_page in
      let count : pages_of s (n + rest) ≡ pages_of next rest + 1 = omega (arith, last) in
      record {
        served = record {
          ftl = pages.served.ftl ∙ page.served.ftl;
          pages = λ b r i. pages.served.pages b r i ∙ page.served.pages b r i;
          memory =
              λ a out behind. pages.served.memory a out behind ∙ page.served.memory a out behind;
        };
        buf_id = omega (arith, pages.buf_id, page.buf_id, count);
        rdset = pages.rdset;
        reset = ground (arith, pages.reset, page.reset, some_sector);
        sectors = λ x low high. elim (dec_lt x (s + n)) [
          | yes now ↦ λ i hi.
              let id : buf_for h.read_buf_id s x ≡ h.read_buf_id = omega arith in
              let same : (h1.read_buf_id + 415) % num_rd_buffers ≡ h.read_buf_id =
                omega (arith, page.buf_id) in
              rw id (
                pages.others 415 (sector_buf h.read_buf_id x + 4 * i) (omega (arith, count, few))
                  (omega arith) (omega arith) (omega (arith, same)) (omega (arith, same))
                ∙ page.sectors x low now i hi)
          | no later ↦ λ i hi.
              let behind : next ≤ x = omega (arith, last) in
              let id : buf_for h.read_buf_id s x ≡ buf_for h1.read_buf_id next x =
                omega (arith, page.buf_id) in
              rw id (
                pages.sectors x behind (omega (arith, last)) i hi
                ∙ sector_word-served page_word w w1 laid page.served x i (omega arith)
                    (plain x low (omega arith)) hi)
        ];
        others = λ d a low high ok from to.
            let shift : (h1.read_buf_id + (d - 1)) % num_rd_buffers
                ≡ (h.read_buf_id + d) % num_rd_buffers =
              omega (arith, page.buf_id, count) in
            pages.others (d - 1) a (omega (arith, count)) (omega arith) ok (omega (arith, shift))
              (omega (arith, shift))
            ∙ page.others a ok (omega arith) (omega (arith, count));
      }

  IsRead-nothing :
      (h : ReadSide) (w : World) (s n : ℕ)
      → h.read_buf_id < num_rd_buffers
      → h.stack_rdset ≡ h.read_buf_id
      → (s % sectors_per_page ≡ 0) ⊎ (0 < n)
      → (n == 0) ≡ true
      → IsRead h h w w s n
  IsRead-nothing h w s n hid agree start nothing =
      let z : n ≡ 0 = ground arith in
      record {
        served = record { ftl = refl; pages = λ b r i. refl; memory = λ a out behind. refl };
        buf_id = omega (arith, start);
        rdset = agree;
        reset = rw nothing refl;
        sectors = λ x low high. absurd (omega arith);
        others = λ d a low high ok from to. refl;
      }

  -- The arguments of the next round.
  next-round :
      (k : ℕ) (h : ReadSide) (w : World) (s n : ℕ) (state : ReadSide × World)
      {lpn lpn' sect sect' rest rest' : ℕ}
      → lpn ≡ lpn'
      → sect ≡ sect'
      → rest ≡ rest'
      → Ends (λ (h', w'). IsRead h h' w w' s n) (read_pages k hw lpn sect rest state)
      → Ends (λ (h', w'). IsRead h h' w w' s n) (read_pages k hw lpn' sect' rest' state)
  next-round k h w s n state {lpn} {lpn'} {sect} {sect'} {rest} {rest'} a b c e =
      let P = λ (r : ReadSide × World). IsRead h r.0 w r.1 s n in
      subst (λ x. Ends P (read_pages k hw lpn' x rest' state)) b
        (subst (λ x. Ends P (read_pages k hw lpn' sect x state)) c
          (subst (λ x. Ends P (read_pages k hw x sect rest state)) a e))

  read_pages-IsRead :
      (k : ℕ) (h : ReadSide) (w : World) (s n : ℕ)
      → n < k
      → IsLaidOut w
      → h.read_buf_id < num_rd_buffers
      → h.stack_rdset ≡ h.read_buf_id
      → s + n ≤ num_lsectors
      → (s % sectors_per_page ≡ 0) ⊎ (0 < n)
      → pages_of s n ≤ num_rd_buffers
      → ((x : ℕ) → s ≤ x → x < s + n → IsPlainSector w x)
      → Ends
          (λ (h', w'). IsRead h h' w w' s n)
          (read_pages k hw (s / sectors_per_page) (s % sectors_per_page) n (h, w))
  unfolding read_pages
  read_pages-IsRead zero h w s n fuel laid hid agree fits start few plain = absurd (omega arith)
  read_pages-IsRead (suc k) h w s n fuel laid hid agree fits start few plain =
      elim (Bool-cases (n == 0)) [
        | inl none_left ↦ rw none_left (ends (IsRead-nothing h w s n hid agree start none_left))
        | inr more ↦
            let m = in_page s n in
            let next = s / sectors_per_page * sectors_per_page + sectors_per_page in
            let some_sector : 0 < n = ground arith in
            let (pos, within, part, ends_page) = in_page_bounds s n some_sector (omega arith) in
            rw more (
              Ends-bind
                (read_from_log_blk-IsHanded hw page_word reader h w s m laid hid (omega arith) pos
                  within (λ x low high. plain x low (omega arith)))
                λ (h1, w1) page.
                  let served = page.served in
                  let all : m + (n - m) ≡ n = omega (arith, part) in
                  let whole =
                    Ends-weaken
                      (read_pages-IsRead k h1 w1 next (n - m) (omega (arith, part))
                        (IsLaidOut-served page_word w laid w1 served) (omega (arith, page.buf_id))
                        page.rdset (omega (arith, ends_page)) (inl (omega arith))
                        (omega (arith, ends_page, few))
                        (λ x low high.
                          IsPlainSector-served page_word w w1 laid served x
                            (omega (arith, ends_page))
                            (plain x (omega (arith, ends_page)) (omega (arith, ends_page)))))
                      λ (h', w') pages.
                        subst (λ t. IsRead h h' w w' s t) all
                          (IsRead-page h h1 h' w w1 w' s m (n - m) laid hid (omega (arith, part))
                            pos within ends_page (omega (arith, all, few))
                            (λ x low high. plain x low (omega (arith, part))) page pages) in
                  let lpn : next / sectors_per_page ≡ u32 (s / sectors_per_page + 1) =
                    omega arith in
                  let sect : next % sectors_per_page ≡ 0 = omega arith in
                  let left : n - m ≡ sub32 n m = omega (arith, part) in
                  next-round k h w s n (h1, w1) lpn sect left whole)
      ]

  -- `ftl_read` ends. Sector `x` of the request stands in the read buffer for its page, the first page
  -- in the buffer that was next, as the map and the log give it; the buffers are used in turn, the
  -- registers of the buffer manager follow, and the layout and the buffers of no page stay.
  pub ftl_read-IsRead :
      (h : ReadSide) (w : World) (lba n : ℕ)
      → IsLaidOut w
      → h.read_buf_id < num_rd_buffers
      → h.stack_rdset ≡ h.read_buf_id
      → 0 < n
      → lba + n ≤ num_lsectors
      → pages_of lba n ≤ num_rd_buffers
      → ((x : ℕ) → lba ≤ x → x < lba + n → IsPlainSector w x)
      → Ends (λ (h', w'). IsRead h h' w w' lba n) (ftl_read hw lba n (h, w))
  unfolding ftl_read
  ftl_read-IsRead h w lba n laid hid agree some_sector fits few plain =
      let m : masked_lba lba ≡ lba = omega arith in
      rw m (
        read_pages-IsRead (suc n) h w lba n (omega arith) laid hid agree fits (inr some_sector) few
          plain)
