-- ===== src/Host/Read.antt =====
-- What the host reads: `readFromLogBlk` and `ftl_read`.
use native.Mathlib.Decide.{dec_lt}
use fast2016_ftl.Common.{
  ℕ, ◌+◌, ◌-◌, ◌*◌, ◌/◌, ◌%◌, ◌≤◌, ◌<◌, ◌≡◌, refl, sym, subst, ◌∙◌, ap, arith, u32, Ends, ends,
  Ends-bind,
}
use fast2016_ftl.Params.{
  bytes_per_sector, words_per_sector, sectors_per_page, sectors_per_chunk, num_lsectors,
}
use fast2016_ftl.Layout.{ftl_buf, rd_buf_ptr, num_rd_buffers, wr_buf_addr}
use fast2016_ftl.Dram.{InDram, read_dram_32}
use fast2016_ftl.Flash.{Hardware}
use fast2016_ftl.Flash.Reader.{PageWord, IsReader}
use fast2016_ftl.World.{World}
use fast2016_ftl.World.Words.{IsOutside, copy_words-inside, copy_words-outside}
use fast2016_ftl.Read.View.{chunk_buf, chunk_word, entry, IsServed, IsLaidOut, IsPlain}
use fast2016_ftl.Rebuild.Page.{rebuild_page-Holds}
use fast2016_ftl.Read.Served.{chunk_word-lt}
use fast2016_ftl.Host.{ReadSide, read_from_log_blk}

-- Word `i` of the logical sector `s`.
abbrev pub sector_word : PageWord → World → ℕ → ℕ → ℕ
sector_word page_word w s i =
    chunk_word page_word w
      (entry (s / sectors_per_page) w (s % sectors_per_page / sectors_per_chunk))
      (s % sectors_per_chunk * words_per_sector + i)

-- Where sector `s` stands in the buffer for its page.
abbrev pub sector_buf : ℕ → ℕ → ℕ
sector_buf id s = rd_buf_ptr id + s % sectors_per_page * bytes_per_sector

-- The chunk of the logical sector is in the log, and not encoded.
abbrev pub IsPlainSector : World → ℕ → Type 0
IsPlainSector w s =
    IsPlain (entry (s / sectors_per_page) w (s % sectors_per_page / sectors_per_chunk))

module _ (hw : Hardware) (page_word : PageWord) (reader : IsReader hw page_word) where
  -- The buffer `id` holds sector `s` of the world `w0`.
  abbrev pub Delivers : World → ℕ → ℕ → World → Type 0
  Delivers w0 id s w =
      (i : ℕ)
      → i < words_per_sector
      → read_dram_32 (sector_buf id s + 4 * i) w.dram ≡ sector_word page_word w0 s i

  -- A page has been handed to the host.
  pub record IsHanded (h h' : ReadSide) (w w' : World) (s n : ℕ) : Type 0 where
    pub served : IsServed page_word w w'
    pub buf_id : h'.read_buf_id ≡ (h.read_buf_id + 1) % num_rd_buffers
    pub rdset : h'.stack_rdset ≡ h'.read_buf_id
    pub reset : h'.stack_reset ≡ 2
    pub sectors : (x : ℕ) → s ≤ x → x < s + n → Delivers w h.read_buf_id x w'
    pub others :
        (a : ℕ)
        → InDram a
        → a < wr_buf_addr
        → IsOutside (sector_buf h.read_buf_id s) (n * words_per_sector) a
        → read_dram_32 a w'.dram ≡ read_dram_32 a w.dram

  pub read_from_log_blk-IsHanded :
      (h : ReadSide) (w : World) (s n : ℕ)
      → IsLaidOut w
      → h.read_buf_id < num_rd_buffers
      → s < num_lsectors
      → 0 < n
      → s % sectors_per_page + n ≤ sectors_per_page
      → ((x : ℕ) → s ≤ x → x < s + n → IsPlainSector w x)
      → Ends
          (λ (h', w'). IsHanded h h' w w' s n)
          (read_from_log_blk hw (s / sectors_per_page) (s % sectors_per_page) n (h, w))
  unfolding read_from_log_blk
  read_from_log_blk-IsHanded h w s n laid hid hs some_sector fits plain =
      let lpn = s / sectors_per_page in
      let sect = s % sectors_per_page in
      let dst = rd_buf_ptr h.read_buf_id + sect * bytes_per_sector in
      let src = ftl_buf 0 + sect * bytes_per_sector in
      Ends-bind
        (rebuild_page-Holds hw page_word reader w laid lpn sect n (omega arith) fits (λ c low high.
          elim (dec_lt (c * sectors_per_chunk) sect) [
            | yes before ↦
                let e : sect / sectors_per_chunk ≡ c = omega arith in
                subst (λ d. IsPlain (entry lpn w d)) e (plain s (omega arith) (omega arith))
            | no not_before ↦
                let x = s - sect + c * sectors_per_chunk in
                let same_page : x / sectors_per_page ≡ lpn = omega arith in
                let same_chunk : x % sectors_per_page / sectors_per_chunk ≡ c = omega arith in
                subst (λ d. IsPlain (entry lpn w d)) same_chunk
                  (subst (λ p. IsPlain (entry p w (x % sectors_per_page / sectors_per_chunk)))
                    same_page (plain x (omega arith) (omega arith)))
          ]))
        λ w1 (kept, chunks). ends (record {
          served = record {
            ftl = kept.ftl;
            pages = kept.pages;
            memory = λ a out behind.
                copy_words-outside (n * words_per_sector) dst src w1.dram a out.inside (omega arith)
                  (omega arith)
                ∙ kept.memory a out;
          };
          buf_id = refl;
          rdset = refl;
          reset = refl;
          sectors = λ x low high i hi.
              let c = x % sectors_per_page / sectors_per_chunk in
              let k = x % sectors_per_chunk * words_per_sector + i in
              let j = (x - s) * words_per_sector + i in
              let page : x / sectors_per_page ≡ lpn = omega arith in
              let to : sector_buf h.read_buf_id x + 4 * i ≡ dst + 4 * j = omega (arith, page) in
              let from : src + 4 * j ≡ chunk_buf c + 4 * k = omega (arith, page) in
              let small =
                chunk_word-lt page_word w laid hw reader (entry lpn w c) k
                  (subst (λ p. IsPlain (entry p w c)) page (plain x low high)) (omega arith) in
              let content = chunks c (omega (arith, page)) (omega (arith, page)) k (omega arith) in
              rw to (
                copy_words-inside (n * words_per_sector) dst src w1.dram j (omega arith)
                  (omega arith) (omega arith) (omega (arith, page))
                ∙ ap (λ a. u32 (read_dram_32 a w1.dram)) from
                ∙ ap u32 content
                ∙ omega (arith, small)
                ∙ ap (λ p. chunk_word page_word w (entry p w c) k) (sym page));
          others = λ a ok behind out.
              copy_words-outside (n * words_per_sector) dst src w1.dram a ok (omega arith) out
              ∙ kept.memory a (omega (arith, ok, behind));
        })
