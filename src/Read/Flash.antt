-- ===== src/Read/Flash.antt =====
-- The chunks of a request that lie in flash: `chunkInFlashLog` in `ReadMode`.
use fast2016_ftl.Common.{
  ℕ, zero, suc, ◌+◌, ◌-◌, ◌*◌, ◌/◌, ◌≤◌, ◌<◌, ◌≡◌, ◌⊎◌, refl, sym, subst, ◌∙◌, ap, arith, Bool,
  true, ltb, Ends, ends, Ends-weaken, Ends-if, Ends-bind,
}
use fast2016_ftl.Params.{
  num_banks, pages_per_blk, data_blk_per_bank, chunks_per_page, bytes_per_page, bytes_per_sector,
  words_per_chunk, words_per_sector, sectors_per_page, sectors_per_chunk,
}
use fast2016_ftl.Layout.{temp_buf_addr}
use fast2016_ftl.Dram.{read_dram_32}
use fast2016_ftl.Log.Chunk.{
  flash_w_log, find_chunk_location, chunk_to_bank, chunk_to_sect_offset, chunk_to_sect_offset-lt,
}
use fast2016_ftl.Flash.{Hardware}
use fast2016_ftl.Flash.Reader.{PageWord, IsReader}
use fast2016_ftl.World.{World}
use fast2016_ftl.World.Words.{IsRange, copy_words-outside}
use fast2016_ftl.Read.{
  Request, read_mode, Sources, mark_done, copy_chunk, copy_sources, read_part, aligned_dst,
  read_complete_page, read_one_chunk, read_flash_page, chunk_in_flash_log, account, src_offset_of,
  one_source,
}
use fast2016_ftl.Read.View.{
  Changes, chunk_buf, chunk_word, chunk_row, entry, Holds, IsRebuilt, IsRebuilt-chunk,
  IsRebuilt-temp, entry-served, IsServed-kept, chunk_row-served,
}
use fast2016_ftl.Read.Copy.{
  copy_chunk-Changes, copy_chunk-Holds, read_part-Changes, read_part-placed,
}
use fast2016_ftl.Read.Gather.{
  IsSource, AreSources, AreSources-one, setup_flash_page_read-AreSources,
}

module _ (hw : Hardware) (page_word : PageWord) (reader : IsReader hw page_word) where
  module _ (lpn last : ℕ) (small : last ≤ chunks_per_page) (w0 : World) (idx : ℕ) where
    abbrev e : ℕ → ℕ
    e = entry lpn w0

    abbrev bank : ℕ
    bank = chunk_to_bank (e idx)

    -- The page of the chunk, as it was at the start.
    abbrev word : ℕ → ℕ
    word i = page_word w0.issued bank (chunk_row (e idx) w0.dram) i

    abbrev Rebuilt : (ℕ → Bool) → World → Type 0
    Rebuilt done w = IsRebuilt page_word lpn last w0 done w

    -- What a source holds.
    source-word :
        (c offset : ℕ)
        → IsSource e last idx c offset
        → (i : ℕ)
        → chunk_word page_word w0 (e c) i ≡ word (chunk_to_sect_offset (e c) * words_per_sector + i)
    source-word c offset s i =
        rw s.located (rw s.together.bank (rw s.together.lbn (rw s.together.page_offset)))

    module _ (hb : bank < num_banks) where
      -- The chunk is a source of its own.
      own :
          (s : Sources) → AreSources e last idx s → IsSource e last idx idx (src_offset_of (e idx))
      own s are =
          subst (λ c. IsSource e last idx c (src_offset_of (e c))) are.at_zero
            (let src = are.each 0 are.some_chunk in
              record {
                in_page = src.in_page;
                located = src.located;
                together = src.together;
                placed = refl;
              })

      -- The complete page stands in the other buffer.
      abbrev HasPage : World → Type 0
      HasPage w =
          (i : ℕ) → i < bytes_per_page / 4 → read_dram_32 (temp_buf_addr + 4 * i) w.dram ≡ word i

      page-read :
          (done : ℕ → Bool) (w : World)
          → Rebuilt done w
          → (let w' = read_part hw (e idx) 0 sectors_per_page temp_buf_addr w in
              Rebuilt done w' × HasPage w')
      page-read done w is = (
        IsRebuilt-temp page_word lpn last w0 small done w _ is (
            read_part-Changes hw page_word reader (e idx) 0 sectors_per_page temp_buf_addr w
              (omega arith) (omega arith)),
        λ i h.
            read_part-placed hw page_word reader (e idx) 0 sectors_per_page temp_buf_addr w
              (omega arith) (omega arith) i h
            ∙ ap (page_word w.issued bank (chunk_row (e idx) w.dram)) (omega arith)
            ∙ is.kept.pages bank (chunk_row (e idx) w.dram) i
            ∙ ap (λ r. page_word w0.issued bank r i)
                (chunk_row-served page_word w0 w (IsServed-kept page_word w0 w is.kept) (e idx) hb),
      )

      -- One source is copied from the page.
      source-copied :
          (done done' : ℕ → Bool) (w : World) (c offset : ℕ)
          → Rebuilt done w
          → HasPage w
          → IsSource e last idx c offset
          → ((x : ℕ) → done' x ≡ true → (x ≡ c) ⊎ (done x ≡ true))
          → (let w' = copy_chunk (chunk_buf c) (temp_buf_addr + offset) w in
              Rebuilt done' w' × HasPage w')
      source-copied done done' w c offset is page s marks =
          let src = temp_buf_addr + offset in
          let in_page = chunk_to_sect_offset-lt (e c) in
          let first = chunk_to_sect_offset (e c) * words_per_sector in
          let content : (i : ℕ)
              → i < words_per_chunk
              → read_dram_32 (src + 4 * i) w.dram ≡ word (first + i) =
            λ i h.
              let at : src + 4 * i ≡ temp_buf_addr + 4 * (first + i) = omega (arith, s.placed) in
              ap (λ x. read_dram_32 x w.dram) at ∙ page (first + i) (omega (arith, in_page)) in
          let holds =
            copy_chunk-Holds page_word lpn w0 c src w (omega (arith, s.in_page))
              (omega (arith, s.placed, in_page)) (omega (arith, s.placed, in_page, s.in_page))
              (λ i h. (
                content i h ∙ sym (source-word c offset s i),
                omega (
                  arith,
                  content i h,
                  reader.word w0.issued bank (chunk_row (e idx) w0.dram) (first + i),
                ),
              )) in
          (
            IsRebuilt-chunk page_word lpn last w0 small done w _ is done' c
                (omega (arith, s.in_page))
                (copy_chunk-Changes page_word c src w (omega (arith, s.in_page))) holds marks,
            λ i h.
                copy_words-outside words_per_chunk (chunk_buf c) src w.dram (temp_buf_addr + 4 * i)
                  (omega arith) (omega (arith, s.in_page)) (omega (arith, s.in_page))
                ∙ page i h,
          )

      copy_sources-Rebuilt :
          (k : ℕ) (s : Sources) (j : ℕ) (done : ℕ → Bool) (w : World)
          → j + k ≤ s.chunks_in_page
          → AreSources e last idx s
          → Rebuilt done w
          → HasPage w
          → Ends
              (λ (done', w'). Rebuilt done' w' × ((x : ℕ) → done x ≡ true → done' x ≡ true))
              (copy_sources k read_mode (e idx) s j (done, w))
      unfolding copy_sources account
      copy_sources-Rebuilt zero s j done w fits are is page = ends (is, λ x h. h)
      copy_sources-Rebuilt (suc k) s j done w fits are is page =
          let c = s.chunk_idxs j in
          let marks : (x : ℕ) → mark_done done c x ≡ true → (x ≡ c) ⊎ (done x ≡ true) =
            λ x h. ground arith in
          let (is1, page1) =
            source-copied done (mark_done done c) w c (s.src_offsets j) is page
              (are.each j (omega arith)) marks in
          Ends-weaken
            (copy_sources-Rebuilt k s (suc j) (mark_done done c) _ (omega arith) are is1 page1)
            λ (done', w') (is', more). (is', λ x h. more x (ground arith))

      -- The first source is the chunk itself, which is marked before it is copied.
      all-copied :
          (k : ℕ) (s : Sources) (done : ℕ → Bool) (w : World)
          → 1 ≤ k
          → k ≤ s.chunks_in_page
          → AreSources e last idx s
          → Rebuilt done w
          → HasPage w
          → Ends
              (λ (done', w').
                Rebuilt done' w' × ((x : ℕ) → mark_done done idx x ≡ true → done' x ≡ true))
              (copy_sources k read_mode (e idx) s 0 (mark_done done idx, w))
      unfolding copy_sources account
      all-copied zero s done w some_chunk fits are is page = absurd (omega arith)
      all-copied (suc k) s done w some_chunk fits are is page =
          let marked = mark_done (mark_done done idx) (s.chunk_idxs 0) in
          let marks : (x : ℕ) → marked x ≡ true → (x ≡ s.chunk_idxs 0) ⊎ (done x ≡ true) =
            λ x h. ground (arith, are.at_zero) in
          let (is1, page1) =
            source-copied done marked w (s.chunk_idxs 0) (s.src_offsets 0) is page
              (are.each 0 (omega arith)) marks in
          Ends-weaken (copy_sources-Rebuilt k s 1 marked _ (omega arith) are is1 page1)
            λ (done', w') (is', more). (is', λ x h. more x (ground arith))

      -- The page is read and all its sources are copied.
      complete-Rebuilt :
          (s : Sources) (done : ℕ → Bool) (w : World)
          → AreSources e last idx s
          → Rebuilt done w
          → Ends
              (λ (done', w').
                Rebuilt done' w' × ((x : ℕ) → mark_done done idx x ≡ true → done' x ≡ true))
              (read_complete_page hw read_mode (e idx) s (mark_done done idx, w))
      unfolding read_complete_page
      complete-Rebuilt s done w are is =
          let (is1, page1) = page-read done w is in
          all-copied s.chunks_in_page s done _ are.some_chunk (omega arith) are is1 page1

      -- The chunk alone is read to its place.
      one-Rebuilt :
          (s : Sources) (done : ℕ → Bool) (w : World)
          → AreSources e last idx s
          → Rebuilt done w
          → Ends (Rebuilt (mark_done done idx)) (read_one_chunk hw read_mode (e idx) s w)
      unfolding read_one_chunk account
      one-Rebuilt s done w are is =
          let src = are.each 0 are.some_chunk in
          let sect = chunk_to_sect_offset (e idx) in
          let in_page = chunk_to_sect_offset-lt (e idx) in
          let offset : s.src_offsets 0 ≡ sect * bytes_per_sector =
            src.placed ∙ ap (λ c. src_offset_of (e c)) are.at_zero in
          let inside : idx < last = subst (λ c. c < last) are.at_zero src.in_page in
          let n : s.src_offsets 0 / bytes_per_sector ≡ sect = omega (arith, offset) in
          let dst : aligned_dst s + sect * bytes_per_sector ≡ chunk_buf idx =
            omega (arith, offset, are.at_zero, in_page) in
          let buf = aligned_dst s in
          let w' = read_part hw (e idx) sect sectors_per_chunk buf w in
          let range : IsRange (buf + sect * bytes_per_sector) 1024 = omega (arith, dst, inside) in
          let changes : Changes page_word (chunk_buf idx) words_per_chunk w w' =
            subst (λ a. Changes page_word a words_per_chunk w w') dst
              (read_part-Changes hw page_word reader (e idx) sect sectors_per_chunk buf w
                (omega arith) range) in
          let row =
            chunk_row-served page_word w0 w (IsServed-kept page_word w0 w is.kept) (e idx) hb in
          let holds : Holds page_word lpn w0 idx w' = λ i h.
            ap (λ a. read_dram_32 (a + 4 * i) w'.dram) (sym dst)
            ∙ read_part-placed hw page_word reader (e idx) sect sectors_per_chunk buf w
                (omega arith) range i h
            ∙ is.kept.pages bank (chunk_row (e idx) w.dram) (sect * words_per_sector + i)
            ∙ ap (λ r. page_word w0.issued bank r (sect * words_per_sector + i)) row
            ∙ sym (source-word idx (src_offset_of (e idx)) (own s are) i) in
          rw n (
            ends (
              IsRebuilt-chunk page_word lpn last w0 small done w w' is (mark_done done idx) idx
                (omega (arith, inside)) changes holds (λ x h. ground arith)))

      -- `chunkInFlashLog`.
      pub chunk_in_flash_log-Rebuilt :
          (q : Request) (done : ℕ → Bool) (w : World)
          → q.mode ≡ read_mode
          → q.lpn ≡ lpn
          → q.last_chunk ≡ last
          → lpn < num_banks * data_blk_per_bank * pages_per_blk
          → idx < last
          → find_chunk_location (e idx) ≡ flash_w_log
          → Rebuilt done w
          → Ends
              (λ (done', w').
                Rebuilt done' w' × ((x : ℕ) → mark_done done idx x ≡ true → done' x ≡ true))
              (chunk_in_flash_log hw q idx (e idx) (mark_done done idx, w))
      unfolding chunk_in_flash_log read_flash_page
      chunk_in_flash_log-Rebuilt q done w mode page lst hl inside located is =
          let are =
            setup_flash_page_read-AreSources e last idx (last - suc idx) lpn (mark_done done idx)
              w.dram (suc idx) (one_source (e idx) idx)
              (λ c h.
                entry-served page_word w0 w (IsServed-kept page_word w0 w is.kept) lpn c hl
                  (omega arith))
              (omega arith) (AreSources-one e last idx inside located) in
          rw mode (
            rw page (
              rw lst (
                Ends-if (ltb 2 _) (λ h. complete-Rebuilt _ done w are is)
                  (λ h. Ends-bind (one-Rebuilt _ done w are is) (λ w' is'. ends (is', λ x m. m))))))
