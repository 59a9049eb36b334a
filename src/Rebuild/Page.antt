-- ===== src/Rebuild/Page.antt =====
-- `rebuildPageToFtlBuf` in `ReadMode`: all the chunks of a request.
use fast2016_ftl.Common.{
  ℕ, zero, suc, ◌+◌, ◌-◌, ◌*◌, ◌/◌, ◌≤◌, ◌<◌, ◌≡◌, ◌⊎◌, inl, inr, refl, sym, ◌∙◌, ap, arith, Bool,
  true, false, Bool-cases, Ends, ends, Ends-weaken, Ends-bind, invalid,
}
use fast2016_ftl.Params.{
  num_banks, pages_per_blk, data_blk_per_bank, chunks_per_page, bytes_per_page, words_per_chunk,
  sectors_per_page, sectors_per_chunk,
}
use fast2016_ftl.Layout.{temp_buf_addr, hot_log_buf, cold_log_buf}
use fast2016_ftl.Dram.{read_dram_32}
use fast2016_ftl.Log.Chunk.{
  ChunkLocation, invalid_chunk, flash_w_log, flash_w_log_encoded, dram_hot_log, dram_cold_log,
  find_chunk_location, chunk_to_bank, chunk_to_sect_offset-lt, without_cold_flag,
}
use fast2016_ftl.Ftl.{FtlState}
use fast2016_ftl.Flash.{Hardware}
use fast2016_ftl.Flash.Reader.{PageWord, IsReader}
use fast2016_ftl.World.{World, hot_ctrl, cold_ctrl, set_words-outside}
use fast2016_ftl.World.Words.{IsRange, set_words-inside}
use fast2016_ftl.Read.{Request, read_mode, mark_done, copy_chunk, src_offset_of}
use fast2016_ftl.Rebuild.{
  init_read, forget_hot, forget_cold, rebuild_chunk, rebuild_chunks, rebuild_page_to_ftl_buf,
}
use fast2016_ftl.Read.View.{
  chunk_buf, chunk_word, entry, Holds, IsKept, IsRebuilt, IsRebuilt-chunk, IsServed-kept,
  entry-served, IsLaidOut, IsPlain, IsPlainAt,
}
use fast2016_ftl.Read.Copy.{copy_chunk-Changes, copy_chunk-Holds}
use fast2016_ftl.Read.Flash.{chunk_in_flash_log-Rebuilt}

module _ (hw : Hardware) (page_word : PageWord) (reader : IsReader hw page_word) (w0 : World)
    (laid : IsLaidOut w0) where
  module _ (q : Request) (mode : q.mode ≡ read_mode) (small : q.last_chunk ≤ chunks_per_page)
      (hl : q.lpn < num_banks * data_blk_per_bank * pages_per_blk) where
    abbrev lpn : ℕ
    lpn = q.lpn

    abbrev last : ℕ
    last = q.last_chunk

    abbrev Rebuilt : (ℕ → Bool) → World → Type 0
    Rebuilt done w = IsRebuilt page_word lpn last w0 done w

    -- A chunk of a log buffer is copied.
    from-buffer :
        (idx src : ℕ) (done : ℕ → Bool) (w : World)
        → idx < last
        → IsRange src words_per_chunk
        → temp_buf_addr + bytes_per_page ≤ src
        → ((i : ℕ)
            → chunk_word page_word w0 (entry lpn w0 idx) i ≡ read_dram_32 (src + 4 * i) w0.dram)
        → Rebuilt done w
        → Rebuilt (mark_done done idx) (copy_chunk (chunk_buf idx) src w)
    from-buffer idx src done w h range behind word is =
        let same : (i : ℕ)
            → i < words_per_chunk
            → read_dram_32 (src + 4 * i) w.dram ≡ read_dram_32 (src + 4 * i) w0.dram =
          λ i hi. is.kept.memory (src + 4 * i) (omega arith) in
        IsRebuilt-chunk page_word lpn last w0 small done w _ is (mark_done done idx) idx
          (omega arith) (copy_chunk-Changes page_word idx src w (omega arith))
          (copy_chunk-Holds page_word lpn w0 idx src w (omega arith) range (omega arith) (λ i hi. (
            same i hi ∙ sym (word i),
            omega (arith, same i hi, laid.words (src + 4 * i) (omega arith) (omega arith)),
          )))
          (λ x m. ground arith)

    -- The `switch` on the location of a chunk.
    rebuild_chunk-Rebuilt :
        (location : ChunkLocation) (idx : ℕ) (done : ℕ → Bool) (w : World)
        → find_chunk_location (entry lpn w0 idx) ≡ location
        → IsPlainAt location (entry lpn w0 idx)
        → idx < last
        → Rebuilt done w
        → Ends
            (λ (done', w').
              Rebuilt done' w' × ((x : ℕ) → mark_done done idx x ≡ true → done' x ≡ true))
            (rebuild_chunk location hw q idx (entry lpn w0 idx) (mark_done done idx, w))
    unfolding rebuild_chunk forget_hot forget_cold
    rebuild_chunk-Rebuilt invalid_chunk idx done w e plain h is = ends (
      IsRebuilt-chunk page_word lpn last w0 small done w _ is (mark_done done idx) idx (omega arith)
          (record {
            ftl = refl;
            pages = λ b r i. refl;
            memory = λ a ok out.
                set_words-outside words_per_chunk (chunk_buf idx) invalid w.dram a ok (omega arith)
                  (omega arith) out;
          })
          (λ i hi.
            set_words-inside words_per_chunk (chunk_buf idx) invalid w.dram i (omega arith) hi
            ∙ rw e)
          (λ x m. ground arith),
      λ x m. m,
    )
    rebuild_chunk-Rebuilt flash_w_log idx done w e plain h is =
        chunk_in_flash_log-Rebuilt hw page_word reader lpn last small w0 idx plain q done w mode
          refl refl hl h e is
    rebuild_chunk-Rebuilt flash_w_log_encoded idx done w e plain h is = absurd plain
    rebuild_chunk-Rebuilt dram_hot_log idx done w e plain h is =
        let a = entry lpn w0 idx in
        let buf : ℕ = (hot_ctrl w (chunk_to_bank a)).log_buffer_addr in
        let same : (hot_ctrl w0 (chunk_to_bank a)).log_buffer_addr ≡ buf =
          ap (λ (f : FtlState). (f.log.hot_log_ctrl (chunk_to_bank a)).log_buffer_addr)
            (sym is.kept.ftl) in
        let at : buf ≡ hot_log_buf (chunk_to_bank a) =
          sym same ∙ laid.hot_at (chunk_to_bank a) plain in
        let in_page = chunk_to_sect_offset-lt a in
        rw mode (
          ends (
            from-buffer idx (buf + src_offset_of a) done w h (omega (arith, at, plain, in_page))
                (omega (arith, at, plain, in_page))
                (λ i. rw e (ap (λ b. read_dram_32 (b + src_offset_of a + 4 * i) w0.dram) same)) is,
            λ x m. m,
          ))
    rebuild_chunk-Rebuilt dram_cold_log idx done w e plain h is =
        let real = without_cold_flag (entry lpn w0 idx) in
        let buf : ℕ = (cold_ctrl w (chunk_to_bank real)).log_buffer_addr in
        let same : (cold_ctrl w0 (chunk_to_bank real)).log_buffer_addr ≡ buf =
          ap (λ (f : FtlState). (f.log.cold_log_ctrl (chunk_to_bank real)).log_buffer_addr)
            (sym is.kept.ftl) in
        let at : buf ≡ cold_log_buf (chunk_to_bank real) =
          sym same ∙ laid.cold_at (chunk_to_bank real) plain in
        let in_page = chunk_to_sect_offset-lt real in
        rw mode (
          ends (
            from-buffer idx (buf + src_offset_of real) done w h (omega (arith, at, plain, in_page))
                (omega (arith, at, plain, in_page))
                (λ i. rw e (ap (λ b. read_dram_32 (b + src_offset_of real + 4 * i) w0.dram) same))
                is,
            λ x m. m,
          ))

    rebuild_chunks-Rebuilt :
        (k idx : ℕ) (done : ℕ → Bool) (w : World)
        → idx + k ≡ last
        → ((c : ℕ) → idx ≤ c → c < last → IsPlain (entry lpn w0 c))
        → Rebuilt done w
        → Ends
            (λ (done', w').
              Rebuilt done' w'
              × ((x : ℕ) → (done x ≡ true) ⊎ ((idx ≤ x) × (x < last)) → done' x ≡ true))
            (rebuild_chunks k hw q idx (done, w))
    unfolding rebuild_chunks
    rebuild_chunks-Rebuilt zero idx done w fits plain is = ends (is, λ x h. ground arith)
    rebuild_chunks-Rebuilt (suc k) idx done w fits plain is =
        let a =
          entry-served page_word w0 w (IsServed-kept page_word w0 w is.kept) lpn idx hl
            (omega arith) in
        let rest = λ (d : ℕ → Bool) (v : World) (good : Rebuilt d v).
          rebuild_chunks-Rebuilt k (suc idx) d v (omega arith)
            (λ c low high. plain c (omega arith) high) good in
        rw a (elim (Bool-cases (done idx)) [
          | inl d ↦ rw d (
              Ends-weaken (rest done w is)
                λ (done', w') (is', more). (is', λ x h. more x (ground arith)))
          | inr d ↦ rw d (
              Ends-bind
                (rebuild_chunk-Rebuilt _ idx done w refl (plain idx (omega arith) (omega arith))
                  (omega arith) is)
                λ (d1, v) (good, marks).
                  Ends-weaken (rest d1 v good)
                    λ (done', w') (is', more). (is', λ x h. more x (ground (arith, marks x))))
        ])

  -- `rebuildPageToFtlBuf` in `ReadMode` ends: the buffer holds every chunk of the request as the map
  -- and the log give it, and the layout of the translation layer is as before.
  pub rebuild_page-Holds :
      (lpn sect n : ℕ)
      → lpn < num_banks * data_blk_per_bank * pages_per_blk
      → sect + n ≤ sectors_per_page
      → ((c : ℕ)
          → sect / sectors_per_chunk ≤ c
          → c * sectors_per_chunk < sect + n
          → IsPlain (entry lpn w0 c))
      → Ends
          (λ w'.
            IsKept page_word w0 w'
            × ((c : ℕ)
                → sect / sectors_per_chunk ≤ c
                → c * sectors_per_chunk < sect + n
                → Holds page_word lpn w0 c w'))
          (rebuild_page_to_ftl_buf hw lpn sect n read_mode w0)
  unfolding rebuild_page_to_ftl_buf init_read
  rebuild_page-Holds lpn sect n hl fits plain =
      let q = init_read lpn sect n read_mode in
      let start = sect / sectors_per_chunk in
      Ends-bind
        (rebuild_chunks-Rebuilt q refl (omega arith) hl (q.last_chunk - start) start (λ c. false) w0
          (omega arith) (λ c low high. plain c low (omega arith))
          (record {
            kept = record { ftl = refl; pages = λ b r i. refl; memory = λ a out. refl };
            chunks = λ c h m. absurd (cc);
          }))
        λ (done, w) (is, marks).
          ends (is.kept, λ c low high. is.chunks c (omega arith) (marks c (inr (low, omega arith))))
