-- ===== src/Write/Request/Whole.antt =====
-- `ftl_write` writes the chunks of an aligned request one by one.
use fast2016_ftl.Common.{
  >>=-same, ℕ, zero, suc, ◌+◌, ◌*◌, ◌/◌, ◌%◌, ◌≤◌, ◌<◌, ◌≡◌, refl, sym, ◌∙◌, ap, arith, Option,
  some, not, ◌==◌, Bool, false, if◌then◌else◌, ◌>>=◌, u32, sub32, List,
}
use fast2016_ftl.Params.{chunks_per_page, sectors_per_page, sectors_per_chunk, num_lsectors}
use fast2016_ftl.Log.{IncreaseLpn}
use fast2016_ftl.Flash.{Hardware, FlashCommand}
use fast2016_ftl.World.{World}
use fast2016_ftl.Trim.{WriteSide}
use fast2016_ftl.Write.{LogSide}
use fast2016_ftl.Write.Page.{write_to_log_blk}
use fast2016_ftl.Write.Request.{piece, release_if, write_pieces, ftl_write_to}

module _ (hw : Hardware) (busy : List FlashCommand → ℕ → Bool)
    (increase : IncreaseLpn → LogSide → ℕ → World → Option World) (side : LogSide) where
  -- Chunks by their number in the device, `k` of them from chunk `c` on. The buffer is handed back
  -- behind the last chunk of a page, and at the end if there it has not been.
  pub write_whole : ℕ → ℕ → WriteSide × World → Option (WriteSide × World)
  write_whole zero c s = some (release_if (not (c % chunks_per_page == 0)) s)
  write_whole (suc k) c s =
      write_to_log_blk hw busy increase side (c / chunks_per_page)
        (c % chunks_per_page * sectors_per_chunk) sectors_per_chunk s
      >>= λ s1. write_whole k (suc c) (release_if (suc c % chunks_per_page == 0) s1)

  write_pieces-whole :
      (k n c lpn sect remaining : ℕ) (s : WriteSide × World)
      → n < k
      → c / chunks_per_page ≡ lpn
      → c % chunks_per_page * sectors_per_chunk ≡ sect
      → n * sectors_per_chunk ≡ remaining
      → (c + n) * sectors_per_chunk ≤ num_lsectors
      → write_pieces hw busy increase k side lpn sect remaining s ≡ write_whole n c s
  unfolding write_pieces write_whole
  write_pieces-whole zero n c lpn sect remaining s fuel a b d fits = absurd (omega arith)
  write_pieces-whole (suc k) zero c lpn sect remaining s fuel a b d fits =
      let r : remaining ≡ 0 = omega (arith, d) in
      let o : (sect == 0) ≡ (c % chunks_per_page == 0) = ground (arith, b) in rw r (rw o refl)
  write_pieces-whole (suc k) (suc n) c lpn sect remaining s fuel a b d fits =
      let r : (remaining == 0) ≡ false = ground (arith, d) in
      let p : piece sect remaining ≡ sectors_per_chunk = ground (arith, b, d) in
      let o : u32 (sect + sectors_per_chunk) % sectors_per_page
          ≡ suc c % chunks_per_page * sectors_per_chunk =
        omega (arith, b) in
      let lpn' : (if u32 (sect + sectors_per_chunk) % sectors_per_page == 0
            then u32 (lpn + 1)
            else lpn)
          ≡ suc c / chunks_per_page =
        ground (arith, a, b) in
      let last : (u32 (sect + sectors_per_chunk) % sectors_per_page == 0)
          ≡ (suc c % chunks_per_page == 0) =
        ground (arith, o) in
      rw r (
        rw p (
          rw a (
            rw b (
              >>=-same (write_to_log_blk hw busy increase side lpn sect sectors_per_chunk s) λ s1.
                let e = u32 (sect + sectors_per_chunk) % sectors_per_page in
                write_pieces-whole k n (suc c) (if e == 0 then u32 (lpn + 1) else lpn) e
                  (sub32 remaining sectors_per_chunk) (release_if (e == 0) s1) (omega arith)
                  (sym lpn') (sym o) (omega (arith, d)) (omega (arith, fits))
                ∙ ap (λ t. write_whole n (suc c) (release_if t s1)) last))))

  -- `ftl_write` to one side of the log, on a request of whole chunks in the device, is the writing of
  -- its chunks in their order.
  pub ftl_write_to-eq-write_whole :
      (lba n user : ℕ) (h : WriteSide) (w : World)
      → lba % sectors_per_chunk ≡ 0
      → n % sectors_per_chunk ≡ 0
      → lba + n ≤ num_lsectors
      → ftl_write_to hw busy increase side lba n (user, h, w) ≡ (
          write_whole (n / sectors_per_chunk) (lba / sectors_per_chunk) (h, w) >>= λ (h1, w1).
          some (u32 (user + n), h1, w1))
  unfolding ftl_write_to
  ftl_write_to-eq-write_whole lba n user h w la ln fits =
      ap (λ r. r >>= λ (h1, w1). some (u32 (user + n), h1, w1))
        (write_pieces-whole (suc n) (n / sectors_per_chunk) (lba / sectors_per_chunk)
          (lba / sectors_per_page) (lba % sectors_per_page) n (h, w) (omega arith) (omega arith)
          (omega arith) (omega arith) (omega arith))
