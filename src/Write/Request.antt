-- ===== src/Write/Request.antt =====
-- The write requests of the host: `ftl_write`, `ftl_write_hot` and `ftl_write_cold` of
-- `ftl_page_mapped/ftl.c`.
pub mod Whole
use fast2016_ftl.Common.{
  ℕ, zero, suc, ◌+◌, ◌-◌, ◌/◌, ◌%◌, Bool, not, Option, none, some, ltb, leb, ◌==◌, if◌then◌else◌,
  ◌>>=◌, u32, sub32, invalid, List,
}
use fast2016_ftl.Params.{sectors_per_page, sectors_per_chunk}
use fast2016_ftl.Layout.{num_wr_buffers}
use fast2016_ftl.Log.{IncreaseLpn}
use fast2016_ftl.Flash.{Hardware, FlashCommand}
use fast2016_ftl.World.{World}
use fast2016_ftl.Trim.{WriteSide}
use fast2016_ftl.Write.{LogSide, hot_log, cold_log}
use fast2016_ftl.Write.Page.{write_to_log_blk}

-- `nSectsToWrite`
abbrev pub piece : ℕ → ℕ → ℕ
piece sect_offset remaining =
    let left = sectors_per_page - sect_offset in
    if ltb (u32 (sect_offset + remaining)) sectors_per_page
    then (if ltb remaining sectors_per_chunk then remaining else sectors_per_chunk)
    else if ltb left sectors_per_chunk
    then left
    else sectors_per_chunk

-- The buffer is handed back.
abbrev pub release_buf : WriteSide → WriteSide
release_buf h =
    let id = (h.write_buf_id + 1) % num_wr_buffers in
    record { write_buf_id = id; stack_wrset = id; stack_reset = 1 }

abbrev pub release_if : Bool → WriteSide × World → WriteSide × World
release_if b (h, w) = (if b then release_buf h else h, w)

-- `nSectsHotThreshold` and `lbaHotThreshold`
pub record Thresholds : Type 0 where
  pub n_sects_hot : ℕ
  pub lba_hot : ℕ

pub choose_side : Thresholds → ℕ → ℕ → LogSide
choose_side t lba n_sects =
    let by_size = if leb t.n_sects_hot n_sects then cold_log else hot_log in
    let by_lba = if ltb t.lba_hot lba then cold_log else hot_log in
    let sized = if t.n_sects_hot == invalid then cold_log else by_size in
    if t.lba_hot == invalid then sized else by_lba

module _ (hw : Hardware) (busy : List FlashCommand → ℕ → Bool)
    (increase : IncreaseLpn → LogSide → ℕ → World → Option World) where
  -- The loop with `k` rounds left; `none` means that the fuel ran out.
  pub write_pieces : ℕ → LogSide → ℕ → ℕ → ℕ → WriteSide × World → Option (WriteSide × World)
  write_pieces zero side lpn sect_offset remaining s = none
  write_pieces (suc k) side lpn sect_offset remaining s =
      let n = piece sect_offset remaining in
      let offset' = u32 (sect_offset + n) % sectors_per_page in
      let last = offset' == 0 in
      let round = write_to_log_blk hw busy increase side lpn sect_offset n s >>= λ s1.
      write_pieces k side (if last then u32 (lpn + 1) else lpn) offset' (sub32 remaining n)
        (release_if last s1) in
      if remaining == 0 then some (release_if (not (sect_offset == 0)) s) else round

  -- The host's sectors are counted in `userSecWrites`. One round more than there are sectors is enough.
  pub ftl_write_to : LogSide → ℕ → ℕ → ℕ × WriteSide × World → Option (ℕ × WriteSide × World)
  unfolding write_pieces
  ftl_write_to side lba n_sects (user_sec_writes, h, w) =
      write_pieces (suc n_sects) side (lba / sectors_per_page) (lba % sectors_per_page) n_sects
        (h, w)
      >>= λ (h1, w1). some (u32 (user_sec_writes + n_sects), h1, w1)

  abbrev pub ftl_write_cold : ℕ → ℕ → ℕ × WriteSide × World → Option (ℕ × WriteSide × World)
  ftl_write_cold lba n_sects s = ftl_write_to cold_log lba n_sects s

  abbrev pub ftl_write_hot : ℕ → ℕ → ℕ × WriteSide × World → Option (ℕ × WriteSide × World)
  ftl_write_hot lba n_sects s = ftl_write_to hot_log lba n_sects s

  pub ftl_write : Thresholds → ℕ → ℕ → ℕ × WriteSide × World → Option (ℕ × WriteSide × World)
  ftl_write t lba n_sects s = ftl_write_to (choose_side t lba n_sects) lba n_sects s
