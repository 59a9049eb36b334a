-- ===== src/Write/Old/Overrun.antt =====
-- A part of a chunk whose old copy is encoded in flash.
use fast2016_ftl.Common.{
  ℕ, ◌+◌, ◌-◌, ◌*◌, ◌/◌, ◌%◌, ◌<◌, ◌≤◌, ◌≡◌, ◌≢◌, ◌∙◌, refl, ap, arith, u32, Bool, true, false,
  ◌&&◌, List, Option, ◌==◌, ==_self, Ends, ends, Ends-bind, if◌then◌else◌,
}
use fast2016_ftl.Params.{
  num_banks, data_blk_per_bank, pages_per_blk, sectors_per_page, sectors_per_chunk,
  bytes_per_sector, bytes_per_chunk, words_per_sector, words_per_chunk,
}
use fast2016_ftl.Layout.{wr_buf_ptr, num_wr_buffers, hot_log_buf, cold_log_buf}
use fast2016_ftl.Dram.{InDram, read_dram_32, read-write_other}
use fast2016_ftl.Log.{IncreaseLpn, any_page}
use fast2016_ftl.Log.Chunk.{
  flash_w_log_encoded, find_chunk_location, without_cold_flag, chunk_to_bank, chunk_to_lbn,
  chunk_to_lbn-lt,
}
use fast2016_ftl.Flash.{Hardware, FlashCommand}
use fast2016_ftl.World.{World, first, second, cold, hot_ctrl, cold_ctrl, chunks_map_table}
use fast2016_ftl.World.Words.{copy_words-inside, copy_words-outside}
use fast2016_ftl.Bank.{BankView, IsBank}
use fast2016_ftl.Bank.Heaps.{Shows-keeps}
use fast2016_ftl.Bank.Drop.{clean-keeps, OutsideBank}
use fast2016_ftl.Loss.View.{lose_chunk-IsBank}
use fast2016_ftl.Read.View.{entry}
use fast2016_ftl.Write.{
  LogSide, hot_log, cold_log, ctrl, Writer, write_chunk_new, update_dram_buf_metadata, next_place,
}
use fast2016_ftl.Write.Flush.{call_update, call_update-advance}
use fast2016_ftl.Write.Old.{replace_chunk, write_chunk_old, lose_old, tell_gc, is_collecting}
use fast2016_ftl.Write.Old.Buffer.{IsReady, writer}

-- The log buffers of a bank are below the heaps.
place-bounds :
    (side : LogSide) (bank : ℕ) (w : World)
    → bank < num_banks
    → IsReady side bank w
    → (let p =
          (ctrl side w bank).log_buffer_addr + (ctrl side w bank).chunk_ptr * bytes_per_chunk in
        (hot_log_buf 0 ≤ p) × (p + 2 * bytes_per_chunk ≤ cold_log_buf num_banks))
place-bounds hot_log bank w hb ready = omega (arith, ready.at, ready.room)
place-bounds cold_log bank w hb ready = omega (arith, ready.at, ready.room)

IsReady-same :
    (side : LogSide) (bank : ℕ) (w w' : World)
    → hot_ctrl w' ≡ hot_ctrl w
    → cold_ctrl w' ≡ cold_ctrl w
    → IsReady side bank w
    → IsReady side bank w'
IsReady-same hot_log bank w w' e1 e2 ready = record {
  at = rw e1 ready.at;
  room = rw e1 ready.room;
  plain = rw e1 ready.plain;
  none_ahead = rw e1 ready.none_ahead;
}
IsReady-same cold_log bank w w' e1 e2 ready = record {
  at = rw e2 ready.at;
  room = rw e2 ready.room;
  plain = rw e2 ready.plain;
  none_ahead = rw e2 ready.none_ahead;
}

if_both : (P : World → Type 0) (b : Bool) (x y : World) → P x → P y → P (if b then x else y)
if_both P true x y p q = p
if_both P false x y p q = q

tell_gc-same :
    (bank lbn : ℕ) (w : World)
    → ((tell_gc bank lbn w).dram ≡ w.dram)
      × (hot_ctrl (tell_gc bank lbn w) ≡ hot_ctrl w)
      × (cold_ctrl (tell_gc bank lbn w) ≡ cold_ctrl w)
tell_gc-same bank lbn w =
    let g = w.gc bank in
    if_both (λ w'. (w'.dram ≡ w.dram) × (hot_ctrl w' ≡ hot_ctrl w) × (cold_ctrl w' ≡ cold_ctrl w))
      (is_collecting g.gc_state && (lbn == g.victim_lbn)) _ w (refl, refl, refl) (refl, refl, refl)

module _ (hw : Hardware) (busy : List FlashCommand → ℕ → Bool)
    (increase : IncreaseLpn → LogSide → ℕ → World → Option World) where
  -- The end of `writeChunkOld` writes to the map only.
  abbrev MapOnly : ℕ → World → World → Type 0
  MapOnly table w w' =
      (a : ℕ) → InDram a → table ≢ a → read_dram_32 a w'.dram ≡ read_dram_32 a w.dram

  updated-MapOnly :
      (side : LogSide) (bank lpn sect n rem : ℕ) (w : World)
      → IsReady side bank w
      → InDram (chunks_map_table lpn (sect / sectors_per_chunk))
      → (let q = writer side bank lpn sect n rem in
          let w2 = update_dram_buf_metadata q w in
          Ends
            (MapOnly (chunks_map_table lpn (sect / sectors_per_chunk)) w)
            (call_update hw busy increase (ctrl side w2 bank).update_chunk_ptr side bank w2))
  unfolding update_dram_buf_metadata
  updated-MapOnly hot_log bank lpn sect n rem w ready ok =
      let w2 = update_dram_buf_metadata (writer hot_log bank lpn sect n rem) w in
      let plain : (hot_ctrl w2 bank).update_chunk_ptr ≡ any_page = rw (==_self bank) ready.plain in
      rw plain (
        rw
          (call_update-advance hw busy increase hot_log bank w2 (rw (==_self bank) ready.room)
            (rw (==_self bank) ready.none_ahead))
          (ends λ a ok_a ne. read-write_other _ a _ w.dram ok ok_a ne))
  updated-MapOnly cold_log bank lpn sect n rem w ready ok =
      let w2 = update_dram_buf_metadata (writer cold_log bank lpn sect n rem) w in
      let plain : (cold_ctrl w2 bank).update_chunk_ptr ≡ any_page = rw (==_self bank) ready.plain in
      rw plain (
        rw
          (call_update-advance hw busy increase cold_log bank w2 (rw (==_self bank) ready.room)
            (rw (==_self bank) ready.none_ahead))
          (ends λ a ok_a ne. read-write_other _ a _ w.dram ok ok_a ne))

-- The write of a whole chunk from a place that is not the start of one.
module _ (id : ℕ) (q : Writer) (w : World) (hid : id < num_wr_buffers)
    (hs : q.sect_offset < sectors_per_page) (low : hot_log_buf 0 ≤ next_place q w)
    (high : next_place q w + 2 * bytes_per_chunk ≤ cold_log_buf num_banks) where
  abbrev w1 : World
  w1 = write_chunk_new id sectors_per_chunk q w

  abbrev dst : ℕ
  dst = next_place q w + q.sect_offset % sectors_per_chunk * bytes_per_sector

  abbrev src : ℕ
  src = wr_buf_ptr id + q.sect_offset * bytes_per_sector

  -- The sectors of the chunk that are left before the end of its place.
  abbrev skipped : ℕ
  skipped = (sectors_per_chunk - q.sect_offset % sectors_per_chunk) * bytes_per_sector

  new-behind :
      (i : ℕ)
      → i < q.sect_offset % sectors_per_chunk * words_per_sector
      → read_dram_32 (next_place q w + bytes_per_chunk + 4 * i) w1.dram
        ≡ u32 (read_dram_32 (src + skipped + 4 * i) w.dram)
  unfolding write_chunk_new
  new-behind i h =
      let o = q.sect_offset % sectors_per_chunk in
      let j = (sectors_per_chunk - o) * words_per_sector + i in
      ap (λ x. read_dram_32 x w1.dram) (omega arith)
      ∙ copy_words-inside words_per_chunk dst src w.dram j
          (record { low = omega arith; high = omega arith })
          (record { low = omega arith; high = omega arith }) (omega arith) (omega arith)
      ∙ ap (λ x. u32 (read_dram_32 x w.dram)) (omega arith)

  new-above :
      (a : ℕ)
      → InDram a
      → cold_log_buf num_banks ≤ a
      → read_dram_32 a w1.dram ≡ read_dram_32 a w.dram
  unfolding write_chunk_new
  new-above a ok above =
      copy_words-outside words_per_chunk dst src w.dram a ok
        (record { low = omega arith; high = omega arith }) (omega arith)

  new-IsBank : (b : ℕ) (v : BankView) → b < num_banks → IsBank b v w → IsBank b v w1
  unfolding write_chunk_new
  new-IsBank b v hb is = record {
    first_usage =
        Shows-keeps _ b (omega arith) v.first_usage (first w) w.dram is.first_usage _
          (λ a ok low high. new-above a ok (omega arith));
    second_usage =
        Shows-keeps _ b (omega arith) v.second_usage (second w) w.dram is.second_usage _
          (λ a ok low high. new-above a ok (omega arith));
    cold_usage =
        Shows-keeps _ b (omega arith) v.cold_usage (cold w) w.dram is.cold_usage _
          (λ a ok low high. new-above a ok (omega arith));
    clean = clean-keeps b hb v w is _ (λ a ok low. new-above a ok (omega arith));
  }

  new-ctrls : (hot_ctrl w1 ≡ hot_ctrl w) × (cold_ctrl w1 ≡ cold_ctrl w)
  unfolding write_chunk_new
  new-ctrls = (refl, refl)

-- What stands behind the place of the chunk is as it was written, and the log buffer is still ready.
abbrev Lost : Writer → World → World → ℕ → World → Type 0
Lost q w next x w3 = (read_dram_32 x w3.dram ≡ read_dram_32 x next.dram) × IsReady q.side q.bank w3

module _ (hw : Hardware) (busy : List FlashCommand → ℕ → Bool)
    (increase : IncreaseLpn → LogSide → ℕ → World → Option World) where
  -- `writeChunkOld` on a chunk whose old copy is encoded in flash, with a writer that is not at the
  -- start of the chunk, ends, and the end of what it takes from the write buffer stands behind the
  -- place of the new chunk, in the place of the next one. The log buffer must be where the layout
  -- puts it, its page must not be a recycled one and have room behind the chunk, no low page is to
  -- be read ahead, and the block of the old copy must have a valid chunk in each heap of its bank.
  pub write_chunk_old-overrun :
      (id : ℕ) (q : Writer) (w : World) (v : BankView) (i : ℕ)
      → id < num_wr_buffers
      → q.bank < num_banks
      → q.lpn < num_banks * data_blk_per_bank * pages_per_blk
      → q.sect_offset < sectors_per_page
      → IsReady q.side q.bank w
      → i < q.sect_offset % sectors_per_chunk * words_per_sector
      → (let a = entry q.lpn w (q.sect_offset / sectors_per_chunk) in
          let bank = chunk_to_bank (without_cold_flag a) in
          let lbn = chunk_to_lbn (without_cold_flag a) in
          find_chunk_location a ≡ flash_w_log_encoded
          → bank < num_banks
          → IsBank bank v w
          → 0 < v.first_usage.counts lbn
          → 0 < v.second_usage.counts lbn
          → 0 < v.cold_usage.counts lbn
          → Ends
              (λ (q', w').
                read_dram_32 (next_place q w + bytes_per_chunk + 4 * i) w'.dram
                ≡ u32 (
                    read_dram_32
                      (wr_buf_ptr id
                        + q.sect_offset * bytes_per_sector
                        + (sectors_per_chunk - q.sect_offset % sectors_per_chunk) * bytes_per_sector
                        + 4 * i)
                      w.dram))
              (write_chunk_old hw busy increase id (q, w)))
  unfolding write_chunk_old replace_chunk lose_old
  write_chunk_old-overrun id q w v i hid hq hl hs ready h e hb is h1 h2 h3 =
      let real = without_cold_flag (entry q.lpn w (q.sect_offset / sectors_per_chunk)) in
      let bank = chunk_to_bank real in
      let lbn = chunk_to_lbn real in
      let bounds = place-bounds q.side q.bank w hq ready in
      let x = next_place q w + bytes_per_chunk + 4 * i in
      let next = write_chunk_new id sectors_per_chunk q w in
      let ctrls = new-ctrls id q w hid hs bounds.0 bounds.1 in
      let inside : InDram x = omega (arith, bounds, h) in
      let outside : OutsideBank bank x = record {
        first_usage = record {
          inside = inside;
          els = omega (arith, bounds, h);
          positions = omega (arith, bounds, h);
        };
        second_usage = record {
          inside = inside;
          els = omega (arith, bounds, h);
          positions = omega (arith, bounds, h);
        };
        cold_usage = record {
          inside = inside;
          els = omega (arith, bounds, h);
          positions = omega (arith, bounds, h);
        };
        clean = omega (arith, bounds, h);
      } in
      let lost : Ends (Lost q w next x) (lose_old bank lbn next) =
        Ends-bind
          (lose_chunk-IsBank bank hb lbn (chunk_to_lbn-lt real) v next
            (new-IsBank id q w hid hs bounds.0 bounds.1 bank v hb is) h1 h2 h3)
          λ w2 (is2, only).
            let t = tell_gc-same bank lbn w2 in
            ends (
              ap (read_dram_32 x) t.0 ∙ only.memory x outside,
              IsReady-same q.side q.bank w (tell_gc bank lbn w2)
                  (t.1 ∙ ap hot_ctrl only.same ∙ ctrls.0) (t.2 ∙ ap cold_ctrl only.same ∙ ctrls.1)
                  ready,
            ) in
      rw e (
        Ends-bind lost λ w3 (kept, ready3).
          Ends-bind
            (updated-MapOnly hw busy increase q.side q.bank q.lpn q.sect_offset q.n_sects
              q.remaining_sects w3 ready3 (omega arith))
            λ w4 map_only. ends (
              map_only x inside (omega (arith, bounds, h))
              ∙ kept
              ∙ new-behind id q w hid hs bounds.0 bounds.1 i h))
