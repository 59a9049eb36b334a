-- ===== src/Write/Old/Dropped.antt =====
-- A chunk of a log buffer that is no longer valid leaves the buffer as ready as it was.
use native.Mathlib.Decide.{ℕ_discrete}
use fast2016_ftl.Common.{ne→==-false, ℕ, ◌≡◌, refl, ◌∙◌, arith, ==_self}
use fast2016_ftl.Log.{LogCtrlBlock, put_ctrl}
use fast2016_ftl.World.{World, hot_ctrl, cold_ctrl}
use fast2016_ftl.Write.{LogSide, hot_log, cold_log, ctrl, set_ctrl}
use fast2016_ftl.Write.Old.{drop_old_idx}
use fast2016_ftl.Write.Old.Buffer.{IsReady}

put_ctrl-field {ℓ} :
    {A : Type ℓ} (f : LogCtrlBlock → A) (g : LogCtrlBlock → LogCtrlBlock)
    → ((c : LogCtrlBlock) → f (g c) ≡ f c)
    → (ctrls : ℕ → LogCtrlBlock) (b2 b : ℕ) → f (put_ctrl ctrls b2 (g (ctrls b2)) b) ≡ f (ctrls b)
put_ctrl-field f g h ctrls b2 b = elim (ℕ_discrete b b2) [
  | yes e ↦ rw e (rw (==_self b2) (h (ctrls b2)))
  | no ne ↦ rw (ne→==-false b b2 ne) refl
]

-- The log buffers once chunk `o` of one of them is no longer valid.
abbrev pub dropped : LogSide → ℕ → ℕ → World → World
dropped side bank o w = set_ctrl side bank (drop_old_idx o (ctrl side w bank)) w

dropped-field {ℓ} :
    {A : Type ℓ} (f : LogCtrlBlock → A) (o : ℕ)
    → ((c : LogCtrlBlock) → f (drop_old_idx o c) ≡ f c)
    → (s2 s : LogSide) (b2 b : ℕ) (w : World) → f (ctrl s (dropped s2 b2 o w) b) ≡ f (ctrl s w b)
dropped-field f o h hot_log hot_log b2 b w = put_ctrl-field f (drop_old_idx o) h (hot_ctrl w) b2 b
dropped-field f o h hot_log cold_log b2 b w = refl
dropped-field f o h cold_log hot_log b2 b w = refl
dropped-field f o h cold_log cold_log b2 b w =
    put_ctrl-field f (drop_old_idx o) h (cold_ctrl w) b2 b

pub same_ptr :
    (o : ℕ) (s2 s : LogSide) (b2 b : ℕ) (w : World)
    → (ctrl s (dropped s2 b2 o w) b).chunk_ptr ≡ (ctrl s w b).chunk_ptr
same_ptr o s2 s b2 b w = dropped-field (λ (c : LogCtrlBlock). c.chunk_ptr) o (λ c. refl) s2 s b2 b w

pub dropped-IsReady :
    (o : ℕ) (s2 s : LogSide) (b2 b : ℕ) (w : World)
    → IsReady s b w
    → IsReady s b (dropped s2 b2 o w)
dropped-IsReady o s2 s b2 b w ready = record {
  at = dropped-field (λ (c : LogCtrlBlock). c.log_buffer_addr) o (λ c. refl) s2 s b2 b w ∙ ready.at;
  room = omega (arith, same_ptr o s2 s b2 b w, ready.room);
  plain =
      dropped-field (λ (c : LogCtrlBlock). c.update_chunk_ptr) o (λ c. refl) s2 s b2 b w
      ∙ ready.plain;
  none_ahead =
      dropped-field (λ (c : LogCtrlBlock). c.next_low_page_offset) o (λ c. refl) s2 s b2 b w
      ∙ ready.none_ahead;
}
