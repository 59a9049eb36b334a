-- ===== src/Gc/Window.antt =====
-- The adaptive window of a bank, as `initGC` moves it on.
use fast2016_ftl.Common.{
  ℕ, zero, suc, ◌-◌, ◌≤◌, ◌<◌, ◌≡◌, refl, arith, leb, ltb, if◌then◌else◌, ◌&&◌,
}
use fast2016_ftl.CleanList.{put}
use fast2016_ftl.Gc.{shift_window}

shift_window-eq :
    (k : ℕ) (window : ℕ → ℕ) (i : ℕ)
    → shift_window k window i ≡ (if ltb 0 i && leb i k then window (i - 1) else window i)
unfolding shift_window
shift_window-eq zero window i = ground arith
shift_window-eq (suc k) window i =
    ground (arith, shift_window-eq k (put window (suc k) (window k)) i)

-- `initGC` puts the new number in front of the window of a bank and moves the others on by one
-- place; the last one falls out, and what lies behind the window stays.
shift_window-moves :
    (size new : ℕ) (window : ℕ → ℕ)
    → 0 < size
    → (let shifted = put (shift_window (size - 1) window) 0 new in
        (shifted 0 ≡ new)
        × ((i : ℕ) → suc i < size → shifted (suc i) ≡ window i)
        × ((i : ℕ) → size ≤ i → shifted i ≡ window i))
shift_window-moves size new window some_place = (
  refl,
  λ i h. ground (arith, shift_window-eq (size - 1) window (suc i)),
  λ i h. ground (arith, shift_window-eq (size - 1) window i),
)
