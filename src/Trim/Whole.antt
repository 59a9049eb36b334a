-- ===== src/Trim/Whole.antt =====
-- `trimRange` trims the chunks that lie in the range as a whole, in their order.
use native.Mathlib.Decide.{dec_lt}
use fast2016_ftl.Common.{
  >>=-assoc, >>=-same, ℕ, zero, suc, ◌+◌, ◌-◌, ◌*◌, ◌/◌, ◌%◌, ◌≤◌, ◌<◌, ◌≡◌, ◌⊎◌, inl, inr, refl,
  sym, ◌∙◌, ap, arith, Option, some, ltb, leb, lt→ltb, le→ltb-false, ◌==◌, ◌||◌, not, true, false,
  if◌then◌else◌, ◌>>=◌, u32, sub32,
}
use fast2016_ftl.Params.{chunks_per_page, sectors_per_page, sectors_per_chunk, num_lsectors}
use fast2016_ftl.World.{World}
use fast2016_ftl.Trim.{trim_chunk, trim_page, trim_pages, trim_range, sects_to_trim, trim_part}

-- Chunks by their number in the device, `k` of them from chunk `c` on.
pub trim_whole : ℕ → ℕ → World → Option World
trim_whole zero c w = some w
trim_whole (suc k) c w =
    trim_chunk (c / chunks_per_page) (c % chunks_per_page) w >>= trim_whole k (suc c)

-- The first chunk that starts at sector `s` or behind it, and the number of whole chunks from there to
-- sector `t`.
abbrev pub first_whole : ℕ → ℕ
first_whole s = (s + sectors_per_chunk - 1) / sectors_per_chunk

abbrev pub n_whole : ℕ → ℕ → ℕ
n_whole s t = t / sectors_per_chunk - first_whole s

trim_whole-split :
    (j k c : ℕ) (w : World) → (trim_whole j c w >>= trim_whole k (c + j)) ≡ trim_whole (j + k) c w
unfolding trim_whole
trim_whole-split zero k c w =
    ap (λ x. trim_whole k x w) (omega arith) ∙ ap (λ x. trim_whole x c w) (omega arith)
trim_whole-split (suc j) k c w =
    let n : suc j + k ≡ suc (j + k) = omega arith in
    let e : c + suc j ≡ suc c + j = omega arith in
    rw n (
      rw e (
        >>=-assoc (trim_chunk (c / chunks_per_page) (c % chunks_per_page) w) (trim_whole j (suc c))
          (trim_whole k (suc c + j))
        ∙ >>=-same (trim_chunk (c / chunks_per_page) (c % chunks_per_page) w)
            (λ w1. trim_whole-split j k (suc c) w1)))

-- The end of the range, or of the page.
abbrev stop : ℕ → ℕ → ℕ → ℕ
stop lpn sect remaining =
    if ltb (sect + remaining) sectors_per_page
    then lpn * sectors_per_page + sect + remaining
    else lpn * sectors_per_page + sectors_per_page

-- A run of whole chunks, after which `left` sectors remain.
abbrev after : ℕ → ℕ → ℕ → World → Option (ℕ × World)
after n c left w = trim_whole n c w >>= λ w1. some (left, w1)

after-none :
    (n c left left' : ℕ) (w : World) → n ≡ 0 → left ≡ left' → some (left', w) ≡ after n c left w
unfolding trim_whole
after-none n c left left' w none_left e = rw none_left (rw e)

after-same :
    (w : World) {n n' c c' left left' : ℕ}
    → n ≡ n'
    → c ≡ c'
    → left ≡ left'
    → after n c left w ≡ after n' c' left' w
after-same w {n} {n'} {c} {c'} {left} {left'} a b e =
    ap (λ x. after x c left w) a ∙ ap (λ x. after n' x left w) b ∙ ap (λ x. after n' c' x w) e

after-suc :
    (n g left page c : ℕ) (w : World)
    → g / chunks_per_page ≡ page
    → g % chunks_per_page ≡ c
    → (trim_chunk page c w >>= after n (suc g) left) ≡ after (suc n) g left w
unfolding trim_whole
after-suc n g left page c w a b =
    ap (λ x. trim_chunk x c w >>= after n (suc g) left) (sym a)
    ∙ ap (λ x. trim_chunk (g / chunks_per_page) x w >>= after n (suc g) left) (sym b)
    ∙ sym (
        >>=-assoc (trim_chunk (g / chunks_per_page) (g % chunks_per_page) w) (trim_whole n (suc g))
          (λ w1. some (left, w1)))

-- The sectors of a round: all that remain, or those to the end of the chunk.
sects_to_trim-short :
    (sect remaining : ℕ)
    → sect % sectors_per_chunk + remaining < sectors_per_chunk
    → sects_to_trim sect remaining ≡ remaining
sects_to_trim-short sect remaining h =
    rw (lt→ltb (u32 (sect % sectors_per_chunk + remaining)) sectors_per_chunk (omega arith))

sects_to_trim-long :
    (sect remaining : ℕ)
    → remaining ≤ num_lsectors
    → sectors_per_chunk ≤ sect % sectors_per_chunk + remaining
    → sects_to_trim sect remaining ≡ sectors_per_chunk - sect % sectors_per_chunk
sects_to_trim-long sect remaining small h =
    rw (le→ltb-false (u32 (sect % sectors_per_chunk + remaining)) sectors_per_chunk (omega arith))

trim_part-skips :
    (lpn c sect n : ℕ) (w : World)
    → (0 < sect % sectors_per_chunk) ⊎ (n < sectors_per_chunk)
    → trim_part lpn c sect n w ≡ some w
trim_part-skips lpn c sect n w h =
    let t : (not (sect % sectors_per_chunk == 0) || ltb n sectors_per_chunk) ≡ true =
      ground arith in
    rw t

trim_part-takes :
    (lpn c sect : ℕ) (w : World)
    → sect % sectors_per_chunk ≡ 0
    → trim_part lpn c sect sectors_per_chunk w ≡ trim_chunk lpn c w
trim_part-takes lpn c sect w h =
    let t : (not (sect % sectors_per_chunk == 0) || ltb sectors_per_chunk sectors_per_chunk)
        ≡ false =
      ground arith in
    rw t

trim_page-end :
    (k lpn c sect remaining : ℕ) (w : World)
    → 1 ≤ k
    → (remaining ≡ 0) ⊎ (chunks_per_page ≤ c)
    → trim_page k lpn c sect remaining w ≡ some (remaining, w)
unfolding trim_page
trim_page-end zero lpn c sect remaining w fuel done = absurd (omega arith)
trim_page-end (suc k) lpn c sect remaining w fuel done =
    let t : (remaining == 0 || leb chunks_per_page c) ≡ true = ground arith in rw t

trim_page-round :
    (k lpn c sect remaining n : ℕ) (w : World)
    → 0 < remaining
    → c < chunks_per_page
    → sects_to_trim sect remaining ≡ n
    → trim_page (suc k) lpn c sect remaining w
      ≡ (trim_part lpn c sect n w >>= trim_page k lpn (suc c) (sect + n) (sub32 remaining n))
unfolding trim_page
trim_page-round k lpn c sect remaining n w some_left in_page size =
    let t : (remaining == 0 || leb chunks_per_page c) ≡ false = ground arith in rw t (rw size)

left-of :
    (remaining n : ℕ) → remaining ≤ num_lsectors → n ≤ remaining → remaining - n ≡ sub32 remaining n
left-of remaining n small h = omega arith

-- The arguments of the next round.
next-page :
    (k lpn sect : ℕ) (w : World) {c c' rest rest' : ℕ} {r : Option (ℕ × World)}
    → c ≡ c'
    → rest' ≡ rest
    → trim_page k lpn c' sect rest' w ≡ r
    → trim_page k lpn c sect rest w ≡ r
next-page k lpn sect w {c} {c'} {rest} {rest'} a b e =
    ap (λ x. trim_page k lpn x sect rest w) a ∙ ap (λ x. trim_page k lpn c' sect x w) (sym b) ∙ e

module _ (lpn : ℕ) where
  abbrev at : ℕ → ℕ
  at sect = lpn * sectors_per_page + sect

  abbrev n_left : ℕ → ℕ → ℕ
  n_left sect remaining = n_whole (at sect) (stop lpn sect remaining)

  trim_page-whole :
      (k sect remaining : ℕ) (w : World)
      → sect ≤ sectors_per_page
      → remaining ≤ num_lsectors
      → chunks_per_page < k + sect / sectors_per_chunk
      → trim_page k lpn (sect / sectors_per_chunk) sect remaining w
        ≡ after
            (n_left sect remaining)
            (first_whole (at sect))
            (sect + remaining - sectors_per_page)
            w
  trim_page-whole zero sect remaining w hs hr fuel = absurd (omega arith)
  trim_page-whole (suc k) sect remaining w hs hr fuel =
      let next = λ (n : ℕ).
        trim_page k lpn (suc (sect / sectors_per_chunk)) (sect + n) (sub32 remaining n) in
      let follow =
        λ (n : ℕ) (w1 : World) (here : n ≤ remaining) (inside : sect + n ≤ sectors_per_page)
            (to : suc (sect / sectors_per_chunk) ≡ (sect + n) / sectors_per_chunk).
          next-page k lpn (sect + n) w1 to (left-of remaining n hr here)
            (trim_page-whole k (sect + n) (remaining - n) w1 inside (omega arith) (omega arith)) in
      elim (dec_lt 0 remaining) [
        | no none_left ↦
            trim_page-end (suc k) lpn (sect / sectors_per_chunk) sect remaining w (omega arith)
              (inl (omega arith))
            ∙ after-none (n_left sect remaining) _ _ remaining w (ground arith) (omega arith)
        | yes some_left ↦ elim (dec_lt sect sectors_per_page) [
          | no page_end ↦
              trim_page-end (suc k) lpn (sect / sectors_per_chunk) sect remaining w (omega arith)
                (inr (omega arith))
              ∙ after-none (n_left sect remaining) _ _ remaining w (ground arith) (omega arith)
          | yes in_page ↦ elim (dec_lt (sect % sectors_per_chunk + remaining) sectors_per_chunk) [
            | yes short ↦
                trim_page-round k lpn (sect / sectors_per_chunk) sect remaining remaining w
                  some_left (omega arith) (sects_to_trim-short sect remaining short)
                ∙ ap (λ r. r >>= next remaining)
                    (trim_part-skips lpn _ sect remaining w (inr (omega arith)))
                ∙ trim_page-end k lpn _ _ (sub32 remaining remaining) w (omega arith)
                    (inl (omega arith))
                ∙ after-none (n_left sect remaining) _ _ _ w (ground arith) (omega arith)
            | no long ↦ elim (dec_lt 0 (sect % sectors_per_chunk)) [
              | yes inside ↦
                  let n = sectors_per_chunk - sect % sectors_per_chunk in
                  trim_page-round k lpn (sect / sectors_per_chunk) sect remaining n w some_left
                    (omega arith) (sects_to_trim-long sect remaining hr (omega arith))
                  ∙ ap (λ r. r >>= next n) (trim_part-skips lpn _ sect n w (inl inside))
                  ∙ follow n w (omega arith) (omega arith) (omega arith)
                  ∙ after-same w (ground arith) (omega arith) (omega arith)
              | no whole ↦
                  trim_page-round k lpn (sect / sectors_per_chunk) sect remaining sectors_per_chunk
                    w some_left (omega arith)
                    (sects_to_trim-long sect remaining hr (omega arith) ∙ omega arith)
                  ∙ ap (λ r. r >>= next sectors_per_chunk)
                      (trim_part-takes lpn _ sect w (omega arith))
                  ∙ >>=-same (trim_chunk lpn (sect / sectors_per_chunk) w) (λ w1.
                    follow sectors_per_chunk w1 (omega arith) (omega arith) (omega arith)
                    ∙ after-same w1 refl (omega arith) (omega arith))
                  ∙ after-suc _ (first_whole (at sect)) _ lpn (sect / sectors_per_chunk) w
                      (omega arith) (omega arith)
                  ∙ after-same w (ground arith) refl refl
            ]
          ]
        ]
      ]

trim_whole-none : (n c : ℕ) (w : World) → n ≡ 0 → some w ≡ trim_whole n c w
unfolding trim_whole
trim_whole-none n c w e = rw e

trim_whole-move :
    (n c c' : ℕ) (w : World) → (n ≡ 0) ⊎ (c ≡ c') → trim_whole n c w ≡ trim_whole n c' w
unfolding trim_whole
trim_whole-move n c c' w (inl e) = rw e
trim_whole-move n c c' w (inr e) = rw e

trim_pages-whole :
    (k lpn sect remaining : ℕ) (w : World)
    → remaining < k
    → sect < sectors_per_page
    → lpn * sectors_per_page + sect + remaining ≤ num_lsectors
    → (let s = lpn * sectors_per_page + sect in
        trim_pages k lpn sect remaining w
        ≡ trim_whole (n_whole s (s + remaining)) (first_whole s) w)
unfolding trim_pages
trim_pages-whole zero lpn sect remaining w fuel hs fits = absurd (omega arith)
trim_pages-whole (suc k) lpn sect remaining w fuel hs fits =
    let s = lpn * sectors_per_page + sect in
    elim (dec_lt 0 remaining) [
      | no none_left ↦
          let z : remaining ≡ 0 = omega arith in
          rw z (trim_whole-none (n_whole s (s + 0)) (first_whole s) w (omega arith))
      | yes some_left ↦
          let n1 = n_left lpn sect remaining in
          let left = sect + remaining - sectors_per_page in
          let t : (remaining == 0) ≡ false = ground arith in
          let lpn' : u32 (lpn + 1) ≡ lpn + 1 = omega arith in
          let next = (lpn + 1) * sectors_per_page + 0 in
          let n2 = n_whole next (next + left) in
          rw t (
            ap (λ r. r >>= λ (l, w1). trim_pages k (u32 (lpn + 1)) 0 l w1)
              (trim_page-whole lpn (suc chunks_per_page) sect remaining w (omega arith)
                (omega arith) (omega arith))
            ∙ >>=-assoc (trim_whole n1 (first_whole s) w) (λ w1. some (left, w1))
                (λ (l, w1). trim_pages k (u32 (lpn + 1)) 0 l w1)
            ∙ >>=-same (trim_whole n1 (first_whole s) w) (λ w1.
              ap (λ p. trim_pages k p 0 left w1) lpn'
              ∙ trim_pages-whole k (lpn + 1) 0 left w1 (omega arith) (omega arith) (omega arith)
              ∙ trim_whole-move n2 (first_whole next) (first_whole s + n1) w1 (ground arith))
            ∙ trim_whole-split n1 n2 (first_whole s) w
            ∙ ap (λ n. trim_whole n (first_whole s) w) (ground arith))
    ]

-- `trimRange` on a range in the device is the trimming of the chunks that lie in it as a whole, from
-- the first one on, and nothing else: a part of a chunk at either end of the range is left alone.
pub trim_range-eq-trim_whole :
    (lba n : ℕ) (w : World)
    → lba + n ≤ num_lsectors
    → trim_range lba n w ≡ trim_whole (n_whole lba (lba + n)) (first_whole lba) w
unfolding trim_range
trim_range-eq-trim_whole lba n w fits =
    let s : lba / sectors_per_page * sectors_per_page + lba % sectors_per_page ≡ lba =
      omega arith in
    trim_pages-whole (suc n) (lba / sectors_per_page) (lba % sectors_per_page) n w (omega arith)
      (omega arith) (omega arith)
    ∙ ap (λ x. trim_whole (n_whole x (x + n)) (first_whole x) w) s
