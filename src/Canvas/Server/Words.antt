-- ===== src/Canvas/Server/Words.antt =====
-- Words and lines in Python's texts, as canvas/canvas.py reads them.
use whitefield.Base.{
  ℕ, ◌<◌, ◌≡◌, refl, ap, ◌∙◌, true, false, [], ◌∷◌, ◌++◌, Bytes, length, All, append_assoc,
  append-nil, ◌==◌, arith,
}
use whitefield.Base.Text.{Lacks, IsDigits}
use whitefield.Canvas.Server.Strings.{
  is_white, skip_front, with_front, skip_back, strip, with_word, split_words, newlines,
  lines_behind,
}

-- Bytes that are shown: no white space, and ASCII.
abbrev pub IsShown : ℕ → Type 0
IsShown c = (32 < c) × (c < 127)

pub shown-white : (c : ℕ) → IsShown c → is_white c ≡ false
shown-white c h = ground arith

pub digits-AreShown : (s : Bytes) → IsDigits s → All IsShown s
digits-AreShown [] h = tt
digits-AreShown (c ∷ s) (d, h) = (ground arith, digits-AreShown s h)

-- A word that is shown, up to the white space behind it.
pub split_words-word :
    (word s rest : Bytes) (c : ℕ)
    → All IsShown s
    → is_white c ≡ true
    → split_words word (s ++ c ∷ rest) ≡ with_word (word ++ s) (split_words [] rest)
unfolding split_words
split_words-word word [] rest c h w = rw (w, split_words, append-nil word) refl
split_words-word word (x ∷ s) rest c (hx, h) w =
    let black : is_white x ≡ false = shown-white x hx in
    rw (black, split_words)
      (split_words-word (word ++ x ∷ []) s rest c h w
        ∙ ap (λ u. with_word u (split_words [] rest)) (append_assoc word (x ∷ []) s))

pub split_words-last :
    (word s : Bytes) → All IsShown s → split_words word s ≡ with_word (word ++ s) []
unfolding split_words
split_words-last word [] h = rw (append-nil word) refl
split_words-last word (x ∷ s) (hx, h) =
    let black : is_white x ≡ false = shown-white x hx in
    rw (black, split_words)
      (split_words-last (word ++ x ∷ []) s h
        ∙ ap (λ u. with_word u []) (append_assoc word (x ∷ []) s))

-- A text without '\r' is read as it is.
pub newlines-Lacks : (s : Bytes) → Lacks 13 s → newlines false s ≡ s
newlines-Lacks [] h = refl
newlines-Lacks (c ∷ s) (hc, h) =
    let other : (c == 13) ≡ false = ground arith in
    rw (other, newlines) (ap (λ r. c ∷ r) (newlines-Lacks s h))

pub lines_behind-line :
    (line s rest : Bytes)
    → Lacks 10 s
    → lines_behind line (s ++ 10 ∷ rest) ≡ (line ++ s) ∷ lines_behind [] rest
unfolding lines_behind
lines_behind-line line [] rest h = rw (append-nil line) refl
lines_behind-line line (c ∷ s) rest (hc, h) =
    let other : (c == 10) ≡ false = ground arith in
    rw (other, lines_behind)
      (lines_behind-line (line ++ c ∷ []) s rest h
        ∙ ap (λ u. u ∷ lines_behind [] rest) (append_assoc line (c ∷ []) s))

-- One word, where it is not empty.
pub split_words-first :
    (s rest : Bytes) (c : ℕ)
    → All IsShown s
    → 0 < length s
    → is_white c ≡ true
    → split_words [] (s ++ c ∷ rest) ≡ s ∷ split_words [] rest
split_words-first [] rest c h some_bytes w = absurd (omega arith)
split_words-first (x ∷ s) rest c h some_bytes w = split_words-word [] (x ∷ s) rest c h w

pub split_words-only : (s : Bytes) → All IsShown s → 0 < length s → split_words [] s ≡ s ∷ []
split_words-only [] h some_bytes = absurd (omega arith)
split_words-only (x ∷ s) h some_bytes = split_words-last [] (x ∷ s) h

-- A text without white space is not stripped.
pub strip-black : (s : Bytes) → All (λ c. is_white c ≡ false) s → strip s ≡ s
strip-black [] h = refl
strip-black (c ∷ s) (hc, h) = rw (hc, skip_front) (kept (c ∷ s) (hc, h))
  where
    kept : (s : Bytes) → All (λ c. is_white c ≡ false) s → skip_back is_white s ≡ s
    kept [] h = refl
    kept (c ∷ []) (hc, h) = rw (hc, with_front) refl
    kept (c ∷ d ∷ s) (hc, h) = ap (with_front is_white c) (kept (d ∷ s) h)
