-- ===== src/Base/Text.antt =====
-- The parts of <string.h>, <ctype.h>, <stdlib.h> and of C++ streams that the program uses, on
-- texts as lists of byte values. A C string is its bytes without the terminator.
use Prim.Native.Nat.{ℕ, zero, suc, ◌+◌, ◌-◌, ◌*◌, ◌/◌, ◌%◌, ◌^◌, ◌<◌}
use mathlib.Core.Path.{◌≡◌, refl, ap, ◌∙◌}
use mathlib.Core.Logic.{inl, inr, ◌≢◌}
use mathlib.Core.Bool.{Bool, true, false, ◌&&◌, ◌||◌}
use mathlib.Core.Option.{Option, none, some}
use mathlib.Core.List.{[], ◌∷◌, ◌++◌}
use native.Mathlib.Omega.{arith}
use whitefield.Base.Tests.{Bool-cases, leb, ltb, ◌==◌, if◌then◌else◌}
use whitefield.Base.Lists.{Bytes, All}
use whitefield.Base.Int.{ℤ, pos, neg, to_int, in_int, to_int-small}

abbrev pub is_space : ℕ → Bool
is_space c = c == 32 || (leb 9 c && leb c 13)

abbrev pub is_digit : ℕ → Bool
is_digit c = leb b'0' c && leb c b'9'

abbrev pub tolower : ℕ → ℕ
tolower c = if leb b'A' c && leb c b'Z' then c + 32 else c

-- `strchr(s, c)` as the text behind the first `c`; `none` is the null pointer.
abbrev pub behind : ℕ → Bytes → Option Bytes
behind c [] = none
behind c (x ∷ s) = if x == c then some s else behind c s

-- The text before the first `c`, or all of it.
abbrev pub before : ℕ → Bytes → Bytes
before c [] = []
before c (x ∷ s) = if x == c then [] else x ∷ before c s

-- What `getline` leaves in the stream when it has read up to `c`.
abbrev pub after : ℕ → Bytes → Bytes
after c [] = []
after c (x ∷ s) = if x == c then s else after c s

-- `getline(stream, out, c)`: the text up to `c`, and what is left; `none` when the stream is at its
-- end and the read fails.
abbrev pub getline : ℕ → Bytes → Option (Bytes × Bytes)
getline c [] = none
getline c (x ∷ s) = some (before c (x ∷ s), after c (x ∷ s))

abbrev pub skip_spaces : Bytes → Bytes
skip_spaces [] = []
skip_spaces (c ∷ s) = if is_space c then skip_spaces s else c ∷ s

-- The digits at the head of a text, read behind the number so far.
abbrev pub digits_value : ℕ → Bytes → ℕ
digits_value n [] = n
digits_value n (c ∷ s) = if is_digit c then digits_value (n * 10 + (c - b'0')) s else n

abbrev pub signed_value : Bytes → ℤ
signed_value [] = pos 0
signed_value (c ∷ s) =
    if c == b'-'
    then neg (digits_value 0 s)
    else if c == b'+'
    then pos (digits_value 0 s)
    else pos (digits_value 0 (c ∷ s))

-- `atoi` of the GNU library: `strtol`, which stops at the ends of a long of 64 bits, and the
-- conversion to an int of 32 bits.
abbrev pub atoi : Bytes → ℤ
atoi s = to_int (signed_value (skip_spaces s))

abbrev starts_with_digit : Bytes → Bool
starts_with_digit [] = false
starts_with_digit (c ∷ s) = is_digit c

abbrev has_number : Bytes → Bool
has_number [] = false
has_number (c ∷ s) = if c == b'-' || c == b'+' then starts_with_digit s else is_digit c

-- `stoi(s)`: `none` is the exception for a text that does not begin with a number, or whose number
-- does not fit an int.
abbrev pub stoi : Bytes → Option ℤ
stoi s = if has_number (skip_spaces s) then in_int (signed_value (skip_spaces s)) else none

-- `s1 == s2`, and whether `strncasecmp(s, prefix, length of prefix)` is 0.
abbrev pub text_eq : Bytes → Bytes → Bool
text_eq [] [] = true
text_eq (x ∷ s) (y ∷ t) = x == y && text_eq s t
text_eq _ _ = false

abbrev pub starts_nocase : Bytes → Bytes → Bool
starts_nocase [] s = true
starts_nocase (p ∷ ps) [] = false
starts_nocase (p ∷ ps) (c ∷ s) = tolower p == tolower c && starts_nocase ps s

abbrev pub starts_with : Bytes → Bytes → Bool
starts_with [] s = true
starts_with (p ∷ ps) [] = false
starts_with (p ∷ ps) (c ∷ s) = p == c && starts_with ps s

-- `strcasecmp(s, t) == 0`.
abbrev pub nocase_eq : Bytes → Bytes → Bool
nocase_eq [] [] = true
nocase_eq (x ∷ s) (y ∷ t) = tolower x == tolower y && nocase_eq s t
nocase_eq _ _ = false

abbrev pub IsDigits : Bytes → Type 0
IsDigits s = All (λ c. is_digit c ≡ true) s

abbrev pub Lacks : ℕ → Bytes → Type 0
Lacks b s = All (λ c. c ≢ b) s

-- The same as a test.
abbrev pub lacks : ℕ → Bytes → Bool
lacks c [] = true
lacks c (x ∷ s) = if x == c then false else lacks c s

pub Lacks-lacks : (c : ℕ) (s : Bytes) → lacks c s ≡ true → Lacks c s
Lacks-lacks c [] h = tt
Lacks-lacks c (x ∷ s) h = elim (Bool-cases (x == c)) [
  | inl same ↦ let wrong = rw same at h in cc
  | inr other ↦ ((λ e. ground arith), Lacks-lacks c s (rw other at h))
]

-- The number that a text of digits spells, behind `n`.
abbrev pub value : ℕ → Bytes → ℕ
value n [] = n
value n (c ∷ s) = value (n * 10 + (c - b'0')) s

pub before-append : (c : ℕ) (p s : Bytes) → Lacks c p → before c (p ++ c ∷ s) ≡ p
before-append c [] s h = ground arith
before-append c (x ∷ p) s (hx, h) = ground (arith, before-append c p s h)

pub behind-append : (c : ℕ) (p s : Bytes) → Lacks c p → behind c (p ++ c ∷ s) ≡ some s
behind-append c [] s h = ground arith
behind-append c (x ∷ p) s (hx, h) = ground (arith, behind-append c p s h)

pub behind-Lacks : (c : ℕ) (s : Bytes) → Lacks c s → behind c s ≡ none
behind-Lacks c [] h = refl
behind-Lacks c (x ∷ s) (hx, h) = ground (arith, behind-Lacks c s h)

-- Digits end where the next byte is no digit.
pub digits_value-append :
    (n c : ℕ) (ds s : Bytes)
    → IsDigits ds
    → is_digit c ≡ false
    → digits_value n (ds ++ c ∷ s) ≡ value n ds
digits_value-append n c [] s h nc = rw nc refl
digits_value-append n c (d ∷ ds) s (hd, h) nc =
    rw hd (digits_value-append (n * 10 + (d - b'0')) c ds s h nc)

pub text_eq_refl : (s : Bytes) → text_eq s s ≡ true
text_eq_refl [] = refl
text_eq_refl (x ∷ s) = ground (arith, text_eq_refl s)

pub text_eq_sound : (s t : Bytes) → text_eq s t ≡ true → s ≡ t
text_eq_sound [] [] h = refl
text_eq_sound [] (y ∷ t) h = cc
text_eq_sound (x ∷ s) [] h = cc
text_eq_sound (x ∷ s) (y ∷ t) h = ground (arith, text_eq_sound s t)

pub digits-Lacks : (c : ℕ) (ds : Bytes) → is_digit c ≡ false → IsDigits ds → Lacks c ds
digits-Lacks c [] nc h = tt
digits-Lacks c (d ∷ ds) nc (hd, h) = ((λ e. differs e), digits-Lacks c ds nc h)
  where
    differs : d ≢ c
    differs e = ground arith

-- `atoi` of digits that some other byte ends, for a number that fits an int.
pub atoi-digits :
    (d c : ℕ) (ds s : Bytes)
    → IsDigits (d ∷ ds)
    → is_digit c ≡ false
    → value 0 (d ∷ ds) < 2 ^ 31
    → atoi ((d ∷ ds) ++ c ∷ s) ≡ pos (value 0 (d ∷ ds))
atoi-digits d c ds s (hd, h) nc small =
    let read : signed_value (skip_spaces ((d ∷ ds) ++ c ∷ s)) ≡ pos (value 0 (d ∷ ds)) =
      ground (arith, digits_value-append (d - b'0') c ds s h nc) in
    ap to_int read ∙ to_int-small (value 0 (d ∷ ds)) small

pub behind-digits :
    (ds es : Bytes) (c : ℕ) → IsDigits ds → is_digit c ≡ false → behind c (ds ++ c ∷ es) ≡ some es
behind-digits ds es c h nc = behind-append c ds es (digits-Lacks c ds nc h)

-- "%d" of a number that is not negative.
unfoldable pub decimal_digits : ℕ → ℕ → Bytes
decimal_digits zero n = []
decimal_digits (suc fuel) n =
    let high = decimal_digits fuel (n / 10) in
    if ltb n 10 then (n + b'0') ∷ [] else high ++ (n % 10 + b'0') ∷ []

abbrev pub decimal : ℕ → Bytes
decimal n = decimal_digits (suc n) n
