-- ===== src/Base/Int.antt =====
-- C's int as an integer over the native numbers. `negsuc n` is -(n + 1).
use Prim.Native.Nat.{ℕ, zero, suc, ◌-◌, ◌%◌, ◌^◌, ◌<◌, min}
use mathlib.Core.Path.{◌≡◌, refl, ap, ◌∙◌}
use mathlib.Core.Option.{Option, none, some}
use native.Mathlib.Omega.{arith}
use mathlib.Core.Bool.{Bool, true, false}
use whitefield.Base.Tests.{ltb, leb, if◌then◌else◌}

pub data ℤ : Type 0 where
  pos : ℕ → ℤ
  negsuc : ℕ → ℤ

abbrev pub neg : ℕ → ℤ
neg zero = pos 0
neg (suc n) = negsuc n

-- `a < b` and `a <= b` as the program tests them.
infix 50 ◌<ℤ◌ ◌≤ℤ◌
abbrev pub ◌<ℤ◌ : ℤ → ℤ → Bool
pos a <ℤ pos b = ltb a b
pos a <ℤ negsuc b = false
negsuc a <ℤ pos b = true
negsuc a <ℤ negsuc b = ltb b a

abbrev pub ◌≤ℤ◌ : ℤ → ℤ → Bool
pos a ≤ℤ pos b = leb a b
pos a ≤ℤ negsuc b = false
negsuc a ≤ℤ pos b = true
negsuc a ≤ℤ negsuc b = leb b a

-- n - 1 for an int that is not negative.
abbrev pub pred_of : ℕ → ℤ
pred_of zero = negsuc 0
pred_of (suc n) = pos n

-- `a < 0` and `a > 0`.
abbrev pub is_neg : ℤ → Bool
is_neg (pos n) = false
is_neg (negsuc n) = true

abbrev pub is_positive : ℤ → Bool
is_positive (pos zero) = false
is_positive (pos (suc n)) = true
is_positive (negsuc n) = false

-- An int as 16 bits.
abbrev pub u16_of : ℤ → ℕ
u16_of (pos n) = n % 2 ^ 16
u16_of (negsuc n) = 2 ^ 16 - 1 - n % 2 ^ 16

-- A number as the int of 32 bits that has its last bits.
abbrev wrapped : ℕ → ℤ
wrapped m = if ltb m (2 ^ 31) then pos m else negsuc (2 ^ 32 - 1 - m)

abbrev wrapped_below : ℕ → ℤ
wrapped_below m = if ltb m (2 ^ 31) then negsuc m else pos (2 ^ 32 - 1 - m)

-- A number that is cut to a long of 64 bits, as an int of 32 bits.
unfoldable pub to_int : ℤ → ℤ
to_int (pos n) = wrapped (min n (2 ^ 63 - 1) % 2 ^ 32)
to_int (negsuc n) = wrapped_below (min n (2 ^ 63 - 1) % 2 ^ 32)

-- A number that fits an int.
abbrev pub in_int : ℤ → Option ℤ
in_int (pos n) = if ltb n (2 ^ 31) then some (pos n) else none
in_int (negsuc n) = if ltb n (2 ^ 31) then some (negsuc n) else none

pub to_int-small : (n : ℕ) → n < 2 ^ 31 → to_int (pos n) ≡ pos n
unfolding to_int
to_int-small n h =
    let short : min n (2 ^ 63 - 1) ≡ n = ground arith in
    let whole : n % 2 ^ 32 ≡ n = omega arith in
    let low : ltb n (2 ^ 31) ≡ true = ground arith in
    ap (λ m. wrapped (m % 2 ^ 32)) short ∙ ap wrapped whole ∙ rw low refl
