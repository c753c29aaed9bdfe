-- ===== src/Base/Decimal.antt =====
-- Numbers in decimal digits, as `printf` and Python's `str` write them.
use Prim.Native.Nat.{ℕ, zero, suc, ◌+◌, ◌*◌, ◌-◌, ◌/◌, ◌%◌, ◌<◌, ◌≤◌}
use mathlib.Core.Path.{◌≡◌, refl, sym, subst}
use mathlib.Core.Logic.{inl, inr}
use mathlib.Core.Bool.{true}
use mathlib.Core.List.{[], ◌∷◌, ◌++◌}
use native.Mathlib.Omega.{arith}
use whitefield.Base.Tests.{Bool-cases, ltb}
use whitefield.Base.Lists.{Bytes, All-append, length, length-append}
use whitefield.Base.Text.{decimal, decimal_digits, is_digit, value, IsDigits}

value-append : (n : ℕ) (ds : Bytes) (c : ℕ) → value n (ds ++ c ∷ []) ≡ value n ds * 10 + (c - b'0')
value-append n [] c = refl
value-append n (d ∷ ds) c = value-append (n * 10 + (d - b'0')) ds c

digit-Is : (n : ℕ) → n < 10 → is_digit (n + b'0') ≡ true
digit-Is n h = ground arith

pub decimal_digits-value :
    (fuel n : ℕ)
    → n < fuel
    → (value 0 (decimal_digits fuel n) ≡ n) × IsDigits (decimal_digits fuel n)
unfolding decimal_digits
decimal_digits-value zero n h = absurd (omega arith)
decimal_digits-value (suc fuel) n h = elim (Bool-cases (ltb n 10)) [
  | inl small ↦ rw small (omega arith, (digit-Is n (ground arith), tt))
  | inr large ↦
      let (ih, ds) = decimal_digits-value fuel (n / 10) (ground arith) in
      rw large (
        omega (arith, ih, value-append 0 (decimal_digits fuel (n / 10)) (n % 10 + b'0')),
        All-append (λ c. is_digit c ≡ true) (decimal_digits fuel (n / 10)) ((n % 10 + b'0') ∷ []) ds
            (digit-Is (n % 10) (omega arith), tt),
      )
]

pub decimal-IsDigits : (n : ℕ) → IsDigits (decimal n)
decimal-IsDigits n = (decimal_digits-value (suc n) n (omega arith)).1

pub value-decimal : (n : ℕ) → value 0 (decimal n) ≡ n
value-decimal n = (decimal_digits-value (suc n) n (omega arith)).0

-- There is a first digit.
pub decimal-cons : (n : ℕ) → (d : ℕ) × (ds : Bytes) × (decimal n ≡ d ∷ ds)
unfolding decimal_digits
decimal-cons n = elim (Bool-cases (ltb n 10)) [
  | inl small ↦ (n + b'0', [], rw small refl)
  | inr large ↦ rw large (split (decimal_digits n (n / 10)))
]
  where
    split : (high : Bytes) → (d : ℕ) × (ds : Bytes) × (high ++ (n % 10 + b'0') ∷ [] ≡ d ∷ ds)
    split [] = (n % 10 + b'0', [], refl)
    split (c ∷ high) = (c, high ++ (n % 10 + b'0') ∷ [], refl)

-- A number of at most `suc k` digits.
abbrev pub FitsDigits : ℕ → ℕ → Type 0
FitsDigits zero n = n < 10
FitsDigits (suc k) n = FitsDigits k (n / 10)

pub length-decimal_digits : (fuel k n : ℕ) → FitsDigits k n → length (decimal_digits fuel n) ≤ suc k
unfolding decimal_digits
length-decimal_digits zero k n h = omega arith
length-decimal_digits (suc fuel) zero n h =
    let one : ltb n 10 ≡ true = ground arith in rw one (omega arith)
length-decimal_digits (suc fuel) (suc k) n h = elim (Bool-cases (ltb n 10)) [
  | inl one ↦ rw one (omega arith)
  | inr more ↦ rw more (
      omega (
        arith,
        length-append (decimal_digits fuel (n / 10)) ((n % 10 + b'0') ∷ []),
        length-decimal_digits fuel k (n / 10) h,
      ))
]

FitsDigits-zero : (k : ℕ) → FitsDigits k 0
FitsDigits-zero zero = omega arith
FitsDigits-zero (suc k) = FitsDigits-zero k

decimal_digits-nonempty : (fuel n : ℕ) → n < fuel → 0 < length (decimal_digits fuel n)
unfolding decimal_digits
decimal_digits-nonempty zero n h = absurd (omega arith)
decimal_digits-nonempty (suc fuel) n h = elim (Bool-cases (ltb n 10)) [
  | inl one ↦ rw one (omega arith)
  | inr more ↦
      let size = length-append (decimal_digits fuel (n / 10)) ((n % 10 + b'0') ∷ []) in
      rw more (omega (arith, size))
]

-- A text of few digits spells a small number.
pub FitsDigits-length :
    (fuel k n : ℕ) → n < fuel → length (decimal_digits fuel n) ≤ suc k → FitsDigits k n
unfolding decimal_digits
FitsDigits-length zero k n h short = absurd (omega arith)
FitsDigits-length (suc fuel) zero n h short = elim (Bool-cases (ltb n 10)) [
  | inl one ↦ ground arith
  | inr more ↦
      let some_digits = decimal_digits-nonempty fuel (n / 10) (ground arith) in
      let size = length-append (decimal_digits fuel (n / 10)) ((n % 10 + b'0') ∷ []) in
      let long : length (decimal_digits fuel (n / 10) ++ (n % 10 + b'0') ∷ []) ≤ 1 =
        rw more at short in
      absurd (omega (arith, size, some_digits))
]
FitsDigits-length (suc fuel) (suc k) n h short = elim (Bool-cases (ltb n 10)) [
  | inl one ↦
      let low : n / 10 ≡ 0 = ground arith in subst (FitsDigits k) (sym low) (FitsDigits-zero k)
  | inr more ↦
      let size = length-append (decimal_digits fuel (n / 10)) ((n % 10 + b'0') ∷ []) in
      let long : length (decimal_digits fuel (n / 10) ++ (n % 10 + b'0') ∷ []) ≤ suc (suc k) =
        rw more at short in
      FitsDigits-length fuel k (n / 10) (ground arith) (omega (arith, size))
]
