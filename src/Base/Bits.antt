-- ===== src/Base/Bits.antt =====
-- Laws of the bit operations at variables: the digit recursion, bounds, and disjoint halves.
use Prim.Native.Nat.{
  ℕ, zero, suc, ◌+◌, ◌*◌, ◌/◌, ◌%◌, ◌^◌, ◌≤◌, ◌<◌, max, bit_or, bit_xor, digits, differ,
  bit_or-bitwise, bit_xor-bitwise,
}
use mathlib.Core.Path.{◌≡◌, refl, sym, ap, ◌∙◌}
use native.Mathlib.Nat.{pow-suc}
use native.Mathlib.Omega.{arith}

-- The digits of two numbers, from the lowest, as long as the first number has any.
module _ (op : ℕ → ℕ → ℕ) where
  abbrev walk : ℕ → ℕ → ℕ → ℕ
  walk fuel x y = digits (λ rest. rest) op fuel x y

  walk_end : (fuel y : ℕ) → walk fuel zero y ≡ y
  walk_end zero y = refl
  walk_end (suc fuel) y = refl

  -- Fuel above the first number changes nothing.
  walk_more : (x fuel spare y : ℕ) → x ≤ fuel → x ≤ spare → walk fuel x y ≡ walk spare x y
  walk_more zero fuel spare y enough enough' = walk_end fuel y ∙ sym (walk_end spare y)
  walk_more (suc x) (suc fuel) (suc spare) y enough enough' =
      ap (λ low. low * 2 + op (suc x % 2) (y % 2))
        (walk_more (suc x / 2) fuel spare (y / 2) (omega arith) (omega arith))
  walk_more (suc x) zero spare y enough enough' = absurd (omega arith)
  walk_more (suc x) (suc fuel) zero y enough enough' = absurd (omega arith)

  walk_digit :
      (x y : ℕ)
      → walk (suc x) (suc x) y ≡ walk (suc x / 2) (suc x / 2) (y / 2) * 2 + op (suc x % 2) (y % 2)
  walk_digit x y =
      ap (λ low. low * 2 + op (suc x % 2) (y % 2))
        (walk_more (suc x / 2) x (suc x / 2) (y / 2) (omega arith) (omega arith))

pub zero-bit_xor : (b : ℕ) → bit_xor 0 b ≡ b
zero-bit_xor b = bit_xor-bitwise 0 b

pub bit_xor_digit : (a b : ℕ) → bit_xor a b ≡ bit_xor (a / 2) (b / 2) * 2 + differ (a % 2) (b % 2)
bit_xor_digit (suc a) b =
    rw (bit_xor-bitwise (suc a) b, bit_xor-bitwise (suc a / 2) (b / 2)) (walk_digit differ a b)
bit_xor_digit zero b = omega (arith, zero-bit_xor (b / 2), zero-bit_xor b)

pub zero-bit_or : (b : ℕ) → bit_or 0 b ≡ b
zero-bit_or b = bit_or-bitwise 0 b

pub bit_or_digit : (a b : ℕ) → bit_or a b ≡ bit_or (a / 2) (b / 2) * 2 + max (a % 2) (b % 2)
bit_or_digit (suc a) b =
    rw (bit_or-bitwise (suc a) b, bit_or-bitwise (suc a / 2) (b / 2)) (walk_digit max a b)
bit_or_digit zero b = omega (arith, zero-bit_or (b / 2), zero-bit_or b)

differ_bit : (x y : ℕ) → x < 2 → y < 2 → differ x y < 2
differ_bit zero y p q = q
differ_bit (suc zero) zero p q = omega arith
differ_bit (suc zero) (suc zero) p q = omega arith
differ_bit (suc zero) (suc (suc y)) p q = absurd (omega arith)
differ_bit (suc (suc x)) y p q = absurd (omega arith)

-- Two numbers of k bits have an exclusive or of k bits.
pub bit_xor-lt : (k a b : ℕ) → a < 2 ^ k → b < 2 ^ k → bit_xor a b < 2 ^ k
bit_xor-lt zero zero zero p q = omega (arith, zero-bit_xor 0)
bit_xor-lt zero zero (suc b) p q = absurd (omega arith)
bit_xor-lt zero (suc a) b p q = absurd (omega arith)
bit_xor-lt (suc k) a b p q =
    let e : 2 ^ suc k ≡ 2 ^ k * 2 = pow-suc 2 k in
    omega (
      arith,
      e,
      bit_xor_digit a b,
      bit_xor-lt k (a / 2) (b / 2) (omega (arith, e)) (omega (arith, e)),
      differ_bit (a % 2) (b % 2) (omega arith) (omega arith),
    )

bit_or_halves :
    (k h a : ℕ)
    → a < 2 ^ k * 2
    → bit_or (h * 2 ^ k) (a / 2) ≡ h * 2 ^ k + a / 2
    → bit_or (h * (2 ^ k * 2) / 2) (a / 2) ≡ h * 2 ^ k + a / 2
bit_or_halves k h a p ih = let e : h * (2 ^ k * 2) / 2 ≡ h * 2 ^ k = omega arith in rw e ih

bit_or-zero_fuel : (n a : ℕ) → a ≤ n → bit_or a 0 ≡ a
bit_or-zero_fuel n zero p = zero-bit_or 0
bit_or-zero_fuel zero (suc a) p = absurd (omega arith)
bit_or-zero_fuel (suc n) (suc a) p =
    omega (arith, bit_or_digit (suc a) 0, bit_or-zero_fuel n (suc a / 2) (omega arith))

pub bit_or-zero : (a : ℕ) → bit_or a 0 ≡ a
bit_or-zero a = bit_or-zero_fuel a a (omega arith)

-- A field above k bits and a value of k bits do not meet, so their or is their sum.
pub bit_or-disjoint : (k h a : ℕ) → a < 2 ^ k → bit_or (h * 2 ^ k) a ≡ h * 2 ^ k + a
bit_or-disjoint zero h zero p = omega (arith, bit_or-zero (h * 1))
bit_or-disjoint zero h (suc a) p = absurd (omega arith)
bit_or-disjoint (suc k) h a p =
    let e : 2 ^ suc k ≡ 2 ^ k * 2 = pow-suc 2 k in
    rw e (
      omega (
        arith,
        bit_or_digit (h * (2 ^ k * 2)) a,
        bit_or_halves k h a (omega (arith, e)) (bit_or-disjoint k h (a / 2) (omega (arith, e))),
      ))

differ-zero : (x : ℕ) → differ x 0 ≡ x
differ-zero zero = refl
differ-zero (suc x) = refl

bit_xor-zero_fuel : (n a : ℕ) → a ≤ n → bit_xor a 0 ≡ a
bit_xor-zero_fuel n zero p = zero-bit_xor 0
bit_xor-zero_fuel zero (suc a) p = absurd (omega arith)
bit_xor-zero_fuel (suc n) (suc a) p = omega (
  arith,
  bit_xor_digit (suc a) 0,
  bit_xor-zero_fuel n (suc a / 2) (omega arith),
  differ-zero (suc a % 2),
)

differ_same : (x y : ℕ) → x ≡ y → differ x y ≡ 0
differ_same zero y e = sym e
differ_same (suc x) zero e = absurd (omega arith)
differ_same (suc x) (suc y) e = differ_same x y (omega arith)

-- An exclusive or with its own low k bits clears them.
pub bit_xor-low : (k h l : ℕ) → l < 2 ^ k → bit_xor (h * 2 ^ k + l) l ≡ h * 2 ^ k
bit_xor-low zero h zero p = omega (arith, bit_xor-zero_fuel (h * 1 + 0) (h * 1 + 0) (omega arith))
bit_xor-low zero h (suc l) p = absurd (omega arith)
bit_xor-low (suc k) h l p =
    let e : 2 ^ suc k ≡ 2 ^ k * 2 = pow-suc 2 k in
    let m : ℕ = h * (2 ^ k * 2) + l in
    let half : m / 2 ≡ h * 2 ^ k + l / 2 = omega arith in
    let ih : bit_xor (m / 2) (l / 2) ≡ h * 2 ^ k =
      rw half (bit_xor-low k h (l / 2) (omega (arith, e))) in
    rw e (omega (arith, bit_xor_digit m l, differ_same (m % 2) (l % 2) (omega arith), ih))

max_odd : (x y : ℕ) → x ≡ 1 → y < 2 → max x y ≡ 1
max_odd x zero e h = rw e refl
max_odd x (suc zero) e h = rw e refl
max_odd x (suc (suc y)) e h = absurd (omega arith)

-- An or with an odd number is odd.
pub bit_or-odd : (a b : ℕ) → a % 2 ≡ 1 → bit_or a b % 2 ≡ 1
bit_or-odd a b h = omega (arith, bit_or_digit a b, max_odd (a % 2) (b % 2) h (omega arith))
