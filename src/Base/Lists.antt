-- ===== src/Base/Lists.antt =====
-- Lists measured and indexed by native numbers, under the library's names, and texts as lists of
-- byte values.
use Prim.Native.Nat.{ℕ, zero, suc, ◌+◌, ◌<◌, ◌≤◌, min}
use Prim.Native.Char.{code}
use Prim.Native.String.{String}
use mathlib.Core.Path.{◌≡◌, refl, ap}
use mathlib.Core.List.{List, [], ◌∷◌, ◌++◌, map}
use mathlib.Core.Option
use mathlib.Core.Logic.{◌≢◌}
use mathlib.Core.Option.{Option, none, some, some_inj}
use native.Mathlib.Omega.{arith}

abbrev pub Bytes : Type 0
Bytes = List ℕ

-- The code points of a literal: its bytes, as the texts of the program are ASCII.
abbrev pub codes : String → Bytes
codes String.[] = []
codes (String.◌∷◌ c s) = code c ∷ codes s

module _ {ℓ} {A : Type ℓ} where
  abbrev pub length : List A → ℕ
  length [] = 0
  length (x ∷ xs) = suc (length xs)

  abbrev pub get_elem? : List A → ℕ → Option A
  get_elem? [] i = none
  get_elem? (x ∷ xs) zero = some x
  get_elem? (x ∷ xs) (suc i) = get_elem? xs i

  -- A write out of bounds changes nothing.
  abbrev pub set : List A → ℕ → A → List A
  set [] i v = []
  set (x ∷ xs) zero v = v ∷ xs
  set (x ∷ xs) (suc i) v = x ∷ set xs i v

  abbrev pub take : ℕ → List A → List A
  take zero xs = []
  take (suc n) [] = []
  take (suc n) (x ∷ xs) = x ∷ take n xs

  abbrev pub drop : ℕ → List A → List A
  drop zero xs = xs
  drop (suc n) [] = []
  drop (suc n) (x ∷ xs) = drop n xs

  abbrev pub replicate : ℕ → A → List A
  replicate zero a = []
  replicate (suc n) a = a ∷ replicate n a

  pub length-append : (xs ys : List A) → length (xs ++ ys) ≡ length xs + length ys
  length-append [] ys = omega arith
  length-append (x ∷ xs) ys = omega (arith, length-append xs ys)

  pub length-take : (n : ℕ) (xs : List A) → length (take n xs) ≡ min n (length xs)
  length-take zero xs = omega arith
  length-take (suc n) [] = omega arith
  length-take (suc n) (x ∷ xs) = omega (arith, length-take n xs)

  pub length-replicate : (n : ℕ) (a : A) → length (replicate n a) ≡ n
  length-replicate zero a = refl
  length-replicate (suc n) a = ap suc (length-replicate n a)

  pub take-all : (n : ℕ) (xs : List A) → length xs ≤ n → take n xs ≡ xs
  take-all zero [] h = refl
  take-all zero (x ∷ xs) h = absurd (omega arith)
  take-all (suc n) [] h = refl
  take-all (suc n) (x ∷ xs) h = ap (λ r. x ∷ r) (take-all n xs (omega arith))

module _ {ℓ κ} {A : Type ℓ} where
  abbrev pub All : (A → Type κ) → List A → Type κ
  All P [] = Unit
  All P (x ∷ xs) = P x × All P xs

pub All-append {ℓ κ} :
    {A : Type ℓ} (P : A → Type κ) (xs ys : List A) → All P xs → All P ys → All P (xs ++ ys)
All-append P [] ys hx hy = hy
All-append P (x ∷ xs) ys (px, hx) hy = (px, All-append P xs ys hx hy)

pub All-map {ℓ κ μ} :
    {A : Type ℓ} (P : A → Type κ) (Q : A → Type μ) (f : (a : A) → P a → Q a) (xs : List A)
    → All P xs
    → All Q xs
All-map P Q f [] h = tt
All-map P Q f (x ∷ xs) (px, h) = (f x px, All-map P Q f xs h)

pub All-intro {ℓ κ} : {A : Type ℓ} (P : A → Type κ) (f : (a : A) → P a) (xs : List A) → All P xs
All-intro P f [] = tt
All-intro P f (x ∷ xs) = (f x, All-intro P f xs)

abbrev pub modify {ℓ} : {A : Type ℓ} → ℕ → (A → A) → List A → List A
modify i f [] = []
modify zero f (x ∷ xs) = f x ∷ xs
modify (suc i) f (x ∷ xs) = x ∷ modify i f xs

module _ {A : Type 0} (f : A → A) where
  pub length-modify : (i : ℕ) (xs : List A) → length (modify i f xs) ≡ length xs
  length-modify i [] = refl
  length-modify zero (x ∷ xs) = refl
  length-modify (suc i) (x ∷ xs) = ap suc (length-modify i xs)

  pub get_elem?-modify_self :
      (i : ℕ) (xs : List A) → get_elem? (modify i f xs) i ≡ Option.map f (get_elem? xs i)
  get_elem?-modify_self i [] = refl
  get_elem?-modify_self zero (x ∷ xs) = refl
  get_elem?-modify_self (suc i) (x ∷ xs) = get_elem?-modify_self i xs

  pub get_elem?-modify_ne :
      (i j : ℕ) (xs : List A) → i ≢ j → get_elem? (modify i f xs) j ≡ get_elem? xs j
  get_elem?-modify_ne i j [] h = refl
  get_elem?-modify_ne zero zero (x ∷ xs) h = absurd (h refl)
  get_elem?-modify_ne zero (suc j) (x ∷ xs) h = refl
  get_elem?-modify_ne (suc i) zero (x ∷ xs) h = refl
  get_elem?-modify_ne (suc i) (suc j) (x ∷ xs) h = get_elem?-modify_ne i j xs (λ e. h (ap suc e))

module _ {ℓ} {A : Type ℓ} where
  pub length-set : (xs : List A) (i : ℕ) (x : A) → length (set xs i x) ≡ length xs
  length-set [] i x = refl
  length-set (y ∷ xs) zero x = refl
  length-set (y ∷ xs) (suc i) x = ap suc (length-set xs i x)

  pub get_elem?-set_self :
      (xs : List A) (i : ℕ) (x : A) → i < length xs → get_elem? (set xs i x) i ≡ some x
  get_elem?-set_self [] i x h = absurd (omega arith)
  get_elem?-set_self (y ∷ xs) zero x h = refl
  get_elem?-set_self (y ∷ xs) (suc i) x h = get_elem?-set_self xs i x (omega arith)

  pub get_elem?-set_ne :
      (xs : List A) (i j : ℕ) (x : A) → i ≢ j → get_elem? (set xs i x) j ≡ get_elem? xs j
  get_elem?-set_ne [] i j x h = refl
  get_elem?-set_ne (y ∷ xs) zero zero x h = absurd (h refl)
  get_elem?-set_ne (y ∷ xs) zero (suc j) x h = refl
  get_elem?-set_ne (y ∷ xs) (suc i) zero x h = refl
  get_elem?-set_ne (y ∷ xs) (suc i) (suc j) x h = get_elem?-set_ne xs i j x (λ e. h (ap suc e))

  pub get_elem?-inside : (xs : List A) (i : ℕ) → i < length xs → (x : A) × (get_elem? xs i ≡ some x)
  get_elem?-inside [] i h = absurd (omega arith)
  get_elem?-inside (x ∷ xs) zero h = (x, refl)
  get_elem?-inside (x ∷ xs) (suc i) h = get_elem?-inside xs i (omega arith)

  pub get_elem?-outside : (xs : List A) (i : ℕ) → length xs ≤ i → get_elem? xs i ≡ none
  get_elem?-outside [] i h = refl
  get_elem?-outside (x ∷ xs) zero h = absurd (omega arith)
  get_elem?-outside (x ∷ xs) (suc i) h = get_elem?-outside xs i (omega arith)

  pub set-modify : (xs : List A) (i : ℕ) (x : A) → set xs i x ≡ modify i (λ y. x) xs
  set-modify [] i x = refl
  set-modify (y ∷ xs) zero x = refl
  set-modify (y ∷ xs) (suc i) x = ap (λ l. y ∷ l) (set-modify xs i x)

  -- Functions that agree on the element.
  pub modify_ext :
      (f g : A → A) (xs : List A) (i : ℕ)
      → Option.map f (get_elem? xs i) ≡ Option.map g (get_elem? xs i)
      → modify i f xs ≡ modify i g xs
  modify_ext f g [] i h = refl
  modify_ext f g (x ∷ xs) zero h = ap (λ y. y ∷ xs) (some_inj.0 h)
  modify_ext f g (x ∷ xs) (suc i) h = ap (λ l. x ∷ l) (modify_ext f g xs i h)

  pub modify_id : (xs : List A) (i : ℕ) → modify i (λ x. x) xs ≡ xs
  modify_id [] i = refl
  modify_id (x ∷ xs) zero = refl
  modify_id (x ∷ xs) (suc i) = ap (λ l. x ∷ l) (modify_id xs i)

pub get_elem?-map {ℓ κ} :
    {A : Type ℓ} {B : Type κ} (f : A → B) (xs : List A) (j : ℕ)
    → get_elem? (map f xs) j ≡ Option.map f (get_elem? xs j)
get_elem?-map f [] j = refl
get_elem?-map f (x ∷ xs) zero = refl
get_elem?-map f (x ∷ xs) (suc j) = get_elem?-map f xs j

pub get_elem?-replicate {ℓ} :
    {A : Type ℓ} (x : A) (n j : ℕ) → j < n → get_elem? (replicate n x) j ≡ some x
get_elem?-replicate x zero j h = absurd (omega arith)
get_elem?-replicate x (suc n) zero h = refl
get_elem?-replicate x (suc n) (suc j) h = get_elem?-replicate x n j (omega arith)
