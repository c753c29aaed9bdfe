-- ===== src/Commline/Usock/Naming.antt =====
-- src/commline/cl_usock.c, `usock_setabsaddr`: the address of a message type's socket.
use whitefield.Base.Decimal.{length-decimal_digits}
use whitefield.Base.{
  ℕ, suc, ◌+◌, ◌-◌, ◌/◌, ◌%◌, ◌^◌, ◌≤◌, ◌<◌, ◌≡◌, ap, sym, ◌∙◌, [], ◌∷◌, ◌++◌, Bytes, codes, length,
  take, ltb, if◌then◌else◌, arith, take-all, length-append, Bool-cases, inl, inr,
}
use mathlib.Core.List.{append_cancel_left}
use whitefield.Base.Text.{decimal, decimal_digits}

abbrev pub hex_digit : ℕ → ℕ
hex_digit d = if ltb d 10 then d + b'0' else d - 10 + b'a'

-- "%08lx" of a number of 32 bits.
abbrev hex8 : ℕ → Bytes
hex8 n =
    hex_digit (n / 2 ^ 28)
    ∷ hex_digit (n / 2 ^ 24 % 16)
    ∷ hex_digit (n / 2 ^ 20 % 16)
    ∷ hex_digit (n / 2 ^ 16 % 16)
    ∷ hex_digit (n / 2 ^ 12 % 16)
    ∷ hex_digit (n / 2 ^ 8 % 16)
    ∷ hex_digit (n / 2 ^ 4 % 16)
    ∷ hex_digit (n % 16)
    ∷ []

-- "%d" of a number of 32 bits.
abbrev signed_decimal : ℕ → Bytes
signed_decimal n = if ltb n (2 ^ 31) then decimal n else b'-' ∷ decimal (2 ^ 32 - n)

abbrev socket_name : ℕ → ℕ → Bytes
socket_name uid mtype = codes "/WHITEFIELD_" ++ (signed_decimal uid ++ b'_' ∷ hex8 mtype)

-- `sun_path`, an abstract name behind a 0, and the length of the address. `sun_path` has 108 bytes.
unfoldable pub usock_setabsaddr : ℕ → ℕ → Bytes × ℕ
unfolding decimal_digits
usock_setabsaddr uid mtype =
    (0 ∷ take 106 (socket_name uid mtype), 2 + length (socket_name uid mtype) + 1)

hex_digit-injective : (c d : ℕ) → hex_digit c ≡ hex_digit d → c ≡ d
hex_digit-injective c d e = ground arith

tail : Bytes → Bytes
tail [] = []
tail (x ∷ s) = s

head : Bytes → ℕ
head [] = 0
head (x ∷ s) = x

∷-injective : {x y : ℕ} {s t : Bytes} → x ∷ s ≡ y ∷ t → (x ≡ y) × (s ≡ t)
unfolding head tail
∷-injective e = (ap head e, ap tail e)

hex8-injective : (m n : ℕ) → m < 2 ^ 32 → n < 2 ^ 32 → hex8 m ≡ hex8 n → m ≡ n
hex8-injective m n hm hn e =
    let (e7, r7) = ∷-injective e in
    let (e6, r6) = ∷-injective r7 in
    let (e5, r5) = ∷-injective r6 in
    let (e4, r4) = ∷-injective r5 in
    let (e3, r3) = ∷-injective r4 in
    let (e2, r2) = ∷-injective r3 in
    let (e1, r1) = ∷-injective r2 in
    let (e0, _) = ∷-injective r1 in
    let d7 = hex_digit-injective (m / 2 ^ 28) (n / 2 ^ 28) e7 in
    let d6 = hex_digit-injective (m / 2 ^ 24 % 16) (n / 2 ^ 24 % 16) e6 in
    let d5 = hex_digit-injective (m / 2 ^ 20 % 16) (n / 2 ^ 20 % 16) e5 in
    let d4 = hex_digit-injective (m / 2 ^ 16 % 16) (n / 2 ^ 16 % 16) e4 in
    let d3 = hex_digit-injective (m / 2 ^ 12 % 16) (n / 2 ^ 12 % 16) e3 in
    let d2 = hex_digit-injective (m / 2 ^ 8 % 16) (n / 2 ^ 8 % 16) e2 in
    let d1 = hex_digit-injective (m / 2 ^ 4 % 16) (n / 2 ^ 4 % 16) e1 in
    let d0 = hex_digit-injective (m % 16) (n % 16) e0 in omega arith

length-signed_decimal : (n : ℕ) → n < 2 ^ 32 → length (signed_decimal n) ≤ 11
length-signed_decimal n h = elim (Bool-cases (ltb n (2 ^ 31))) [
  | inl low ↦
      let digits : length (decimal n) ≤ 10 = length-decimal_digits (suc n) 9 n (omega arith) in
      rw low (omega arith)
  | inr high ↦
      let m : ℕ = 2 ^ 32 - n in
      let digits : length (decimal m) ≤ 10 = length-decimal_digits (suc m) 9 m (omega arith) in
      rw high (omega arith)
]

length-socket_name : (uid mtype : ℕ) → uid < 2 ^ 32 → length (socket_name uid mtype) ≤ 106
length-socket_name uid mtype h =
    let digits = length-signed_decimal uid h in
    omega (arith, length-append (signed_decimal uid) (b'_' ∷ hex8 mtype))

-- Two message types have the same address only if they are the same: types and user ids of 32 bits,
-- for which the whole name fits `sun_path`.
pub usock_setabsaddr-injective :
    (uid m n : ℕ)
    → uid < 2 ^ 32
    → m < 2 ^ 32
    → n < 2 ^ 32
    → usock_setabsaddr uid m ≡ usock_setabsaddr uid n
    → m ≡ n
unfolding usock_setabsaddr
usock_setabsaddr-injective uid m n hu hm hn e =
    let (_, names) = ∷-injective (ap (λ a. a.0) e) in
    let whole : socket_name uid m ≡ socket_name uid n =
      sym (take-all 106 (socket_name uid m) (length-socket_name uid m hu))
      ∙ names
      ∙ take-all 106 (socket_name uid n) (length-socket_name uid n hu) in
    let behind_text = append_cancel_left (codes "/WHITEFIELD_") _ _ whole in
    let behind_uid = append_cancel_left (signed_decimal uid) _ _ behind_text in
    hex8-injective m n hm hn (∷-injective behind_uid).1
