-- ===== src/Canvas/Server/Parents.antt =====
-- canvas/canvas.py, `query_edges`: the parent in a stack's answer.
use whitefield.Base.{
  ℕ, ◌+◌, ◌-◌, ◌*◌, ◌<◌, ◌≡◌, ◌≢◌, refl, ap, ◌∙◌, Bool, true, false, ◌&&◌, ◌||◌, none, some, List,
  [], ◌∷◌, ◌++◌, Bytes, codes, length, All, All-map, leb, ◌==◌, arith, if◌then◌else◌,
}
use whitefield.Base.Int.{pos}
use whitefield.Base.Text.{is_digit, Lacks, Lacks-lacks, text_eq}
use whitefield.Canvas.Server.Strings.{
  is_white, behind_last, last_field, digit, digits_from, skip_prefix, int_of, int,
}
use whitefield.Canvas.Server.Words.{strip-black}
use whitefield.Canvas.Server.{Edge, edge_to, edges_for}

-- A digit in base 16, and the number that such digits spell.
abbrev pub IsHex : ℕ → Type 0
IsHex c = (is_digit c || ((leb b'a' c && leb c b'f') || (leb b'A' c && leb c b'F'))) ≡ true

abbrev pub hex_digit : ℕ → ℕ
hex_digit c = if is_digit c then c - b'0' else if leb b'a' c then c - b'a' + 10 else c - b'A' + 10

abbrev pub hex_value : ℕ → Bytes → ℕ
hex_value n [] = n
hex_value n (c ∷ s) = hex_value (n * 16 + hex_digit c) s

digit-IsHex : (c : ℕ) → IsHex c → digit 16 c ≡ some (hex_digit c)
digit-IsHex c h = ground arith

digits_from-IsHex :
    (n : ℕ) (s : Bytes) → All IsHex s → digits_from 16 n true s ≡ some (hex_value n s)
unfolding digits_from
digits_from-IsHex n [] h = refl
digits_from-IsHex n (c ∷ s) (hc, h) =
    rw (digit-IsHex c hc, digits_from) (digits_from-IsHex (n * 16 + hex_digit c) s h)

hex-white : (c : ℕ) → IsHex c → is_white c ≡ false
hex-white c h = ground arith

skip_prefix-IsHex : (s : Bytes) → All IsHex s → skip_prefix 16 s ≡ s
skip_prefix-IsHex [] h = refl
skip_prefix-IsHex (c ∷ []) h = refl
skip_prefix-IsHex (c ∷ d ∷ s) (hc, (hd, h)) =
    let plain : (16 == 16 && (c == b'0' && (d == b'x' || d == b'X'))) ≡ false = ground arith in
    rw (plain, skip_prefix) refl

int-IsHex :
    (c : ℕ) (s : Bytes) → All IsHex (c ∷ s) → int 16 (c ∷ s) ≡ some (pos (hex_value 0 (c ∷ s)))
unfolding int digits_from
int-IsHex c s (hc, h) =
    let minus : (c == b'-') ≡ false = ground arith in
    let no_plus : (c == b'+') ≡ false = ground arith in
    rw
      (
        strip-black (c ∷ s) (All-map IsHex (λ b. is_white b ≡ false) hex-white (c ∷ s) (hc, h)),
        int_of,
        minus,
        no_plus,
        skip_prefix-IsHex (c ∷ s) (hc, h),
        digits_from,
        digit-IsHex c hc,
        digits_from-IsHex (0 * 16 + hex_digit c) s h,
      )
      refl

behind_last-Lacks : (c : ℕ) (s : Bytes) → Lacks c s → behind_last c s ≡ none
behind_last-Lacks c [] h = refl
behind_last-Lacks c (x ∷ s) (hx, h) =
    let other : (x == c) ≡ false = ground arith in
    rw (behind_last-Lacks c s h, behind_last, other) refl

last_field-append : (c : ℕ) (p s : Bytes) → Lacks c s → last_field c (p ++ c ∷ s) ≡ s
last_field-append c p s h = ap (λ o. elim o [ none ↦ p ++ c ∷ s | some rest ↦ rest ]) (found p)
  where
    found : (p : Bytes) → behind_last c (p ++ c ∷ s) ≡ some s
    found [] =
        let same : (c == c) ≡ true = ground arith in
        rw (behind_last-Lacks c s h, behind_last, same) refl
    found (x ∷ p) = rw (found p, behind_last) refl

text_eq-colon : (p s t : Bytes) → Lacks b':' t → text_eq (p ++ b':' ∷ s) t ≡ false
text_eq-colon [] s [] h = refl
text_eq-colon [] s (y ∷ t) (hy, h) =
    let other : (b':' == y) ≡ false = ground arith in rw (other, text_eq) refl
text_eq-colon (x ∷ p) s [] h = refl
text_eq-colon (x ∷ p) s (y ∷ t) (hy, h) =
    ap (λ b. x == y && b) (text_eq-colon p s t h) ∙ nothing (x == y)
  where
    nothing : (b : Bool) → (b && false) ≡ false
    nothing true = refl
    nothing false = refl

-- What a stack says of its route: none, or an address whose last field is its parent's number.
pub data Route : Type 0 where
  no_route : Route
  via : Bytes → Bytes → Route

abbrev pub route_text : Route → Bytes
route_text no_route = codes "[NONE]"
route_text (via front digits) = front ++ b':' ∷ digits

-- The last field has at least one digit, and digits of base 16 only.
abbrev pub IsAddress : Route → Type 0
IsAddress no_route = Unit
IsAddress (via front digits) = (0 < length digits) × All IsHex digits

abbrev pub links : Bytes → Route → List Edge
links id no_route = []
links id (via front digits) = edge_to id (pos (hex_value 0 digits)) ∷ []

-- A node without a route has no edge, another has one edge, to the number in the last field.
pub edges_for-route_text :
    (id : Bytes) (r : Route) → IsAddress r → edges_for id (route_text r) ≡ some (links id r)
edges_for-route_text id no_route h = refl
edges_for-route_text id (via front []) h = absurd (omega (arith, h.0))
edges_for-route_text id (via front (c ∷ s)) (some_digits, h) =
    let lone : Lacks b':' (c ∷ s) =
      All-map IsHex (λ b. b ≢ b':') (λ b hb e. ground arith) (c ∷ s) h in
    rw
      (
        text_eq-colon front (c ∷ s) (codes "[NONE]") (Lacks-lacks b':' (codes "[NONE]") refl),
        last_field-append b':' front (c ∷ s) lone,
        int-IsHex c s h,
      )
      refl
