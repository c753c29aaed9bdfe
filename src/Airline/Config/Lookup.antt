-- ===== src/Airline/Config/Lookup.antt =====
-- src/airline/Config.h, Config.cc and common.h: reading the configuration.
--
-- `get` of a missing key also stores an empty value under it: `get` is the value of a call,
-- `get_entry` has the configuration that it leaves too. By `get-get_entry` no reader can tell this
-- configuration from the one before, so that elsewhere a call of `get` stands for its value.
use whitefield.Base.{
  ℕ, ◌+◌, ◌-◌, ◌*◌, Bool, true, false, ◌≡◌, refl, Option-cases, inl, inr, ◌∙◌, ◌&&◌, ◌||◌, Option,
  none, some, [], ◌∷◌, Bytes, get_elem?, leb, ltb, ◌==◌, if◌then◌else◌,
}
use whitefield.Base.Int.{ℤ, pos, neg, in_int}
use whitefield.Base.Text.{skip_spaces, is_digit, nocase_eq}
use whitefield.Airline.Dictionary.{find, put, find-put, find-nocase_eq}
use whitefield.Airline.Nodeinfo.{Nodeinfo, getkv}
use whitefield.Airline.Config.{Config}

-- The digits of `stoi(s, nullptr, 0)`, in the base that the text chooses.
abbrev digit_value : ℕ → ℕ
digit_value c =
    if is_digit c
    then c - b'0'
    else if leb b'a' c && leb c b'f'
    then c - b'a' + 10
    else if leb b'A' c && leb c b'F'
    then c - b'A' + 10
    else 99

abbrev number_in : ℕ → ℕ → Bytes → ℕ
number_in base n [] = n
number_in base n (c ∷ s) =
    if ltb (digit_value c) base then number_in base (n * base + digit_value c) s else n

abbrev is_hex : Bytes → Bool
is_hex (x ∷ c ∷ s) = (x == b'x' || x == b'X') && ltb (digit_value c) 16
is_hex _ = false

abbrev tail : Bytes → Bytes
tail [] = []
tail (c ∷ s) = s

abbrev unsigned0 : Bytes → Option ℕ
unsigned0 [] = none
unsigned0 (c ∷ s) =
    if is_digit c
    then (if c == b'0'
        then some (if is_hex s then number_in 16 0 (tail s) else number_in 8 0 s)
        else some (number_in 10 0 (c ∷ s)))
    else none

abbrev signed0 : Bytes → Option ℤ
signed0 [] = none
signed0 (c ∷ s) =
    if c == b'-'
    then (elim (unsigned0 s) [ none ↦ none | some n ↦ some (neg n) ])
    else if c == b'+'
    then (elim (unsigned0 s) [ none ↦ none | some n ↦ some (pos n) ])
    else (elim (unsigned0 (c ∷ s)) [ none ↦ none | some n ↦ some (pos n) ])

abbrev int_or_none : Option ℤ → Option ℤ
int_or_none none = none
int_or_none (some n) = in_int n

-- `none` is an exception.
abbrev pub stoi0 : Bytes → Option ℤ
stoi0 s = int_or_none (signed0 (skip_spaces s))

abbrev or_default : Bytes → Bytes → Bytes
or_default def [] = def
or_default def (x ∷ v) = x ∷ v

or_empty_if :
    (b : Bool) (o : Option Bytes)
    → (b ≡ true → o ≡ none)
    → (elim (if b then some [] else o) [ none ↦ [] | some v ↦ v ])
      ≡ (elim o [ none ↦ [] | some v ↦ v ])
or_empty_if true o missing = rw (missing refl) refl
or_empty_if false o missing = refl

module _ {Real : Type 0} where
  unfoldable pub get_entry : Bytes → Config Real → Bytes × Config Real
  unfolding find put
  get_entry key c = elim (find key c.keyval) [
    | none ↦ ([], record c { keyval = put key [] c.keyval })
    | some v ↦ (v, c)
  ]

  unfoldable pub get : Bytes → Config Real → Bytes
  unfolding find
  get key c = elim (find key c.keyval) [ none ↦ [] | some v ↦ v ]

  -- What `get` returns is the value it finds or an empty one, and afterwards every key reads as
  -- before.
  pub get-get_entry :
      (key j : Bytes) (c : Config Real)
      → ((get_entry key c).0 ≡ get key c) × (get j (get_entry key c).1 ≡ get j c)
  unfolding get get_entry
  get-get_entry key j c = elim (Option-cases (find key c.keyval)) [
    | inr (v, there) ↦ rw (there, get_entry, get) (refl, refl)
    | inl missing ↦
        rw (missing, get_entry, get)
          (
            refl,
            rw (find-put key j [] c.keyval) (
                or_empty_if (nocase_eq key j) (find j c.keyval)
                  (λ same. find-nocase_eq key j c.keyval same ∙ missing)),
          )
  ]

  unfoldable pub get_or : Bytes → Bytes → Config Real → Bytes
  unfolding get
  get_or key def c = or_default def (get key c)

  -- CFG_INT.
  unfoldable pub cfg_int : Bytes → Bytes → Config Real → Option ℤ
  unfolding get_or
  cfg_int key def c = stoi0 (get_or key def c)

  unfoldable pub get_node_info : ℕ → Config Real → Option (Nodeinfo Real)
  get_node_info id c = if ltb id c.num_of_nodes then get_elem? c.node_array id else none

  unfoldable pub get_node_cfg : ℕ → Bytes → Config Real → Bytes
  unfolding get_node_info getkv
  get_node_cfg id key c = elim (get_node_info id c) [ none ↦ [] | some n ↦ getkv key [] n ]
