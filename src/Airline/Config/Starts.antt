-- ===== src/Airline/Config/Starts.antt =====
-- src/airline/Config.cc: where the ranges of a line start, and which file a line includes.
use whitefield.Base.{
  ℕ, ◌≡◌, refl, ◌⊎◌, inl, inr, Option, none, some, Bytes, All, codes, if◌then◌else◌, Bool-cases,
  Option-cases,
}
use whitefield.Base.Int.{ℤ, pos, ◌≤ℤ◌}
use whitefield.Base.Text.{behind, before, atoi, getline, text_eq}
use whitefield.Airline.Config.{KeyRange, trim, split, check_range, bracket_range, get_key_range}
use whitefield.Airline.Config.Safety.{FromZero}

-- A range without regard to how many nodes there are, which only cuts its end.
abbrev pub HaveSameStart : KeyRange → KeyRange → Type 0
HaveSameStart r q = (r.key ≡ q.key) × (r.beg_range ≡ q.beg_range)

pub check_range-start :
    (key : Bytes) (n m : ℕ) (beg end : ℤ)
    → HaveSameStart (check_range key n beg end) (check_range key m beg end)
check_range-start key n m beg end = elim (Bool-cases (end ≤ℤ beg)) [
  | inl bad ↦ rw bad (refl, refl)
  | inr good ↦ elim (Bool-cases (pos n ≤ℤ end)) [
    | inl p ↦ elim (Bool-cases (pos m ≤ℤ end)) [
      | inl q ↦ rw (good, p, q) (refl, refl)
      | inr q ↦ rw (good, p, q) (refl, refl)
    ]
    | inr p ↦ elim (Bool-cases (pos m ≤ℤ end)) [
      | inl q ↦ rw (good, p, q) (refl, refl)
      | inr q ↦ rw (good, p, q) (refl, refl)
    ]
  ]
]

pub bracket_range-start :
    (key : Bytes) (n m : ℕ) (ptr : Bytes)
    → HaveSameStart (bracket_range key n ptr) (bracket_range key m ptr)
bracket_range-start key n m ptr = elim (Option-cases (behind b'-' ptr)) [
  | inl single ↦ rw (single, bracket_range) (refl, refl)
  | inr (ptr', range) ↦ rw (range, bracket_range) (check_range-start key n m (atoi ptr) (atoi ptr'))
]

pub get_key_range-start :
    (keystr : Bytes) (n m : ℕ) → HaveSameStart (get_key_range keystr n) (get_key_range keystr m)
unfolding get_key_range
get_key_range-start keystr n m = elim (Option-cases (behind b'[' keystr)) [
  | inl plain ↦ rw (plain, get_key_range) (refl, refl)
  | inr (ptr, range) ↦ rw (range, get_key_range) (bracket_range-start (before b'[' keystr) n m ptr)
]

-- The index that the range of a line starts from, 0 where the line has none.
abbrev pub line_start : Bytes → ℤ
line_start line = elim (getline b'=' line) [
  | none ↦ pos 0
  | some (key, rest) ↦ (get_key_range (trim key) 0).beg_range
]

-- The file that a line includes.
abbrev pub included_value : Bytes → Option (Bytes × Bytes) → Option Bytes
included_value key none = none
included_value key (some (value, rest)) =
    if text_eq (get_key_range (trim key) 0).key (codes "include") then some (trim value) else none

abbrev pub included : Bytes → Option Bytes
included line = elim (getline b'=' line) [
  | none ↦ none
  | some (key, rest) ↦ included_value key (getline b'#' rest)
]

abbrev pub Allowed : (Bytes → Type 0) → Option Bytes → Type 0
Allowed Inner none = Unit
Allowed Inner (some fname) = Inner fname

-- A line starts no range below 0, and includes a file that can be read soundly.
abbrev pub LineIsSafe : (OnFault : Type 0) (Inner : Bytes → Type 0) → Bytes → Type 0
LineIsSafe OnFault Inner line =
    (FromZero (line_start line) ⊎ OnFault) × Allowed Inner (included line)

abbrev pub TextIsSafe : (OnFault : Type 0) (Inner : Bytes → Type 0) → Option Bytes → Type 0
TextIsSafe OnFault Inner none = Unit
TextIsSafe OnFault Inner (some text) = All (LineIsSafe OnFault Inner) (split text 10)
