-- ===== src/Airline/Dictionary.antt =====
-- `map<string, string, ci_less>` of src/airline/common.h: a dictionary whose keys are compared
-- without regard to case. Nothing depends on the order of its entries.
use whitefield.Base.{
  ◌≡◌, refl, ◌∙◌, true, Option-cases, Bool-cases, inl, inr, Option, none, some, List, [], ◌∷◌,
  Bytes, arith, if◌then◌else◌,
}
use whitefield.Base.Text.{nocase_eq}

abbrev pub Dictionary : Type 0
Dictionary = List (Bytes × Bytes)

-- `find(key)`.
unfoldable pub find : Bytes → Dictionary → Option Bytes
find key [] = none
find key ((k, v) ∷ m) = if nocase_eq k key then some v else find key m

-- `m[key] = val`: an entry that is there keeps its spelling of the key.
unfoldable pub put : Bytes → Bytes → Dictionary → Dictionary
put key val [] = (key, val) ∷ []
put key val ((k, v) ∷ m) = if nocase_eq k key then (k, val) ∷ m else (k, v) ∷ put key val m

-- `m.erase(key)`.
unfoldable pub erase : Bytes → Dictionary → Dictionary
erase key [] = []
erase key ((k, v) ∷ m) = if nocase_eq k key then erase key m else (k, v) ∷ erase key m

abbrev pub or_empty : Option Bytes → Bytes
or_empty none = []
or_empty (some v) = v

-- `getMapCfg`: the value of a key, which is taken out of the dictionary.
unfoldable pub get_map_cfg : Dictionary → Bytes → Bytes × Dictionary
unfolding find erase
get_map_cfg m key = elim (find key m) [ none ↦ ([], m) | some v ↦ (v, erase key m) ]

-- Keys are the same up to case, as `ci_less` tells neither smaller.
pub nocase_eq_refl : (s : Bytes) → nocase_eq s s ≡ true
nocase_eq_refl [] = refl
nocase_eq_refl (x ∷ s) = ground (arith, nocase_eq_refl s)

pub nocase_eq_trans : (s t u : Bytes) → nocase_eq s t ≡ true → nocase_eq u t ≡ nocase_eq u s
nocase_eq_trans [] [] u h = refl
nocase_eq_trans [] (y ∷ t) u h = cc
nocase_eq_trans (x ∷ s) [] u h = cc
nocase_eq_trans (x ∷ s) (y ∷ t) [] h = refl
nocase_eq_trans (x ∷ s) (y ∷ t) (z ∷ u) h = ground (arith, nocase_eq_trans s t u)

nocase_eq_sym : (s t : Bytes) → nocase_eq s t ≡ nocase_eq t s
nocase_eq_sym [] [] = refl
nocase_eq_sym [] (y ∷ t) = refl
nocase_eq_sym (x ∷ s) [] = refl
nocase_eq_sym (x ∷ s) (y ∷ t) = ground (arith, nocase_eq_sym s t)

-- A value that is put is found under every spelling of its key, and under no other key.
pub find-put :
    (key j val : Bytes) (m : Dictionary)
    → find j (put key val m) ≡ (if nocase_eq key j then some val else find j m)
unfolding find put
find-put key j val [] = refl
find-put key j val ((k, v) ∷ m) = ground (
  arith,
  find-put key j val m,
  nocase_eq_trans key j k,
  nocase_eq_trans k key j,
  nocase_eq_sym k key,
  nocase_eq_sym j k,
  nocase_eq_sym key j,
)

-- A key that is erased is not found under any spelling, and the others are as before.
pub find-erase :
    (key j : Bytes) (m : Dictionary)
    → find j (erase key m) ≡ (if nocase_eq key j then none else find j m)
unfolding find erase
find-erase key j [] = ground arith
find-erase key j ((k, v) ∷ m) = ground (
  arith,
  find-erase key j m,
  nocase_eq_trans key j k,
  nocase_eq_trans k key j,
  nocase_eq_sym k key,
  nocase_eq_sym j k,
  nocase_eq_sym key j,
)

pub find-nocase_eq :
    (key j : Bytes) (m : Dictionary) → nocase_eq key j ≡ true → find j m ≡ find key m
unfolding find
find-nocase_eq key j [] same = refl
find-nocase_eq key j ((k, v) ∷ m) same =
    ground (arith, find-nocase_eq key j m same, nocase_eq_trans key j k same)

-- What is asked for is given and then gone, and the others are as before.
pub get_map_cfg_value :
    (m : Dictionary) (key : Bytes) → (get_map_cfg m key).0 ≡ or_empty (find key m)
unfolding get_map_cfg
get_map_cfg_value m key = elim (Option-cases (find key m)) [
  | inl missing ↦ rw (missing, get_map_cfg) refl
  | inr (v, there) ↦ rw (there, get_map_cfg) refl
]

pub find-get_map_cfg :
    (m : Dictionary) (key j : Bytes)
    → find j (get_map_cfg m key).1 ≡ (if nocase_eq key j then none else find j m)
unfolding get_map_cfg
find-get_map_cfg m key j = elim (Option-cases (find key m)) [
  | inr (v, there) ↦ rw (there, get_map_cfg) (find-erase key j m)
  | inl missing ↦ elim (Bool-cases (nocase_eq key j)) [
    | inr other ↦ rw (missing, get_map_cfg, other) refl
    | inl same ↦ rw (missing, get_map_cfg, same) (find-nocase_eq key j m same ∙ missing)
  ]
]
