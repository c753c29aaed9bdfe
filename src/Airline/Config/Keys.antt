-- ===== src/Airline/Config/Keys.antt =====
-- src/airline/Config.cc: `getKeyRange` reads the ranges that the configuration manual describes.
use whitefield.Base.{
  ℕ, ◌^◌, ◌≤◌, ◌<◌, ◌≡◌, refl, ◌∙◌, inl, inr, Bool-cases, true, false, [], ◌∷◌, ◌++◌, Bytes,
  All-append, arith, leb, if◌then◌else◌,
}
use whitefield.Base.Int.{pos, pred_of}
use whitefield.Base.Text.{
  digits-Lacks, atoi-digits, behind-digits, atoi, value, IsDigits, Lacks, behind-append,
  before-append, behind-Lacks,
}
use whitefield.Airline.Config.{check_range, bracket_range, get_key_range}

-- The text behind the bracket decides, whatever the key.
bracketed :
    (name ptr : Bytes) (n : ℕ)
    → Lacks b'[' name
    → get_key_range (name ++ b'[' ∷ ptr) n ≡ bracket_range name n ptr
unfolding get_key_range
bracketed name ptr n h =
    rw (behind-append b'[' name ptr h, get_key_range, before-append b'[' name ptr h) refl

bracket_interval :
    (name : Bytes) (n : ℕ) (ds rest : Bytes) {a b : ℕ}
    → IsDigits ds
    → atoi (ds ++ b'-' ∷ rest) ≡ pos a
    → atoi rest ≡ pos b
    → bracket_range name n (ds ++ b'-' ∷ rest) ≡ check_range name n (pos a) (pos b)
bracket_interval name n ds rest h ea eb =
    rw (behind-digits ds rest b'-' h refl, bracket_range, ea, eb) refl

check_interval :
    (name : Bytes) (n a b : ℕ)
    → a < b
    → check_range name n (pos a) (pos b) ≡ record {
      key = name;
      beg_range = pos a;
      end_range = if leb n b then pred_of n else pos b;
      explicit_range = true;
    }
check_interval name n a b lt = elim (Bool-cases (leb n b)) [
  | inl far ↦ rw (far, above) refl
  | inr near ↦ rw (near, above) refl
]
  where
    above : leb b a ≡ false
    above = ground arith

-- A key `name[a-b]` with a < b, where b fits an int, stands for the nodes from a to b, cut at the
-- last node.
pub get_key_range_interval :
    (name : Bytes) (d e : ℕ) (ds es : Bytes) (n : ℕ)
    → Lacks b'[' name
    → IsDigits (d ∷ ds)
    → IsDigits (e ∷ es)
    → value 0 (d ∷ ds) < value 0 (e ∷ es)
    → value 0 (e ∷ es) < 2 ^ 31
    → get_key_range (name ++ b'[' ∷ ((d ∷ ds) ++ b'-' ∷ ((e ∷ es) ++ b']' ∷ []))) n ≡ record {
      key = name;
      beg_range = pos (value 0 (d ∷ ds));
      end_range = if leb n (value 0 (e ∷ es)) then pred_of n else pos (value 0 (e ∷ es));
      explicit_range = true;
    }
get_key_range_interval name d e ds es n hn hd he lt small =
    let rest : Bytes = (e ∷ es) ++ b']' ∷ [] in
    bracketed name ((d ∷ ds) ++ b'-' ∷ rest) n hn
    ∙ bracket_interval name n (d ∷ ds) rest hd (atoi-digits d b'-' ds rest hd refl (omega arith))
        (atoi-digits e b']' es [] he refl (omega arith))
    ∙ check_interval name n (value 0 (d ∷ ds)) (value 0 (e ∷ es)) lt

-- An index `name[a]` stands for node a alone; a is not cut at the last node.
pub get_key_range_index :
    (name : Bytes) (d : ℕ) (ds : Bytes) (n : ℕ)
    → Lacks b'[' name
    → IsDigits (d ∷ ds)
    → value 0 (d ∷ ds) < 2 ^ 31
    → get_key_range (name ++ b'[' ∷ ((d ∷ ds) ++ b']' ∷ [])) n ≡ record {
      key = name;
      beg_range = pos (value 0 (d ∷ ds));
      end_range = pos (value 0 (d ∷ ds));
      explicit_range = true;
    }
get_key_range_index name d ds n hn hd small =
    bracketed name ((d ∷ ds) ++ b']' ∷ []) n hn
    ∙ rw
        (
          behind-Lacks b'-' ((d ∷ ds) ++ b']' ∷ []) (
              All-append _ (d ∷ ds) (b']' ∷ []) (digits-Lacks b'-' (d ∷ ds) refl hd) (omega arith)),
          bracket_range,
          atoi-digits d b']' ds [] hd refl small,
        )
        refl

-- A key `name[a-b]` with b ≤ a is reported as invalid and loses its name.
pub get_key_range_invalid :
    (name : Bytes) (d e : ℕ) (ds es : Bytes) (n : ℕ)
    → Lacks b'[' name
    → IsDigits (d ∷ ds)
    → IsDigits (e ∷ es)
    → value 0 (e ∷ es) ≤ value 0 (d ∷ ds)
    → value 0 (d ∷ ds) < 2 ^ 31
    → get_key_range (name ++ b'[' ∷ ((d ∷ ds) ++ b'-' ∷ ((e ∷ es) ++ b']' ∷ []))) n ≡ record {
      key = [];
      beg_range = pos (value 0 (d ∷ ds));
      end_range = pos (value 0 (e ∷ es));
      explicit_range = true;
    }
get_key_range_invalid name d e ds es n hn hd he le small =
    let rest : Bytes = (e ∷ es) ++ b']' ∷ [] in
    let empty : leb (value 0 (e ∷ es)) (value 0 (d ∷ ds)) ≡ true = ground arith in
    bracketed name ((d ∷ ds) ++ b'-' ∷ rest) n hn
    ∙ bracket_interval name n (d ∷ ds) rest hd (atoi-digits d b'-' ds rest hd refl (omega arith))
        (atoi-digits e b']' es [] he refl (omega arith))
    ∙ rw empty refl
