-- ===== src/Airline/Propagation/Splitting.antt =====
-- src/airline/common.cc, `splitKV`: settings that are printed are read back.
use whitefield.Base.{
  ℕ, zero, suc, ◌≤◌, ◌<◌, ◌≡◌, refl, ap, ◌∙◌, false, Option, none, some, List, [], ◌∷◌, ◌++◌, Bytes,
  length, length-append, All, if◌then◌else◌, arith,
}
use whitefield.Base.Text.{
  before, skip_spaces, is_space, nocase_eq, Lacks, before-append, behind-append, behind-Lacks,
}
use whitefield.Airline.Dictionary.{Dictionary, find, put, find-put}
use whitefield.Airline.Propagation.{with_rest, with_value, with_key, split_loop, split_kv}

-- "k=v,k=v,…".
abbrev pub param_text : List (Bytes × Bytes) → Bytes
param_text [] = []
param_text ((k, v) ∷ []) = k ++ b'=' ∷ v
param_text ((k, v) ∷ e ∷ kvs) = k ++ b'=' ∷ (v ++ b',' ∷ param_text (e ∷ kvs))

abbrev pub StartsSolid : Bytes → Type 0
StartsSolid [] = ⊥
StartsSolid (c ∷ s) = is_space c ≡ false

-- A key without '=', and a value without ',' that starts with a byte that is no blank.
abbrev pub IsSetting : Bytes × Bytes → Type 0
IsSetting (k, v) = Lacks b'=' k × Lacks b',' v × StartsSolid v

-- The value of a key's last setting.
abbrev pub latest : Bytes → List (Bytes × Bytes) → Option Bytes → Option Bytes
latest j [] o = o
latest j ((k, v) ∷ kvs) o = latest j kvs (if nocase_eq k j then some v else o)

abbrev put_all : List (Bytes × Bytes) → Dictionary → Dictionary
put_all [] m = m
put_all ((k, v) ∷ kvs) m = put_all kvs (put k v m)

find-put_all :
    (j : Bytes) (kvs : List (Bytes × Bytes)) (m : Dictionary)
    → find j (put_all kvs m) ≡ latest j kvs (find j m)
find-put_all j [] m = refl
find-put_all j ((k, v) ∷ kvs) m =
    find-put_all j kvs (put k v m) ∙ ap (latest j kvs) (find-put k j v m)

before-Lacks : (c : ℕ) (s : Bytes) → Lacks c s → before c s ≡ s
before-Lacks c [] h = refl
before-Lacks c (x ∷ s) (hx, h) = ground (arith, before-Lacks c s h)

skip_spaces_lem : (c : ℕ) (s : Bytes) → is_space c ≡ false → skip_spaces (c ∷ s) ≡ c ∷ s
skip_spaces_lem c s solid = rw solid refl

-- A value, at the end and in front of more settings.
with_value-last :
    (k v : Bytes) (m : Dictionary) (go_on : Bytes → Dictionary → Dictionary)
    → Lacks b',' v
    → StartsSolid v
    → with_value k (skip_spaces v) m go_on ≡ put k v m
with_value-last k [] m go_on h solid = absurd solid
with_value-last k (c ∷ v) m go_on h solid =
    ap (λ t. with_value k t m go_on) (skip_spaces_lem c v solid)
    ∙ ap (with_rest (put k (before b',' (c ∷ v)) m) go_on) (behind-Lacks b',' (c ∷ v) h)
    ∙ ap (λ t. put k t m) (before-Lacks b',' (c ∷ v) h)

with_value-next :
    (k v s : Bytes) (m : Dictionary) (go_on : Bytes → Dictionary → Dictionary)
    → Lacks b',' v
    → StartsSolid v
    → with_value k (skip_spaces (v ++ b',' ∷ s)) m go_on ≡ go_on s (put k v m)
with_value-next k [] s m go_on h solid = absurd solid
with_value-next k (c ∷ v) s m go_on h solid =
    ap (λ t. with_value k t m go_on) (skip_spaces_lem c (v ++ b',' ∷ s) solid)
    ∙ ap (with_rest (put k (before b',' (c ∷ v ++ b',' ∷ s)) m) go_on)
        (behind-append b',' (c ∷ v) s h)
    ∙ ap (λ t. go_on s (put k t m)) (before-append b',' (c ∷ v) s h)

-- The key in front of its value.
split_loop-key :
    (fuel : ℕ) (k s : Bytes) (m : Dictionary)
    → Lacks b'=' k
    → split_loop (suc fuel) (k ++ b'=' ∷ s) m
      ≡ with_value k (skip_spaces s) m (λ s' m'. split_loop fuel s' m')
unfolding split_loop
split_loop-key fuel k s m h =
    ap (with_key (before b'=' (k ++ b'=' ∷ s)) m (λ s' m'. split_loop fuel s' m'))
      (behind-append b'=' k s h)
    ∙ ap (λ key. with_value key (skip_spaces s) m (λ s' m'. split_loop fuel s' m'))
        (before-append b'=' k s h)

split_loop-put_all :
    (fuel : ℕ) (kvs : List (Bytes × Bytes)) (m : Dictionary)
    → All IsSetting kvs
    → length kvs < fuel
    → split_loop fuel (param_text kvs) m ≡ put_all kvs m
unfolding split_loop
split_loop-put_all zero kvs m h enough = absurd (omega arith)
split_loop-put_all (suc fuel) [] m h enough = refl
split_loop-put_all (suc fuel) ((k, v) ∷ []) m ((hk, hv, solid), h) enough =
    split_loop-key fuel k v m hk ∙ with_value-last k v m _ hv solid
split_loop-put_all (suc fuel) ((k, v) ∷ e ∷ kvs) m ((hk, hv, solid), h) enough =
    split_loop-key fuel k (v ++ b',' ∷ param_text (e ∷ kvs)) m hk
    ∙ with_value-next k v (param_text (e ∷ kvs)) m _ hv solid
    ∙ split_loop-put_all fuel (e ∷ kvs) (put k v m) h (omega arith)

-- A setting takes a byte at least.
length-param_text : (kvs : List (Bytes × Bytes)) → length kvs ≤ length (param_text kvs)
length-param_text [] = omega arith
length-param_text ((k, v) ∷ []) = omega (arith, length-append k (b'=' ∷ v))
length-param_text ((k, v) ∷ e ∷ kvs) = omega (
  arith,
  length-append k (b'=' ∷ (v ++ b',' ∷ param_text (e ∷ kvs))),
  length-append v (b',' ∷ param_text (e ∷ kvs)),
  length-param_text (e ∷ kvs),
)

-- Settings that are printed with '=' and ',' are read back: each key, in any spelling, has the value of
-- its last setting. The keys have no '=', and the values no ',' and a first byte that is no blank.
pub find-split_kv :
    (j : Bytes) (kvs : List (Bytes × Bytes))
    → All IsSetting kvs
    → find j (split_kv (param_text kvs)) ≡ latest j kvs none
unfolding split_kv find
find-split_kv j kvs h =
    ap (find j) (
      split_loop-put_all (suc (length (param_text kvs))) kvs [] h
        (omega (arith, length-param_text kvs)))
    ∙ find-put_all j kvs []
