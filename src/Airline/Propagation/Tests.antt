-- ===== src/Airline/Propagation/Tests.antt =====
-- Parameters of a loss model.
use mathlib.Core.Option
use whitefield.Base.{ℕ, ◌≡◌, refl, Option, some, none, List, [], ◌∷◌, Bytes, codes, length, arith}
use whitefield.Airline.Dictionary.{Dictionary, find}
use whitefield.Airline.Propagation.{split_kv, friis, chosen, get_loss_model}
use whitefield.Airline.Propagation.Splitting.{param_text, latest, find-split_kv}
use whitefield.Airline.Propagation.Consuming.{unasked, IsRead, get_loss_model-friis}

-- "Freq=55,x=7", with the number of bytes for a number.
abbrev settings : List (Bytes × Bytes)
settings = (codes "Freq", codes "55") ∷ (codes "x", codes "7") ∷ []

abbrev stod : Bytes → Option ℕ
stod v = some (length v)

x-IsRead : IsRead stod length (codes "x", codes "7")
x-IsRead = ((((λ e. omega arith), tt), ((λ e. omega arith), tt), refl), refl)

freq-IsRead : IsRead stod length (codes "Freq", codes "55")
freq-IsRead = (
  (
    ((λ e. omega arith), ((λ e. omega arith), ((λ e. omega arith), ((λ e. omega arith), tt)))),
    ((λ e. omega arith), ((λ e. omega arith), tt)),
    refl,
  ),
  refl,
)

get_loss_model-friis_example :
    (left : Dictionary) × (get_loss_model stod (codes "Friis") (param_text settings)
      ≡ chosen
          (friis
            (Option.map length (latest (codes "freq") settings none))
            (Option.map length (latest (codes "minloss") settings none))
            (Option.map length (latest (codes "sysloss") settings none)))
          left)
    × ((j : Bytes)
        → find j left
          ≡ unasked
              (codes "sysloss" ∷ codes "minloss" ∷ codes "freq" ∷ [])
              j
              (latest j settings none))
get_loss_model-friis_example =
    get_loss_model-friis stod length settings (freq-IsRead, (x-IsRead, tt))

find-split_kv_example :
    find (codes "freq") (split_kv (param_text ((codes "x", codes "7") ∷ [])))
    ≡ latest (codes "freq") ((codes "x", codes "7") ∷ []) none
find-split_kv_example = find-split_kv (codes "freq") ((codes "x", codes "7") ∷ []) (x-IsRead.0, tt)
