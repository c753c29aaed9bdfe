-- ===== src/Airline/Propagation/Consuming.antt =====
-- src/airline/NS3/PropagationModel.cc: what a model takes out of its parameters, and what it leaves.
use mathlib.Core.Option
use whitefield.Base.{
  ◌≡◌, refl, ap, ◌∙◌, Option, none, some, List, [], ◌∷◌, Bytes, codes, All, if◌then◌else◌,
  if-either,
}
use whitefield.Base.Text.{nocase_eq}
use whitefield.Airline.Dictionary.{
  Dictionary, find, or_empty, get_map_cfg, get_map_cfg_value, find-get_map_cfg,
}
use whitefield.Airline.Propagation.{
  split_kv, friis, chosen, result, number, get_friis_plm, get_loss_model,
}
use whitefield.Airline.Propagation.Splitting.{
  param_text, IsSetting, StartsSolid, latest, find-split_kv,
}

-- What is left under a key when others have been asked for.
abbrev pub unasked : List Bytes → Bytes → Option Bytes → Option Bytes
unasked [] j o = o
unasked (key ∷ keys) j o = if nocase_eq key j then none else unasked keys j o

-- What a dictionary says about settings of which some have been asked for.
abbrev SaysRest : List (Bytes × Bytes) → List Bytes → Dictionary → Type 0
SaysRest kvs keys m = (j : Bytes) → find j m ≡ unasked keys j (latest j kvs none)

get_map_cfg-SaysRest :
    (kvs : List (Bytes × Bytes)) (keys : List Bytes) (m : Dictionary) (key : Bytes)
    → SaysRest kvs keys m
    → SaysRest kvs (key ∷ keys) (get_map_cfg m key).1
get_map_cfg-SaysRest kvs keys m key says j =
    find-get_map_cfg m key j ∙ ap (λ o. if nocase_eq key j then none else o) (says j)

module _ {Real : Type 0} (stod : Bytes → Option Real) (real : Bytes → Real) where
  -- A value that `stod` reads.
  abbrev Reads : Option Bytes → Type 0
  Reads none = Unit
  Reads (some v) = StartsSolid v × (stod v ≡ some (real v))

  abbrev pub IsRead : Bytes × Bytes → Type 0
  IsRead (k, v) = IsSetting (k, v) × (stod v ≡ some (real v))

  All-IsSetting : (kvs : List (Bytes × Bytes)) → All IsRead kvs → All IsSetting kvs
  All-IsSetting [] h = tt
  All-IsSetting ((k, v) ∷ kvs) ((setting, _), h) = (setting, All-IsSetting kvs h)

  latest-Reads :
      (j : Bytes) (kvs : List (Bytes × Bytes)) (o : Option Bytes)
      → All IsRead kvs
      → Reads o
      → Reads (latest j kvs o)
  latest-Reads j [] o h r = r
  latest-Reads j ((k, v) ∷ kvs) o (((_, _, solid), read), h) r =
      latest-Reads j kvs (if nocase_eq k j then some v else o) h
        (if-either Reads (nocase_eq k j) (solid, read) r)

  number-or_empty :
      (o : Option Bytes) → Reads o → number stod (or_empty o) ≡ some (Option.map real o)
  number-or_empty none r = refl
  number-or_empty (some []) (solid, read) = absurd solid
  number-or_empty (some (c ∷ v)) (solid, read) = rw read refl

  -- A parameter that is asked for in a dictionary that says what the settings say about it.
  number-get_map_cfg :
      (m : Dictionary) (key : Bytes) (o : Option Bytes)
      → find key m ≡ o
      → Reads o
      → number stod (get_map_cfg m key).0 ≡ some (Option.map real o)
  number-get_map_cfg m key o here r =
      ap (number stod) (get_map_cfg_value m key ∙ ap or_empty here) ∙ number-or_empty o r

  -- The Friis model gets the last setting of each of its three parameters, however the keys are
  -- spelled, and exactly the settings of other keys are left as unprocessed; a parameter without
  -- a setting keeps the simulator's default. The keys have no '=', and the values no ',' and a
  -- first byte that is no blank, and `stod` reads them.
  pub get_loss_model-friis :
      (kvs : List (Bytes × Bytes))
      → All IsRead kvs
      → (left : Dictionary) × (get_loss_model stod (codes "Friis") (param_text kvs)
          ≡ chosen
              (friis
                (Option.map real (latest (codes "freq") kvs none))
                (Option.map real (latest (codes "minloss") kvs none))
                (Option.map real (latest (codes "sysloss") kvs none)))
              left)
        × ((j : Bytes)
            → find j left
              ≡ unasked
                  (codes "sysloss" ∷ codes "minloss" ∷ codes "freq" ∷ [])
                  j
                  (latest j kvs none))
  unfolding get_loss_model
  get_loss_model-friis kvs h =
      let m : Dictionary = split_kv (param_text kvs) in
      let m1 : Dictionary = (get_map_cfg m (codes "freq")).1 in
      let m2 : Dictionary = (get_map_cfg m1 (codes "minloss")).1 in
      let m3 : Dictionary = (get_map_cfg m2 (codes "sysloss")).1 in
      let says : SaysRest kvs [] m = λ j. find-split_kv j kvs (All-IsSetting kvs h) in
      let says1 = get_map_cfg-SaysRest kvs [] m (codes "freq") says in
      let says2 = get_map_cfg-SaysRest kvs (codes "freq" ∷ []) m1 (codes "minloss") says1 in
      let says3 =
        get_map_cfg-SaysRest kvs (codes "minloss" ∷ codes "freq" ∷ []) m2 (codes "sysloss") says2 in
      let reads : (key : Bytes) → Reads (latest key kvs none) =
        λ key. latest-Reads key kvs none h tt in
      let frequency = number-get_map_cfg m (codes "freq") _ (says _) (reads _) in
      let min_loss = number-get_map_cfg m1 (codes "minloss") _ (says1 _) (reads _) in
      let system_loss = number-get_map_cfg m2 (codes "sysloss") _ (says2 _) (reads _) in
      let plm : get_friis_plm stod m
          ≡ some (
            friis (Option.map real (latest (codes "freq") kvs none))
                (Option.map real (latest (codes "minloss") kvs none))
                (Option.map real (latest (codes "sysloss") kvs none)),
            m3,
          ) =
        rw (frequency, min_loss, system_loss) refl in
      (m3, ap result plm, says3)
