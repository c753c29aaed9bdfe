-- ===== src/Airline/Propagation.antt =====
-- src/airline/NS3/PropagationModel.cc and `splitKV` of src/airline/common.cc: the propagation models
-- that the configuration asks for.
--
-- The simulator's models are data with the settings that the code makes; a setting that is `none` is
-- left at the simulator's default. `stod` is a parameter, with `none` for an exception.
pub mod Splitting
pub mod Consuming
mod Tests
use whitefield.Base.{
  ℕ, zero, suc, Option, none, some, ◌>>=◌, List, [], ◌∷◌, Bytes, codes, length, if◌then◌else◌,
}
use whitefield.Base.Text.{before, behind, skip_spaces, nocase_eq}
use whitefield.Airline.Dictionary.{Dictionary, find, put, erase, get_map_cfg}

-- `getline(getline(iss, key, '=') >> ws, val, ',')`, with the dictionary so far. The loop ends where no
-- '=' is left and where nothing stands behind the blanks that follow the '='.
abbrev pub with_rest : Dictionary → (Bytes → Dictionary → Dictionary) → Option Bytes → Dictionary
with_rest m go_on none = m
with_rest m go_on (some rest) = go_on rest m

abbrev pub with_value : Bytes → Bytes → Dictionary → (Bytes → Dictionary → Dictionary) → Dictionary
with_value key [] m go_on = m
with_value key (c ∷ s) m go_on =
    with_rest (put key (before b',' (c ∷ s)) m) go_on (behind b',' (c ∷ s))

abbrev pub with_key :
    Bytes → Dictionary → (Bytes → Dictionary → Dictionary) → Option Bytes → Dictionary
with_key key m go_on none = m
with_key key m go_on (some s) = with_value key (skip_spaces s) m go_on

unfoldable pub split_loop : ℕ → Bytes → Dictionary → Dictionary
unfolding put
split_loop zero s m = m
split_loop (suc fuel) s m =
    with_key (before b'=' s) m (λ s' m'. split_loop fuel s' m') (behind b'=' s)

-- Every round takes a byte of the text at least.
unfoldable pub split_kv : Bytes → Dictionary
unfolding split_loop
split_kv s = split_loop (suc (length s)) s []

pub data LossModel (Real : Type 0) : Type 0 where
  log_distance : Option Real → Option (Real × Real) → LossModel Real
  friis : Option Real → Option Real → Option Real → LossModel Real
  fixed_rss : Option Real → LossModel Real
  matrix : Option Real → LossModel Real
  two_ray_ground : Option Real → Option Real → Option Real → Option Real → LossModel Real
  random_loss : LossModel Real
  range : LossModel Real
  three_log_distance : LossModel Real

pub data DelayModel (Real : Type 0) : Type 0 where
  constant_speed : Option Real → DelayModel Real
  random_delay : DelayModel Real

-- The model with the parameters that nobody asked for; `unknown` is NULL.
pub data Chosen (Model : Type 0) : Type 0 where
  chosen : Model → Dictionary → Chosen Model
  unknown : Chosen Model
  threw : Chosen Model

abbrev pub result : {Model : Type 0} → Option (Model × Dictionary) → Chosen Model
result none = threw
result (some (model, m)) = chosen model m

module _ {Real : Type 0} (stod : Bytes → Option Real) where
  -- `if (!s.empty()) … stod(s)`; the outer `none` is an exception.
  abbrev pub number : Bytes → Option (Option Real)
  number [] = some none
  number (c ∷ s) = elim (stod (c ∷ s)) [ none ↦ none | some x ↦ some (some x) ]

  -- Both or neither; with one alone neither is read.
  abbrev reference : Bytes → Bytes → Option (Option (Real × Real))
  reference (c ∷ dist) (d ∷ loss) = do x ← stod (c ∷ dist); y ← stod (d ∷ loss); some (some (x, y))
  reference dist loss = some none

  -- Each function takes its keys out of the dictionary first, in the order of the source.
  abbrev pub get_log_distance_plm : Dictionary → Option (LossModel Real × Dictionary)
  get_log_distance_plm m =
      let (ple, m1) = get_map_cfg m (codes "PathLossExp") in
      let (refdist, m2) = get_map_cfg m1 (codes "refDist") in
      let (refloss, m3) = get_map_cfg m2 (codes "refLoss") in
      do exponent ← number ple; at ← reference refdist refloss; some (log_distance exponent at, m3)

  abbrev pub get_friis_plm : Dictionary → Option (LossModel Real × Dictionary)
  get_friis_plm m =
      let (freq, m1) = get_map_cfg m (codes "freq") in
      let (minloss, m2) = get_map_cfg m1 (codes "minloss") in
      let (sysloss, m3) = get_map_cfg m2 (codes "sysloss") in
      do
        frequency ← number freq
        min_loss ← number minloss
        system_loss ← number sysloss
        some (friis frequency min_loss system_loss, m3)

  abbrev pub get_fixed_rss_plm : Dictionary → Option (LossModel Real × Dictionary)
  get_fixed_rss_plm m =
      let (rss, m1) = get_map_cfg m (codes "rss") in
      do strength ← number rss; some (fixed_rss strength, m1)

  abbrev pub get_matrix_plm : Dictionary → Option (LossModel Real × Dictionary)
  get_matrix_plm m =
      let (defloss, m1) = get_map_cfg m (codes "defloss") in
      do default ← number defloss; some (matrix default, m1)

  abbrev pub get_two_ray_ground_plm : Dictionary → Option (LossModel Real × Dictionary)
  get_two_ray_ground_plm m =
      let (sysloss, m1) = get_map_cfg m (codes "sysloss") in
      let (freq, m2) = get_map_cfg m1 (codes "freq") in
      let (htabovez, m3) = get_map_cfg m2 (codes "HeightAboveZ") in
      let (mindist, m4) = get_map_cfg m3 (codes "minDist") in
      do
        system_loss ← number sysloss
        frequency ← number freq
        height ← number htabovez
        min_dist ← number mindist
        some (two_ray_ground system_loss frequency height min_dist, m4)

  unfoldable pub get_loss_model : Bytes → Bytes → Chosen (LossModel Real)
  unfolding split_kv get_map_cfg
  get_loss_model loss_model loss_model_param =
      let m = split_kv loss_model_param in
      if nocase_eq loss_model (codes "LogDistance")
      then result (get_log_distance_plm m)
      else if nocase_eq loss_model (codes "Friis")
      then result (get_friis_plm m)
      else if nocase_eq loss_model (codes "FixedRss")
      then result (get_fixed_rss_plm m)
      else if nocase_eq loss_model (codes "Matrix")
      then result (get_matrix_plm m)
      else if nocase_eq loss_model (codes "TwoRayGround")
      then result (get_two_ray_ground_plm m)
      else if nocase_eq loss_model (codes "Random")
      then chosen random_loss m
      else if nocase_eq loss_model (codes "Range")
      then chosen range m
      else if nocase_eq loss_model (codes "ThreeLogDistance")
      then chosen three_log_distance m
      else unknown

  abbrev pub get_constant_speed_pdm : Dictionary → Option (DelayModel Real × Dictionary)
  get_constant_speed_pdm m =
      let (speed, m1) = get_map_cfg m (codes "speed") in
      do v ← number speed; some (constant_speed v, m1)

  unfoldable pub get_delay_model : Bytes → Bytes → Chosen (DelayModel Real)
  unfolding split_kv get_map_cfg
  get_delay_model del_model del_model_param =
      let m = split_kv del_model_param in
      if nocase_eq del_model (codes "ConstantSpeed")
      then result (get_constant_speed_pdm m)
      else if nocase_eq del_model (codes "Random")
      then chosen random_delay m
      else unknown
