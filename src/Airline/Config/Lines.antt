-- ===== src/Airline/Config/Lines.antt =====
-- src/airline/Config.cc: the setters for a range of nodes and `setConfigurationFromFile`.
--
-- The callers ignore what the setters return, so a setter's `success` stands for both of its
-- return values and its `failure` for an exception.
use whitefield.Base.{
  ℕ, zero, suc, Bool, false, Option, none, some, List, [], ◌∷◌, Bytes, codes, length, ltb, ◌==◌,
  if◌then◌else◌,
}
use whitefield.Base.Int.{ℤ, pos, ◌<ℤ◌, ◌≤ℤ◌}
use whitefield.Base.Text.{getline, stoi, text_eq}
use whitefield.Airline.Nodeinfo.{
  Nodeinfo, setkv, set_node_executable, set_node_capture_file, set_promis_mode,
}
use whitefield.Airline.Nodeinfo
use whitefield.Airline.Config.{
  Config, KeyRange, Outcome, success, failure, fault, out_of_fuel, trim, split, get_key_range,
  write_range, set_number_of_nodes, stored,
}
use whitefield.Airline.Config

module _ {Real : Type 0} where
  unfoldable pub set_node_set_exec : Bytes → ℤ → ℤ → Config Real → Outcome Real
  set_node_set_exec exec beg end c =
      stored c (write_range (set_node_executable exec) beg end c.node_array)

  unfoldable pub set_node_set_cap_file : Bytes → ℤ → ℤ → Config Real → Outcome Real
  set_node_set_cap_file path beg end c =
      stored c (write_range (set_node_capture_file path) beg end c.node_array)

  unfoldable pub set_node_kv : Bytes → Bytes → ℤ → ℤ → Config Real → Outcome Real
  set_node_kv key val beg end c = stored c (write_range (setkv key val) beg end c.node_array)

  -- `stoi` stands in the loop, so it is not called, and cannot throw, when the range is empty.
  unfoldable pub set_node_promis : Bytes → ℤ → ℤ → Config Real → Outcome Real
  set_node_promis pmode beg end c = if end <ℤ beg then success c else elim (stoi pmode) [
    | none ↦ failure c
    | some val ↦ stored c (write_range (set_promis_mode val) beg end c.node_array)
  ]

-- `key[0] == '#'`.
abbrev pub is_comment : Bytes → Bool
is_comment [] = false
is_comment (c ∷ s) = c == b'#'

module _ {Real : Type 0} (stod : Bytes → Option Real) where
  -- The three coordinates; `none` is an exception of `stod`.
  abbrev pub coordinates : List Bytes → Option (Real × Real × Real)
  coordinates (x ∷ y ∷ z ∷ _) = elim (stod x) [
    | none ↦ none
    | some x_pos ↦ elim (stod y) [
      | none ↦ none
      | some y_pos ↦ elim (stod z) [ none ↦ none | some z_pos ↦ some (x_pos, y_pos, z_pos) ]
    ]
  ]
  coordinates _ = none

  unfoldable pub set_node_position : Bytes → ℤ → ℤ → Config Real → Outcome Real
  set_node_position position beg end c =
      if ltb (length (split position b',')) 3
      then success c
      else if end <ℤ beg
      then success c
      else elim (coordinates (split position b',')) [
        | none ↦ failure c
        | some (x, y, z) ↦
            stored c (write_range (Nodeinfo.set_node_position x y z) beg end c.node_array)
      ]

  -- `include`: the outer call goes on only when the inner one did not fail.
  abbrev pub set_key :
      (Bytes → Config Real → Outcome Real) → KeyRange → Bytes → Config Real → Outcome Real
  set_key include r value c =
      if text_eq r.key (codes "nodeExec")
      then set_node_set_exec value r.beg_range r.end_range c
      else if text_eq r.key (codes "captureFile")
      then set_node_set_cap_file value r.beg_range r.end_range c
      else if text_eq r.key (codes "nodePosition")
      then set_node_position value r.beg_range r.end_range c
      else if text_eq r.key (codes "nodePromiscuous")
      then set_node_promis value r.beg_range r.end_range c
      else if text_eq r.key (codes "include")
      then include value c
      else if r.explicit_range
      then set_node_kv r.key value r.beg_range r.end_range c
      else success (Config.set r.key value c)

  abbrev pub set_count : Bytes → Bytes → Config Real → Outcome Real
  set_count key value c = elim (stoi value) [
    | none ↦ failure c
    | some n ↦ elim (set_number_of_nodes n c) [
      | success c' ↦ success (Config.set key value c')
      | other ↦ other
    ]
  ]

  -- The body of the loop behind `key = getKeyRange(key, …)`.
  unfoldable pub set_line :
      (Bytes → Config Real → Outcome Real) → KeyRange → Bytes → Config Real → Outcome Real
  set_line include r value c =
      if text_eq r.key (codes "numOfNodes")
      then set_count r.key value c
      else if c.num_of_nodes == 0
      then failure c
      else if pos c.num_of_nodes ≤ℤ r.end_range
      then failure c
      else set_key include r value c

  abbrev pub read_value :
      (Bytes → Config Real → Outcome Real)
      → Bytes
      → Option (Bytes × Bytes)
      → Config Real
      → Outcome Real
  read_value include key none c = success c
  read_value include key (some (value, rest)) c =
      set_line include (get_key_range (trim key) c.num_of_nodes) (trim value) c

  -- One round of `while(getline(infile, line))`.
  unfoldable pub read_line :
      (Bytes → Config Real → Outcome Real) → Bytes → Config Real → Outcome Real
  read_line include line c = elim (getline b'=' line) [
    | none ↦ success c
    | some (key, rest) ↦
        if is_comment key then success c else read_value include key (getline b'#' rest) c
  ]

  unfoldable pub read_lines :
      (Bytes → Config Real → Outcome Real) → List Bytes → Config Real → Outcome Real
  read_lines include [] c = success c
  read_lines include (line ∷ ls) c = elim (read_line include line c) [
    | success c' ↦ read_lines include ls c'
    | failure c' ↦ failure c'
    | fault ↦ fault
    | out_of_fuel ↦ out_of_fuel
  ]

  -- The fuel bounds how deep files include one another.
  unfoldable pub set_configuration_from_file :
      (Bytes → Option Bytes) → ℕ → Bytes → Config Real → Outcome Real
  set_configuration_from_file files zero fname c = out_of_fuel
  set_configuration_from_file files (suc fuel) fname c = elim (files fname) [
    | none ↦ failure c
    | some text ↦
        read_lines (λ inner c'. set_configuration_from_file files fuel inner c') (split text 10) c
  ]
