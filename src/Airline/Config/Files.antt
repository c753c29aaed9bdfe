-- ===== src/Airline/Config/Files.antt =====
-- src/airline/Config.cc: the lines of configuration files.
use whitefield.Base.{
  ◌≡◌, refl, ap, subst, ◌∙◌, ◌⊎◌, inl, inr, true, false, Option, none, some, List, [], ◌∷◌, Bytes,
  All, codes, ◌==◌, if◌then◌else◌, Bool-cases, Option-cases,
}
use whitefield.Base.Int.{ℤ, pos, ◌≤ℤ◌}
use whitefield.Base.Text.{getline, stoi, text_eq}
use whitefield.Airline.Config.{
  Config, KeyRange, Outcome, success, failure, fault, out_of_fuel, trim, get_key_range,
  set_number_of_nodes, set,
}
use whitefield.Airline.Config.Safety
use whitefield.Airline.Config.Safety.{IsWellFormed, Sound, FromZero, if-Sound}
use whitefield.Airline.Config.Lines.{
  set_key, set_count, set_line, read_value, is_comment, read_line, read_lines,
}
use whitefield.Airline.Config.Starts.{
  get_key_range-start, line_start, included_value, included, Allowed, LineIsSafe,
}

set-Sound :
    {Real : Type 0} (key val : Bytes) (c : Config Real)
    → IsWellFormed c
    → IsWellFormed (set key val c)
unfolding set
set-Sound key val c wf = wf

module _ (OnFault OnFuel : Type 0) (Inner : Bytes → Type 0) where
  module _ {Real : Type 0} (stod : Bytes → Option Real)
      (include : Bytes → Config Real → Outcome Real)
      (inner : (fname : Bytes) (c : Config Real)
        → IsWellFormed c
        → Inner fname
        → Sound OnFault OnFuel (include fname c)) where
    abbrev S : Outcome Real → Type 0
    S = Sound OnFault OnFuel

    set_count-Sound :
        (key value : Bytes) (c : Config Real) → IsWellFormed c → S (set_count stod key value c)
    set_count-Sound key value c wf = number (stoi value)
      where
        resized :
            (o : Outcome Real)
            → S o
            → S (elim o [ success c' ↦ success (set key value c') | other ↦ other ])
        resized (success c') h = set-Sound key value c' h
        resized (failure c') h = h
        resized fault h = h
        resized out_of_fuel h = h

        number :
            (v : Option ℤ)
            → S (elim v [
              | none ↦ failure c
              | some n ↦ elim (set_number_of_nodes n c) [
                | success c' ↦ success (set key value c')
                | other ↦ other
              ]
            ])
        number none = wf
        number (some n) =
            resized (set_number_of_nodes n c) (Safety.set_number_of_nodes-Sound OnFault OnFuel n c)

    set_key-Sound :
        (r : KeyRange) (value : Bytes) (c : Config Real)
        → IsWellFormed c
        → FromZero r.beg_range ⊎ OnFault
        → (pos c.num_of_nodes ≤ℤ r.end_range) ≡ false
        → (text_eq r.key (codes "include") ≡ true → Inner value)
        → S (set_key stod include r value c)
    set_key-Sound r value c wf from cut inc = elim (Bool-cases (text_eq r.key (codes "nodeExec"))) [
      | inl e ↦ rw e (Safety.set_node_set_exec-Sound OnFault OnFuel c beg end wf from cut value)
      | inr e1 ↦ elim (Bool-cases (text_eq r.key (codes "captureFile"))) [
        | inl e ↦
            rw (e1, e)
              (Safety.set_node_set_cap_file-Sound OnFault OnFuel c beg end wf from cut value)
        | inr e2 ↦ elim (Bool-cases (text_eq r.key (codes "nodePosition"))) [
          | inl e ↦
              rw (e1, e2, e)
                (Safety.set_node_position-Sound OnFault OnFuel c beg end wf from cut stod value)
          | inr e3 ↦ elim (Bool-cases (text_eq r.key (codes "nodePromiscuous"))) [
            | inl e ↦
                rw (e1, e2, e3, e)
                  (Safety.set_node_promis-Sound OnFault OnFuel c beg end wf from cut value)
            | inr e4 ↦ elim (Bool-cases (text_eq r.key (codes "include"))) [
              | inl e ↦ rw (e1, e2, e3, e4, e) (inner value c wf (inc e))
              | inr e5 ↦ elim (Bool-cases r.explicit_range) [
                | inl e ↦
                    rw (e1, e2, e3, e4, e5, e)
                      (Safety.set_node_kv-Sound OnFault OnFuel c beg end wf from cut r.key value)
                | inr e ↦ rw (e1, e2, e3, e4, e5, e) (set-Sound r.key value c wf)
              ]
            ]
          ]
        ]
      ]
    ]
      where
        open r use {beg_range as beg, end_range as end}

    set_line-Sound :
        (r : KeyRange) (value : Bytes) (c : Config Real)
        → IsWellFormed c
        → FromZero r.beg_range ⊎ OnFault
        → (text_eq r.key (codes "include") ≡ true → Inner value)
        → S (set_line stod include r value c)
    unfolding set_line
    set_line-Sound r value c wf from inc =
        if-Sound OnFault OnFuel (text_eq r.key (codes "numOfNodes")) (set_count stod r.key value c)
          (if c.num_of_nodes == 0 then failure c else checked)
          (λ _. set_count-Sound r.key value c wf)
          (λ _.
            if-Sound OnFault OnFuel (c.num_of_nodes == 0) (failure c) checked (λ _. wf)
              (λ _.
                if-Sound OnFault OnFuel (pos c.num_of_nodes ≤ℤ r.end_range) (failure c)
                  (set_key stod include r value c) (λ _. wf)
                  (λ cut. set_key-Sound r value c wf from cut inc)))
      where
        checked : Outcome Real
        checked =
            if pos c.num_of_nodes ≤ℤ r.end_range then failure c else set_key stod include r value c

    read_value-Sound :
        (key : Bytes) (v : Option (Bytes × Bytes)) (c : Config Real)
        → IsWellFormed c
        → FromZero (get_key_range (trim key) 0).beg_range ⊎ OnFault
        → Allowed Inner (included_value key v)
        → S (read_value stod include key v c)
    read_value-Sound key none c wf from inc = wf
    read_value-Sound key (some (value, rest)) c wf from inc =
        let (same_key, same_beg) = get_key_range-start (trim key) 0 c.num_of_nodes in
        set_line-Sound (get_key_range (trim key) c.num_of_nodes) (trim value) c wf
          (subst (λ b. FromZero b ⊎ OnFault) same_beg from) (λ e. include_allowed (same_key, e))
      where
        include_allowed :
            ((get_key_range (trim key) 0).key ≡ (get_key_range (trim key) c.num_of_nodes).key)
              × (text_eq (get_key_range (trim key) c.num_of_nodes).key (codes "include") ≡ true)
            → Inner (trim value)
        include_allowed (same, e) =
            let here : text_eq (get_key_range (trim key) 0).key (codes "include") ≡ true =
              ap (λ k. text_eq k (codes "include")) same ∙ e in
            let value_included : included_value key (some (value, rest)) ≡ some (trim value) =
              rw here refl in
            subst (Allowed Inner) value_included inc

    read_line-Sound :
        (line : Bytes) (c : Config Real)
        → IsWellFormed c
        → LineIsSafe OnFault Inner line
        → S (read_line stod include line c)
    unfolding read_line
    read_line-Sound line c wf (from, inc) = elim (Option-cases (getline b'=' line)) [
      | inl end ↦ rw (end, read_line) wf
      | inr ((key, rest), got) ↦
          rw (got, read_line)
            (go key rest (rw (got, line_start) at from) (rw (got, included) at inc))
    ]
      where
        go :
            (key rest : Bytes)
            → FromZero (get_key_range (trim key) 0).beg_range ⊎ OnFault
            → Allowed Inner (included_value key (getline b'#' rest))
            → S (
                if is_comment key
                then success c
                else read_value stod include key (getline b'#' rest) c)
        go key rest from inc =
            if-Sound OnFault OnFuel (is_comment key) (success c)
              (read_value stod include key (getline b'#' rest) c) (λ _. wf)
              (λ _. read_value-Sound key (getline b'#' rest) c wf from inc)

    pub read_lines-Sound :
        (ls : List Bytes) (c : Config Real)
        → IsWellFormed c
        → All (LineIsSafe OnFault Inner) ls
        → S (read_lines stod include ls c)
    unfolding read_lines
    read_lines-Sound [] c wf safe = wf
    read_lines-Sound (line ∷ ls) c wf (here, safe) =
        go (read_line stod include line c) (read_line-Sound line c wf here)
          (λ c' h. read_lines-Sound ls c' h safe)
      where
        go :
            (o : Outcome Real)
            → S o
            → ((c' : Config Real) → IsWellFormed c' → S (read_lines stod include ls c'))
            → S (elim o [
              | success c' ↦ read_lines stod include ls c'
              | failure c' ↦ failure c'
              | fault ↦ fault
              | out_of_fuel ↦ out_of_fuel
            ])
        go (success c') h rest = rest c' h
        go (failure c') h rest = h
        go fault h rest = h
        go out_of_fuel h rest = h
