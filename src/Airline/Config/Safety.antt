-- ===== src/Airline/Config/Safety.antt =====
-- src/airline/Config.cc: what holds after a configuration file was read, however the reading ends.
use whitefield.Base.{
  length-replicate, ℕ, ◌+◌, ◌-◌, ◌≤◌, ◌≡◌, refl, ◌∙◌, ◌⊎◌, inl, inr, Bool, true, false, Option,
  none, some, Bytes, length, arith, ltb, if◌then◌else◌, Bool-cases,
}
use whitefield.Base.Int.{ℤ, pos, negsuc, ◌<ℤ◌, ◌≤ℤ◌}
use whitefield.Base.Text.{stoi}
use whitefield.Airline.Nodeinfo
use whitefield.Airline.Nodeinfo.{Nodeinfo, set_promis_mode}
use whitefield.Airline.Config.{
  Config, Outcome, success, failure, fault, out_of_fuel, split, write_range, write_nodes,
  set_number_of_nodes, stored,
}
use whitefield.Airline.Config.Range.{write_nodes_total}
use whitefield.Airline.Config.Lines.{
  set_node_set_exec, set_node_set_cap_file, set_node_kv, set_node_promis, set_node_position,
  coordinates,
}

-- `numOfNodes` is the size of `nodeArray`.
abbrev pub IsWellFormed : {Real : Type 0} → Config Real → Type 0
IsWellFormed c = length c.node_array ≡ c.num_of_nodes

-- A well-formed state, whichever way the reading ended; `OnFault` and `OnFuel` say what is known
-- where there is no state.
abbrev pub Sound : (OnFault OnFuel : Type 0) → {Real : Type 0} → Outcome Real → Type 0
Sound OnFault OnFuel (success c) = IsWellFormed c
Sound OnFault OnFuel (failure c) = IsWellFormed c
Sound OnFault OnFuel fault = OnFault
Sound OnFault OnFuel out_of_fuel = OnFuel

-- The index that a range starts from is not negative.
abbrev pub FromZero : ℤ → Type 0
FromZero (pos b) = Unit
FromZero (negsuc b) = ⊥

module _ (OnFault OnFuel : Type 0) {Real : Type 0} where
  stored_nodes :
      (c : Config Real) (f : Nodeinfo Real → Nodeinfo Real) (rounds i : ℕ)
      → IsWellFormed c
      → i + rounds ≤ c.num_of_nodes
      → Sound OnFault OnFuel (stored c (write_nodes f rounds i c.node_array))
  stored_nodes c f rounds i wf h =
      let (ys, e, w) = write_nodes_total f rounds i c.node_array (omega arith) in
      rw e (w.same_length ∙ wf)

  -- A range whose end was checked, and whose start is not negative, stays inside the array.
  stored-Sound :
      (c : Config Real) (f : Nodeinfo Real → Nodeinfo Real) (beg end : ℤ)
      → IsWellFormed c
      → FromZero beg ⊎ OnFault
      → (pos c.num_of_nodes ≤ℤ end) ≡ false
      → Sound OnFault OnFuel (stored c (write_range f beg end c.node_array))
  unfolding write_range
  stored-Sound c f (pos b) (pos e) wf from h = elim (Bool-cases (ltb e b)) [
    | inl empty ↦ rw empty wf
    | inr more ↦ rw more (stored_nodes c f (e + 1 - b) b wf (ground arith))
  ]
  stored-Sound c f (pos b) (negsuc e) wf from h = wf
  stored-Sound c f (negsuc b) end wf (inl bad) h = absurd bad
  stored-Sound c f (negsuc b) (pos e) wf (inr bad) h = bad
  stored-Sound c f (negsuc b) (negsuc e) wf (inr bad) h = elim (Bool-cases (ltb b e)) [
    | inl empty ↦ rw empty wf
    | inr more ↦ rw more bad
  ]

  pub if-Sound :
      (b : Bool) (x y : Outcome Real)
      → (b ≡ true → Sound OnFault OnFuel x)
      → (b ≡ false → Sound OnFault OnFuel y)
      → Sound OnFault OnFuel (if b then x else y)
  if-Sound true x y p q = p refl
  if-Sound false x y p q = q refl

  module _ (c : Config Real) (beg end : ℤ) (wf : IsWellFormed c) (from : FromZero beg ⊎ OnFault)
      (cut : (pos c.num_of_nodes ≤ℤ end) ≡ false) where
    pub set_node_set_exec-Sound :
        (exec : Bytes) → Sound OnFault OnFuel (set_node_set_exec exec beg end c)
    unfolding set_node_set_exec
    set_node_set_exec-Sound exec = stored-Sound c _ beg end wf from cut

    pub set_node_set_cap_file-Sound :
        (path : Bytes) → Sound OnFault OnFuel (set_node_set_cap_file path beg end c)
    unfolding set_node_set_cap_file
    set_node_set_cap_file-Sound path = stored-Sound c _ beg end wf from cut

    pub set_node_kv-Sound : (key val : Bytes) → Sound OnFault OnFuel (set_node_kv key val beg end c)
    unfolding set_node_kv
    set_node_kv-Sound key val = stored-Sound c _ beg end wf from cut

    pub set_node_promis-Sound :
        (pmode : Bytes) → Sound OnFault OnFuel (set_node_promis pmode beg end c)
    unfolding set_node_promis
    set_node_promis-Sound pmode = if-Sound (end <ℤ beg) _ _ (λ e. wf) (λ e. promis (stoi pmode))
      where
        promis :
            (v : Option ℤ)
            → Sound OnFault OnFuel (elim v [
              | none ↦ failure c
              | some val ↦ stored c (write_range (set_promis_mode val) beg end c.node_array)
            ])
        promis none = wf
        promis (some val) = stored-Sound c _ beg end wf from cut

    pub set_node_position-Sound :
        (stod : Bytes → Option Real) (position : Bytes)
        → Sound OnFault OnFuel (set_node_position stod position beg end c)
    unfolding set_node_position
    set_node_position-Sound stod position =
        if-Sound (ltb (length (split position b',')) 3) _ _ (λ e. wf)
          (λ e.
            if-Sound (end <ℤ beg) _ _ (λ e. wf)
              (λ e. place (coordinates stod (split position b','))))
      where
        place :
            (p : Option (Real × Real × Real))
            → Sound OnFault OnFuel (elim p [
              | none ↦ failure c
              | some (x, y, z) ↦
                  stored c (write_range (Nodeinfo.set_node_position x y z) beg end c.node_array)
            ])
        place none = wf
        place (some (x, y, z)) = stored-Sound c _ beg end wf from cut

  pub set_number_of_nodes-Sound :
      (n : ℤ) (c : Config Real) → Sound OnFault OnFuel (set_number_of_nodes n c)
  unfolding set_number_of_nodes
  set_number_of_nodes-Sound (pos n) c = length-replicate n _
  set_number_of_nodes-Sound (negsuc n) c = refl
