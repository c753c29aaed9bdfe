-- ===== src/Airline/PowerLine/Linked.antt =====
-- src/airline/NS3/PowerLineCommHandler.cc: the graph that `plcInstall` makes.
use whitefield.Base.{
  ℕ, zero, suc, ◌+◌, ◌^◌, ◌≤◌, ◌<◌, ◌≡◌, refl, sym, ap, ◌∙◌, min, Bool, true, not, Option, none,
  some, List, [], ◌∷◌, Bytes, codes, get_elem?-inside, length, length-append, leb, ltb,
  if◌then◌else◌, arith, All, All-append, Bool-cases, inl, inr, subst,
}
use whitefield.Base.Int.{ℤ, pos, u16_of}
use whitefield.Base.Text.{stoi}
use whitefield.Commline.Message.{in_range}
use whitefield.Airline.Config.{Config, split}
use whitefield.Airline.Config.Lookup.{get, get_node_cfg}
use whitefield.Airline.PowerLine.Graph.{
  Cable, PlcGraph, Line, Built, built, failure, exception, endless_loop, bad_access, plc_get_cable,
  and_then, with_cable, plc_connect_link, with_outlet, plc_add_outlet, plc_add_node, with_tx_psd,
  is_spectrum_model, add_nodes, with_target, with_parts, link_node, add_links, ends, no_graph,
  add_all, num_of_nodes, plc_install, cable_of,
}

-- Both ends of a line are among `n` nodes.
abbrev pub AreNodes : ℕ → Line → Type 0
AreNodes n l = (l.first_end < n) × (l.second_end < n)

module _ {Real : Type 0} where
  -- No access outside of an array, and a property of the graph where there is one.
  abbrev pub Holds : (PlcGraph Real → Type 0) → Built Real → Type 0
  Holds P (built g) = P g
  Holds P failure = Unit
  Holds P exception = Unit
  Holds P endless_loop = Unit
  Holds P bad_access = ⊥

  and_then-Holds :
      (P Q : PlcGraph Real → Type 0) (r : Built Real) (f : PlcGraph Real → Built Real)
      → Holds P r
      → ((g : PlcGraph Real) → P g → Holds Q (f g))
      → Holds Q (and_then r f)
  and_then-Holds P Q (built g) f h next = next g h
  and_then-Holds P Q failure f h next = tt
  and_then-Holds P Q exception f h next = tt
  and_then-Holds P Q endless_loop f h next = tt
  and_then-Holds P Q bad_access f h next = h

  -- `n` nodes, and lines between them.
  abbrev pub IsConnected : ℕ → PlcGraph Real → Type 0
  IsConnected n g = (length g.nodes ≡ n) × All (AreNodes n) g.lines

  with_cable-IsConnected :
      (n i1 i2 : ℕ) (g : PlcGraph Real) (cable : Option Cable)
      → i1 < n
      → i2 < n
      → IsConnected n g
      → Holds (IsConnected n) (with_cable i1 i2 g cable)
  with_cable-IsConnected n i1 i2 g none h1 h2 c = tt
  with_cable-IsConnected n i1 i2 g (some cable) h1 h2 (nodes, lines) =
      (nodes, All-append (AreNodes n) g.lines _ lines ((h1, h2), tt))

  plc_connect_link-IsConnected :
      (n i1 i2 : ℕ) (s : Bytes) (g : PlcGraph Real)
      → i1 < n
      → i2 < n
      → IsConnected n g
      → Holds (IsConnected n) (plc_connect_link i1 i2 s g)
  unfolding plc_connect_link
  plc_connect_link-IsConnected n i1 i2 s g h1 h2 (nodes, lines) =
      let in1 : ltb i1 (length g.nodes) ≡ true = ground arith in
      let in2 : ltb i2 (length g.nodes) ≡ true = ground arith in
      rw (in1, in2) (with_cable-IsConnected n i1 i2 g (plc_get_cable s) h1 h2 (nodes, lines))

  -- `n` nodes, and no lines yet.
  abbrev IsLaid : ℕ → PlcGraph Real → Type 0
  IsLaid n g = (length g.nodes ≡ n) × (g.lines ≡ [])

  with_outlet-IsLaid :
      (n : ℕ) (place : Real × Real × Real) (g : PlcGraph Real) (o : Option (Option Real))
      → IsLaid n g
      → Holds (IsLaid (n + 1)) (with_outlet place g o)
  with_outlet-IsLaid n place g none c = tt
  with_outlet-IsLaid n place g (some i) (nodes, lines) =
      (length-append g.nodes _ ∙ ap (λ k. k + 1) nodes, lines)

  module _ (stod : Bytes → Option Real) (to_cm : Real × Real × Real → Real × Real × Real)
      (positions : List (Real × Real × Real)) (c : Config Real) where
    plc_add_node-IsLaid :
        (id : ℕ) (g : PlcGraph Real)
        → id < length positions
        → IsLaid id g
        → Holds (IsLaid (id + 1)) (plc_add_node stod to_cm positions c id g)
    unfolding plc_add_node
    plc_add_node-IsLaid id g inside laid =
        let (place, here) = get_elem?-inside positions id inside in
        let impedance = plc_add_outlet stod (get_node_cfg id (codes "plc_outlet_impedance") c) in
        subst
          (λ o.
            Holds (IsLaid (id + 1))
              (elim o [ none ↦ bad_access | some place ↦ with_outlet (to_cm place) g impedance ]))
          (sym here) (with_outlet-IsLaid id (to_cm place) g impedance laid)

    add_nodes-IsLaid :
        (n id : ℕ) (g : PlcGraph Real)
        → id + n ≤ length positions
        → IsLaid id g
        → Holds (IsLaid (id + n)) (add_nodes stod to_cm positions c n id g)
    unfolding add_nodes
    add_nodes-IsLaid zero id g inside laid =
        let all : id ≡ id + 0 = omega arith in subst (λ k. IsLaid k g) all laid
    add_nodes-IsLaid (suc n) id g inside laid =
        let all : id + 1 + n ≡ id + suc n = omega arith in
        and_then-Holds (IsLaid (id + 1)) (IsLaid (id + suc n))
          (plc_add_node stod to_cm positions c id g)
          (λ g'. add_nodes stod to_cm positions c n (id + 1) g')
          (plc_add_node-IsLaid id g (omega arith) laid)
          (λ g' laid'.
            subst (λ k. Holds (IsLaid k) (add_nodes stod to_cm positions c n (id + 1) g')) all
              (add_nodes-IsLaid n (id + 1) g' (omega arith) laid'))

    module _ (num_nodes i : ℕ) (own : i < num_nodes) where
      with_target-IsConnected :
          (rest : List Bytes) (g : PlcGraph Real) (j : Option ℤ)
          → IsConnected num_nodes g
          → Holds (IsConnected num_nodes) (with_target stod to_cm positions c num_nodes i rest g j)
      with_target-IsConnected rest g none k = tt
      with_target-IsConnected rest g (some j) k =
          let linked : Bool → Built Real =
            λ b. if not b then failure else plc_connect_link i (u16_of j) (cable_of rest) g in
          elim (Bool-cases (in_range (u16_of j) 0 num_nodes)) [
            | inl inside ↦
                let other : u16_of j < num_nodes = ground arith in
                subst (λ b. Holds (IsConnected num_nodes) (linked b)) (sym inside)
                  (plc_connect_link-IsConnected num_nodes i (u16_of j) (cable_of rest) g own other
                    k)
            | inr outside ↦ subst (λ b. Holds (IsConnected num_nodes) (linked b)) (sym outside) tt
          ]

      with_parts-IsConnected :
          (g : PlcGraph Real) (parts : List Bytes)
          → IsConnected num_nodes g
          → Holds (IsConnected num_nodes) (with_parts stod to_cm positions c num_nodes i g parts)
      with_parts-IsConnected g [] k = tt
      with_parts-IsConnected g (target ∷ rest) k = with_target-IsConnected rest g (stoi target) k

      link_node-IsConnected :
          (g : PlcGraph Real) (plc_link : Bytes)
          → IsConnected num_nodes g
          → Holds (IsConnected num_nodes) (link_node stod to_cm positions c num_nodes i g plc_link)
      link_node-IsConnected g [] k = k
      link_node-IsConnected g (b ∷ s) k = with_parts-IsConnected g (split (b ∷ s) b',') k

    add_links-IsConnected :
        (num_nodes n i : ℕ) (g : PlcGraph Real)
        → i + n ≤ num_nodes
        → IsConnected num_nodes g
        → Holds (IsConnected num_nodes) (add_links stod to_cm positions c num_nodes n i g)
    unfolding add_links
    add_links-IsConnected num_nodes zero i g h k = k
    add_links-IsConnected num_nodes (suc n) i g h k =
        and_then-Holds (IsConnected num_nodes) (IsConnected num_nodes)
          (link_node stod to_cm positions c num_nodes i g (get_node_cfg i (codes "plc_link") c))
          (λ g'. add_links stod to_cm positions c num_nodes n (i + 1) g')
          (link_node-IsConnected num_nodes i (omega arith) g (get_node_cfg i (codes "plc_link") c)
            k)
          (λ g' k'. add_links-IsConnected num_nodes n (i + 1) g' (omega arith) k')

    ends-IsConnected :
        (n : ℕ) (g : PlcGraph Real)
        → IsLaid (0 + min n (2 ^ 16)) g
        → Holds (IsConnected n) (ends stod to_cm positions c n g)
    ends-IsConnected n g (nodes, lines) = elim (Bool-cases (leb (2 ^ 16) n)) [
      | inl many ↦
          subst (λ b. Holds (IsConnected n) (if b then endless_loop else built g)) (sym many) tt
      | inr few ↦
          let all : 0 + min n (2 ^ 16) ≡ n = ground arith in
          subst (λ b. Holds (IsConnected n) (if b then endless_loop else built g)) (sym few)
            (nodes ∙ all, subst (λ l. All (AreNodes n) l) (sym lines) tt)
    ]

    with_tx_psd-IsConnected :
        (n : ℕ) (g : PlcGraph Real) (psd : Option Real)
        → IsConnected n g
        → Holds (IsConnected n) (with_tx_psd stod to_cm positions c g psd)
    with_tx_psd-IsConnected n g none k = tt
    with_tx_psd-IsConnected n g (some psd) k = k

    add_all-IsConnected :
        (n : ℕ) → n ≤ length positions → Holds (IsConnected n) (add_all stod to_cm positions c n)
    add_all-IsConnected n inside =
        and_then-Holds (IsConnected n) (IsConnected n) _ _
          (and_then-Holds (IsLaid (0 + min n (2 ^ 16))) (IsConnected n) _ _
            (add_nodes-IsLaid (min n (2 ^ 16)) 0 (no_graph stod to_cm positions c) (ground arith)
              (refl, refl))
            (λ g laid. ends-IsConnected n g laid))
          (λ g k.
            and_then-Holds (IsConnected n) (IsConnected n) _ _
              (add_links-IsConnected n n 0 g (omega arith) k)
              (λ g' k'. with_tx_psd-IsConnected n g' _ k'))

    -- `plcInstall` never leaves the arrays of nodes: when it makes a graph, the graph has as many nodes
    -- as the configuration says, and both ends of every line are among them, whatever the
    -- links in the configuration say. Each node has a position.
    pub plc_install-IsConnected :
        (n : ℕ)
        → stoi (get (codes "numOfNodes") c) ≡ some (pos n)
        → n ≤ length positions
        → Holds (IsConnected n) (plc_install stod to_cm positions c)
    unfolding plc_install
    plc_install-IsConnected n nodes inside =
        let is_model = is_spectrum_model (get (codes "plc_spectrum_model") c) in
        let sized : ℕ → Built Real =
          λ k. if is_model then add_all stod to_cm positions c k else failure in
        subst
          (λ o.
            Holds (IsConnected n) (elim o [ none ↦ exception | some z ↦ sized (num_of_nodes z) ]))
          (sym nodes)
          (elim (Bool-cases is_model) [
            | inl known ↦
                subst
                  (λ b.
                    Holds (IsConnected n) (if b then add_all stod to_cm positions c n else failure))
                  (sym known) (add_all-IsConnected n inside)
            | inr unknown ↦
                subst
                  (λ b.
                    Holds (IsConnected n) (if b then add_all stod to_cm positions c n else failure))
                  (sym unknown) tt
          ])
