-- ===== src/Airline/PowerLine/Graph.antt =====
-- src/airline/NS3/PowerLineCommHandler.cc: `plcInstall`, which makes the graph of outlets and cables.
--
-- Parameters: `stod`, the conversion to centimetres, and where the nodes are. The graph stands for the
-- simulator's objects; the log modules that may be enabled, and the devices that the simulator makes
-- of the graph, are left out.
use whitefield.Base.{
  ℕ, zero, suc, ◌+◌, ◌^◌, min, Bool, true, not, Option, none, some, List, [], ◌∷◌, ◌++◌, Bytes,
  codes, get_elem?, length, leb, ltb, if◌then◌else◌,
}
use whitefield.Base.Int.{ℤ, pos, negsuc, u16_of}
use whitefield.Base.Text.{stoi, text_eq}
use whitefield.Commline.Message.{in_range}
use whitefield.Airline.Config.{Config, split}
use whitefield.Airline.Config.Lookup.{get, get_node_cfg}

pub data Cable : Type 0 where
  al3x95xlpe nycy70sm35 nayy50se mv_overhead nayy150se : Cable

-- PLC_Node with its outlet, which has the simulator's impedance or its own.
pub record PlcNode (Real : Type 0) : Type 0 where
  pub position : Real × Real × Real
  pub outlet_impedance : Option Real

-- PLC_Line.
pub record Line : Type 0 where
  pub cable : Cable
  pub first_end : ℕ
  pub second_end : ℕ

-- `plcNodes` and the lines between them.
pub record PlcGraph (Real : Type 0) : Type 0 where
  pub nodes : List (PlcNode Real)
  pub lines : List Line

-- FAILURE, an exception, a loop without end, and an access outside of an array are the other ends.
pub data Built (Real : Type 0) : Type 0 where
  built : PlcGraph Real → Built Real
  failure : Built Real
  exception : Built Real
  endless_loop : Built Real
  bad_access : Built Real

-- FAILURE is `none`.
unfoldable pub plc_get_cable : Bytes → Option Cable
plc_get_cable s =
    if text_eq s (codes "AL3x95XLPE")
    then some al3x95xlpe
    else if text_eq s (codes "NYCY70SM35")
    then some nycy70sm35
    else if text_eq s (codes "NAYY50SE")
    then some nayy50se
    else if text_eq s (codes "MV_Overhead")
    then some mv_overhead
    else if text_eq s (codes "NAYY150SE")
    then some nayy150se
    else if text_eq s []
    then some nayy150se
    else none

-- Whether `plcGetSpectrumModel` gives a model.
abbrev pub is_spectrum_model : Bytes → Bool
is_spectrum_model s =
    if text_eq s (codes "narrowband")
    then true
    else if text_eq s []
    then true
    else text_eq s (codes "G3")

abbrev pub or_default : Bytes → Bytes
or_default [] = codes "1e-8"
or_default (c ∷ s) = c ∷ s

-- The part of a link behind its first ','.
abbrev pub cable_of : List Bytes → Bytes
cable_of [] = codes "NAYY150SE"
cable_of (cable ∷ rest) = cable

abbrev pub num_of_nodes : ℤ → ℕ
num_of_nodes (pos n) = n
num_of_nodes (negsuc n) = 0

module _ {Real : Type 0} where
  abbrev pub and_then : Built Real → (PlcGraph Real → Built Real) → Built Real
  and_then (built g) f = f g
  and_then failure f = failure
  and_then exception f = exception
  and_then endless_loop f = endless_loop
  and_then bad_access f = bad_access

  abbrev pub with_cable : ℕ → ℕ → PlcGraph Real → Option Cable → Built Real
  with_cable i1 i2 g none = failure
  with_cable i1 i2 g (some cable) = built (record g {
    lines = g.lines ++ record { cable = cable; first_end = i1; second_end = i2 } ∷ [];
  })

  unfoldable pub plc_connect_link : ℕ → ℕ → Bytes → PlcGraph Real → Built Real
  unfolding plc_get_cable
  plc_connect_link i1 i2 cable_str g =
      if ltb i1 (length g.nodes)
      then (if ltb i2 (length g.nodes)
          then with_cable i1 i2 g (plc_get_cable cable_str)
          else bad_access)
      else bad_access

  -- `plcAddOutlet`; the outer `none` is an exception.
  abbrev pub plc_add_outlet : (Bytes → Option Real) → Bytes → Option (Option Real)
  plc_add_outlet stod [] = some none
  plc_add_outlet stod (c ∷ s) = elim (stod (c ∷ s)) [ none ↦ none | some x ↦ some (some x) ]

  abbrev pub with_outlet : Real × Real × Real → PlcGraph Real → Option (Option Real) → Built Real
  with_outlet place g none = exception
  with_outlet place g (some impedance) = built (record g {
    nodes = g.nodes ++ record { position = place; outlet_impedance = impedance } ∷ [];
  })

  module _ (stod : Bytes → Option Real) (to_cm : Real × Real × Real → Real × Real × Real)
      (positions : List (Real × Real × Real)) (c : Config Real) where
    unfoldable pub plc_add_node : ℕ → PlcGraph Real → Built Real
    unfolding get_node_cfg
    plc_add_node id g = elim (get_elem? positions id) [
      | none ↦ bad_access
      | some place ↦
          with_outlet (to_cm place) g
            (plc_add_outlet stod (get_node_cfg id (codes "plc_outlet_impedance") c))
    ]

    -- The first loop, from node `id` on, with the number of nodes that are left.
    unfoldable pub add_nodes : ℕ → ℕ → PlcGraph Real → Built Real
    unfolding plc_add_node
    add_nodes zero id g = built g
    add_nodes (suc n) id g = and_then (plc_add_node id g) (λ g'. add_nodes n (id + 1) g')

    abbrev pub with_target : ℕ → ℕ → List Bytes → PlcGraph Real → Option ℤ → Built Real
    with_target num_nodes i rest g none = exception
    with_target num_nodes i rest g (some j) =
        if not (in_range (u16_of j) 0 num_nodes)
        then failure
        else plc_connect_link i (u16_of j) (cable_of rest) g

    abbrev pub with_parts : ℕ → ℕ → PlcGraph Real → List Bytes → Built Real
    with_parts num_nodes i g [] = failure
    with_parts num_nodes i g (target ∷ rest) = with_target num_nodes i rest g (stoi target)

    abbrev pub link_node : ℕ → ℕ → PlcGraph Real → Bytes → Built Real
    link_node num_nodes i g [] = built g
    link_node num_nodes i g (b ∷ plc_link) = with_parts num_nodes i g (split (b ∷ plc_link) b',')

    -- The second loop.
    unfoldable pub add_links : ℕ → ℕ → ℕ → PlcGraph Real → Built Real
    unfolding get_node_cfg split plc_connect_link
    add_links num_nodes zero i g = built g
    add_links num_nodes (suc n) i g =
        and_then (link_node num_nodes i g (get_node_cfg i (codes "plc_link") c))
          (λ g'. add_links num_nodes n (i + 1) g')

    -- `for (i = 0; i < numNodes; i++)` with an index of 16 bits.
    abbrev pub ends : ℕ → PlcGraph Real → Built Real
    ends num_nodes g = if leb (2 ^ 16) num_nodes then endless_loop else built g

    -- `getTxPsd`, which may throw.
    abbrev pub with_tx_psd : PlcGraph Real → Option Real → Built Real
    with_tx_psd g none = exception
    with_tx_psd g (some psd) = built g

    abbrev pub no_graph : PlcGraph Real
    no_graph = record { nodes = []; lines = [] }

    abbrev pub add_all : ℕ → Built Real
    add_all num_nodes =
        and_then (and_then (add_nodes (min num_nodes (2 ^ 16)) 0 no_graph) (ends num_nodes)) (λ g.
          and_then (add_links num_nodes num_nodes 0 g)
            (λ g'. with_tx_psd g' (stod (or_default (get (codes "plc_tx_psd") c)))))

    unfoldable pub plc_install : Built Real
    unfolding get add_nodes add_links
    plc_install = elim (stoi (get (codes "numOfNodes") c)) [
      | none ↦ exception
      | some n ↦
          if is_spectrum_model (get (codes "plc_spectrum_model") c)
          then add_all (num_of_nodes n)
          else failure
    ]
