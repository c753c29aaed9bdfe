-- ===== src/Airline/Startup.antt =====
-- src/airline/NS3/AirlineManager.cc: `startNetwork`, up to where the simulator runs.
--
-- Parameters: the arithmetic and the parsing of real numbers, where the simulator's allocators put the
-- nodes, and the set-up of the power line interface. What `startNetwork` gives to the simulator's
-- random numbers and checksums is left out, except that reading it may throw.
pub mod Devices
pub mod Described
pub mod Step
pub mod Nodes
pub mod Radio
pub mod Ready
mod Tests
use whitefield.Base.{
  ℕ, zero, suc, ◌+◌, ◌-◌, ◌==◌, Bool, false, Option, none, some, ◌>>=◌, List, [], ◌∷◌, ◌++◌, Bytes,
  codes, take, replicate, set, if◌then◌else◌,
}
use whitefield.Base.Int.{ℤ}
use whitefield.Base.Text.{stoi, text_eq}
use whitefield.Airline.Nodeinfo.{Nodeinfo, getkv}
use whitefield.Airline.Config.{Config}
use whitefield.Airline.Config.Lookup.{get, cfg_int, get_node_info}
use whitefield.Airline.Stats.{Macstats, clear}
use whitefield.Airline.Iface.Lrwpan.{IfaceCtx, IfaceStatus, done, uncaught}
use whitefield.Airline.Iface.Handler.{iface_set_promiscuous, iface_set_tx_power}
use whitefield.Airline.Iface.Setup.{
  IfaceSetup, IfaceList, Installed, returned, no_setup, iface_install, lrwpan_setup,
}
use whitefield.Airline.Manager.{Airline, macstats, with_macstats}
use whitefield.Airline.Manager.Commands.{World}

-- The allocators of the simulator with the attributes that are set.
pub data Allocator (Real : Type 0) : Type 0 where
  grid : Real → Real → ℤ → Allocator Real
  random_rectangle : Bytes → Bytes → Allocator Real

-- An allocator, `throw FAILURE`, or an exception of `stoi` or `stod`.
pub data Allocation (Real : Type 0) : Type 0 where
  allocator : Allocator Real → Allocation Real
  threw_failure : Allocation Real
  exception : Allocation Real

-- What lies outside while the network starts.
pub record Outside (Real : Type 0) : Type 0 where
  pub world : World Real
  pub divide : Real → ℤ → Real
  pub allocate : Allocator Real → ℕ → Real × Real × Real
  pub plc_setup : Option (IfaceCtx Real → IfaceCtx Real × IfaceStatus)

-- How `startNetwork` ends: the simulator runs, FAILURE, an exception, a loop without end, or a call
-- of a null pointer.
pub data Started (Real : Type 0) : Type 0 where
  running : IfaceList Real → Airline Real → Started Real
  failure : Started Real
  threw : Started Real
  endless_loop : Started Real
  null_call : Started Real

-- The text of a random variable, in a buffer of 128 bytes.
abbrev uniform : Bytes → Bytes
uniform max = take 127 (codes "ns3::UniformRandomVariable[Min=0.0|Max=" ++ (max ++ codes "]"))

abbrev pub or_else : Bytes → Bytes → Bytes
or_else [] def = def
or_else (c ∷ s) def = c ∷ s

module _ {Real : Type 0} where
  abbrev pub grid_of : (Real → ℤ → Real) → Option ℤ → Option Real → Option Real → Allocation Real
  grid_of divide (some gw) (some x) (some y) = allocator (grid (divide x gw) (divide y gw) gw)
  grid_of divide gw x y = exception

  unfoldable pub set_position_allocator :
      (Bytes → Option Real) → (Real → ℤ → Real) → Config Real → Allocation Real
  unfolding get
  set_position_allocator stod divide c =
      let topology = get (codes "topologyType") c in
      let x = get (codes "fieldX") c in
      let y = get (codes "fieldY") c in
      if text_eq topology (codes "grid")
      then grid_of divide (stoi (get (codes "gridWidth") c)) (stod x) (stod y)
      else if text_eq topology (codes "randrect")
      then allocator (random_rectangle (uniform x) (uniform y))
      else threw_failure

  -- An interface's result that is ignored; `none` is an exception.
  abbrev pub kept : Airline Real → IfaceCtx Real × IfaceStatus → Option (Airline Real)
  kept a (ctx, uncaught) = none
  kept a (ctx, _) = some (record a { ctx = ctx })

  abbrev pub node_pos : ℕ → Option (Real × Real × Real) → Airline Real → Airline Real
  node_pos id position a = record a {
    positions = elim position [ none ↦ a.positions | some place ↦ set a.positions id place ];
  }

  abbrev pub with_promis_mode : World Real → ℕ → ℕ → Airline Real → Option (Airline Real)
  with_promis_mode w id promis_mode a =
      if promis_mode == 0 then some a else kept a (iface_set_promiscuous w.plc a.config id a.ctx)

  abbrev pub with_tx_power : World Real → ℕ → Bytes → Airline Real → Option (Airline Real)
  with_tx_power w id [] a = some a
  with_tx_power w id (c ∷ s) a = elim (w.stod (c ∷ s)) [
    | none ↦ none
    | some txpower ↦ kept a (iface_set_tx_power w.plc a.config id txpower a.ctx)
  ]

  -- The body of the loop of `setNodeSpecificParam`.
  unfoldable pub set_node :
      World Real → Bytes → ℕ → Nodeinfo Real → Airline Real → Option (Airline Real)
  unfolding getkv iface_set_promiscuous iface_set_tx_power
  set_node w deftxpower id ni a = do
    a1 ← with_promis_mode w id ni.promis_mode (node_pos id ni.position a)
    with_tx_power w id (or_else (getkv (codes "txPower") [] ni) deftxpower) a1

  unfoldable pub set_nodes_from : World Real → Bytes → ℕ → ℕ → Airline Real → Option (Airline Real)
  unfolding get_node_info set_node
  set_nodes_from w deftxpower zero id a = some a
  set_nodes_from w deftxpower (suc n) id a = elim (get_node_info id a.config) [
    | none ↦ some a
    | some ni ↦ elim (set_node w deftxpower id ni a) [
      | none ↦ none
      | some a1 ↦ set_nodes_from w deftxpower n (id + 1) a1
    ]
  ]

  -- `n` is the number of nodes in the simulator.
  unfoldable pub set_node_specific_param : World Real → ℕ → Airline Real → Option (Airline Real)
  unfolding set_nodes_from get
  set_node_specific_param w n a = set_nodes_from w (get (codes "txPower") a.config) n 0 a

  abbrev pub positions_from : (ℕ → Real × Real × Real) → ℕ → ℕ → List (Real × Real × Real)
  positions_from place id zero = []
  positions_from place id (suc n) = place id ∷ positions_from place (id + 1) n

  abbrev pub adjusted : IfaceList Real → Option (Airline Real) → Started Real
  adjusted g none = threw
  adjusted g (some a) = running g a

  abbrev pub with_iface : World Real → Airline Real → Installed Real → Started Real
  with_iface w a (returned g ctx done) =
      adjusted g (set_node_specific_param w a.config.num_of_nodes (record a { ctx = ctx }))
  with_iface w a (returned g ctx uncaught) = threw
  with_iface w a (returned g ctx _) = failure
  with_iface w a no_setup = null_call

  -- `g_iflist` before any interface is set up.
  abbrev pub iflist : Outside Real → Config Real → IfaceList Real
  iflist o c = record {
    lrwpan = record { setup = some (lrwpan_setup o.world.stod c); inited = false };
    plc = record { setup = o.plc_setup; inited = false };
  }

  abbrev pub created : Outside Real → Airline Real → Allocator Real → Airline Real
  created o a alloc = record a {
    ctx = record a.ctx { devices = replicate a.config.num_of_nodes none };
    positions = positions_from (o.allocate alloc) 0 a.config.num_of_nodes;
  }

  abbrev pub with_allocation : Outside Real → Airline Real → Allocation Real → Started Real
  with_allocation o a (allocator alloc) =
      let b = created o a alloc in
      with_iface o.world b (iface_install b.config (iflist o b.config) b.ctx)
  with_allocation o a threw_failure = failure
  with_allocation o a exception = threw

  abbrev pub with_seed : Outside Real → Airline Real → Option ℤ → Started Real
  with_seed o a none = threw
  with_seed o a (some seed) =
      with_allocation o a (set_position_allocator o.world.stod o.divide a.config)

  abbrev pub with_clear : Outside Real → Airline Real → Option (Macstats Real) → Started Real
  with_clear o a none = endless_loop
  with_clear o a (some m) =
      with_seed o (with_macstats m a) (cfg_int (codes "randSeed") (codes "0xbabe") a.config)

  unfoldable pub start_network : Outside Real → Airline Real → Started Real
  unfolding clear cfg_int set_position_allocator iface_install set_node_specific_param lrwpan_setup
  start_network o a = elim (cfg_int (codes "macChecksumEnabled") (codes "1") a.config) [
    | none ↦ threw
    | some enabled ↦ with_clear o a (clear o.world.now (macstats a))
  ]
