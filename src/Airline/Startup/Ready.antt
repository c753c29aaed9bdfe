-- ===== src/Airline/Startup/Ready.antt =====
-- How `startNetwork` ends with a valid configuration: what the simulator's nodes are when it runs.
use whitefield.Base.{
  ℕ, zero, suc, ◌+◌, ◌≤◌, ◌≢◌, Bool-cases, inl, inr, Option, [], get_elem?-outside, ◌<◌, ◌^◌, ◌≡◌,
  refl, ap, ◌∙◌, Bool, false, true, none, some, List, map, get_elem?-map, get_elem?-replicate,
  codes, get_elem?, replicate, ltb, if◌then◌else◌, arith, length,
}
use mathlib.Core.Option
use whitefield.Airline.Nodeinfo.{Nodeinfo, getkv}
use whitefield.Airline.Config.{Config}
use whitefield.Airline.Config.Lookup.{get, get_node_info}
use whitefield.Airline.Stats.{clear, reset}
use whitefield.Airline.Stats.Bounds.{clear_all}
use whitefield.Airline.Iface.Setup.{with_param, new_device, is_set, IfaceList}
use whitefield.Airline.Manager.{Airline, macstats}
use whitefield.Airline.Startup.{
  allocator, Outside, running, set_node_specific_param, positions_from, start_network, created,
  with_iface, with_allocation, with_seed, with_clear, adjusted, threw,
}
use whitefield.Airline.Startup.Described.{
  set_position_allocator-IsPlaced, described, own_or, adjusted-described,
}
use whitefield.Airline.Startup.Devices.{promoted, powered, power_text, moved}
use whitefield.Airline.Startup.Nodes.{IsConfigured, set_node_specific_param-Adjusted}
use whitefield.Airline.Startup.Radio.{
  get_elem?-numbered, Settings, cleared, cleared_settings, set_up, set_up_devices, radio_inited,
  iface_install-set_up,
}

module _ {Real : Type 0} where
  get_elem?-positions_from :
      (place : ℕ → Real × Real × Real) (lo n j : ℕ)
      → j < n
      → get_elem? (positions_from place lo n) j ≡ some (place (lo + j))
  get_elem?-positions_from place lo zero j h = absurd (omega arith)
  get_elem?-positions_from place lo (suc n) zero h =
      let start : lo ≡ lo + 0 = omega arith in ap (λ i. some (place i)) start
  get_elem?-positions_from place lo (suc n) (suc j) h =
      let next : lo + 1 + j ≡ lo + suc j = omega arith in
      get_elem?-positions_from place (lo + 1) n j (omega arith) ∙ ap (λ i. some (place i)) next

  reset_if :
      (b : Bool) (nodes : List (Nodeinfo Real)) (j : ℕ)
      → (if b then get_elem? (map reset nodes) j else none)
        ≡ Option.map reset (if b then get_elem? nodes j else none)
  reset_if true nodes j = get_elem?-map reset nodes j
  reset_if false nodes j = refl

  module _ (o : Outside Real) where
    -- The state of Airline when the interface is set up, before what nodes have of their own.
    abbrev set_up_airline : (a : Airline Real) → Settings o a.config → Airline Real
    set_up_airline a s =
        let b = created o a s.alloc in
        record b { ctx = record b.ctx { devices = set_up_devices o s b.ctx.devices } }

    with_allocation-set_up :
        (a : Airline Real) (s : Settings o a.config)
        → with_allocation o a (allocator s.alloc)
          ≡ adjusted
              (radio_inited o a.config)
              (set_node_specific_param o.world a.config.num_of_nodes (set_up_airline a s))
    with_allocation-set_up a s =
        let b = created o a s.alloc in
        ap (with_iface o.world b) (iface_install-set_up o a.config s b.ctx)

    abbrev cleared_airline : Airline Real → Airline Real
    cleared_airline a = record a { config = cleared o a.config; tv = o.world.now }

    start_network-set_up :
        (a : Airline Real) (s : Settings o a.config)
        → length a.config.node_array < 2 ^ 16
        → start_network o a
          ≡ adjusted (radio_inited o (cleared o a.config)) (
              set_node_specific_param o.world a.config.num_of_nodes
                (set_up_airline (cleared_airline a) (cleared_settings o a.config s)))
    unfolding start_network
    start_network-set_up a s few =
        let s' = cleared_settings o a.config s in
        ap
          (λ e. elim e [
            | none ↦ threw
            | some enabled ↦ with_clear o a (clear o.world.now (macstats a))
          ])
          s.has_checksum
        ∙ ap (with_clear o a) (clear_all o.world.now (macstats a) few)
        ∙ ap (with_seed o (cleared_airline a)) s.has_seed
        ∙ ap (with_allocation o (cleared_airline a)) (
            set_position_allocator-IsPlaced o.world.stod o.divide (cleared o a.config) s'.alloc
              s'.is_placed)
        ∙ with_allocation-set_up (cleared_airline a) s'

    get_node_info-cleared :
        (c : Config Real) (j : ℕ) (ni : Nodeinfo Real)
        → get_node_info j c ≡ some ni
        → get_node_info j (cleared o c) ≡ some (reset ni)
    unfolding get_node_info
    get_node_info-cleared c j ni e =
        reset_if (ltb j c.num_of_nodes) c.node_array j ∙ ap (Option.map reset) e

    IsConfigured-cleared :
        (c : Config Real) (j : ℕ)
        → IsConfigured o.world (get (codes "txPower") c) c j
        → IsConfigured o.world (get (codes "txPower") (cleared o c)) (cleared o c) j
    unfolding get getkv
    IsConfigured-cleared c j (ni, e, power) = (reset ni, get_node_info-cleared c j ni e, power)

    set_up_device :
        (c : Config Real) (s : Settings o c) (n j : ℕ)
        → j < n
        → get_elem? (set_up_devices o s (replicate n none)) j ≡ some (some (set_up o s j))
    set_up_device c s n j h =
        let start : 0 + j ≡ j = omega arith in
        let f = with_param s.retries (is_set s.header_add) s.channel in
        get_elem?-numbered f 0 j (map (λ node. some (new_device s.pan_id)) (replicate n none))
        ∙ ap (Option.map (Option.map (f (0 + j)))) (
            get_elem?-map (λ node. some (new_device s.pan_id)) (replicate n none) j
            ∙ ap (Option.map (λ node. some (new_device s.pan_id))) (get_elem?-replicate none n j h))
        ∙ ap (λ i. some (some (set_up o s i))) start

    -- The number of a node of the configuration is below the size of its table.
    get_node_info-inside :
        (c : Config Real) (j : ℕ) (ni : Nodeinfo Real)
        → get_node_info j c ≡ some ni
        → j < length c.node_array
    unfolding get_node_info
    get_node_info-inside c j ni e = elim (Bool-cases (ltb j (length c.node_array))) [
      | inl inside ↦ ground arith
      | inr outside ↦
          let beyond : length c.node_array ≤ j = ground arith in
          absurd (none_from (ltb j c.num_of_nodes) (get_elem?-outside c.node_array j beyond) e)
    ]
      where
        none_from :
            (b : Bool) {o : Option (Nodeinfo Real)} → o ≡ none → ((if b then o else none) ≢ some ni)
        none_from true missing e = cc
        none_from false missing e = cc

    -- A node of the simulator: where it is, and how its device is set.
    abbrev pub IsReady : (a : Airline Real) → Settings o a.config → Airline Real → Type 0
    IsReady a s a' =
        (j : ℕ) (ni : Nodeinfo Real)
        → j < a.config.num_of_nodes
        → get_node_info j a.config ≡ some ni
        → (get_elem? a'.positions j ≡ some (moved ni.position (o.allocate s.alloc j)))
          × (get_elem? a'.ctx.devices j
              ≡ some (
                  some (
                    described o.world.stod s.pan_id s.retries (is_set s.header_add) s.channel j
                      ni.promis_mode
                      (own_or (getkv (codes "txPower") [] ni) (get (codes "txPower") a.config)))))

    -- With a valid configuration of fewer than 65536 nodes, whose powers are numbers, `startNetwork`
    -- comes to run the simulator. Then every node stands where the configuration puts it, or else
    -- where the allocator does, and its device has its address, its callbacks and settings, its
    -- promiscuous mode, and its own power or that of the network.
    pub start_network-IsReady :
        (a : Airline Real) (s : Settings o a.config)
        → length a.config.node_array < 2 ^ 16
        → ((j : ℕ)
            → j < a.config.num_of_nodes
            → IsConfigured o.world (get (codes "txPower") a.config) a.config j)
        → (g : IfaceList Real) × (a' : Airline Real) × (start_network o a ≡ running g a')
          × IsReady a s a'
    unfolding get getkv cleared_settings
    start_network-IsReady a s few node =
        let c = a.config in
        let s' = cleared_settings o c s in
        let start = set_up_airline (cleared_airline a) s' in
        let (a', run, _, adjusted_to) =
          set_node_specific_param-Adjusted o.world c.num_of_nodes start s'.is_radio
            (λ j h. IsConfigured-cleared c j (node j h)) in
        (
          radio_inited o (cleared o c),
          a',
          start_network-set_up a s few ∙ ap (adjusted (radio_inited o (cleared o c))) run,
          λ j ni h e.
              let (p, d) = adjusted_to j (reset ni) h (get_node_info-cleared c j ni e) in
              let zero_first : 0 + j ≡ j = omega arith in
              (
                p
                    ∙ ap (Option.map (moved ni.position))
                        (get_elem?-positions_from (o.allocate s.alloc) 0 c.num_of_nodes j h)
                    ∙ ap (λ i. some (moved ni.position (o.allocate s.alloc i))) zero_first,
                d
                    ∙ ap
                        (Option.map (
                          Option.map (λ dev.
                            powered o.world.stod (power_text (get (codes "txPower") c) ni)
                              (promoted ni.promis_mode dev))))
                        (set_up_device (cleared o c) s' c.num_of_nodes j h)
                    ∙ ap (λ dev. some (some dev))
                        (adjusted-described o.world.stod s.pan_id s.retries (is_set s.header_add)
                          s.channel j ni (get (codes "txPower") c)
                          (let inside = get_node_info-inside c j ni e in omega arith)),
              ),
        )
