-- ===== src/Airline/Startup/Nodes.antt =====
-- What `setNodeSpecificParam` makes of each node.
use whitefield.Base.{
  ℕ, zero, suc, ◌+◌, ◌≤◌, ◌<◌, ◌≡◌, ◌≢◌, refl, sym, ap, ◌∙◌, Bool-cases, inl, inr, false, ◌==◌,
  Option, none, some, Bytes, codes, arith, ◌⊎◌, some_inj, subst,
}
use mathlib.Core.Option
use whitefield.Airline.Nodeinfo.{Nodeinfo}
use whitefield.Airline.Config.{Config}
use whitefield.Airline.Config.Lookup.{get, get_node_info}
use whitefield.Airline.Iface.Handler.{is_plc}
use whitefield.Airline.Manager.{Airline}
use whitefield.Airline.Manager.Commands.{World}
use whitefield.Airline.Startup.{set_node, set_nodes_from, set_node_specific_param}
use whitefield.Airline.Startup.Devices.{IsPower, promoted, powered, power_text, moved}
use whitefield.Airline.Startup.Step.{
  stepped, set_node-stepped, Adjusted, Untouched, stepped-Adjusted, stepped-Untouched,
}

module _ {Real : Type 0} where
  -- A node of the configuration, whose power is a number.
  abbrev pub IsConfigured : World Real → Bytes → Config Real → ℕ → Type 0
  IsConfigured w deftxpower c j =
      (ni : Nodeinfo Real) × (get_node_info j c ≡ some ni)
      × IsPower w.stod (power_text deftxpower ni)

  module _ (w : World Real) (deftxpower : Bytes) (c : Config Real) (radio : is_plc c ≡ false) where
    -- What the nodes from `lo` to `hi` have afterwards; the other nodes keep what they had.
    record Looped (lo hi : ℕ) (a a' : Airline Real) : Type 0 where
      config_kept : a'.config ≡ a.config
      inside :
          (j : ℕ) (ni : Nodeinfo Real)
          → lo ≤ j
          → j < hi
          → get_node_info j c ≡ some ni
          → Adjusted w deftxpower a a' j ni
      outside : (j : ℕ) → (j < lo) ⊎ (hi ≤ j) → Untouched a a' j

    Looped-step :
        (lo hi : ℕ) (ni : Nodeinfo Real) (a a' : Airline Real)
        → get_node_info lo c ≡ some ni
        → lo < hi
        → Looped (lo + 1) hi (stepped w deftxpower lo ni a) a'
        → Looped lo hi a a'
    Looped-step lo hi ni a a' e h l = record {
      config_kept = l.config_kept;
      inside = λ j nj low high ej. elim (Bool-cases (j == lo)) [
        | inl here ↦
            let eq : lo ≡ j = ground arith in
            let same : ni ≡ nj = some_inj (sym e ∙ ap (λ i. get_node_info i c) eq ∙ ej) in
            let (p, d) = l.outside lo (inl (omega arith)) in
            let (p0, d0) = stepped-Adjusted w deftxpower lo ni a in
            subst (λ i. Adjusted w deftxpower a a' i nj) eq
              (subst (λ n. Adjusted w deftxpower a a' lo n) same (p ∙ p0, d ∙ d0))
        | inr later ↦
            let ne : lo ≢ j = ground arith in
            let (p, d) = l.inside j nj (ground arith) high ej in
            let (p0, d0) = stepped-Untouched w deftxpower lo j ni a ne in
            (
              p ∙ ap (Option.map (moved nj.position)) p0,
              d
                  ∙ ap
                      (Option.map (
                        Option.map (λ dev.
                          powered w.stod (power_text deftxpower nj) (promoted nj.promis_mode dev))))
                      d0,
            )
      ];
      outside = λ j side.
          let ne : lo ≢ j = ground arith in
          let (p, d) =
            l.outside j (elim side [ inl low ↦ inl (omega arith) | inr high ↦ inr high ]) in
          let (p0, d0) = stepped-Untouched w deftxpower lo j ni a ne in (p ∙ p0, d ∙ d0);
    }

    next :
        (n lo : ℕ) (ni : Nodeinfo Real) (a a1 : Airline Real)
        → get_node_info lo a.config ≡ some ni
        → set_node w deftxpower lo ni a ≡ some a1
        → set_nodes_from w deftxpower (suc n) lo a ≡ set_nodes_from w deftxpower n (lo + 1) a1
    unfolding set_nodes_from
    next n lo ni a a1 here step =
        let go_on : Option (Airline Real) → Option (Airline Real) =
          λ o. elim o [ none ↦ none | some a1 ↦ set_nodes_from w deftxpower n (lo + 1) a1 ] in
        ap (λ o. elim o [ none ↦ some a | some ni ↦ go_on (set_node w deftxpower lo ni a) ]) here
        ∙ ap go_on step

    loop :
        (n lo : ℕ) (a : Airline Real)
        → a.config ≡ c
        → ((j : ℕ) → j < lo + n → IsConfigured w deftxpower c j)
        → (a' : Airline Real) × (set_nodes_from w deftxpower n lo a ≡ some a')
          × Looped lo (lo + n) a a'
    unfolding set_nodes_from
    loop zero lo a same node = (
      a,
      refl,
      record {
        config_kept = refl;
        inside = λ j ni low high e. absurd (omega arith);
        outside = λ j side. (refl, refl);
      },
    )
    loop (suc n) lo a same node =
        let (ni, e, power) = node lo (omega arith) in
        let here : get_node_info lo a.config ≡ some ni = ap (get_node_info lo) same ∙ e in
        let a1 = stepped w deftxpower lo ni a in
        let (a', run, l) = loop n (lo + 1) a1 same (λ j h. node j (omega arith)) in
        let ends : lo + 1 + n ≡ lo + suc n = omega arith in
        let step = set_node-stepped w deftxpower lo ni a (ap is_plc same ∙ radio) power in
        (
          a',
          next n lo ni a a1 here step ∙ run,
          Looped-step lo (lo + suc n) ni a a' e (omega arith)
              (subst (λ hi. Looped (lo + 1) hi a1 a') ends l),
        )

  -- `setNodeSpecificParam` ends, and then every node of the configuration has its position, where it
  -- has one of its own, its device is in promiscuous mode if the configuration says so, and has
  -- the node's power, or else that of the network, if there is one. Whatever is not
  -- configured stays as it was. The interface is the radio, and the powers are numbers.
  pub set_node_specific_param-Adjusted :
      (w : World Real) (n : ℕ) (a : Airline Real)
      → is_plc a.config ≡ false
      → ((j : ℕ) → j < n → IsConfigured w (get (codes "txPower") a.config) a.config j)
      → (a' : Airline Real) × (set_node_specific_param w n a ≡ some a')
        × (a'.config ≡ a.config)
        × ((j : ℕ) (ni : Nodeinfo Real)
            → j < n
            → get_node_info j a.config ≡ some ni
            → Adjusted w (get (codes "txPower") a.config) a a' j ni)
  unfolding set_node_specific_param
  set_node_specific_param-Adjusted w n a radio node =
      let def = get (codes "txPower") a.config in
      let (a', run, l) = loop w def a.config radio n 0 a refl (λ j h. node j (omega arith)) in
      (a', run, l.config_kept, λ j ni h e. l.inside j ni (omega arith) (omega arith) e)
