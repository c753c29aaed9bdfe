-- ===== src/Airline/Startup/Step.antt =====
-- What `setNodeSpecificParam` does in one round.
use whitefield.Base.{
  ℕ, ◌≡◌, ◌≢◌, refl, ap, ◌∙◌, false, Option, none, some, Bytes, get_elem?, modify, set-modify,
  get_elem?-modify_self, get_elem?-modify_ne, get_elem?-set_ne,
}
use mathlib.Core.Option
use whitefield.Airline.Nodeinfo.{Nodeinfo}
use whitefield.Airline.Iface.Lrwpan.{Device}
use whitefield.Airline.Iface.Handler.{is_plc}
use whitefield.Airline.Manager.{Airline}
use whitefield.Airline.Manager.Commands.{World}
use whitefield.Airline.Startup.{node_pos, set_node}
use whitefield.Airline.Startup.Devices.{
  IsPower, promoted, powered, power_text, moved, at_device, with_promis_mode-promoted,
  with_tx_power-powered,
}

module _ {Real : Type 0} where
  -- What the loop does for a node.
  abbrev pub stepped : World Real → Bytes → ℕ → Nodeinfo Real → Airline Real → Airline Real
  stepped w deftxpower id ni a =
      at_device id (powered w.stod (power_text deftxpower ni))
        (at_device id (promoted ni.promis_mode) (node_pos id ni.position a))

  pub set_node-stepped :
      (w : World Real) (deftxpower : Bytes) (id : ℕ) (ni : Nodeinfo Real) (a : Airline Real)
      → is_plc a.config ≡ false
      → IsPower w.stod (power_text deftxpower ni)
      → set_node w deftxpower id ni a ≡ some (stepped w deftxpower id ni a)
  unfolding set_node
  set_node-stepped w deftxpower id ni a radio power =
      rw (with_promis_mode-promoted w id ni.promis_mode (node_pos id ni.position a) radio) (
        with_tx_power-powered w id (power_text deftxpower ni)
          (at_device id (promoted ni.promis_mode) (node_pos id ni.position a)) radio power)

  stays_put : (place : Option (Real × Real × Real)) → place ≡ Option.map (moved none) place
  stays_put none = refl
  stays_put (some place) = refl

  placed_self :
      (id : ℕ) (position : Option (Real × Real × Real)) (a : Airline Real)
      → get_elem? (node_pos id position a).positions id
        ≡ Option.map (moved position) (get_elem? a.positions id)
  placed_self id none a = stays_put (get_elem? a.positions id)
  placed_self id (some place) a =
      ap (λ l. get_elem? l id) (set-modify a.positions id place)
      ∙ get_elem?-modify_self (λ p. place) id a.positions

  placed_ne :
      (id j : ℕ) (position : Option (Real × Real × Real)) (a : Airline Real)
      → id ≢ j
      → get_elem? (node_pos id position a).positions j ≡ get_elem? a.positions j
  placed_ne id j none a h = refl
  placed_ne id j (some place) a h = get_elem?-set_ne a.positions id j place h

  -- The node has its position, its mode and its power.
  abbrev pub Adjusted :
      World Real → Bytes → Airline Real → Airline Real → ℕ → Nodeinfo Real → Type 0
  Adjusted w deftxpower a a' id ni =
      (get_elem? a'.positions id ≡ Option.map (moved ni.position) (get_elem? a.positions id))
      × (get_elem? a'.ctx.devices id
          ≡ Option.map
              (Option.map
                (λ dev. powered w.stod (power_text deftxpower ni) (promoted ni.promis_mode dev)))
              (get_elem? a.ctx.devices id))

  abbrev pub Untouched : Airline Real → Airline Real → ℕ → Type 0
  Untouched a a' id =
      (get_elem? a'.positions id ≡ get_elem? a.positions id)
      × (get_elem? a'.ctx.devices id ≡ get_elem? a.ctx.devices id)

  twice :
      (f g : Device Real → Device Real) (o : Option (Option (Device Real)))
      → Option.map (Option.map f) (Option.map (Option.map g) o)
        ≡ Option.map (Option.map (λ dev. f (g dev))) o
  twice f g none = refl
  twice f g (some none) = refl
  twice f g (some (some dev)) = refl

  pub stepped-Adjusted :
      (w : World Real) (deftxpower : Bytes) (id : ℕ) (ni : Nodeinfo Real) (a : Airline Real)
      → Adjusted w deftxpower a (stepped w deftxpower id ni a) id ni
  stepped-Adjusted w deftxpower id ni a =
      let f = powered w.stod (power_text deftxpower ni) in
      let g = promoted ni.promis_mode in
      (
        placed_self id ni.position a,
        get_elem?-modify_self (Option.map f) id (modify id (Option.map g) a.ctx.devices)
            ∙ ap (Option.map (Option.map f)) (get_elem?-modify_self (Option.map g) id a.ctx.devices)
            ∙ twice f g (get_elem? a.ctx.devices id),
      )

  pub stepped-Untouched :
      (w : World Real) (deftxpower : Bytes) (id j : ℕ) (ni : Nodeinfo Real) (a : Airline Real)
      → id ≢ j
      → Untouched a (stepped w deftxpower id ni a) j
  stepped-Untouched w deftxpower id j ni a h =
      let f = powered w.stod (power_text deftxpower ni) in
      let g = promoted ni.promis_mode in
      (
        placed_ne id j ni.position a h,
        get_elem?-modify_ne (Option.map f) id j (modify id (Option.map g) a.ctx.devices) h
            ∙ get_elem?-modify_ne (Option.map g) id j a.ctx.devices h,
      )
