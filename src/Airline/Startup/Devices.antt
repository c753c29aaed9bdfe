-- ===== src/Airline/Startup/Devices.antt =====
-- What the two operations of the radio interface do to the device of a node in `setNodeSpecificParam`.
use whitefield.Base.{
  ℕ, ◌≡◌, refl, sym, ap, ◌∙◌, Bool-cases, inl, inr, true, false, ◌==◌, Option, none, some, List, [],
  ◌∷◌, Bytes, codes, get_elem?, set, modify, if◌then◌else◌, set-modify, modify_ext, modify_id,
}
use mathlib.Core.Option
use whitefield.Airline.Nodeinfo.{Nodeinfo, getkv}
use whitefield.Airline.Config.{Config}
use whitefield.Airline.Iface.Lrwpan.{
  Device, IfaceCtx, done, not_supported, failed, get_dev, with_dev, lrwpan_set_promiscuous,
  lrwpan_set_tx_power,
}
use whitefield.Airline.Iface.Handler.{
  is_plc, iface_set_promiscuous, iface_set_tx_power, get_iface_api, lrwpan_iface,
}
use whitefield.Airline.Manager.{Airline}
use whitefield.Airline.Manager.Commands.{World}
use whitefield.Airline.Startup.{kept, or_else, with_promis_mode, with_tx_power}

module _ {Real : Type 0} where
  -- No power, or a number.
  abbrev pub IsPower : (Bytes → Option Real) → Bytes → Type 0
  IsPower stod [] = Unit
  IsPower stod (c ∷ s) = (x : Real) × (stod (c ∷ s) ≡ some x)

  abbrev pub promoted : ℕ → Device Real → Device Real
  promoted promis_mode dev = if promis_mode == 0 then dev else record dev { promiscuous = true }

  abbrev pub powered : (Bytes → Option Real) → Bytes → Device Real → Device Real
  powered stod [] dev = dev
  powered stod (c ∷ s) dev = elim (stod (c ∷ s)) [
    | none ↦ dev
    | some x ↦ record dev { tx_power = some x }
  ]

  -- The power of a node: its own, or that of the network.
  abbrev pub power_text : Bytes → Nodeinfo Real → Bytes
  power_text deftxpower ni = or_else (getkv (codes "txPower") [] ni) deftxpower

  abbrev pub moved : Option (Real × Real × Real) → Real × Real × Real → Real × Real × Real
  moved none place = place
  moved (some place) _ = place

  abbrev pub at_device : ℕ → (Device Real → Device Real) → Airline Real → Airline Real
  at_device id f a = record a {
    ctx = record a.ctx { devices = modify id (Option.map f) a.ctx.devices };
  }

  module _ (id : ℕ) (f : Device Real → Device Real) (a : Airline Real) where
    at_device_devices :
        (devices : List (Option (Device Real)))
        → modify id (Option.map f) a.ctx.devices ≡ devices
        → at_device id f a ≡ record a { ctx = record a.ctx { devices = devices } }
    at_device_devices devices e = ap (λ l. record a { ctx = record a.ctx { devices = l } }) e

    none_unchanged :
        (o : Option (Option (Device Real)))
        → (elim o [ none ↦ none | some dev ↦ dev ]) ≡ none
        → Option.map (Option.map f) o ≡ Option.map (λ x. x) o
    none_unchanged none h = refl
    none_unchanged (some none) h = refl
    none_unchanged (some (some dev)) h = absurd cc

    no_device_unchanged : get_dev id a.ctx ≡ none → at_device id f a ≡ a
    no_device_unchanged h = at_device_devices a.ctx.devices (
        modify_ext (Option.map f) (λ x. x) a.ctx.devices id
          (none_unchanged (get_elem? a.ctx.devices id) h)
        ∙ modify_id a.ctx.devices id)

    some_set :
        (dev : Device Real) (o : Option (Option (Device Real)))
        → (elim o [ none ↦ none | some dev ↦ dev ]) ≡ some dev
        → Option.map (Option.map f) o ≡ Option.map (λ x. some (f dev)) o
    some_set dev none h = refl
    some_set dev (some none) h = absurd cc
    some_set dev (some (some d)) h = ap (λ o. some (Option.map f o)) h

    device_changed :
        (dev : Device Real)
        → get_dev id a.ctx ≡ some dev
        → at_device id f a ≡ record a { ctx = with_dev id (f dev) a.ctx }
    device_changed dev h = at_device_devices (set a.ctx.devices id (some (f dev))) (
        modify_ext (Option.map f) (λ x. some (f dev)) a.ctx.devices id
          (some_set dev (get_elem? a.ctx.devices id) h)
        ∙ sym (set-modify a.ctx.devices id (some (f dev))))

    changed_go :
        (dev : Option (Device Real))
        → get_dev id a.ctx ≡ dev
        → kept a
            (elim dev [ none ↦ (a.ctx, failed) | some dev ↦ (with_dev id (f dev) a.ctx, done) ])
          ≡ some (at_device id f a)
    changed_go none h = ap some (sym (no_device_unchanged h))
    changed_go (some dev) h = ap some (sym (device_changed dev h))

    -- An operation that changes the device of a node.
    changed :
        kept a (elim (get_dev id a.ctx) [
          | none ↦ (a.ctx, failed)
          | some dev ↦ (with_dev id (f dev) a.ctx, done)
        ])
        ≡ some (at_device id f a)
    changed = changed_go (get_dev id a.ctx) refl

  same_device :
      (f : Device Real → Device Real)
      → ((dev : Device Real) → f dev ≡ dev)
      → (o : Option (Option (Device Real))) → Option.map (Option.map f) o ≡ Option.map (λ x. x) o
  same_device f h none = refl
  same_device f h (some none) = refl
  same_device f h (some (some dev)) = ap (λ d. some (some d)) (h dev)

  at_device_id :
      (id : ℕ) (f : Device Real → Device Real) (a : Airline Real)
      → ((dev : Device Real) → f dev ≡ dev)
      → at_device id f a ≡ a
  at_device_id id f a h = at_device_devices id f a a.ctx.devices (
      modify_ext (Option.map f) (λ x. x) a.ctx.devices id
        (same_device f h (get_elem? a.ctx.devices id))
      ∙ modify_id a.ctx.devices id)

  module _ (w : World Real) (c : Config Real) (radio : is_plc c ≡ false) where
    get_iface_api-radio : get_iface_api w.plc c ≡ lrwpan_iface c
    unfolding get_iface_api
    get_iface_api-radio = rw radio refl

    radio_set_promiscuous :
        (id : ℕ) (ctx : IfaceCtx Real)
        → iface_set_promiscuous w.plc c id ctx ≡ lrwpan_set_promiscuous id ctx
    unfolding iface_set_promiscuous
    radio_set_promiscuous id ctx =
        ap (λ api. elim api.set_promiscuous [ none ↦ (ctx, not_supported) | some f ↦ f id ctx ])
          get_iface_api-radio

    radio_set_tx_power :
        (id : ℕ) (txpower : Real) (ctx : IfaceCtx Real)
        → iface_set_tx_power w.plc c id txpower ctx ≡ lrwpan_set_tx_power id txpower ctx
    unfolding iface_set_tx_power
    radio_set_tx_power id txpower ctx =
        ap
          (λ api. elim api.set_tx_power [ none ↦ (ctx, not_supported) | some f ↦ f id txpower ctx ])
          get_iface_api-radio

  pub with_promis_mode-promoted :
      (w : World Real) (id promis_mode : ℕ) (a : Airline Real)
      → is_plc a.config ≡ false
      → with_promis_mode w id promis_mode a ≡ some (at_device id (promoted promis_mode) a)
  unfolding lrwpan_set_promiscuous
  with_promis_mode-promoted w id promis_mode a radio = elim (Bool-cases (promis_mode == 0)) [
    | inl off ↦
        rw off (ap some (sym (at_device_id id (promoted promis_mode) a (λ dev. rw off refl))))
    | inr on ↦
        rw (on, promoted)
          (ap (kept a) (radio_set_promiscuous w a.config radio id a.ctx)
            ∙ changed id (λ dev. record dev { promiscuous = true }) a)
  ]

  pub with_tx_power-powered :
      (w : World Real) (id : ℕ) (text : Bytes) (a : Airline Real)
      → is_plc a.config ≡ false
      → IsPower w.stod text
      → with_tx_power w id text a ≡ some (at_device id (powered w.stod text) a)
  unfolding lrwpan_set_tx_power
  with_tx_power-powered w id [] a radio h =
      ap some (sym (at_device_id id (λ dev. dev) a (λ dev. refl)))
  with_tx_power-powered w id (c ∷ s) a radio (x, e) =
      rw (e, with_tx_power, powered)
        (ap (kept a) (radio_set_tx_power w a.config radio id x a.ctx)
          ∙ changed id (λ dev. record dev { tx_power = some x }) a)
