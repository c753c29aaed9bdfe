-- ===== src/Airline/Iface/Setup.antt =====
-- src/airline/NS3/LrwpanIface.cc and IfaceHandler.cc: setting up an interface, `lrwpanSetup` and
-- `ifaceInstall`.
--
-- The radio helper of the simulator gives every node a device. An exception ends Airline, so what was
-- set before it does not matter. The simulator's own capture file is left out.
use whitefield.Base.{
  ℕ, ◌+◌, ◌%◌, ◌^◌, Bool, true, false, Option, none, some, ◌>>=◌, List, [], ◌∷◌, map, Bytes, codes,
  if◌then◌else◌,
}
use whitefield.Base.Int.{ℤ, pos}
use whitefield.Airline.Config.{Config}
use whitefield.Airline.Config.Lookup.{get, cfg_int}
use whitefield.Airline.Propagation.{
  LossModel, DelayModel, Chosen, chosen, unknown, threw, get_loss_model, get_delay_model,
}
use whitefield.Airline.Iface.{id2addr}
use whitefield.Airline.Iface.Lrwpan.{Channel, Device, IfaceCtx, IfaceStatus, done, failed, uncaught}
use whitefield.Airline.Iface.Handler.{is_plc}

-- A channel, which is `none` when no model is asked for; a null model; or an exception.
pub data Built (Real : Type 0) : Type 0 where
  built : Option (Channel Real) → Built Real
  null_model : Built Real
  exception : Built Real

abbrev pub is_set : ℤ → Bool
is_set (pos ℕ.zero) = false
is_set _ = true

-- A model is made unless its name is empty.
abbrev pub optional :
    {Real Model : Type 0} → Bytes → Chosen Model → (Option Model → Built Real) → Built Real
optional [] model go_on = go_on none
optional (c ∷ s) (chosen model m) go_on = go_on (some model)
optional (c ∷ s) unknown go_on = null_model
optional (c ∷ s) threw go_on = exception

module _ {Real : Type 0} where
  abbrev pub channel_of : Option (LossModel Real) → Option (DelayModel Real) → Option (Channel Real)
  channel_of none none = none
  channel_of none (some d) = some (record { loss = none; delay = some d })
  channel_of (some l) d = some (record { loss = some l; delay = d })

  unfoldable pub radio_channel : (Bytes → Option Real) → Config Real → Built Real
  unfolding get get_loss_model get_delay_model
  radio_channel stod c =
      let loss_model = get (codes "lossModel") c in
      let del_model = get (codes "delayModel") c in
      optional loss_model (get_loss_model stod loss_model (get (codes "lossModelParam") c)) (λ plm.
        optional del_model (get_delay_model stod del_model (get (codes "delayModelParam") c))
          (λ pdm. built (channel_of plm pdm)))

  abbrev set_channel : Option (Channel Real) → Device Real → Device Real
  set_channel none dev = dev
  set_channel (some channel) dev = record dev { channel = some channel }

  abbrev set_header_add : Bool → Device Real → Device Real
  set_header_add true dev = dev
  set_header_add false dev = record dev { mac_header_add = some false }

  -- What the loop does with the device of node `id`, whose short address has 16 bits.
  abbrev pub with_param : ℤ → Bool → Option (Channel Real) → ℕ → Device Real → Device Real
  with_param retries mac_add channel id dev = set_channel channel (
      set_header_add mac_add (record dev {
        max_frame_retries = some retries;
        callbacks = some id;
        short_addr = some (id2addr (id % 2 ^ 16));
      }))

  -- The loop over the nodes from `id` on; `none` is an exception.
  unfoldable pub set_nodes :
      Config Real
      → Bool
      → Option (Channel Real)
      → ℕ
      → List (Option (Device Real))
      → Option (List (Option (Device Real)))
  unfolding cfg_int id2addr
  set_nodes c mac_add channel id [] = some []
  set_nodes c mac_add channel id (none ∷ devices) = do
    rest ← set_nodes c mac_add channel (id + 1) devices
    some (none ∷ rest)
  set_nodes c mac_add channel id (some dev ∷ devices) = do
    retries ← cfg_int (codes "macMaxRetry") (codes "3") c
    rest ← set_nodes c mac_add channel (id + 1) devices
    some (some (with_param retries mac_add channel id dev) ∷ rest)

  abbrev pub with_nodes :
      IfaceCtx Real → Option (List (Option (Device Real))) → IfaceCtx Real × IfaceStatus
  with_nodes ctx none = (ctx, uncaught)
  with_nodes ctx (some devices) = (record ctx { devices = devices }, done)

  abbrev pub with_channel :
      Config Real → Bool → IfaceCtx Real → Built Real → IfaceCtx Real × IfaceStatus
  with_channel c mac_add ctx (built channel) =
      with_nodes ctx (set_nodes c mac_add channel 0 ctx.devices)
  with_channel c mac_add ctx null_model = (ctx, failed)
  with_channel c mac_add ctx exception = (ctx, uncaught)

  unfoldable pub set_all_nodes_param :
      (Bytes → Option Real) → Config Real → IfaceCtx Real → IfaceCtx Real × IfaceStatus
  unfolding set_nodes radio_channel
  set_all_nodes_param stod c ctx = elim (cfg_int (codes "macHeaderAdd") (codes "1") c) [
    | none ↦ (ctx, uncaught)
    | some add ↦ with_channel c (is_set add) ctx (radio_channel stod c)
  ]

  abbrev pub new_device : ℤ → Device Real
  new_device pan_id = record {
    ext_addr = none;
    promiscuous = false;
    tx_power = none;
    pan_id = some pan_id;
    short_addr = none;
    max_frame_retries = none;
    callbacks = none;
    mac_header_add = none;
    channel = none;
  }

  abbrev pub installed : ℤ → IfaceCtx Real → IfaceCtx Real
  installed pan_id ctx = record ctx { devices = map (λ node. some (new_device pan_id)) ctx.devices }

  -- What `setAllNodesParam` returns is ignored.
  abbrev pub ignored : IfaceCtx Real × IfaceStatus → IfaceCtx Real × IfaceStatus
  ignored (ctx, uncaught) = (ctx, uncaught)
  ignored (ctx, _) = (ctx, done)

  unfoldable pub lrwpan_setup :
      (Bytes → Option Real) → Config Real → IfaceCtx Real → IfaceCtx Real × IfaceStatus
  unfolding set_all_nodes_param
  lrwpan_setup stod c ctx = elim (cfg_int (codes "panID") (codes "0xface") c) [
    | none ↦ (ctx, uncaught)
    | some pan_id ↦ ignored (set_all_nodes_param stod c (installed pan_id ctx))
  ]

-- The members of `ifaceApi_t` for setting up; `none` is a null pointer.
pub record IfaceSetup (Real : Type 0) : Type 0 where
  pub setup : Option (IfaceCtx Real → IfaceCtx Real × IfaceStatus)
  pub inited : Bool

-- `g_iflist`.
pub record IfaceList (Real : Type 0) : Type 0 where
  pub lrwpan : IfaceSetup Real
  pub plc : IfaceSetup Real

-- `no_setup` is a call of a null pointer.
pub data Installed (Real : Type 0) : Type 0 where
  returned : IfaceList Real → IfaceCtx Real → IfaceStatus → Installed Real
  no_setup : Installed Real

module _ {Real : Type 0} where
  abbrev pub finished :
      (IfaceSetup Real → IfaceList Real)
      → IfaceSetup Real
      → IfaceCtx Real × IfaceStatus
      → Installed Real
  finished put iface (ctx, done) = returned (put (record iface { inited = true })) ctx done
  finished put iface (ctx, status) = returned (put iface) ctx status

  abbrev pub install :
      (IfaceSetup Real → IfaceList Real) → IfaceSetup Real → IfaceCtx Real → Installed Real
  install put iface ctx =
      if iface.inited
      then returned (put iface) ctx done
      else elim iface.setup [ none ↦ no_setup | some setup ↦ finished put iface (setup ctx) ]

  unfoldable pub iface_install : Config Real → IfaceList Real → IfaceCtx Real → Installed Real
  unfolding get
  iface_install c g ctx =
      if is_plc c
      then install (λ iface. record g { plc = iface }) g.plc ctx
      else install (λ iface. record g { lrwpan = iface }) g.lrwpan ctx
