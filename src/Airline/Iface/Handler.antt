-- ===== src/Airline/Iface/Handler.antt =====
-- src/airline/NS3/IfaceHandler.cc and IfaceHandler.h: the table that chooses an interface.
use whitefield.Base.{ℕ, Bool, Option, none, some, Bytes, codes, if◌then◌else◌}
use whitefield.Base.Text.{nocase_eq}
use whitefield.Commline.Message.{MsgBuf}
use whitefield.Airline.Config.{Config}
use whitefield.Airline.Config.Lookup.{get}
use whitefield.Airline.Iface.Lrwpan.{
  IfaceCtx, IfaceStatus, not_supported, lrwpan_set_tx_power, lrwpan_set_promiscuous,
  lrwpan_set_address, lrwpan_send_packet,
}

-- `ifaceApi_t`; `none` is a null pointer.
pub record IfaceApi (Real : Type 0) : Type 0 where
  pub set_tx_power : Option (ℕ → Real → IfaceCtx Real → IfaceCtx Real × IfaceStatus)
  pub set_promiscuous : Option (ℕ → IfaceCtx Real → IfaceCtx Real × IfaceStatus)
  pub set_address : Option (ℕ → Bytes → ℕ → IfaceCtx Real → IfaceCtx Real × IfaceStatus)
  pub send_packet : Option (ℕ → MsgBuf → IfaceCtx Real → IfaceCtx Real × IfaceStatus)

module _ {Real : Type 0} where
  unfoldable pub lrwpan_iface : Config Real → IfaceApi Real
  unfolding lrwpan_set_tx_power lrwpan_set_promiscuous lrwpan_set_address lrwpan_send_packet
  lrwpan_iface c = record {
    set_tx_power = some lrwpan_set_tx_power;
    set_promiscuous = some lrwpan_set_promiscuous;
    set_address = some lrwpan_set_address;
    send_packet = some (lrwpan_send_packet c);
  }

  -- The entry of the table that is not set when the program is built without PLC.
  abbrev pub null_iface : IfaceApi Real
  null_iface = record {
    set_tx_power = none;
    set_promiscuous = none;
    set_address = none;
    send_packet = none;
  }

  abbrev pub is_plc : Config Real → Bool
  is_plc c = nocase_eq (get (codes "PHY") c) (codes "plc")

  -- `plc` is the second entry of `g_iflist`.
  unfoldable pub get_iface_api : IfaceApi Real → Config Real → IfaceApi Real
  unfolding lrwpan_iface get
  get_iface_api plc c = if is_plc c then plc else lrwpan_iface c

  unfoldable pub iface_set_address :
      IfaceApi Real → Config Real → ℕ → Bytes → ℕ → IfaceCtx Real → IfaceCtx Real × IfaceStatus
  unfolding get_iface_api
  iface_set_address plc c id buf sz ctx = elim (get_iface_api plc c).set_address [
    | none ↦ (ctx, not_supported)
    | some f ↦ f id buf sz ctx
  ]

  unfoldable pub iface_send_packet :
      IfaceApi Real → Config Real → ℕ → MsgBuf → IfaceCtx Real → IfaceCtx Real × IfaceStatus
  unfolding get_iface_api
  iface_send_packet plc c id mbuf ctx = elim (get_iface_api plc c).send_packet [
    | none ↦ (ctx, not_supported)
    | some f ↦ f id mbuf ctx
  ]

  unfoldable pub iface_set_tx_power :
      IfaceApi Real → Config Real → ℕ → Real → IfaceCtx Real → IfaceCtx Real × IfaceStatus
  unfolding get_iface_api
  iface_set_tx_power plc c id txpow ctx = elim (get_iface_api plc c).set_tx_power [
    | none ↦ (ctx, not_supported)
    | some f ↦ f id txpow ctx
  ]

  unfoldable pub iface_set_promiscuous :
      IfaceApi Real → Config Real → ℕ → IfaceCtx Real → IfaceCtx Real × IfaceStatus
  unfolding get_iface_api
  iface_set_promiscuous plc c id ctx = elim (get_iface_api plc c).set_promiscuous [
    | none ↦ (ctx, not_supported)
    | some f ↦ f id ctx
  ]
