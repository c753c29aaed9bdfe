-- ===== src/Airline/Iface/Lrwpan.antt =====
-- src/airline/NS3/LrwpanIface.cc: the operations of the radio interface.
--
-- The simulator's devices are kept as what the program sets on them; a packet that is handed to the
-- simulator is a request in the list `requests`.
use whitefield.Base.{
  ℕ, Bool, true, false, not, ◌&&◌, Option, none, some, List, [], ◌∷◌, ◌++◌, Bytes, codes, get_elem?,
  set, take, ltb, ◌==◌, if◌then◌else◌,
}
use whitefield.Base.Int.{ℤ, pos, negsuc}
use whitefield.Base.Text.{stoi}
use whitefield.Commline.Message.{MsgBuf, has_flag, mbuf_is_cmd}
use whitefield.Airline.Config.{Config}
use whitefield.Airline.Config.Lookup.{get, get_node_info}
use whitefield.Airline.Propagation.{LossModel, DelayModel}
use whitefield.Airline.Iface.{id2addr}

-- SingleModelSpectrumChannel with the models that are set on it.
pub record Channel (Real : Type 0) : Type 0 where
  pub loss : Option (LossModel Real)
  pub delay : Option (DelayModel Real)

-- A setting that is `none` is left at the simulator's default. `callbacks` holds the node to which
-- `DataConfirm` and `DataIndication` are bound.
pub record Device (Real : Type 0) : Type 0 where
  pub ext_addr : Option Bytes
  pub promiscuous : Bool
  pub tx_power : Option Real
  pub pan_id : Option ℤ
  pub short_addr : Option (ℕ × ℕ)
  pub max_frame_retries : Option ℤ
  pub callbacks : Option ℕ
  pub mac_header_add : Option Bool
  pub channel : Option (Channel Real)

-- McpsDataRequestParams with its packet. `ack` is TX_OPTION_ACK.
pub record DataRequest : Type 0 where
  pub src : ℕ
  pub dst_addr : ℕ × ℕ
  pub ack : Bool
  pub packet : Bytes

-- `ifaceCtx_t`; a node without a device is `none`.
pub record IfaceCtx (Real : Type 0) : Type 0 where
  pub devices : List (Option (Device Real))
  pub requests : List DataRequest

-- SUCCESS, FAILURE and ERR_NOT_SUPP, and a C++ exception that the operation does not catch.
pub data IfaceStatus : Type 0 where
  done : IfaceStatus
  failed : IfaceStatus
  not_supported : IfaceStatus
  uncaught : IfaceStatus

module _ {Real : Type 0} where
  abbrev pub get_dev : ℕ → IfaceCtx Real → Option (Device Real)
  get_dev id ctx = elim (get_elem? ctx.devices id) [ none ↦ none | some dev ↦ dev ]

  abbrev pub with_dev : ℕ → Device Real → IfaceCtx Real → IfaceCtx Real
  with_dev id dev ctx = record ctx { devices = set ctx.devices id (some dev) }

  unfoldable pub lrwpan_set_tx_power : ℕ → Real → IfaceCtx Real → IfaceCtx Real × IfaceStatus
  lrwpan_set_tx_power id txpow ctx = elim (get_dev id ctx) [
    | none ↦ (ctx, failed)
    | some dev ↦ (with_dev id (record dev { tx_power = some txpow }) ctx, done)
  ]

  unfoldable pub lrwpan_set_promiscuous : ℕ → IfaceCtx Real → IfaceCtx Real × IfaceStatus
  lrwpan_set_promiscuous id ctx = elim (get_dev id ctx) [
    | none ↦ (ctx, failed)
    | some dev ↦ (with_dev id (record dev { promiscuous = true }) ctx, done)
  ]

  unfoldable pub lrwpan_set_address : ℕ → Bytes → ℕ → IfaceCtx Real → IfaceCtx Real × IfaceStatus
  lrwpan_set_address id buf sz ctx = elim (get_dev id ctx) [
    | none ↦ (ctx, failed)
    | some dev ↦
        if sz == 8
        then (with_dev id (record dev { ext_addr = some buf }) ctx, done)
        else (ctx, done)
  ]

  -- Whether the source node is in promiscuous mode, which turns the acknowledgement off.
  abbrev is_promiscuous : ℕ → ℤ → Config Real → Bool
  is_promiscuous id (negsuc n) c = false
  is_promiscuous id (pos n) c =
      ltb id n && (elim (get_node_info id c) [ none ↦ false | some ni ↦ not (ni.promis_mode == 0) ])

  abbrev data_request : ℤ → Config Real → ℕ → MsgBuf → DataRequest
  data_request num_nodes c id mbuf = record {
    src = id;
    dst_addr = id2addr mbuf.dst_id;
    ack = not (mbuf.dst_id == 0xffff) && not (is_promiscuous mbuf.src_id num_nodes c);
    packet = take mbuf.len mbuf.buf;
  }

  abbrev scheduled : ℤ → Config Real → ℕ → MsgBuf → IfaceCtx Real → IfaceCtx Real × IfaceStatus
  scheduled num_nodes c id mbuf ctx =
      if has_flag mbuf mbuf_is_cmd
      then (ctx, failed)
      else (record ctx { requests = ctx.requests ++ data_request num_nodes c id mbuf ∷ [] }, done)

  unfoldable pub lrwpan_send_packet :
      Config Real → ℕ → MsgBuf → IfaceCtx Real → IfaceCtx Real × IfaceStatus
  unfolding id2addr get get_node_info
  lrwpan_send_packet c id mbuf ctx = elim (stoi (get (codes "numOfNodes") c)) [
    | none ↦ (ctx, uncaught)
    | some num_nodes ↦ elim (get_dev id ctx) [
      | none ↦ (ctx, failed)
      | some dev ↦ scheduled num_nodes c id mbuf ctx
    ]
  ]
