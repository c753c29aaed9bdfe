-- ===== src/Airline/PowerLine.antt =====
-- src/airline/NS3/PowerLineCommHandler.cc and PLCIface.cc: the addresses and the packets of the power
-- line interface, which the program has when it is built with PLC.
--
-- The simulator's devices are kept as their addresses, and a packet that is handed to the simulator as
-- a request.
pub mod Addresses
pub mod Graph
pub mod Linked
mod Tests
use whitefield.Base.{
  ℕ, ◌+◌, ◌-◌, ◌*◌, ◌/◌, ◌%◌, ◌^◌, Bool, ◌&&◌, Option, none, some, List, [], ◌∷◌, ◌++◌, Bytes,
  get_elem?, set, take, drop, length, leb, ltb, ◌==◌, if◌then◌else◌,
}
use whitefield.Commline.Message.{
  MsgBuf, define_mbuf, commline_max_buf, wf_status_ack_ok, wf_status_no_ack,
}
use whitefield.Airline.Stats.{Macstats}
use whitefield.Airline.Iface.{ack_mbuf}
use whitefield.Airline.Iface.Receiving.{send_packet_to_stackline}

-- Mac48Address: its six bytes.
pub record Mac48Address : Type 0 where
  pub byte0 : ℕ
  pub byte1 : ℕ
  pub byte2 : ℕ
  pub byte3 : ℕ
  pub byte4 : ℕ
  pub byte5 : ℕ

abbrev pub broadcast : Mac48Address
broadcast = record {
  byte0 = 0xff;
  byte1 = 0xff;
  byte2 = 0xff;
  byte3 = 0xff;
  byte4 = 0xff;
  byte5 = 0xff;
}

abbrev is_broadcast : Mac48Address → Bool
is_broadcast a =
    a.byte0 == 0xff
    && (a.byte1 == 0xff
        && (a.byte2 == 0xff && (a.byte3 == 0xff && (a.byte4 == 0xff && a.byte5 == 0xff))))

-- `htons(id+1)` in memory has the high byte first.
unfoldable pub get_mac_address : ℕ → Mac48Address
get_mac_address id = if id == 0xffff then broadcast else record {
  byte0 = 0;
  byte1 = 0;
  byte2 = 0;
  byte3 = 0;
  byte4 = (id + 1) % 2 ^ 16 / 2 ^ 8;
  byte5 = (id + 1) % 2 ^ 8;
}

-- `ntohs(id) - 1` in 16 bits, and the test of it.
abbrev pub parsed_id : ℕ → ℕ
parsed_id id = if leb 0xff00 id then 0 else id

unfoldable pub get_id_from_mac_addr : Mac48Address → ℕ
get_id_from_mac_addr addr =
    if is_broadcast addr
    then 0xffff
    else parsed_id ((addr.byte4 * 2 ^ 8 + addr.byte5 + 0xffff) % 2 ^ 16)

-- What `SendAckToStackline` counts and sends.
unfoldable pub plc_handle_ack : ℕ → ℕ → Mac48Address → MsgBuf
unfolding get_id_from_mac_addr ack_mbuf
plc_handle_ack id retries rcv =
    ack_mbuf id (get_id_from_mac_addr rcv) wf_status_ack_ok (retries + 1)

unfoldable pub plc_handle_tx_fail : ℕ → Mac48Address → MsgBuf
unfolding get_id_from_mac_addr ack_mbuf
plc_handle_tx_fail id rcvr = ack_mbuf id (get_id_from_mac_addr rcvr) wf_status_no_ack 0

-- What becomes of a received packet; `bad_fragment` is a packet of fewer than 8 bytes, of which the
-- code asks the simulator for the part behind the eighth.
pub data Data (Real : Type 0) : Type 0 where
  delivered : Macstats Real → MsgBuf → Data Real
  too_long : Data Real
  bad_fragment : Data Real
  endless_loop : Data Real

abbrev pub data_mbuf : Bytes → Mac48Address → Mac48Address → MsgBuf
data_mbuf p sndr rcvr = record (define_mbuf commline_max_buf) {
  len = length p;
  buf = p;
  src_id = get_id_from_mac_addr sndr;
  dst_id = get_id_from_mac_addr rcvr;
  info_first = 0;
  info_second = 0;
}

module _ {Real : Type 0} where
  unfoldable pub plc_handle_data :
      ℕ → ℕ → Bytes → Mac48Address → Mac48Address → Macstats Real → Data Real
  unfolding send_packet_to_stackline get_id_from_mac_addr define_mbuf
  plc_handle_data now id pin sndr rcvr m =
      if ltb (length pin) 8
      then bad_fragment
      else if leb commline_max_buf (length (drop 8 pin))
      then too_long
      else elim (send_packet_to_stackline now id (data_mbuf (drop 8 pin) sndr rcvr) m) [
        | none ↦ endless_loop
        | some (m', mbuf) ↦ delivered m' mbuf
      ]

-- PLC_NetDevice::Send with its packet.
pub record PlcRequest : Type 0 where
  pub src : ℕ
  pub dst : Mac48Address
  pub packet : Bytes

-- `g_devMap`, by the number in a device's name, and what was sent.
pub record PlcDevices : Type 0 where
  pub addresses : List (Option Mac48Address)
  pub requests : List PlcRequest

-- `null_device` is the use of a device that does not exist.
pub data PlcStatus : Type 0 where
  done : PlcDevices → PlcStatus
  failed : PlcStatus
  null_device : PlcStatus

-- `getPlcNetDev`; `getDevName` takes 16 bits of the number.
abbrev get_plc_net_dev : ℕ → PlcDevices → Option Mac48Address
get_plc_net_dev id d = elim (get_elem? d.addresses (id % 2 ^ 16)) [ none ↦ none | some dev ↦ dev ]

abbrev copied : Bytes → Option Mac48Address
copied (b0 ∷ b1 ∷ b2 ∷ b3 ∷ b4 ∷ b5 ∷ rest) =
    some (record { byte0 = b0; byte1 = b1; byte2 = b2; byte3 = b3; byte4 = b4; byte5 = b5 })
copied buf = none

-- `buf` has at least `sz` bytes.
unfoldable pub plc_set_address : ℕ → Bytes → ℕ → PlcDevices → PlcStatus
plc_set_address id buf sz d =
    if sz == 6
    then elim (get_plc_net_dev id d) [
      | none ↦ null_device
      | some old ↦ done (record d { addresses = set d.addresses (id % 2 ^ 16) (copied buf) })
    ]
    else failed

unfoldable pub plc_send_packet : ℕ → MsgBuf → PlcDevices → PlcStatus
unfolding get_mac_address
plc_send_packet id mbuf d = elim (get_plc_net_dev id d) [
  | none ↦ null_device
  | some dev ↦ done (record d {
    requests =
        d.requests
        ++ record {
          src = id % 2 ^ 16;
          dst = get_mac_address mbuf.dst_id;
          packet = take mbuf.len mbuf.buf;
        }
          ∷ [];
  })
]
