-- ===== src/Airline/Iface/Receiving.antt =====
-- src/airline/NS3/LrwpanIface.cc, `DataIndication`, with `SendPacketToStackline` of
-- src/airline/common.cc: a packet that a device has received.
use whitefield.Base.{ℕ, Option, none, some, Bytes, length, leb, if◌then◌else◌}
use whitefield.Commline.Message.{MsgBuf, define_mbuf, commline_max_buf, stackline, mtype}
use whitefield.Airline.Stats.{Macstats, al_rx, set_stats}
use whitefield.Airline.Iface.{addr2id}

-- McpsDataIndicationParams with the packet.
pub record Indication : Type 0 where
  pub src_addr : ℕ × ℕ
  pub dst_addr : ℕ × ℕ
  pub link_quality : ℕ
  pub packet : Bytes

-- The union holds the link quality in its first byte. `none` is a packet that is too long.
unfoldable pub indication_mbuf : Indication → Option MsgBuf
unfolding define_mbuf addr2id
indication_mbuf p =
    if leb commline_max_buf (length p.packet)
    then none
    else some (record (define_mbuf commline_max_buf) {
      src_id = addr2id p.src_addr;
      dst_id = addr2id p.dst_addr;
      info_first = p.link_quality;
      len = length p.packet;
      buf = p.packet;
    })

module _ {Real : Type 0} where
  -- The counters, and the message that goes to the stack of node `id`.
  unfoldable pub send_packet_to_stackline :
      ℕ → ℕ → MsgBuf → Macstats Real → Option (Macstats Real × MsgBuf)
  unfolding set_stats mtype
  send_packet_to_stackline now id mbuf m = elim (set_stats now al_rx mbuf m) [
    | none ↦ none
    | some m' ↦ some (m', record mbuf { mtype = mtype stackline id })
  ]

  -- The outer `none` is an endless loop over the nodes, the inner one a packet that is dropped.
  unfoldable pub data_indication :
      ℕ → ℕ → Indication → Macstats Real → Option (Macstats Real × Option MsgBuf)
  unfolding indication_mbuf send_packet_to_stackline
  data_indication now id p m = elim (indication_mbuf p) [
    | none ↦ some (m, none)
    | some mbuf ↦ elim (send_packet_to_stackline now id mbuf m) [
      | none ↦ none
      | some (m', sent) ↦ some (m', some sent)
    ]
  ]
