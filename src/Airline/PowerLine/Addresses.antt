-- ===== src/Airline/PowerLine/Addresses.antt =====
-- src/airline/NS3/PowerLineCommHandler.cc: what the addresses of the power line interface keep of the
-- numbers of nodes, and how its acknowledgements compare with those of the radio.
use whitefield.Base.{
  ℕ, ◌+◌, ◌*◌, ◌/◌, ◌%◌, ◌^◌, ◌<◌, ◌≡◌, refl, ap, ◌∙◌, Bool, true, false, ◌||◌, some, ltb, ◌==◌,
  if◌then◌else◌, arith, Bool-cases, inl, inr,
}
use whitefield.Airline.Iface.{
  success, no_ack, addr2id, id2addr, ack_mbuf, wf_ack_status, data_confirm,
}
use whitefield.Airline.PowerLine.{
  get_mac_address, get_id_from_mac_addr, plc_handle_ack, plc_handle_tx_fail,
}

-- The ids that are read back as they are.
abbrev pub is_kept : ℕ → Bool
is_kept id = id == 0xffff || ltb id 0xff00

-- An id is read back from its address when it is below 0xff00, or the id of all nodes; the ids
-- between them are read back as node 0.
pub get_id_from_mac_addr-get_mac_address :
    (id : ℕ)
    → id < 2 ^ 16
    → get_id_from_mac_addr (get_mac_address id) ≡ (if is_kept id then id else 0)
unfolding get_id_from_mac_addr get_mac_address
get_id_from_mac_addr-get_mac_address id h = elim (Bool-cases (id == 0xffff)) [
  | inl all ↦ let eq : id ≡ 0xffff = ground arith in rw (all, eq) refl
  | inr one ↦
      let back : ((id + 1) % 2 ^ 16 / 2 ^ 8 * 2 ^ 8 + (id + 1) % 2 ^ 8 + 0xffff) % 2 ^ 16 ≡ id =
        omega arith in
      rw (one, back) (ground arith)
]

unicast_kept : (id : ℕ) → id < 0xff00 → get_id_from_mac_addr (get_mac_address id) ≡ id
unicast_kept id h =
    let low : is_kept id ≡ true = ground arith in
    get_id_from_mac_addr-get_mac_address id (omega arith) ∙ ap (λ b. if b then id else 0) low

-- For a packet to a node below 0xff00 both interfaces report the same: an acknowledged packet as the
-- radio reports a success, with the same retries, and a failed one as the radio reports a
-- missing acknowledgement.
pub plc_handle_ack-data_confirm :
    (id dst retries : ℕ)
    → dst < 0xff00
    → (some (plc_handle_ack id retries (get_mac_address dst))
        ≡ data_confirm id (id2addr dst) success retries)
      × (some (plc_handle_tx_fail id (get_mac_address dst))
          ≡ data_confirm id (id2addr dst) no_ack retries)
unfolding data_confirm plc_handle_ack plc_handle_tx_fail addr2id id2addr wf_ack_status ack_mbuf
plc_handle_ack-data_confirm id dst retries h =
    let same : dst / 256 * 256 + dst % 256 ≡ dst = omega arith in
    let one : (dst == 0xffff) ≡ false = ground arith in
    rw (same, one, unicast_kept dst h) (refl, refl)
