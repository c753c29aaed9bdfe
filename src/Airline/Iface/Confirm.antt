-- ===== src/Airline/Iface/Confirm.antt =====
-- src/airline/NS3/LrwpanIface.cc and mac_stats.cc: what a transmission's result adds to the counters.
use whitefield.Base.{
  ℕ, ◌+◌, ◌*◌, ◌/◌, ◌%◌, ◌^◌, ◌≤◌, ◌<◌, ◌≡◌, ◌≢◌, refl, ap, ◌∙◌, true, false, some, modify, ◌==◌,
  arith,
}
use whitefield.Commline.Message.{MsgBuf, in_range}
use whitefield.Airline.Nodeinfo.{Stats, max_mac_tx_retry_cnt}
use whitefield.Airline.Stats.{u64, set_rx_stats}
use whitefield.Airline.Iface.{
  ConfirmStatus, success, no_ack, transaction_overflow, transaction_expired, channel_access_failure,
  wf_ack_status, addr2id, id2addr, ack_mbuf, data_confirm,
}

-- A node id is read back from its address, whose bytes are bytes.
pub addr2id-id2addr :
    (id : ℕ)
    → id < 2 ^ 16
    → (addr2id (id2addr id) ≡ id) × ((id2addr id).0 < 2 ^ 8) × ((id2addr id).1 < 2 ^ 8)
unfolding addr2id id2addr
addr2id-id2addr id h = omega arith

confirmed :
    (id dst st n : ℕ) (s : Stats)
    → st ≡ 0
    → 1 ≤ n
    → n < 10
    → set_rx_stats (ack_mbuf id dst st n) s
      ≡ record s { rx_ack_ok = modify n (λ k. u64 (k + 1)) s.rx_ack_ok }
unfolding set_rx_stats ack_mbuf
confirmed id dst st n s ok low high =
    let byte : n % 256 ≡ n = omega arith in
    let counted : in_range n 1 max_mac_tx_retry_cnt ≡ true = ground arith in
    rw (ok, byte, counted) refl

refused :
    (id dst st n : ℕ) (s : Stats)
    → st ≢ 0
    → set_rx_stats (ack_mbuf id dst st n) s ≡ record s { tx_fail = u64 (s.tx_fail + 1) }
unfolding set_rx_stats ack_mbuf
refused id dst st n s bad = let differs : (st == 0) ≡ false = ground arith in rw differs refl

wf_ack_status-success : wf_ack_status success ≡ 0
unfolding wf_ack_status
wf_ack_status-success = refl

wf_ack_status-failure : (status : ConfirmStatus) → status ≢ success → wf_ack_status status ≢ 0
unfolding wf_ack_status
wf_ack_status-failure success h = absurd (h refl)
wf_ack_status-failure no_ack h = λ e. absurd (omega arith)
wf_ack_status-failure transaction_overflow h = λ e. absurd (omega arith)
wf_ack_status-failure transaction_expired h = λ e. absurd (omega arith)
wf_ack_status-failure channel_access_failure h = λ e. absurd (omega arith)
wf_ack_status-failure _ h = λ e. absurd (omega arith)

-- The result of a unicast transmission is counted once: a success after fewer than 9 retries at its
-- number of attempts, every other result as a failure. Nothing else of the counters changes.
pub data_confirm-set_rx_stats :
    (id dst retries : ℕ) (status : ConfirmStatus) (s : Stats)
    → dst < 0xffff
    → retries < 9
    → (mbuf : MsgBuf) × (data_confirm id (id2addr dst) status retries ≡ some mbuf)
      × (mbuf.src_id ≡ id)
      × (mbuf.dst_id ≡ dst)
      × (status ≡ success
          → set_rx_stats mbuf s
            ≡ record s { rx_ack_ok = modify (retries + 1) (λ k. u64 (k + 1)) s.rx_ack_ok })
      × (status ≢ success → set_rx_stats mbuf s ≡ record s { tx_fail = u64 (s.tx_fail + 1) })
unfolding data_confirm id2addr
data_confirm-set_rx_stats id dst retries status s unicast few =
    let same : dst / 256 * 256 + dst % 256 ≡ dst = omega arith in
    let one : (dst == 0xffff) ≡ false = ground arith in
    (
      ack_mbuf id dst (wf_ack_status status) (retries + 1),
      rw (same, one) refl,
      refl,
      refl,
      λ ok.
          confirmed id dst (wf_ack_status status) (retries + 1) s
            (ap wf_ack_status ok ∙ wf_ack_status-success) (omega arith) (omega arith),
      λ bad.
          refused id dst (wf_ack_status status) (retries + 1) s (wf_ack_status-failure status bad),
    )
