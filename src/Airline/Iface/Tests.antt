-- ===== src/Airline/Iface/Tests.antt =====
-- Results of transmissions at concrete values.
use whitefield.Base.{◌+◌, ◌≡◌, ◌≢◌, some, modify, arith}
use whitefield.Commline.Message.{MsgBuf}
use whitefield.Airline.Nodeinfo.{no_stats}
use whitefield.Airline.Stats.{u64, set_rx_stats}
use whitefield.Airline.Iface.{ConfirmStatus, success, id2addr, data_confirm}
use whitefield.Airline.Iface.Confirm.{data_confirm-set_rx_stats}

data_confirm-set_rx_stats_example :
    (mbuf : MsgBuf) × (data_confirm 1 (id2addr 7) success 2 ≡ some mbuf)
    × (mbuf.src_id ≡ 1)
    × (mbuf.dst_id ≡ 7)
    × (◌≡◌ {A = ConfirmStatus} success success
        → set_rx_stats mbuf no_stats
          ≡ record no_stats { rx_ack_ok = modify (2 + 1) (λ k. u64 (k + 1)) no_stats.rx_ack_ok })
    × (◌≢◌ {A = ConfirmStatus} success success
        → set_rx_stats mbuf no_stats ≡ record no_stats { tx_fail = u64 (no_stats.tx_fail + 1) })
data_confirm-set_rx_stats_example =
    data_confirm-set_rx_stats 1 7 2 success no_stats (omega arith) (omega arith)
