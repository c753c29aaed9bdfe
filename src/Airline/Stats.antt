-- ===== src/Airline/Stats.antt =====
-- src/airline/mac_stats.cc and mac_stats.h: the counters of the MAC layer.
--
-- The counters have 64 bits and wrap. `Macstats` is the base of `Nodeinfo`, so a node's counters
-- stand in its `stats`. The clock of `gettimeofday` is an argument; log lines are left out.
pub mod Summary
pub mod Counting
pub mod Bounds
pub mod History
pub mod Runs
pub mod Kept
mod Tests
use whitefield.Base.{
  ℕ, zero, suc, ◌+◌, ◌-◌, ◌%◌, ◌^◌, Bool, true, false, Option, none, some, List, [], ◌∷◌, length,
  modify, get_elem?, leb, ltb, ◌==◌, if◌then◌else◌, set,
}
use whitefield.Commline.Message.{
  MsgBuf, has_flag, mbuf_is_ack, mbuf_is_cmd, wf_status_ack_ok, cl_mgr_id, in_range,
}
use whitefield.Airline.Nodeinfo.{Stats, Nodeinfo, no_stats, max_mac_tx_retry_cnt}

abbrev pub u64 : ℕ → ℕ
u64 n = n % 2 ^ 64

abbrev pub al_rx : ℕ
al_rx = 1

abbrev pub al_tx : ℕ
al_tx = 2

abbrev bump : List ℕ → ℕ → List ℕ
bump counters i = modify i (λ n. u64 (n + 1)) counters

unfoldable pub set_tx_stats : MsgBuf → Stats → Stats
set_tx_stats mbuf s =
    if has_flag mbuf mbuf_is_cmd
    then s
    else if mbuf.dst_id == 0xffff
    then record s { tx_mc_pkts = u64 (s.tx_mc_pkts + 1) }
    else record s { tx_pkts = u64 (s.tx_pkts + 1) }

-- The branch for acknowledgements; `info_first` holds the retries and `info_second` the status.
abbrev set_ack_stats : MsgBuf → Stats → Stats
set_ack_stats mbuf s =
    if mbuf.info_second == wf_status_ack_ok
    then (if in_range mbuf.info_first 1 max_mac_tx_retry_cnt
        then record s { rx_ack_ok = bump s.rx_ack_ok mbuf.info_first }
        else s)
    else record s { tx_fail = u64 (s.tx_fail + 1) }

unfoldable pub set_rx_stats : MsgBuf → Stats → Stats
set_rx_stats mbuf s =
    if has_flag mbuf mbuf_is_cmd
    then s
    else if has_flag mbuf mbuf_is_ack
    then set_ack_stats mbuf s
    else if mbuf.dst_id == 0
    then record s { rx_pkts = u64 (s.rx_pkts + 1) }
    else record s { rx_mc_pkts = u64 (s.rx_mc_pkts + 1) }

-- The nodes of the configuration and the static members of `Macstats`.
pub record Macstats (Real : Type 0) : Type 0 where
  pub nodes : List (Nodeinfo Real)
  pub is_inited : Bool
  pub tv : ℕ

abbrev pub reset : {Real : Type 0} → Nodeinfo Real → Nodeinfo Real
reset n = record n { stats = no_stats }

-- `for(uint16_t i=0;;i++)` until there is no node `i`; the index has 16 bits.
unfoldable pub clear_loop :
    {Real : Type 0} → ℕ → ℕ → List (Nodeinfo Real) → Option (List (Nodeinfo Real))
clear_loop zero i nodes = none
clear_loop (suc fuel) i nodes =
    let rest = clear_loop fuel ((i + 1) % 2 ^ 16) (modify i reset nodes) in
    if ltb i (length nodes) then rest else some nodes

-- `none` is a loop that does not end.
unfoldable pub clear : {Real : Type 0} → ℕ → Macstats Real → Option (Macstats Real)
unfolding clear_loop
clear now m = elim (clear_loop (suc (length m.nodes)) 0 m.nodes) [
  | none ↦ none
  | some nodes ↦ some (record m { nodes = nodes; tv = now })
]

-- `ni->set(dir, mbuf)` behind the initialisation.
abbrev count : {Real : Type 0} → ℕ → MsgBuf → Nodeinfo Real → Nodeinfo Real
count dir mbuf n =
    if dir == al_tx
    then record n { stats = set_tx_stats mbuf n.stats }
    else if dir == al_rx
    then record n { stats = set_rx_stats mbuf n.stats }
    else n

abbrev count_at : {Real : Type 0} → ℕ → MsgBuf → Macstats Real → Macstats Real
count_at dir mbuf m = record m { nodes = modify mbuf.src_id (count dir mbuf) m.nodes }

abbrev initialised : {Real : Type 0} → ℕ → Macstats Real → Option (Macstats Real)
initialised now m = elim (clear now m) [
  | none ↦ none
  | some m' ↦ some (record m' { is_inited = true })
]

-- `set_stats`: the first call that finds its node clears every node's counters.
unfoldable pub set_stats : {Real : Type 0} → ℕ → ℕ → MsgBuf → Macstats Real → Option (Macstats Real)
unfolding set_tx_stats set_rx_stats
set_stats now dir mbuf m =
    if ltb mbuf.src_id (length m.nodes)
    then elim (if m.is_inited then some m else initialised now m) [
      | none ↦ none
      | some m' ↦ some (count_at dir mbuf m')
    ]
    else some m
