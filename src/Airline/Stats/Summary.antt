-- ===== src/Airline/Stats/Summary.antt =====
-- src/airline/mac_stats.cc: `get_summary`, the numbers that it prints.
--
-- `macMaxRetry` of the configuration enters as a number. The text around the numbers is left out.
use whitefield.Base.{
  ℕ, zero, suc, ◌+◌, ◌-◌, ◌%◌, ◌^◌, Option, none, some, List, [], ◌∷◌, length, get_elem?, ◌==◌,
  if◌then◌else◌,
}
use whitefield.Commline.Message.{cl_mgr_id}
use whitefield.Airline.Nodeinfo.{Stats, Nodeinfo, no_stats}
use whitefield.Airline.Stats.{Macstats, u64}

-- The loop over `rx_ack_ok`.
unfoldable pub add_counters : List ℕ → List ℕ → List ℕ
add_counters (x ∷ xs) (y ∷ ys) = u64 (x + y) ∷ add_counters xs ys
add_counters xs ys = xs

unfoldable pub add_stats : Stats → Stats → Stats
unfolding add_counters
add_stats s b = record {
  tx_pkts = u64 (s.tx_pkts + b.tx_pkts);
  rx_pkts = u64 (s.rx_pkts + b.rx_pkts);
  rx_ack_ok = add_counters s.rx_ack_ok b.rx_ack_ok;
  tx_fail = u64 (s.tx_fail + b.tx_fail);
  tx_mc_pkts = u64 (s.tx_mc_pkts + b.tx_mc_pkts);
  rx_mc_pkts = u64 (s.rx_mc_pkts + b.rx_mc_pkts);
}

-- `for(uint16_t i=0;;i++)` over the nodes; `none` is a loop that does not end.
unfoldable pub sum_loop : {Real : Type 0} → ℕ → ℕ → Stats → List (Nodeinfo Real) → Option Stats
sum_loop zero i st nodes = none
sum_loop (suc fuel) i st nodes = elim (get_elem? nodes i) [
  | none ↦ some st
  | some n ↦ sum_loop fuel ((i + 1) % 2 ^ 16) (add_stats st n.stats) nodes
]

-- The sum of the counters of all nodes.
unfoldable pub network_stats : {Real : Type 0} → Macstats Real → Option Stats
unfolding sum_loop
network_stats m = sum_loop (suc (length m.nodes)) 0 no_stats m.nodes

pub record Summary : Type 0 where
  pub mcast_rx : ℕ
  pub mcast_tx : ℕ
  pub ucast_rx : ℕ
  pub ucast_tx : ℕ
  pub tx_succ : ℕ
  pub tx_fail : ℕ
  pub attempts : List ℕ

-- What becomes of a call: a report, "INTERNAL_ERROR", a loop without end, or a read behind the end
-- of `rx_ack_ok`.
pub data Reply : Type 0 where
  report : Summary → Reply
  internal_error : Reply
  endless : Reply
  out_of_bounds : Reply

-- `for(int i=1; i<=mac_retries; i++)`, with the rounds that are left.
unfoldable pub read_attempts : ℕ → ℕ → List ℕ → Option (List ℕ)
read_attempts zero i counters = some []
read_attempts (suc rounds) i counters = elim (get_elem? counters i) [
  | none ↦ none
  | some n ↦ elim (read_attempts rounds (i + 1) counters) [ none ↦ none | some ns ↦ some (n ∷ ns) ]
]

abbrev pub summary : Stats → List ℕ → Summary
summary st attempts = record {
  mcast_rx = st.rx_mc_pkts;
  mcast_tx = st.tx_mc_pkts;
  ucast_rx = st.rx_pkts;
  ucast_tx = st.tx_pkts;
  tx_succ = u64 (st.tx_pkts + 2 ^ 64 - st.tx_fail);
  tx_fail = st.tx_fail;
  attempts = attempts;
}

abbrev pub print_summary : ℕ → Stats → Reply
print_summary mac_retries st = elim (read_attempts mac_retries 1 st.rx_ack_ok) [
  | none ↦ out_of_bounds
  | some attempts ↦ report (summary st attempts)
]

unfoldable pub get_summary : {Real : Type 0} → ℕ → ℕ → Macstats Real → Reply
unfolding network_stats
get_summary mac_retries id m =
    if id == cl_mgr_id
    then (elim (network_stats m) [ none ↦ endless | some st ↦ print_summary mac_retries st ])
    else (elim (get_elem? m.nodes id) [
      | none ↦ internal_error
      | some n ↦ print_summary mac_retries n.stats
    ])
