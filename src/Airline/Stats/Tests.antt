-- ===== src/Airline/Stats/Tests.antt =====
-- Counters of small networks, and the theorems about the statistics at them.
use whitefield.Base.{
  ℕ, zero, suc, ◌<◌, ◌≤◌, ◌≡◌, refl, true, none, some, [], ◌∷◌, length, replicate, length-replicate,
  get_elem?, some_inj, subst, List, codes, arith,
}
use whitefield.Commline.Message.{MsgBuf}
use whitefield.Airline.Nodeinfo.{Stats, Nodeinfo, no_stats, new_nodeinfo, max_mac_tx_retry_cnt}
use whitefield.Airline.Stats.{Macstats, al_rx, al_tx, clear_loop}
use whitefield.Airline.Stats.Summary.{Summary, report, out_of_bounds, print_summary}
use whitefield.Airline.Stats.History.{Entry, Counts, run_log}
use whitefield.Airline.Stats.Runs.{run_log-Counts}
use whitefield.Airline.Stats.Bounds.{clear_loop_endless, print_summary_bounds}

-- A packet of node 1 to all nodes.
abbrev broadcast : MsgBuf
broadcast = record {
  mtype = 0;
  src_id = 1;
  dst_id = 0xffff;
  flags = 0;
  info_first = 0;
  info_second = 0;
  len = 4;
  max_len = 2048;
  buf = codes "ping";
}

abbrev busy : Stats
busy = record no_stats { tx_pkts = 7; tx_mc_pkts = 2 }

abbrev network : Macstats ℕ
network = record {
  nodes = record new_nodeinfo { stats = busy } ∷ new_nodeinfo ∷ [];
  is_inited = true;
  tv = 0;
}

print_summary_bounds_example :
    (10 < max_mac_tx_retry_cnt
      → (s : Summary) × (print_summary 10 busy ≡ report s) × (length s.attempts ≡ 10))
    × (max_mac_tx_retry_cnt ≤ 10 → print_summary 10 busy ≡ out_of_bounds)
print_summary_bounds_example = print_summary_bounds 10 busy refl

clear_loop_endless_example : clear_loop 70000 0 (replicate 65536 (new_nodeinfo {Real = ℕ})) ≡ none
clear_loop_endless_example =
    clear_loop_endless 70000 0 (replicate 65536 new_nodeinfo)
      (omega (arith, length-replicate 65536 (new_nodeinfo {Real = ℕ}))) (omega arith)

-- Node 1 sends to all, node 7 does not exist, and node 0 receives.
abbrev traffic : List Entry
traffic =
    record { dir = al_tx; mbuf = broadcast }
    ∷ record { dir = al_tx; mbuf = record broadcast { src_id = 7 } }
    ∷ record { dir = al_rx; mbuf = record broadcast { src_id = 0; dst_id = 0 } }
    ∷ []

abbrev quiet : Macstats ℕ
quiet = record { nodes = new_nodeinfo ∷ new_nodeinfo ∷ []; is_inited = true; tv = 0 }

quiet_cleared : (i : ℕ) (n : Nodeinfo ℕ) → get_elem? quiet.nodes i ≡ some n → n.stats ≡ no_stats
quiet_cleared zero n here = subst (λ m. m.stats ≡ no_stats) (some_inj here) refl
quiet_cleared (suc zero) n here = subst (λ m. m.stats ≡ no_stats) (some_inj here) refl
quiet_cleared (suc (suc i)) n here = absurd (cc)

run_log-Counts_example :
    (m' : Macstats ℕ) × (run_log 5 traffic quiet ≡ some m')
    × (length m'.nodes ≡ 2)
    × ((i : ℕ) (n : Nodeinfo ℕ) → get_elem? m'.nodes i ≡ some n → Counts i traffic n.stats)
run_log-Counts_example = run_log-Counts 5 traffic quiet refl quiet_cleared
