-- ===== src/Airline/Nodeinfo.antt =====
-- src/airline/Nodeinfo.h: what the configuration and the statistics keep for one node.
use whitefield.Base.{ℕ, Option, none, some, [], List, Bytes, replicate}
use whitefield.Base.Int.{ℤ, pos, negsuc}
use whitefield.Airline.Dictionary.{Dictionary, find, put}

-- `stats_t` of mac_stats.h, whose counters have 64 bits.
pub record Stats : Type 0 where
  pub tx_pkts : ℕ
  pub rx_pkts : ℕ
  pub rx_ack_ok : List ℕ
  pub tx_fail : ℕ
  pub tx_mc_pkts : ℕ
  pub rx_mc_pkts : ℕ

abbrev pub max_mac_tx_retry_cnt : ℕ
max_mac_tx_retry_cnt = 10

-- `memset(&stats, 0, sizeof(stats))`.
abbrev pub no_stats : Stats
no_stats = record {
  tx_pkts = 0;
  rx_pkts = 0;
  rx_ack_ok = replicate 10 0;
  tx_fail = 0;
  tx_mc_pkts = 0;
  rx_mc_pkts = 0;
}

-- `position` is `X`, `Y` and `Z` once `pos_set` is 1; the program does not read them before.
pub record Nodeinfo (Real : Type 0) : Type 0 where
  pub node_exec : Bytes
  pub cap_file : Bytes
  pub position : Option (Real × Real × Real)
  pub promis_mode : ℕ
  pub keyval : Dictionary
  pub stats : Stats

-- The constructor.
abbrev pub new_nodeinfo : {Real : Type 0} → Nodeinfo Real
new_nodeinfo = record {
  node_exec = [];
  cap_file = [];
  position = none;
  promis_mode = 0;
  keyval = [];
  stats = no_stats;
}

module _ {Real : Type 0} where
  unfoldable pub getkv : Bytes → Bytes → Nodeinfo Real → Bytes
  unfolding find
  getkv key def n = elim (find key n.keyval) [ none ↦ def | some v ↦ v ]

  unfoldable pub setkv : Bytes → Bytes → Nodeinfo Real → Nodeinfo Real
  setkv key val n = record n { keyval = put key val n.keyval }

  unfoldable pub set_node_executable : Bytes → Nodeinfo Real → Nodeinfo Real
  set_node_executable path n = record n { node_exec = path }

  unfoldable pub set_node_capture_file : Bytes → Nodeinfo Real → Nodeinfo Real
  set_node_capture_file path n = record n { cap_file = path }

  -- `!!val`.
  unfoldable pub set_promis_mode : ℤ → Nodeinfo Real → Nodeinfo Real
  set_promis_mode (pos ℕ.zero) n = record n { promis_mode = 0 }
  set_promis_mode (pos (ℕ.suc _)) n = record n { promis_mode = 1 }
  set_promis_mode (negsuc _) n = record n { promis_mode = 1 }

  unfoldable pub set_node_position : Real → Real → Real → Nodeinfo Real → Nodeinfo Real
  set_node_position x_pos y_pos z_pos n = record n { position = some (x_pos, y_pos, z_pos) }
