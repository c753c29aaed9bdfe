-- ===== src/Airline/Manager/Unchanged.antt =====
-- src/airline/NS3/AirlineManager.cc: what the commands on positions, statistics and addresses leave as it
-- was.
use whitefield.Base.{
  if-either, ℕ, ◌≡◌, ◌≢◌, refl, sym, map, get_elem?, get_elem?-set_ne, Option, none, some, ◌++◌,
  Bytes, codes, length, length-set, ltb, if◌then◌else◌,
}
use whitefield.Base.Int.{ℤ, pos, negsuc}
use whitefield.Base.Text.{decimal, stoi}
use whitefield.Airline.Config.Lookup.{get}
use whitefield.Airline.Stats.{reset}
use whitefield.Airline.Stats.Summary.{
  Reply, report, internal_error, endless, out_of_bounds, get_summary,
}
use whitefield.Airline.Iface.Lrwpan.{IfaceCtx, IfaceStatus, done, failed, not_supported, uncaught}
use whitefield.Airline.Manager.{
  Airline, placed, macstats, printed, Ran, answered, crashed, answer, strtok, cmd_set_node_position,
  with_x, with_y, third, set_ext_addr_answer,
}
use whitefield.Airline.Manager.Commands.{cmd_mac_stats, summary_answer, positions_answer}
use whitefield.Airline.Manager.Handling.{Handled, handled, stopped}

-- What a message of a node keeps: what each setting reads as, the number of nodes, every node but for
-- its counters, the number of positions, and the positions of the other nodes.
abbrev pub IsKept : {Real : Type 0} → ℕ → Airline Real → Airline Real → Type 0
IsKept src a a' =
    ((key : Bytes) → get key a'.config ≡ get key a.config)
    × (a'.config.num_of_nodes ≡ a.config.num_of_nodes)
    × (map reset a'.config.node_array ≡ map reset a.config.node_array)
    × (length a'.positions ≡ length a.positions)
    × ((id : ℕ) → id ≢ src → get_elem? a'.positions id ≡ get_elem? a.positions id)

module _ {Real : Type 0} (src : ℕ) (a : Airline Real) where
  abbrev pub RunKeeps : Ran Real → Type 0
  RunKeeps (answered a' text n) = IsKept src a a'
  RunKeeps _ = Unit

  abbrev pub Keeps : Handled Real → Type 0
  Keeps (handled a' replies) = IsKept src a a'
  Keeps (stopped _) = Unit

  pub same : IsKept src a a
  same = (λ key. refl, refl, refl, refl, λ id apart. refl)

  pub set_ext_addr-Keeps :
      (buflen : ℕ) (r : IfaceCtx Real × IfaceStatus) → RunKeeps (set_ext_addr_answer a buflen r)
  set_ext_addr-Keeps buflen (ctx, done) = same
  set_ext_addr-Keeps buflen (ctx, failed) = same
  set_ext_addr-Keeps buflen (ctx, not_supported) = same
  set_ext_addr-Keeps buflen (ctx, uncaught) = tt

  pub summary-Keeps : (now id buflen : ℕ) (r : Reply) → RunKeeps (summary_answer now id buflen a r)
  summary-Keeps now id buflen (report s) = same
  summary-Keeps now id buflen internal_error = same
  summary-Keeps now id buflen endless = tt
  summary-Keeps now id buflen out_of_bounds = tt

  pub cmd_mac_stats-Keeps : (now id buflen : ℕ) → RunKeeps (cmd_mac_stats now id buflen a)
  unfolding cmd_mac_stats
  cmd_mac_stats-Keeps now id buflen = with_retries (stoi (get (codes "macMaxRetry") a.config))
    where
      with_retries :
          (o : Option ℤ)
          → RunKeeps (elim o [
            | none ↦ crashed
            | some (pos n) ↦ summary_answer now id buflen a (get_summary n id (macstats a))
            | some (negsuc _) ↦ summary_answer now id buflen a (get_summary 0 id (macstats a))
          ])
      with_retries none = tt
      with_retries (some (pos n)) = summary-Keeps now id buflen (get_summary n id (macstats a))
      with_retries (some (negsuc _)) = summary-Keeps now id buflen (get_summary 0 id (macstats a))

  pub positions-Keeps : (buflen : ℕ) (o : Option Bytes) → RunKeeps (positions_answer buflen a o)
  positions-Keeps buflen none = tt
  positions-Keeps buflen (some text) = same

  pub placed-Keeps :
      (place : Real × Real × Real) (buflen : ℕ) → RunKeeps (placed src place buflen a)
  placed-Keeps place buflen = (
    λ key. refl,
    refl,
    refl,
    length-set a.positions src place,
    λ id apart. get_elem?-set_ne a.positions src id place (λ e. apart (sym e)),
  )

module _ {Real : Type 0} (zero_real : Real) (stod : Bytes → Option Real) (a : Airline Real) where
  with_z-Keeps :
      (id buflen : ℕ) (x y : Real) (o : Option Real)
      → RunKeeps id a (elim o [ none ↦ crashed | some z_pos ↦ placed id (x, y, z_pos) buflen a ])
  with_z-Keeps id buflen x y none = tt
  with_z-Keeps id buflen x y (some z) = placed-Keeps id a (x, y, z) buflen

  with_y_pos-Keeps :
      (id buflen : ℕ) (x : Real) (s : Bytes) (o : Option Real)
      → RunKeeps id a (elim o [
        | none ↦ crashed
        | some y_pos ↦ elim (third zero_real stod (strtok s)) [
          | none ↦ crashed
          | some z_pos ↦ placed id (x, y_pos, z_pos) buflen a
        ]
      ])
  with_y_pos-Keeps id buflen x s none = tt
  with_y_pos-Keeps id buflen x s (some y) =
      with_z-Keeps id buflen x y (third zero_real stod (strtok s))

  with_y-Keeps :
      (id buflen : ℕ) (x : Real) (o : Option (Bytes × Bytes))
      → RunKeeps id a (with_y zero_real stod id buflen a x o)
  with_y-Keeps id buflen x none = same id a
  with_y-Keeps id buflen x (some (y, s)) = with_y_pos-Keeps id buflen x s (stod y)

  with_x_pos-Keeps :
      (id buflen : ℕ) (s : Bytes) (o : Option Real)
      → RunKeeps id a (elim o [
        | none ↦ crashed
        | some x_pos ↦ with_y zero_real stod id buflen a x_pos (strtok s)
      ])
  with_x_pos-Keeps id buflen s none = tt
  with_x_pos-Keeps id buflen s (some x) = with_y-Keeps id buflen x (strtok s)

  with_x-Keeps :
      (id buflen : ℕ) (o : Option (Bytes × Bytes))
      → RunKeeps id a (with_x zero_real stod id buflen a o)
  with_x-Keeps id buflen none = same id a
  with_x-Keeps id buflen (some (x, s)) = with_x_pos-Keeps id buflen s (stod x)

  pub cmd_set_node_position-Keeps :
      (id : ℕ) (buf : Bytes) (buflen : ℕ)
      → RunKeeps id a (cmd_set_node_position zero_real stod id buf buflen a)
  unfolding cmd_set_node_position
  cmd_set_node_position-Keeps id buf buflen = for_count (stoi (get (codes "numOfNodes") a.config))
    where
      for_count :
          (o : Option ℤ)
          → RunKeeps id a (elim o [
            | none ↦ crashed
            | some (negsuc n) ↦
                answer a
                  (printed (codes "NodeID mandatory for setting node pos id=" ++ decimal id) buflen)
            | some (pos n) ↦
                if ltb id n
                then with_x zero_real stod id buflen a (strtok buf)
                else answer a (
                    printed
                      (codes "NodeID mandatory for setting node pos id=" ++ decimal id)
                      buflen)
          ])
      for_count none = tt
      for_count (some (negsuc n)) = same id a
      for_count (some (pos n)) =
          if-either (RunKeeps id a) (ltb id n) (with_x-Keeps id buflen (strtok buf)) (same id a)
