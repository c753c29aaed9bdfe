-- ===== src/Airline/Stats/Bounds.antt =====
-- src/airline/mac_stats.cc: loops and array accesses, and how received packets are told apart.
use whitefield.Base.{
  get_elem?-inside, get_elem?-outside, ℕ, zero, suc, ◌+◌, ◌%◌, ◌^◌, ◌≤◌, ◌<◌, ◌≡◌, ◌≢◌, inl, inr,
  refl, ap, ◌∙◌, true, false, none, some, List, [], ◌∷◌, ◌++◌, map, length, length-append,
  append_assoc, modify, length-modify, arith, ltb, ◌==◌, Bool-cases,
}
use whitefield.Commline.Message.{MsgBuf, has_flag, mbuf_is_ack, mbuf_is_cmd}
use whitefield.Airline.Nodeinfo.{Stats, Nodeinfo, max_mac_tx_retry_cnt}
use whitefield.Airline.Stats.{Macstats, u64, reset, set_rx_stats, clear_loop, clear}
use whitefield.Airline.Stats.Summary.{
  Summary, report, out_of_bounds, read_attempts, summary, print_summary,
}

module _ {Real : Type 0} where
  modify-append :
      (f : Nodeinfo Real → Nodeinfo Real) (xs : List (Nodeinfo Real)) (y : Nodeinfo Real)
      (ys : List (Nodeinfo Real))
      → modify (length xs) f (xs ++ y ∷ ys) ≡ xs ++ f y ∷ ys
  modify-append f [] y ys = refl
  modify-append f (x ∷ xs) y ys = ap (λ l. x ∷ l) (modify-append f xs y ys)

  clear_loop-reset :
      (seen rest : List (Nodeinfo Real)) (fuel : ℕ)
      → length seen + length rest < 2 ^ 16
      → length rest < fuel
      → clear_loop fuel (length seen) (seen ++ rest) ≡ some (seen ++ map reset rest)
  unfolding clear_loop
  clear_loop-reset seen rest zero h k = absurd (omega arith)
  clear_loop-reset seen [] (suc fuel) h k =
      let end : ltb (length seen) (length (seen ++ [])) ≡ false =
        ground (arith, length-append seen []) in
      rw end refl
  clear_loop-reset seen (n ∷ rest) (suc fuel) h k =
      let inside : ltb (length seen) (length (seen ++ n ∷ rest)) ≡ true =
        ground (arith, length-append seen (n ∷ rest)) in
      let next : (length seen + 1) % 2 ^ 16 ≡ length (seen ++ reset n ∷ []) =
        omega (arith, length-append seen (reset n ∷ [])) in
      let ih =
        clear_loop-reset (seen ++ reset n ∷ []) rest fuel
          (omega (arith, length-append seen (reset n ∷ []))) (omega arith) in
      rw (inside, modify-append reset seen n rest, next, ← append_assoc seen (reset n ∷ []) rest)
        (ih ∙ ap some (append_assoc seen (reset n ∷ []) (map reset rest)))

  -- With fewer than 65536 nodes the counters of every node are cleared, and nothing else changes
  -- but the start of the measurement.
  pub clear_all :
      (now : ℕ) (m : Macstats Real)
      → length m.nodes < 2 ^ 16
      → clear now m ≡ some (record m { nodes = map reset m.nodes; tv = now })
  unfolding clear
  clear_all now m h =
      rw (clear_loop-reset [] m.nodes (suc (length m.nodes)) (omega arith) (omega arith), clear)
        refl

  -- With 65536 nodes or more the 16-bit index never passes the last node, so no number of rounds is
  -- enough.
  pub clear_loop_endless :
      (fuel i : ℕ) (nodes : List (Nodeinfo Real))
      → 2 ^ 16 ≤ length nodes
      → i < 2 ^ 16
      → clear_loop fuel i nodes ≡ none
  unfolding clear_loop
  clear_loop_endless zero i nodes h k = refl
  clear_loop_endless (suc fuel) i nodes h k =
      let inside : ltb i (length nodes) ≡ true = ground arith in
      rw inside (
        clear_loop_endless fuel ((i + 1) % 2 ^ 16) (modify i reset nodes)
          (omega (arith, length-modify reset i nodes)) (omega arith))

-- A received packet that is no command and no acknowledgement is counted as unicast exactly when
-- its destination is node 0; unicast to any other node is counted as multicast.
pub set_rx_stats_data :
    (mbuf : MsgBuf) (s : Stats)
    → has_flag mbuf mbuf_is_cmd ≡ false
    → has_flag mbuf mbuf_is_ack ≡ false
    → (mbuf.dst_id ≡ 0 → set_rx_stats mbuf s ≡ record s { rx_pkts = u64 (s.rx_pkts + 1) })
      × (mbuf.dst_id ≢ 0 → set_rx_stats mbuf s ≡ record s { rx_mc_pkts = u64 (s.rx_mc_pkts + 1) })
unfolding set_rx_stats
set_rx_stats_data mbuf s nc na = (λ e. zero_case e, λ ne. other_case ne)
  where
    zero_case : mbuf.dst_id ≡ 0 → set_rx_stats mbuf s ≡ record s { rx_pkts = u64 (s.rx_pkts + 1) }
    zero_case e = let t : (mbuf.dst_id == 0) ≡ true = ground arith in rw (nc, na, t) refl

    other_case :
        mbuf.dst_id ≢ 0 → set_rx_stats mbuf s ≡ record s { rx_mc_pkts = u64 (s.rx_mc_pkts + 1) }
    other_case ne = let t : (mbuf.dst_id == 0) ≡ false = ground arith in rw (nc, na, t) refl

read_attempts-some :
    (rounds i : ℕ) (xs : List ℕ)
    → i + rounds ≤ length xs
    → (ns : List ℕ) × (read_attempts rounds i xs ≡ some ns) × (length ns ≡ rounds)
unfolding read_attempts
read_attempts-some zero i xs h = ([], refl, refl)
read_attempts-some (suc rounds) i xs h =
    let (n, e) = get_elem?-inside xs i (omega arith) in
    let (ns, ih, len) = read_attempts-some rounds (i + 1) xs (omega arith) in
    (n ∷ ns, rw (e, read_attempts, ih) refl, ap suc len)

read_attempts-none :
    (rounds i : ℕ) (xs : List ℕ)
    → i ≤ length xs
    → length xs < i + rounds
    → read_attempts rounds i xs ≡ none
unfolding read_attempts
read_attempts-none zero i xs b h = absurd (omega arith)
read_attempts-none (suc rounds) i xs b h = elim (Bool-cases (ltb i (length xs))) [
  | inl inside ↦
      let (n, e) = get_elem?-inside xs i (ground arith) in
      rw (e, read_attempts, read_attempts-none rounds (i + 1) xs (ground arith) (omega arith)) refl
  | inr outside ↦ rw (get_elem?-outside xs i (ground arith), read_attempts) refl
]

-- The report lists one counter for each retry that the configuration allows. With `macMaxRetry` of
-- 10 or more the loop reads behind the end of the ten counters.
pub print_summary_bounds :
    (mac_retries : ℕ) (st : Stats)
    → length st.rx_ack_ok ≡ max_mac_tx_retry_cnt
    → (mac_retries < max_mac_tx_retry_cnt
        → (s : Summary) × (print_summary mac_retries st ≡ report s)
          × (length s.attempts ≡ mac_retries))
      × (max_mac_tx_retry_cnt ≤ mac_retries → print_summary mac_retries st ≡ out_of_bounds)
print_summary_bounds mac_retries st ten = (λ k. reported k, λ k. behind k)
  where
    reported :
        mac_retries < max_mac_tx_retry_cnt
        → (s : Summary) × (print_summary mac_retries st ≡ report s)
          × (length s.attempts ≡ mac_retries)
    reported k =
        let (ns, e, len) = read_attempts-some mac_retries 1 st.rx_ack_ok (omega arith) in
        (summary st ns, rw (e, print_summary) refl, len)

    behind : max_mac_tx_retry_cnt ≤ mac_retries → print_summary mac_retries st ≡ out_of_bounds
    behind k =
        rw
          (read_attempts-none mac_retries 1 st.rx_ack_ok (omega arith) (omega arith), print_summary)
          refl
