-- ===== src/Airline/Stats/Counting.antt =====
-- src/airline/mac_stats.cc: each message is counted once, for its source node and for the network.
use whitefield.Base.{
  ℕ, zero, suc, ◌+◌, ◌%◌, ◌^◌, ◌<◌, ◌≡◌, refl, ◌∙◌, inl, inr, true, false, none, some, List, [],
  ◌∷◌, ◌++◌, length, length-append, append_assoc, get_elem?, modify, length-modify, arith, ltb,
  ◌==◌, Bool-cases,
}
use whitefield.Commline.Message.{MsgBuf, has_flag, mbuf_is_cmd}
use whitefield.Airline.Nodeinfo.{Stats, Nodeinfo, no_stats}
use whitefield.Airline.Stats.{Macstats, u64, al_tx, count, count_at, set_tx_stats, set_stats}
use whitefield.Airline.Stats.Summary.{add_stats, sum_loop, network_stats}

-- The packets sent, to one node or to all.
abbrev pub sent : Stats → ℕ
sent s = u64 (s.tx_pkts + s.tx_mc_pkts)

-- Of every message that is not a command the sender's counters take exactly one packet, and
-- nothing else of them changes.
pub set_tx_stats-sent :
    (mbuf : MsgBuf) (s : Stats)
    → has_flag mbuf mbuf_is_cmd ≡ false
    → (sent (set_tx_stats mbuf s) ≡ u64 (sent s + 1))
      × (record (set_tx_stats mbuf s) { tx_pkts = s.tx_pkts; tx_mc_pkts = s.tx_mc_pkts } ≡ s)
unfolding set_tx_stats
set_tx_stats-sent mbuf s h = elim (Bool-cases (mbuf.dst_id == 0xffff)) [
  | inl multi ↦ rw (h, multi) (omega arith, refl)
  | inr uni ↦ rw (h, uni) (omega arith, refl)
]

-- Sums of one number over the nodes.
abbrev total_sent : {Real : Type 0} → List (Nodeinfo Real) → ℕ
total_sent [] = 0
total_sent (n ∷ ns) = sent n.stats + total_sent ns

abbrev fold : {Real : Type 0} → Stats → List (Nodeinfo Real) → Stats
fold st [] = st
fold st (n ∷ ns) = fold (add_stats st n.stats) ns

get_elem?-append {ℓ} :
    {A : Type ℓ} (xs : List A) (y : A) (ys : List A) → get_elem? (xs ++ y ∷ ys) (length xs) ≡ some y
get_elem?-append [] y ys = refl
get_elem?-append (x ∷ xs) y ys = get_elem?-append xs y ys

get_elem?-end {ℓ} : {A : Type ℓ} (xs : List A) → get_elem? (xs ++ []) (length xs) ≡ none
get_elem?-end [] = refl
get_elem?-end (x ∷ xs) = get_elem?-end xs

module _ {Real : Type 0} where
  -- The loop has added `seen` and stands at the first of `rest`.
  sum_loop-fold :
      (seen rest : List (Nodeinfo Real)) (fuel : ℕ) (st : Stats)
      → length seen + length rest < 2 ^ 16
      → length rest < fuel
      → sum_loop fuel (length seen) st (seen ++ rest) ≡ some (fold st rest)
  unfolding sum_loop
  sum_loop-fold seen rest zero st h k = absurd (omega arith)
  sum_loop-fold seen [] (suc fuel) st h k = rw (get_elem?-end seen, sum_loop) refl
  sum_loop-fold seen (n ∷ rest) (suc fuel) st h k =
      let next : (length seen + 1) % 2 ^ 16 ≡ length (seen ++ n ∷ []) =
        omega (arith, length-append seen (n ∷ [])) in
      rw (get_elem?-append seen n rest, sum_loop, next, ← append_assoc seen (n ∷ []) rest)
        (sum_loop-fold (seen ++ n ∷ []) rest fuel (add_stats st n.stats)
          (omega (arith, length-append seen (n ∷ []))) (omega arith))

  network_stats-fold :
      (m : Macstats Real) → length m.nodes < 2 ^ 16 → network_stats m ≡ some (fold no_stats m.nodes)
  unfolding network_stats
  network_stats-fold m h =
      sum_loop-fold [] m.nodes (suc (length m.nodes)) no_stats (omega arith) (omega arith)

  fold-sent :
      (st : Stats) (ns : List (Nodeinfo Real)) → sent (fold st ns) ≡ u64 (sent st + total_sent ns)
  fold-sent st [] = omega arith
  fold-sent st (n ∷ ns) = fold-sent (add_stats st n.stats) ns ∙ unfold add_stats in omega arith

  -- What a transmission does to the node that it is counted for.
  count-sent :
      (mbuf : MsgBuf) (n : Nodeinfo Real)
      → has_flag mbuf mbuf_is_cmd ≡ false
      → sent (count al_tx mbuf n).stats ≡ u64 (sent n.stats + 1)
  count-sent mbuf n h = (set_tx_stats-sent mbuf n.stats h).0

  modify-sent :
      (mbuf : MsgBuf) (i : ℕ) (ns : List (Nodeinfo Real))
      → has_flag mbuf mbuf_is_cmd ≡ false
      → i < length ns
      → u64 (total_sent (modify i (count al_tx mbuf) ns)) ≡ u64 (total_sent ns + 1)
  modify-sent mbuf i [] h lt = absurd (omega arith)
  modify-sent mbuf zero (n ∷ ns) h lt = omega (arith, count-sent mbuf n h)
  modify-sent mbuf (suc i) (n ∷ ns) h lt = omega (arith, modify-sent mbuf i ns h (omega arith))

  -- A message sent by a node adds exactly one packet to what the summary of the whole network says
  -- was sent, in arithmetic of 64 bits; commands are not counted.
  pub set_stats-network :
      (now : ℕ) (mbuf : MsgBuf) (m : Macstats Real)
      → length m.nodes < 2 ^ 16
      → m.is_inited ≡ true
      → has_flag mbuf mbuf_is_cmd ≡ false
      → mbuf.src_id < length m.nodes
      → (m' : Macstats Real) × (st : Stats) × (st' : Stats) × (set_stats now al_tx mbuf m ≡ some m')
        × (network_stats m ≡ some st)
        × (network_stats m' ≡ some st')
        × (sent st' ≡ u64 (sent st + 1))
  unfolding set_stats
  set_stats-network now mbuf m size inited data_only known =
      let m' : Macstats Real = count_at al_tx mbuf m in
      let here : ltb mbuf.src_id (length m.nodes) ≡ true = ground arith in
      (
        m',
        fold no_stats m.nodes,
        fold no_stats m'.nodes,
        rw (here, inited) refl,
        network_stats-fold m size,
        network_stats-fold m' (omega (arith, length-modify (count al_tx mbuf) mbuf.src_id m.nodes)),
        omega (
          arith,
          fold-sent no_stats m.nodes,
          fold-sent no_stats m'.nodes,
          modify-sent mbuf mbuf.src_id m.nodes data_only known,
        ),
      )
