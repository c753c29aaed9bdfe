-- ===== src/Airline/Stats/Runs.antt =====
-- src/airline/mac_stats.cc: a run of `set_stats` against the history of its calls.
use whitefield.Base.{
  ℕ, zero, suc, ◌≤◌, ◌<◌, ◌≡◌, refl, ap, sym, subst, ◌∙◌, true, false, inl, inr, Option, none, some,
  List, [], ◌∷◌, length, get_elem?, modify, length-modify, get_elem?-modify_self,
  get_elem?-modify_ne, arith, ltb, ◌==◌, Bool-cases,
}
use mathlib.Core.Option
use whitefield.Airline.Nodeinfo.{Nodeinfo, no_stats}
use whitefield.Airline.Stats.{Macstats, count, count_at, set_stats}
use whitefield.Airline.Stats.History.{
  Entry, run_log, Counts, no_stats-Counts, other-Counts, onto, onto-Counts, count-Counts,
}

module _ {Real : Type 0} where
  -- Every node's counters say what the history says.
  abbrev pub Tracks : List Entry → List (Nodeinfo Real) → Type 0
  Tracks h nodes = (i : ℕ) (n : Nodeinfo Real) → get_elem? nodes i ≡ some n → Counts i h n.stats

  modify-Tracks :
      (e : Entry) (h : List Entry) (nodes : List (Nodeinfo Real))
      → Tracks h nodes
      → Tracks (e ∷ h) (modify e.mbuf.src_id (count e.dir e.mbuf) nodes)
  modify-Tracks e h nodes t i n here = elim (Bool-cases (e.mbuf.src_id == i)) [
    | inr other ↦ other-Counts i e h n.stats other (
        t i n (
          sym (get_elem?-modify_ne (count e.dir e.mbuf) e.mbuf.src_id i nodes (ground arith))
          ∙ here))
    | inl own ↦
        let same : e.mbuf.src_id ≡ i = ground arith in
        found_own e h nodes t i n own (get_elem? nodes i) refl (
          sym (get_elem?-modify_self (count e.dir e.mbuf) i nodes)
          ∙ subst (λ j. get_elem? (modify j (count e.dir e.mbuf) nodes) i ≡ some n) same here)
  ]
    where
      found_own :
          (e : Entry) (h : List Entry) (nodes : List (Nodeinfo Real))
          → Tracks h nodes
          → (i : ℕ) (n : Nodeinfo Real) → (e.mbuf.src_id == i) ≡ true
          → (o : Option (Nodeinfo Real)) → get_elem? nodes i ≡ o
          → Option.map (count e.dir e.mbuf) o ≡ some n
          → Counts i (e ∷ h) n.stats
      found_own e h nodes t i n own none before after = cc
      found_own e h nodes t i n own (some n') before after =
          let same : count e.dir e.mbuf n' ≡ n = cc in
          subst (λ x. Counts i (e ∷ h) x.stats) same (count-Counts i e h n' own (t i n' before))

  -- An entry of a node that does not exist.
  unknown-Tracks :
      (e : Entry) (h : List Entry) (nodes : List (Nodeinfo Real))
      → length nodes ≤ e.mbuf.src_id
      → Tracks h nodes
      → Tracks (e ∷ h) nodes
  unknown-Tracks e h nodes far t i n here =
      other-Counts i e h n.stats (apart i (get_elem?-lt nodes i n here)) (t i n here)
    where
      apart : (i : ℕ) → i < length nodes → (e.mbuf.src_id == i) ≡ false
      apart i lt = ground arith

      get_elem?-lt :
          (nodes : List (Nodeinfo Real)) (i : ℕ) (n : Nodeinfo Real)
          → get_elem? nodes i ≡ some n
          → i < length nodes
      get_elem?-lt [] i n e = cc
      get_elem?-lt (x ∷ xs) zero n e = omega arith
      get_elem?-lt (x ∷ xs) (suc i) n e = omega (arith, get_elem?-lt xs i n e)

  next_log :
      (now : ℕ) (e : Entry) (es : List Entry) (m m' : Macstats Real)
      → set_stats now e.dir e.mbuf m ≡ some m'
      → run_log now (e ∷ es) m ≡ run_log now es m'
  unfolding run_log
  next_log now e es m m' h =
      ap (λ (o : Option (Macstats Real)). elim o [ none ↦ none | some m'' ↦ run_log now es m'' ]) h

  set_stats-known :
      (now : ℕ) (e : Entry) (m : Macstats Real)
      → ltb e.mbuf.src_id (length m.nodes) ≡ true
      → m.is_inited ≡ true
      → set_stats now e.dir e.mbuf m ≡ some (count_at e.dir e.mbuf m)
  unfolding set_stats
  set_stats-known now e m known inited = rw (known, inited) refl

  set_stats-unknown :
      (now : ℕ) (e : Entry) (m : Macstats Real)
      → ltb e.mbuf.src_id (length m.nodes) ≡ false
      → set_stats now e.dir e.mbuf m ≡ some m
  unfolding set_stats
  set_stats-unknown now e m unknown = rw unknown refl

  run_log-Tracks :
      (now : ℕ) (h es : List Entry) (m : Macstats Real)
      → m.is_inited ≡ true
      → Tracks h m.nodes
      → (m' : Macstats Real) × (run_log now es m ≡ some m')
        × (length m'.nodes ≡ length m.nodes)
        × Tracks (onto h es) m'.nodes
  unfolding run_log
  run_log-Tracks now h [] m inited t = (m, refl, refl, t)
  run_log-Tracks now h (e ∷ es) m inited t =
      elim (Bool-cases (ltb e.mbuf.src_id (length m.nodes))) [
        | inl known ↦
            let (m', ran, size, t') =
              run_log-Tracks now (e ∷ h) es (count_at e.dir e.mbuf m) inited
                (modify-Tracks e h m.nodes t) in
            (
              m',
              next_log now e es m (count_at e.dir e.mbuf m) (set_stats-known now e m known inited)
                  ∙ ran,
              size ∙ length-modify (count e.dir e.mbuf) e.mbuf.src_id m.nodes,
              t',
            )
        | inr unknown ↦
            let (m', ran, size, t') =
              run_log-Tracks now (e ∷ h) es m inited
                (unknown-Tracks e h m.nodes (ground arith) t) in
            (m', next_log now e es m m (set_stats-unknown now e m unknown) ∙ ran, size, t')
      ]

  -- After any calls of `set_stats` on cleared counters each counter of each node is the number of
  -- its node's calls that it stands for, in arithmetic of 64 bits: the order of the calls and the
  -- calls for other nodes make no difference.
  pub run_log-Counts :
      (now : ℕ) (es : List Entry) (m : Macstats Real)
      → m.is_inited ≡ true
      → ((i : ℕ) (n : Nodeinfo Real) → get_elem? m.nodes i ≡ some n → n.stats ≡ no_stats)
      → (m' : Macstats Real) × (run_log now es m ≡ some m')
        × (length m'.nodes ≡ length m.nodes)
        × ((i : ℕ) (n : Nodeinfo Real) → get_elem? m'.nodes i ≡ some n → Counts i es n.stats)
  run_log-Counts now es m inited cleared =
      let (m', ran, size, t) =
        run_log-Tracks now [] es m inited
          (λ i n here. subst (λ s. Counts i [] s) (sym (cleared i n here)) (no_stats-Counts i)) in
      (m', ran, size, λ i n here. onto-Counts i es n.stats (t i n here))
