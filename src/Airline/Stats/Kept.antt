-- ===== src/Airline/Stats/Kept.antt =====
-- src/airline/mac_stats.cc: what the counting leaves of the nodes.
use whitefield.Base.{
  if-either, ℕ, zero, suc, ◌+◌, ◌%◌, ◌^◌, ◌≡◌, refl, ◌∙◌, true, inl, inr, Bool-cases, Option, none,
  some, List, [], ◌∷◌, map, ap, length, modify, ◌==◌, ltb, if◌then◌else◌,
}
use whitefield.Commline.Message.{MsgBuf}
use whitefield.Airline.Nodeinfo.{Nodeinfo}
use whitefield.Airline.Stats.{
  Macstats, reset, clear_loop, clear, count, count_at, initialised, set_stats, al_tx, al_rx,
}

-- The nodes are as before but for their counters, where there is a result.
abbrev pub HasNodes : {Real : Type 0} → List (Nodeinfo Real) → Option (Macstats Real) → Type 0
HasNodes nodes none = Unit
HasNodes nodes (some m) = map reset m.nodes ≡ map reset nodes

module _ {Real : Type 0} where
  abbrev LoopHasNodes : List (Nodeinfo Real) → Option (List (Nodeinfo Real)) → Type 0
  LoopHasNodes ns none = Unit
  LoopHasNodes ns (some nodes) = map reset nodes ≡ map reset ns

  map-modify :
      (f : Nodeinfo Real → Nodeinfo Real)
      → ((n : Nodeinfo Real) → reset (f n) ≡ reset n)
      → (i : ℕ) (nodes : List (Nodeinfo Real)) → map reset (modify i f nodes) ≡ map reset nodes
  map-modify f same i [] = refl
  map-modify f same zero (n ∷ nodes) = ap (λ m. m ∷ map reset nodes) (same n)
  map-modify f same (suc i) (n ∷ nodes) = ap (λ ms. reset n ∷ ms) (map-modify f same i nodes)

  count-reset : (dir : ℕ) (mbuf : MsgBuf) (n : Nodeinfo Real) → reset (count dir mbuf n) ≡ reset n
  count-reset dir mbuf n = elim (Bool-cases (dir == al_tx)) [
    | inl tx ↦ rw tx refl
    | inr no_tx ↦ elim (Bool-cases (dir == al_rx)) [
      | inl rx ↦ rw (no_tx, rx) refl
      | inr no_rx ↦ rw (no_tx, no_rx) refl
    ]
  ]

  clear_loop-LoopHasNodes :
      (fuel i : ℕ) (n nodes : List (Nodeinfo Real))
      → map reset nodes ≡ map reset n
      → LoopHasNodes n (clear_loop fuel i nodes)
  unfolding clear_loop
  clear_loop-LoopHasNodes zero i n nodes e = tt
  clear_loop-LoopHasNodes (suc fuel) i n nodes e = elim (Bool-cases (ltb i (length nodes))) [
    | inl more ↦ rw more (
        clear_loop-LoopHasNodes fuel ((i + 1) % 2 ^ 16) n (modify i reset nodes)
          (map-modify reset (λ m. refl) i nodes ∙ e))
    | inr end ↦ rw end e
  ]

  cleared :
      (now : ℕ) (n : List (Nodeinfo Real)) (m : Macstats Real) (o : Option (List (Nodeinfo Real)))
      → LoopHasNodes n o
      → HasNodes n
          (elim o [ none ↦ none | some nodes ↦ some (record m { nodes = nodes; tv = now }) ])
  cleared now n m none h = tt
  cleared now n m (some nodes) h = h

  inited :
      (n : List (Nodeinfo Real)) (o : Option (Macstats Real))
      → HasNodes n o
      → HasNodes n (elim o [ none ↦ none | some m' ↦ some (record m' { is_inited = true }) ])
  inited n none h = tt
  inited n (some m) h = h

  initialised-HasNodes : (now : ℕ) (m : Macstats Real) → HasNodes m.nodes (initialised now m)
  unfolding clear
  initialised-HasNodes now m = inited m.nodes (clear now m) (
      cleared now m.nodes m (clear_loop (suc (length m.nodes)) 0 m.nodes)
        (clear_loop-LoopHasNodes (suc (length m.nodes)) 0 m.nodes m.nodes refl))

  counted_at :
      (dir : ℕ) (mbuf : MsgBuf) (n : List (Nodeinfo Real)) (o : Option (Macstats Real))
      → HasNodes n o
      → HasNodes n (elim o [ none ↦ none | some m' ↦ some (count_at dir mbuf m') ])
  counted_at dir mbuf n none h = tt
  counted_at dir mbuf n (some m) h =
      map-modify (count dir mbuf) (count-reset dir mbuf) mbuf.src_id m.nodes ∙ h

  pub set_stats-HasNodes :
      (now dir : ℕ) (mbuf : MsgBuf) (m : Macstats Real)
      → HasNodes m.nodes (set_stats now dir mbuf m)
  unfolding set_stats
  set_stats-HasNodes now dir mbuf m = elim (Bool-cases (ltb mbuf.src_id (length m.nodes))) [
    | inr unknown ↦ rw unknown refl
    | inl known ↦ rw known (
        counted_at dir mbuf m.nodes (if m.is_inited then some m else initialised now m)
          (if-either (HasNodes m.nodes) m.is_inited refl (initialised-HasNodes now m)))
  ]
