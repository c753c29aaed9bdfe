-- ===== src/Airline/Stats/History.antt =====
-- src/airline/mac_stats.cc: the counters as counts over everything that happened since they were
-- cleared.
use whitefield.Base.{
  ℕ, zero, suc, ◌+◌, ◌<◌, ◌≡◌, refl, ap, sym, ◌∙◌, Bool, true, false, not, ◌&&◌, inl, inr, Option,
  none, some, List, [], ◌∷◌, get_elem?, modify, get_elem?-modify_self, get_elem?-modify_ne,
  replicate, arith, ◌==◌, if◌then◌else◌, Bool-cases,
}
use whitefield.Commline.Message.{
  MsgBuf, has_flag, mbuf_is_ack, mbuf_is_cmd, wf_status_ack_ok, in_range,
}
use whitefield.Airline.Nodeinfo.{Stats, Nodeinfo, no_stats, max_mac_tx_retry_cnt}
use whitefield.Airline.Stats.{
  Macstats, u64, al_rx, al_tx, count, set_tx_stats, set_rx_stats, set_stats,
}

-- A call of `set_stats`.
pub record Entry : Type 0 where
  pub dir : ℕ
  pub mbuf : MsgBuf

unfoldable pub run_log : {Real : Type 0} → ℕ → List Entry → Macstats Real → Option (Macstats Real)
unfolding set_stats
run_log now [] m = some m
run_log now (e ∷ es) m = elim (set_stats now e.dir e.mbuf m) [
  | none ↦ none
  | some m' ↦ run_log now es m'
]

-- How many entries pass a test.
abbrev pub number : (Entry → Bool) → List Entry → ℕ
number test [] = 0
number test (e ∷ es) = (if test e then 1 else 0) + number test es

-- What an entry counts as. Commands count as nothing.
abbrev is_sent : Entry → Bool
is_sent e = e.dir == al_tx && not (has_flag e.mbuf mbuf_is_cmd)

abbrev is_received : Entry → Bool
is_received e = e.dir == al_rx && not (has_flag e.mbuf mbuf_is_cmd)

abbrev pub sent_to_one : Entry → Bool
sent_to_one e = is_sent e && not (e.mbuf.dst_id == 0xffff)

abbrev pub sent_to_all : Entry → Bool
sent_to_all e = is_sent e && e.mbuf.dst_id == 0xffff

abbrev is_data : Entry → Bool
is_data e = is_received e && not (has_flag e.mbuf mbuf_is_ack)

abbrev is_ack : Entry → Bool
is_ack e = is_received e && has_flag e.mbuf mbuf_is_ack

abbrev pub received_at_zero : Entry → Bool
received_at_zero e = is_data e && e.mbuf.dst_id == 0

abbrev pub received_elsewhere : Entry → Bool
received_elsewhere e = is_data e && not (e.mbuf.dst_id == 0)

abbrev pub refused : Entry → Bool
refused e = is_ack e && not (e.mbuf.info_second == wf_status_ack_ok)

-- An acknowledgement of a success, at a number of attempts that is counted.
abbrev is_counted_ack : Entry → Bool
is_counted_ack e =
    is_ack e
    && (e.mbuf.info_second == wf_status_ack_ok && in_range e.mbuf.info_first 1 max_mac_tx_retry_cnt)

abbrev pub acked_after : ℕ → Entry → Bool
acked_after k e = is_counted_ack e && e.mbuf.info_first == k

abbrev pub from : ℕ → (Entry → Bool) → Entry → Bool
from i test e = e.mbuf.src_id == i && test e

-- The counters say what the history says, newest entry first, about node `i`.
pub record Counts (i : ℕ) (h : List Entry) (s : Stats) : Type 0 where
  pub tx_counted : s.tx_pkts ≡ u64 (number (from i sent_to_one) h)
  pub tx_mc_counted : s.tx_mc_pkts ≡ u64 (number (from i sent_to_all) h)
  pub rx_counted : s.rx_pkts ≡ u64 (number (from i received_at_zero) h)
  pub rx_mc_counted : s.rx_mc_pkts ≡ u64 (number (from i received_elsewhere) h)
  pub fail_counted : s.tx_fail ≡ u64 (number (from i refused) h)
  pub acks_counted :
      (k : ℕ)
      → k < max_mac_tx_retry_cnt
      → get_elem? s.rx_ack_ok k ≡ some (u64 (number (from i (acked_after k)) h))

get_elem?-replicate {ℓ} :
    {A : Type ℓ} (n k : ℕ) (x : A) → k < n → get_elem? (replicate n x) k ≡ some x
get_elem?-replicate zero k x h = absurd (omega arith)
get_elem?-replicate (suc n) zero x h = refl
get_elem?-replicate (suc n) (suc k) x h = get_elem?-replicate n k x (omega arith)

pub no_stats-Counts : (i : ℕ) → Counts i [] no_stats
no_stats-Counts i = record {
  tx_counted = refl;
  tx_mc_counted = refl;
  rx_counted = refl;
  rx_mc_counted = refl;
  fail_counted = refl;
  acks_counted = λ k h. get_elem?-replicate 10 k 0 h;
}

pub number-skip :
    (test : Entry → Bool) (e : Entry) (h : List Entry)
    → test e ≡ false
    → number test (e ∷ h) ≡ number test h
number-skip test e h missed = rw missed (omega arith)

-- An entry of another node.
pub other-Counts :
    (i : ℕ) (e : Entry) (h : List Entry) (s : Stats)
    → (e.mbuf.src_id == i) ≡ false
    → Counts i h s
    → Counts i (e ∷ h) s
other-Counts i e h s other c =
    let skip : (test : Entry → Bool)
        → u64 (number (from i test) (e ∷ h)) ≡ u64 (number (from i test) h) =
      λ test. ap u64 (number-skip (from i test) e h (rw other refl)) in
    record {
      tx_counted = c.tx_counted ∙ sym (skip sent_to_one);
      tx_mc_counted = c.tx_mc_counted ∙ sym (skip sent_to_all);
      rx_counted = c.rx_counted ∙ sym (skip received_at_zero);
      rx_mc_counted = c.rx_mc_counted ∙ sym (skip received_elsewhere);
      fail_counted = c.fail_counted ∙ sym (skip refused);
      acks_counted = λ k lt. c.acks_counted k lt ∙ ap some (sym (skip (acked_after k)));
    }

-- The history, newest entry first.
abbrev pub onto : List Entry → List Entry → List Entry
onto h [] = h
onto h (e ∷ es) = onto (e ∷ h) es

number-onto :
    (test : Entry → Bool) (h es : List Entry)
    → number test (onto h es) ≡ number test h + number test es
number-onto test h [] = omega arith
number-onto test h (e ∷ es) = omega (arith, number-onto test (e ∷ h) es)

pub onto-Counts : (i : ℕ) (es : List Entry) (s : Stats) → Counts i (onto [] es) s → Counts i es s
onto-Counts i es s c =
    let same : (test : Entry → Bool) → u64 (number test (onto [] es)) ≡ u64 (number test es) =
      λ test. omega (arith, number-onto test [] es) in
    record {
      tx_counted = c.tx_counted ∙ same (from i sent_to_one);
      tx_mc_counted = c.tx_mc_counted ∙ same (from i sent_to_all);
      rx_counted = c.rx_counted ∙ same (from i received_at_zero);
      rx_mc_counted = c.rx_mc_counted ∙ same (from i received_elsewhere);
      fail_counted = c.fail_counted ∙ same (from i refused);
      acks_counted = λ k lt. c.acks_counted k lt ∙ ap some (same (from i (acked_after k)));
    }

abbrev plus_one : ℕ → ℕ
plus_one n = u64 (n + 1)

module _ {Real : Type 0} where
  count-rx_ack_ok :
      (e : Entry) (n : Nodeinfo Real)
      → (count e.dir e.mbuf n).stats.rx_ack_ok ≡ (
          if is_counted_ack e
          then modify e.mbuf.info_first plus_one n.stats.rx_ack_ok
          else n.stats.rx_ack_ok)
  unfolding set_tx_stats set_rx_stats
  count-rx_ack_ok e n = ground arith

  count-acks :
      (i k : ℕ) (e : Entry) (h : List Entry) (n : Nodeinfo Real)
      → (e.mbuf.src_id == i) ≡ true
      → get_elem? n.stats.rx_ack_ok k ≡ some (u64 (number (from i (acked_after k)) h))
      → get_elem? (count e.dir e.mbuf n).stats.rx_ack_ok k
        ≡ some (u64 (number (from i (acked_after k)) (e ∷ h)))
  count-acks i k e h n own c = elim (Bool-cases (is_counted_ack e)) [
    | inr other ↦
        ap (λ xs. get_elem? xs k) (count-rx_ack_ok e n ∙ rw other refl)
        ∙ c
        ∙ ap (λ m. some (u64 m))
            (sym (number-skip (from i (acked_after k)) e h (rw (own, other) refl)))
    | inl acks ↦ elim (Bool-cases (e.mbuf.info_first == k)) [
      | inr elsewhere ↦
          ap (λ xs. get_elem? xs k) (count-rx_ack_ok e n ∙ rw acks refl)
          ∙ get_elem?-modify_ne plus_one e.mbuf.info_first k n.stats.rx_ack_ok (ground arith)
          ∙ c
          ∙ ap (λ m. some (u64 m))
              (sym (number-skip (from i (acked_after k)) e h (rw (own, acks, elsewhere) refl)))
      | inl here ↦
          let same : e.mbuf.info_first ≡ k = ground arith in
          ap (λ xs. get_elem? xs k) (count-rx_ack_ok e n ∙ rw (acks, same) refl)
          ∙ get_elem?-modify_self plus_one k n.stats.rx_ack_ok
          ∙ rw c (ap some (rw (own, acks, here) (omega arith)))
    ]
  ]

  pub count-Counts :
      (i : ℕ) (e : Entry) (h : List Entry) (n : Nodeinfo Real)
      → (e.mbuf.src_id == i) ≡ true
      → Counts i h n.stats
      → Counts i (e ∷ h) (count e.dir e.mbuf n).stats
  unfolding set_tx_stats set_rx_stats
  count-Counts i e h n own c = record {
    tx_counted = ground arith;
    tx_mc_counted = ground arith;
    rx_counted = ground arith;
    rx_mc_counted = ground arith;
    fail_counted = ground arith;
    acks_counted = λ k lt. count-acks i k e h n own (c.acks_counted k lt);
  }
