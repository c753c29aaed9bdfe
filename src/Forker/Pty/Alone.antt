-- ===== src/Forker/Pty/Alone.antt =====
-- src/utils/pty_handler.c: the nodes' terminals do not meet.
use whitefield.Base.{
  ℕ, ◌+◌, ◌^◌, ◌≤◌, ◌<◌, ◌≡◌, ◌≢◌, refl, sym, ap, ◌∙◌, subst, Bool, true, false, Option, none, some,
  List, [], ◌∷◌, ◌++◌, map, get_elem?, get_elem?-inside, get_elem?-set_self, get_elem?-set_ne, set,
  length, length-set, ◌==◌, if◌then◌else◌, All, All-map, arith, Bool-cases, inl, inr, bit_or,
  if-either, some_inj,
}
use whitefield.Base.Bits.{bit_or-disjoint}
use whitefield.Forker.Pty.{
  Peer, Io, Out, handle_pty_event, event_word, node_of, is_master, Bridge, labelled, handled,
  handle_event, followed, pty_handler_thread,
}

-- An event of a descriptor that was added for a node.
pub record Report : Type 0 where
  pub node : ℕ
  pub ismaster : Bool
  pub io : Io

abbrev pub reported : Report → ℕ × Io
reported e = (event_word e.node e.ismaster, e.io)

-- The node and the side are read back from the word that epoll keeps.
event_word-read_back :
    (nodeid : ℕ) (ismaster : Bool)
    → nodeid < 2 ^ 31
    → (node_of (event_word nodeid ismaster) ≡ nodeid)
      × (is_master (event_word nodeid ismaster) ≡ ismaster)
unfolding event_word
event_word-read_back nodeid true h =
    let word : bit_or 0x80000000 nodeid ≡ 0x80000000 + nodeid = bit_or-disjoint 31 1 nodeid h in
    rw word (omega arith, ground arith)
event_word-read_back nodeid false h =
    let word : bit_or 0 nodeid ≡ 0 + nodeid = bit_or-disjoint 31 0 nodeid h in
    rw word (omega arith, ground arith)

-- What one node's descriptors do, without the other nodes.
pub record Own : Type 0 where
  pub peer : Peer
  pub outs : List Out

abbrev pub alone : ℕ → List Report → Peer → Own
alone j [] p = record { peer = p; outs = [] }
alone j (e ∷ es) p =
    if e.node == j
    then (let r = handle_pty_event e.ismaster e.io p in
        let rest = alone j es r.peer in record rest { outs = r.outs ++ rest.outs })
    else alone j es p

abbrev pub outs_of : ℕ → List (ℕ × Out) → List Out
outs_of j [] = []
outs_of j ((node, out) ∷ outs) = let rest = outs_of j outs in if node == j then out ∷ rest else rest

outs_of-append :
    (j : ℕ) (xs ys : List (ℕ × Out)) → outs_of j (xs ++ ys) ≡ outs_of j xs ++ outs_of j ys
outs_of-append j [] ys = refl
outs_of-append j ((node, out) ∷ xs) ys = elim (Bool-cases (node == j)) [
  | inl own ↦ rw own (ap (λ l. out ∷ l) (outs_of-append j xs ys))
  | inr other ↦ rw other (outs_of-append j xs ys)
]

outs_of-labelled :
    (j node : ℕ) (outs : List Out)
    → outs_of j (labelled node outs) ≡ (if node == j then outs else [])
outs_of-labelled j node [] = if-either (λ l. [] ≡ l) (node == j) refl refl
outs_of-labelled j node (out ∷ outs) = elim (Bool-cases (node == j)) [
  | inl own ↦
      rw own
        (ap (λ l. out ∷ l) (outs_of-labelled j node outs ∙ ap (λ b. if b then outs else []) own))
  | inr other ↦ rw other (outs_of-labelled j node outs ∙ ap (λ b. if b then outs else []) other)
]

-- Each node has the peer and the output that its own descriptors give it.
abbrev pub IsIsolated : List Report → List Peer → Bridge → Type 0
IsIsolated es peers b =
    (j : ℕ) (p : Peer)
    → get_elem? peers j ≡ some p
    → (get_elem? b.peers j ≡ some (alone j es p).peer) × (outs_of j b.outs ≡ (alone j es p).outs)

handle_event-handled :
    (e : Report) (peers : List Peer) (p : Peer)
    → e.node < 2 ^ 31
    → get_elem? peers e.node ≡ some p
    → handle_event (event_word e.node e.ismaster) e.io peers
      ≡ some (handled e.node peers (handle_pty_event e.ismaster e.io p))
unfolding handle_event
handle_event-handled e peers p h here =
    let (node, side) = event_word-read_back e.node e.ismaster h in
    let at : ℕ → Bool → Option Peer → Option Bridge = λ n m o. elim o [
      | none ↦ none
      | some q ↦ some (handled n peers (handle_pty_event m e.io q))
    ] in
    ap (λ n. at n (is_master (event_word e.node e.ismaster)) (get_elem? peers n)) node
    ∙ ap (λ m. at e.node m (get_elem? peers e.node)) side
    ∙ ap (at e.node e.ismaster) here

step-IsIsolated :
    (e : Report) (es : List Report) (peers : List Peer) (p : Peer) (c : Bridge)
    → get_elem? peers e.node ≡ some p
    → e.node < length peers
    → IsIsolated es (set peers e.node (handle_pty_event e.ismaster e.io p).peer) c
    → IsIsolated
        (e ∷ es)
        peers
        (record c { outs = labelled e.node (handle_pty_event e.ismaster e.io p).outs ++ c.outs })
step-IsIsolated e es peers p c here inside later j q at_j =
    let r = handle_pty_event e.ismaster e.io p in
    let split =
      outs_of-append j (labelled e.node r.outs) c.outs
      ∙ ap (λ l. l ++ outs_of j c.outs) (outs_of-labelled j e.node r.outs) in
    elim (Bool-cases (e.node == j)) [
      | inl own ↦
          let eq : e.node ≡ j = ground arith in
          let same : p ≡ q = some_inj (sym here ∙ ap (get_elem? peers) eq ∙ at_j) in
          let (peer, outs) = later j r.peer (
            ap (get_elem? (set peers e.node r.peer)) (sym eq)
            ∙ get_elem?-set_self peers e.node r.peer inside) in
          let here_for_p : (get_elem? c.peers j ≡ some (alone j (e ∷ es) p).peer)
              × (outs_of j (labelled e.node r.outs ++ c.outs) ≡ (alone j (e ∷ es) p).outs) =
            rw own (
              peer,
              split
                  ∙ ap (λ b. (if b then r.outs else []) ++ outs_of j c.outs) own
                  ∙ ap (λ l. r.outs ++ l) outs,
            ) in
          subst
            (λ s.
              (get_elem? c.peers j ≡ some (alone j (e ∷ es) s).peer)
              × (outs_of j (labelled e.node r.outs ++ c.outs) ≡ (alone j (e ∷ es) s).outs))
            same here_for_p
      | inr other ↦
          let ne : e.node ≢ j = ground arith in
          let (peer, outs) = later j q (get_elem?-set_ne peers e.node j r.peer ne ∙ at_j) in
          rw other
            (peer, split ∙ ap (λ b. (if b then r.outs else []) ++ outs_of j c.outs) other ∙ outs)
    ]

-- Whatever the descriptors of the nodes report, and in whatever order, each node's terminal and peer
-- get what they would get if there were no other nodes, and the thread never leaves the table
-- of children: the word that epoll keeps tells the node and the side. Every node has an entry
-- in the table, which has at most 2^31.
pub pty_handler_thread-IsIsolated :
    (es : List Report) (peers : List Peer)
    → length peers ≤ 2 ^ 31
    → All (λ e. e.node < length peers) es
    → (b : Bridge) × (pty_handler_thread (map reported es) peers ≡ some b) × IsIsolated es peers b
unfolding pty_handler_thread
pty_handler_thread-IsIsolated [] peers few inside =
    (record { peers = peers; outs = [] }, refl, λ j p here. (here, refl))
pty_handler_thread-IsIsolated (e ∷ es) peers few (inside, all) =
    let (p, here) = get_elem?-inside peers e.node inside in
    let r = handle_pty_event e.ismaster e.io p in
    let first = handled e.node peers r in
    let size = length-set peers e.node r.peer in
    let (c, run, later) =
      pty_handler_thread-IsIsolated es first.peers (omega (arith, size))
        (All-map _ _ (λ e' h. omega (arith, size)) es all) in
    let go_on : Option Bridge → Option Bridge = λ o. elim o [
      | none ↦ none
      | some b ↦ followed b (pty_handler_thread (map reported es) b.peers)
    ] in
    (
      record c { outs = first.outs ++ c.outs },
      ap go_on (handle_event-handled e peers p (omega arith) here) ∙ ap (followed first) run,
      step-IsIsolated e es peers p c here inside later,
    )
