-- ===== src/Airline/Manager/Draining.antt =====
-- src/airline/NS3/AirlineManager.cc: `msgReader`, called again and again by the simulator.
use whitefield.Base.{
  ℕ, zero, suc, ◌-◌, ◌≤◌, ◌≡◌, ◌≢◌, refl, sym, subst, ap, ◌∙◌, true, false, Option, none, some,
  List, [], ◌∷◌, ◌++◌, append_assoc, append-nil, some_inj, length, ◌==◌, arith, Bool-cases, inl,
  inr, ◌⊎◌,
}
use whitefield.Commline.Message.{MsgBuf}
use whitefield.Airline.Manager.{Airline}
use whitefield.Airline.Manager.Commands.{World}
use whitefield.Airline.Manager.Handling.{
  Handled, handled, stopped, Read, msgrecv_callback, msg_reader,
}

module _ {Real : Type 0} (w : World Real) where
  -- The specification: the datagrams are served one after the other, from the first state to the
  -- last, with the messages sent on the way. A datagram without contents is passed over.
  pub data Served : Airline Real → List MsgBuf → Airline Real → List MsgBuf → Type 0 where
    idle : (a : Airline Real) → Served a [] a []
    pass :
        (a : Airline Real) (m : MsgBuf) (ms : List MsgBuf) (a' : Airline Real) (out : List MsgBuf)
        → m.len ≡ 0
        → Served a ms a' out
        → Served a (m ∷ ms) a' out
    serve :
        (a a1 : Airline Real) (m : MsgBuf) (ms : List MsgBuf) (replies : List MsgBuf)
        (a' : Airline Real) (out : List MsgBuf)
        → m.len ≢ 0
        → msgrecv_callback w m a ≡ handled a1 replies
        → Served a1 ms a' out
        → Served a (m ∷ ms) a' (replies ++ out)

  -- The calls of the reader, one for each tick of the simulator, with no new datagrams.
  unfoldable pub ticks : ℕ → Read Real → Option (Read Real)
  ticks zero r = some r
  ticks (suc n) r = elim (msg_reader w r.sent r.airline r.waiting) [
    | none ↦ none
    | some r' ↦ ticks n r'
  ]

  one_tick :
      (a : Airline Real) (queue : List MsgBuf) (a' : Airline Real) (out sent : List MsgBuf)
      → Served a queue a' out
      → (r : Read Real) × (later : List MsgBuf) × (msg_reader w sent a queue ≡ some r)
        × Served r.airline r.waiting a' later
        × (r.sent ++ later ≡ sent ++ out)
        × (length r.waiting ≤ length queue - 1)
  unfolding msg_reader
  one_tick a queue a' out sent (idle _) =
      (record { airline = a; sent = sent; waiting = [] }, [], refl, idle a, refl, omega arith)
  one_tick a queue a' out sent (pass _ m ms _ _ empty s) =
      let skipped : (m.len == 0) ≡ true = ground arith in
      (
        record { airline = a; sent = sent; waiting = ms },
        out,
        rw skipped refl,
        s,
        refl,
        omega arith,
      )
  one_tick a queue a' out sent (serve _ a1 m ms replies _ out1 full e s) =
      let read : (m.len == 0) ≡ false = ground arith in
      let (r, later, ran, rest, order, size) = one_tick a1 ms a' out1 (sent ++ replies) s in
      (
        r,
        later,
        rw (read, e, msg_reader) ran,
        rest,
        order ∙ append_assoc sent replies out1,
        omega arith,
      )

  nothing_left :
      (a a' : Airline Real) (queue out : List MsgBuf)
      → Served a queue a' out
      → length queue ≤ 0
      → (queue ≡ []) × (a' ≡ a) × (out ≡ [])
  nothing_left a a' queue out (idle _) h = (refl, refl, refl)
  nothing_left a a' queue out (pass _ _ _ _ _ _ _) h = absurd (omega arith)
  nothing_left a a' queue out (serve _ _ _ _ _ _ _ _ _ _) h = absurd (omega arith)

  ticks-Served :
      (n : ℕ) (a a' : Airline Real) (queue out sent : List MsgBuf)
      → Served a queue a' out
      → length queue ≤ n
      → ticks n (record { airline = a; sent = sent; waiting = queue })
        ≡ some (record { airline = a'; sent = sent ++ out; waiting = [] })
  unfolding ticks
  ticks-Served zero a a' queue out sent s h =
      let (none_waits, same, quiet) = nothing_left a a' queue out s h in
      rw (none_waits, same, quiet, append-nil sent) refl
  ticks-Served (suc n) a a' queue out sent s h =
      let (r, later, ran, rest, order, size) = one_tick a queue a' out sent s in
      rw (ran, ticks)
        (ticks-Served n r.airline a' r.waiting later r.sent rest (omega arith)
          ∙ ap (λ all. some (record { airline = a'; sent = all; waiting = [] })) order)

  -- Every datagram that waits is served, in order, within as many ticks as datagrams wait, also when
  -- some of them are empty and each of those ends a tick; none of them may stop the process.
  pub ticks_drain :
      (a a' : Airline Real) (queue out : List MsgBuf)
      → Served a queue a' out
      → ticks (length queue) (record { airline = a; sent = []; waiting = queue })
        ≡ some (record { airline = a'; sent = out; waiting = [] })
  ticks_drain a a' queue out s = ticks-Served (length queue) a a' queue out [] s (omega arith)

  Handled-cases :
      (h : Handled Real)
      → ((a : Airline Real) × (rs : List MsgBuf) × (h ≡ handled a rs)) ⊎ ((r : _) × (h ≡ stopped r))
  Handled-cases (handled a rs) = inl (a, rs, refl)
  Handled-cases (stopped r) = inr (r, refl)

  -- What has been read was served in order, and what has not been read waits in order.
  abbrev pub HasServed : Airline Real → List MsgBuf → List MsgBuf → Read Real → Type 0
  HasServed a queue sent r =
      (before : List MsgBuf) × (out : List MsgBuf) × Served a before r.airline out
      × (queue ≡ before ++ r.waiting)
      × (r.sent ≡ sent ++ out)

  msg_reader-HasServed :
      (a : Airline Real) (queue sent : List MsgBuf) (r : Read Real)
      → msg_reader w sent a queue ≡ some r
      → HasServed a queue sent r
  unfolding msg_reader
  msg_reader-HasServed a [] sent r e =
      subst (HasServed a [] sent) (some_inj e) ([], [], idle a, refl, sym (append-nil sent))
  msg_reader-HasServed a (m ∷ queue) sent r e = elim (Bool-cases (m.len == 0)) [
    | inl empty ↦
        subst (HasServed a (m ∷ queue) sent) (some_inj (rw empty at e))
          (m ∷ [], [], pass a m [] a [] (ground arith) (idle a), refl, sym (append-nil sent))
    | inr full ↦ elim (Handled-cases (msgrecv_callback w m a)) [
      | inr (_, bad) ↦ let found = rw (full, bad) at e in cc
      | inl (a1, rs, good) ↦
          let (before, out, served, split, order) =
            msg_reader-HasServed a1 queue (sent ++ rs) r (rw (full, good) at e) in
          (
            m ∷ before,
            rs ++ out,
            serve a a1 m before rs r.airline out (ground arith) good served,
            ap (λ q. m ∷ q) split,
            order ∙ append_assoc sent rs out,
          )
    ]
  ]

  -- One tick serves a prefix of the datagrams that wait, in order and with nothing else sent, and
  -- leaves the others waiting.
  pub msg_reader_prefix :
      (a : Airline Real) (queue : List MsgBuf) (r : Read Real)
      → msg_reader w [] a queue ≡ some r
      → HasServed a queue [] r
  msg_reader_prefix a queue r e = msg_reader-HasServed a queue [] r e
