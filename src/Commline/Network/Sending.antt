-- ===== src/Commline/Network/Sending.antt =====
-- src/commline: how the sending of a message ends.
use whitefield.Base.{
  ℕ, ◌≡◌, ◌<◌, ◌⊎◌, refl, ap, ◌∙◌, Bool, true, false, some, [], ◌∷◌, get_elem?, ◌==◌, if◌then◌else◌,
  arith, Bool-cases, inl, inr,
}
use whitefield.Base.Int.{ℤ, pos}
use whitefield.Commline.Message.{MsgBuf}
use whitefield.Commline.Usock.{sent, ok, failed, sendto_call, sent_by, usock_sendto, cl_sendto_q}
use whitefield.Commline.Usock.Table.{sendto_call-bound}
use whitefield.Commline.Network.{
  Datagram, Datagrams, Process, accepted, send, sent_as, handed, send_answer, call,
}

module _ {K : Type 0} (net : Datagrams K) where
  module _ (k : K) (p : Process) (mtype : ℕ) (mbuf : MsgBuf) (len line : ℕ) (fd : ℤ)
      (bound : p.table.def_line ≡ pos line) (here : get_elem? p.table.fds line ≡ some fd) where
    abbrev message : MsgBuf
    message = record mbuf { mtype = mtype }

    abbrev datagram : Datagram
    datagram = record { mbuf = message; size = len }

    sendto_call_lem : sendto_call mtype mbuf p.table ≡ some (fd, mtype, message)
    sendto_call_lem = sendto_call-bound mtype mbuf p.table line fd bound here

    sendto_status :
        (b : Bool)
        → (net.sendto k fd mtype datagram).0 ≡ b
        → usock_sendto (send_answer net k) mtype mbuf len p.table
          ≡ sent (if b then ok else failed) fd mtype message
    unfolding usock_sendto
    sendto_status true e =
        let same : (len == len) ≡ true = ground arith in
        ap (sent_by (send_answer net k) len) sendto_call_lem ∙ rw (e, same) refl
    sendto_status false e = ap (sent_by (send_answer net k) len) sendto_call_lem ∙ rw e refl

    module _ (some_bytes : 0 < len) (b : Bool) (e : (net.sendto k fd mtype datagram).0 ≡ b) where
      cl_sendto_status :
          cl_sendto_q (send_answer net k) mtype (some mbuf) len p.table
          ≡ some (sent (if b then ok else failed) fd mtype message)
      unfolding cl_sendto_q
      cl_sendto_status =
          let nonzero : (len == 0) ≡ false = ground arith in
          rw nonzero (ap some (sendto_status b e))

      handed_events :
          (handed net k mtype len
            (cl_sendto_q (send_answer net k) mtype (some mbuf) len p.table)).events
          ≡ (if b then accepted mtype datagram ∷ [] else [])
      handed_events =
          ap (λ r. (handed net k mtype len r).events) cl_sendto_status
          ∙ ap (λ t. if t then accepted mtype datagram ∷ [] else []) e

  -- How a send ends from a socket: with success and the message on its way to the type asked for, or
  -- with failure and nothing sent.
  abbrev pub SentOrNot : K → Process → ℕ → MsgBuf → ℕ → ℤ → Type 0
  SentOrNot k p mtype mbuf len fd =
      let m = record mbuf { mtype = mtype } in
      let r = call net k p (send mtype mbuf len) in
      ((r.0 ≡ sent_as (some (sent ok fd mtype m)))
        × (r.2.events ≡ accepted mtype (record { mbuf = m; size = len }) ∷ []))
      ⊎ ((r.0 ≡ sent_as (some (sent failed fd mtype m))) × (r.2.events ≡ []))

  -- `cl_sendto_q` of a process with a bound socket returns SUCCESS exactly when the kernel has
  -- accepted the message, from this socket to the address of the type that is asked for, with this
  -- type in it and nothing else changed; otherwise it returns FAILURE and nothing is sent. The
  -- length is not 0.
  pub send-SentOrNot :
      (k : K) (p : Process) (mtype : ℕ) (mbuf : MsgBuf) (len line : ℕ) (fd : ℤ)
      → p.table.def_line ≡ pos line
      → get_elem? p.table.fds line ≡ some fd
      → 0 < len
      → SentOrNot k p mtype mbuf len fd
  unfolding call
  send-SentOrNot k p mtype mbuf len line fd bound here some_bytes =
      let d : Datagram = record { mbuf = record mbuf { mtype = mtype }; size = len } in
      elim (Bool-cases (net.sendto k fd mtype d).0) [
        | inl taken ↦ inl (
          ap sent_as (cl_sendto_status k p mtype mbuf len line fd bound here some_bytes true taken),
          handed_events k p mtype mbuf len line fd bound here some_bytes true taken,
        )
        | inr no_room ↦ inr (
          ap sent_as
              (cl_sendto_status k p mtype mbuf len line fd bound here some_bytes false no_room),
          handed_events k p mtype mbuf len line fd bound here some_bytes false no_room,
        )
      ]
