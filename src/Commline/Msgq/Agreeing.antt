-- ===== src/Commline/Msgq/Agreeing.antt =====
-- src/commline/cl_msgq.c beside cl_usock.c: the two transports treat the kernel's answers alike.
use whitefield.Base.{
  ℕ, ◌≡◌, ◌⊎◌, inl, inr, refl, ap, ◌∙◌, true, false, some, get_elem?, ◌==◌, if◌then◌else◌, not,
  none, arith,
}
use whitefield.Base.Int.{ℤ, pos, negsuc, is_neg}
use whitefield.Commline.Message.{MsgBuf, get_line}
use whitefield.Commline.Usock.{
  Usock, sent, line_ok, usock_recvfrom, received_by, sent_by, usock_sendto,
}
use whitefield.Commline.Usock.Table.{sendto_call-bound}
use whitefield.Commline.Msgq.{msgq_recvfrom, msgq_sendto}

module _ (u : Usock) (id fd : ℤ) (mtype : ℕ) (mbuf : MsgBuf) (len : ℕ) where
  -- A process with a socket for the line receives the same from both, when the kernels answer the same.
  usock_recvfrom-msgq_recvfrom :
      {S : Type 0} (recv : ℤ → MsgBuf → ℕ → ℤ × MsgBuf × S) (s s' : S)
      (msgrcv : ℤ → ℕ → MsgBuf → ℕ → ℤ × MsgBuf)
      → line_ok mtype ≡ true
      → get_elem? u.fds (get_line mtype) ≡ some fd
      → recv fd (record mbuf { len = 0 }) len ≡ (
        (msgrcv id mtype (record mbuf { len = 0 }) len).0,
        (msgrcv id mtype (record mbuf { len = 0 }) len).1,
        s',
      )
      → usock_recvfrom recv s mtype mbuf len u ≡ (
        (msgq_recvfrom msgrcv mtype mbuf len id).0,
        (msgq_recvfrom msgrcv mtype mbuf len id).1,
        s',
      )
  unfolding usock_recvfrom msgq_recvfrom
  usock_recvfrom-msgq_recvfrom recv s s' msgrcv line here same =
      ap (received_by recv s mbuf len)
        (ap (λ b. if not b then none else get_elem? u.fds (get_line mtype)) line ∙ here)
      ∙ rw same refl

  -- And it sends the same with the same status, when both kernels take the whole message or both
  -- refuse it.
  usock_sendto-msgq_sendto :
      (send : ℤ → ℕ → MsgBuf → ℕ → ℤ) (msgsnd : ℤ → MsgBuf → ℕ → ℤ) (line : ℕ)
      → u.def_line ≡ pos line
      → get_elem? u.fds line ≡ some fd
      → ((send fd mtype (record mbuf { mtype = mtype }) len ≡ pos len)
          × (is_neg (msgsnd id (record mbuf { mtype = mtype }) len) ≡ false))
        ⊎ ((send fd mtype (record mbuf { mtype = mtype }) len ≡ negsuc 0)
            × (is_neg (msgsnd id (record mbuf { mtype = mtype }) len) ≡ true))
      → usock_sendto send mtype mbuf len u
        ≡ sent
            (msgq_sendto msgsnd mtype mbuf len id).0
            fd
            mtype
            (msgq_sendto msgsnd mtype mbuf len id).1
  unfolding usock_sendto msgq_sendto
  usock_sendto-msgq_sendto send msgsnd line bound here (inl (whole, taken)) =
      let same : (len == len) ≡ true = ground arith in
      ap (sent_by send len) (sendto_call-bound mtype mbuf u line fd bound here)
      ∙ rw (whole, same, taken, msgq_sendto) refl
  usock_sendto-msgq_sendto send msgsnd line bound here (inr (none_sent, refused)) =
      ap (sent_by send len) (sendto_call-bound mtype mbuf u line fd bound here)
      ∙ rw (none_sent, refused, msgq_sendto) refl
