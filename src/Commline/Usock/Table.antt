-- ===== src/Commline/Usock/Table.antt =====
-- src/commline/cl_usock.c: which sockets the table holds, sends from and closes.
use whitefield.Base.{
  ℕ, zero, suc, ◌≤◌, ◌<◌, ◌≡◌, refl, ap, ◌∙◌, Bool, true, some, none, Option, get_elem?, set,
  length, length-set, get_elem?-set_self, get_elem?-set_ne, ◌==◌, if◌then◌else◌, arith, Bool-cases,
  inl, inr, ◌⊎◌, replicate, ◌-◌,
}
use whitefield.Base.Int.{ℤ, pos, negsuc, is_neg}
use whitefield.Commline.Message.{MsgBuf, get_line, max_cl_line}
use whitefield.Commline.Usock.{
  Usock, new_usock, Status, close, line_ok, usock_init, close_all, usock_cleanup,
  usock_get_descriptor, Sent, sent, fault, sendto_call, sent_by, usock_sendto,
}

-- The table has an element for each line, and sends go out by a line of the table or by none yet.
abbrev pub IsTable : Usock → Type 0
IsTable u =
    (length u.fds ≡ max_cl_line)
    × (u.def_line ≡ negsuc 0 ⊎ ((l : ℕ) × (u.def_line ≡ pos l) × (1 ≤ l) × (l < max_cl_line)))

first_line :
    (l : ℕ) (d : ℤ)
    → 1 ≤ l
    → l < max_cl_line
    → d ≡ negsuc 0 ⊎ ((k : ℕ) × (d ≡ pos k) × (1 ≤ k) × (k < max_cl_line))
    → (k : ℕ) × ((if is_neg d then pos l else d) ≡ pos k) × (1 ≤ k) × (k < max_cl_line)
first_line l d low high (inl none_yet) = (l, rw none_yet refl, low, high)
first_line l d low high (inr (k, e, low', high')) = (k, rw e refl, low', high')

-- `usock_init` keeps the table well formed, whatever the kernel answers.
pub usock_init-IsTable :
    (my_mtype : ℕ) (sock : ℤ) (bound : Bool) (u : Usock)
    → IsTable u
    → IsTable (usock_init my_mtype sock bound u).0
unfolding usock_init
usock_init-IsTable my_mtype sock bound u (len, line) = elim (Bool-cases (line_ok my_mtype)) [
  | inr bad ↦ rw bad (len, line)
  | inl good ↦ elim (Bool-cases (is_neg sock)) [
    | inl no_socket ↦ rw (good, no_socket) (length-set u.fds (get_line my_mtype) sock ∙ len, line)
    | inr socket ↦ elim (Bool-cases bound) [
      | inr unbound ↦
          rw (good, socket, unbound)
            (length-set u.fds (get_line my_mtype) (close sock).1 ∙ len, line)
      | inl granted ↦
          rw (good, socket, granted)
            (
              length-set u.fds (get_line my_mtype) sock ∙ len,
              inr (first_line (get_line my_mtype) u.def_line (ground arith) (ground arith) line),
            )
    ]
  ]
]

-- What a process gives to `sendto` when its default line has a socket.
pub sendto_call-bound :
    (mtype : ℕ) (mbuf : MsgBuf) (u : Usock) (line : ℕ) (fd : ℤ)
    → u.def_line ≡ pos line
    → get_elem? u.fds line ≡ some fd
    → sendto_call mtype mbuf u ≡ some (fd, mtype, record mbuf { mtype = mtype })
unfolding sendto_call
sendto_call-bound mtype mbuf u line fd bound here = rw (bound, sendto_call, here) refl

-- Where a send goes: to the address of the type that is asked for, with this type in the message.
abbrev pub IsFor : ℕ → MsgBuf → Sent → Type 0
IsFor mtype mbuf result =
    (result ≡ fault)
    ⊎ ((st : Status) × (fd : ℤ) × (result ≡ sent st fd mtype (record mbuf { mtype = mtype })))

pub usock_sendto-IsFor :
    (send : ℤ → ℕ → MsgBuf → ℕ → ℤ) (mtype : ℕ) (mbuf : MsgBuf) (len : ℕ) (u : Usock)
    → IsFor mtype mbuf (usock_sendto send mtype mbuf len u)
unfolding usock_sendto sendto_call
usock_sendto-IsFor send mtype mbuf len u = addressed u.def_line refl
  where
    sent_from :
        (line : ℕ) (o : Option ℤ)
        → u.def_line ≡ pos line
        → get_elem? u.fds line ≡ o
        → IsFor mtype mbuf (usock_sendto send mtype mbuf len u)
    sent_from line none e f =
        let outside : sendto_call mtype mbuf u ≡ none = rw (e, sendto_call, f) refl in
        inl (ap (sent_by send len) outside)
    sent_from line (some fd) e f =
        inr (_, fd, ap (sent_by send len) (sendto_call-bound mtype mbuf u line fd e f))

    addressed : (d : ℤ) → u.def_line ≡ d → IsFor mtype mbuf (usock_sendto send mtype mbuf len u)
    addressed (pos line) e = sent_from line (get_elem? u.fds line) e refl
    addressed (negsuc n) e =
        let outside : sendto_call mtype mbuf u ≡ none = rw (e, sendto_call) refl in
        inl (ap (sent_by send len) outside)

-- After a bind that the kernel grants the line's descriptor is the new socket, and every other line
-- has the descriptor that it had.
pub usock_get_descriptor-usock_init :
    (my_mtype other n : ℕ) (u : Usock)
    → IsTable u
    → line_ok my_mtype ≡ true
    → usock_get_descriptor other (usock_init my_mtype (pos (suc n)) true u).0 ≡ (
        if get_line other == get_line my_mtype
        then some (pos (suc n))
        else usock_get_descriptor other u)
unfolding usock_init usock_get_descriptor
usock_get_descriptor-usock_init my_mtype other n u (len, _) good =
    elim (Bool-cases (get_line other == get_line my_mtype)) [
      | inl same ↦
          let e : get_line other ≡ get_line my_mtype = ground arith in
          rw
            (
              good,
              same,
              e,
              good,
              get_elem?-set_self u.fds (get_line my_mtype) (pos (suc n)) (ground arith),
            )
            refl
      | inr apart ↦
          rw
            (
              good,
              apart,
              get_elem?-set_ne u.fds (get_line my_mtype) (get_line other) (pos (suc n))
                  (ground arith),
            )
            refl
    ]

closed :
    (l n : ℕ)
    → 1 ≤ l
    → l < max_cl_line
    → (close_all (set new_usock.fds l (pos (suc n)))).0
      ≡ set (replicate 4 (pos 0)) (l - 1) (pos (suc n))
unfolding close_all
closed zero n low high = absurd (omega arith)
closed (suc zero) n low high = refl
closed (suc (suc zero)) n low high = refl
closed (suc (suc (suc zero))) n low high = refl
closed (suc (suc (suc (suc zero)))) n low high = refl
closed (suc (suc (suc (suc (suc l))))) n low high = absurd (omega arith)

-- A process that binds one line and cleans up closes standard input too, once for each line that
-- was never bound, as the initialiser leaves 0 there. The socket that it bound is closed once. The
-- line is in range, and the kernel grants the socket.
pub usock_cleanup_stdin :
    (my_mtype n : ℕ)
    → line_ok my_mtype ≡ true
    → (usock_cleanup (usock_init my_mtype (pos (suc n)) true new_usock).0).0
      ≡ set (replicate 4 (pos 0)) (get_line my_mtype - 1) (pos (suc n))
unfolding usock_init usock_cleanup
usock_cleanup_stdin my_mtype n good =
    rw good (closed (get_line my_mtype) n (ground arith) (ground arith))
