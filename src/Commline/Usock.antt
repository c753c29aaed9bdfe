-- ===== src/Commline/Usock.antt =====
-- src/commline/cl_usock.c and commline.c: the table of sockets of a process.
--
-- The kernel is an argument: the descriptor that `socket` gives, whether `bind` succeeds, and what
-- `recvfrom` and `sendto` return and write. A socket's address stands for its message type, which
-- Usock/Naming justifies; log lines are left out.
pub mod Table
pub mod Naming
use whitefield.Base.{
  ℕ, zero, suc, ◌+◌, Bool, true, false, not, ◌&&◌, ◌||◌, Option, none, some, List, [], ◌∷◌,
  get_elem?, set, ltb, ◌==◌, if◌then◌else◌,
}
use whitefield.Base.Int.{ℤ, pos, negsuc, is_neg, is_positive}
use whitefield.Commline.Message.{
  MsgBuf, get_line, in_range, max_cl_line, sizeof_msg_buf, define_mbuf,
}

-- `g_usock_fd` and `g_def_line`.
pub record Usock : Type 0 where
  pub fds : List ℤ
  pub def_line : ℤ

-- What the initialisers give: `{ -1 }` sets the first element only.
abbrev pub new_usock : Usock
new_usock = record { fds = negsuc 0 ∷ pos 0 ∷ pos 0 ∷ pos 0 ∷ pos 0 ∷ []; def_line = negsuc 0 }

-- A status is SUCCESS or FAILURE.
pub data Status : Type 0 where
  ok : Status
  failed : Status

-- CLOSE: the descriptors that it closes, and what is left in its variable.
abbrev pub close : ℤ → List ℤ × ℤ
close (pos n) = (pos n ∷ [], negsuc 0)
close (negsuc n) = ([], negsuc n)

abbrev pub line_ok : ℕ → Bool
line_ok mtype = in_range (get_line mtype) 1 max_cl_line

unfoldable pub usock_init : ℕ → ℤ → Bool → Usock → Usock × Status
usock_init my_mtype sock bound u =
    if not (line_ok my_mtype)
    then (u, failed)
    else if is_neg sock
    then (record u { fds = set u.fds (get_line my_mtype) sock }, failed)
    else if not bound
    then (record u { fds = set u.fds (get_line my_mtype) (close sock).1 }, failed)
    else (
      record u {
        fds = set u.fds (get_line my_mtype) sock;
        def_line = if is_neg u.def_line then pos (get_line my_mtype) else u.def_line;
      },
      ok,
    )

unfoldable pub close_all : List ℤ → List ℤ × List ℤ
close_all [] = ([], [])
close_all (pos n ∷ fds) = (pos n ∷ (close_all fds).0, negsuc 0 ∷ (close_all fds).1)
close_all (negsuc n ∷ fds) = ((close_all fds).0, negsuc n ∷ (close_all fds).1)

-- The descriptors that are closed, and the table that is left.
unfoldable pub usock_cleanup : Usock → List ℤ × Usock
unfolding close_all
usock_cleanup u = ((close_all u.fds).0, record u { fds = (close_all u.fds).1 })

-- FAILURE is `none`.
unfoldable pub usock_get_descriptor : ℕ → Usock → Option ℤ
usock_get_descriptor mtype u =
    if not (line_ok mtype) then none else (elim (get_elem? u.fds (get_line mtype)) [
      | none ↦ none
      | some fd ↦ if is_positive fd then some fd else none
    ])

-- What is returned for a return value of `recvfrom`: a part of a header is an error.
abbrev pub received : ℤ → ℤ
received (pos n) = if ltb 0 n && ltb (n + 4) sizeof_msg_buf then negsuc 0 else pos n
received (negsuc n) = negsuc n

-- The socket that `usock_recvfrom` reads; `none` is FAILURE.
abbrev pub recvfrom_fd : ℕ → Usock → Option ℤ
recvfrom_fd my_mtype u =
    if not (line_ok my_mtype) then none else get_elem? u.fds (get_line my_mtype)

abbrev pub received_by :
    {S : Type 0} → (ℤ → MsgBuf → ℕ → ℤ × MsgBuf × S) → S → MsgBuf → ℕ → Option ℤ → ℤ × MsgBuf × S
received_by recv s mbuf len none = (negsuc 0, mbuf, s)
received_by recv s mbuf len (some fd) =
    let (ret, mbuf', s') = recv fd (record mbuf { len = 0 }) len in (received ret, mbuf', s')

-- `recv fd mbuf len` is what `recvfrom` returns and leaves in the buffer, and what is then the state
-- of the kernel, which is `s` before. The result has the return value and the buffer; -1 is FAILURE.
unfoldable pub usock_recvfrom :
    {S : Type 0} → (ℤ → MsgBuf → ℕ → ℤ × MsgBuf × S) → S → ℕ → MsgBuf → ℕ → Usock → ℤ × MsgBuf × S
usock_recvfrom recv s my_mtype mbuf len u = received_by recv s mbuf len (recvfrom_fd my_mtype u)

-- What a send does: a status, with the socket, the address and the message that the kernel was given,
-- or a read outside of `g_usock_fd`.
pub data Sent : Type 0 where
  sent : Status → ℤ → ℕ → MsgBuf → Sent
  fault : Sent

-- What `usock_sendto` gives to `sendto`: the socket, the type whose address it is sent to, and the
-- message. `none` is a read outside of `g_usock_fd`.
unfoldable pub sendto_call : ℕ → MsgBuf → Usock → Option (ℤ × ℕ × MsgBuf)
sendto_call mtype mbuf u = elim u.def_line [
  | negsuc _ ↦ none
  | pos line ↦ elim (get_elem? u.fds line) [
    | none ↦ none
    | some fd ↦ some (fd, mtype, record mbuf { mtype = mtype })
  ]
]

abbrev pub send_status : ℕ → ℤ → Status
send_status len (pos n) = if n == len then ok else failed
send_status len (negsuc n) = failed

abbrev pub sent_by : (ℤ → ℕ → MsgBuf → ℕ → ℤ) → ℕ → Option (ℤ × ℕ × MsgBuf) → Sent
sent_by send len none = fault
sent_by send len (some (fd, address, mbuf)) =
    sent (send_status len (send fd address mbuf len)) fd address mbuf

-- `send fd address mbuf len` is what `sendto` returns.
unfoldable pub usock_sendto : (ℤ → ℕ → MsgBuf → ℕ → ℤ) → ℕ → MsgBuf → ℕ → Usock → Sent
unfolding sendto_call
usock_sendto send mtype mbuf len u = sent_by send len (sendto_call mtype mbuf u)

-- The exported functions; a null pointer is `none`. The flags make no difference to `usock_init`.
unfoldable pub cl_init : ℕ → ℤ → Bool → Usock → Usock × Status
unfolding usock_init
cl_init my_mtype sock bound u = usock_init my_mtype sock bound u

unfoldable pub cl_bind : ℕ → ℤ → Bool → Usock → Usock × Status
unfolding usock_init
cl_bind my_mtype sock bound u = usock_init my_mtype sock bound u

unfoldable pub cl_cleanup : Usock → List ℤ × Usock
unfolding usock_cleanup
cl_cleanup u = usock_cleanup u

unfoldable pub cl_get_descriptor : ℕ → Usock → Option ℤ
unfolding usock_get_descriptor
cl_get_descriptor mtype u = usock_get_descriptor mtype u

unfoldable pub cl_sendto_q : (ℤ → ℕ → MsgBuf → ℕ → ℤ) → ℕ → Option MsgBuf → ℕ → Usock → Option Sent
unfolding usock_sendto
cl_sendto_q send mtype none len u = none
cl_sendto_q send mtype (some mbuf) len u =
    if len == 0 then none else some (usock_sendto send mtype mbuf len u)

unfoldable pub cl_recvfrom_q :
    {S : Type 0}
    → (ℤ → MsgBuf → ℕ → ℤ × MsgBuf × S)
    → S
    → ℕ
    → Option MsgBuf
    → ℕ
    → Usock
    → Option (ℤ × MsgBuf × S)
unfolding usock_recvfrom define_mbuf
cl_recvfrom_q recv s mtype none len u = none
cl_recvfrom_q recv s mtype (some mbuf) len u =
    if len == 0 then none else some (usock_recvfrom recv s mtype (define_mbuf 0) len u)
