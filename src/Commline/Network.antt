-- ===== src/Commline/Network.antt =====
-- src/commline: processes that exchange messages over datagram sockets.
--
-- The kernel is behind the interface `Datagrams`. A socket's address stands for the message type that
-- determines it. Each process has its table of sockets; the kernel knows which type a socket is bound to.
pub mod Booking
pub mod Order
pub mod Sending
pub mod Queues
mod Tests
use whitefield.Base.{
  ℕ, ◌-◌, ◌≡◌, ◌≢◌, Bool, true, false, Option, none, some, List, [], ◌∷◌, ◌++◌, get_elem?, set,
  take, min, ◌==◌, if◌then◌else◌,
}
use whitefield.Base.Int.{ℤ, pos, negsuc}
use whitefield.Commline.Message.{MsgBuf, get_line}
use whitefield.Commline.Usock.{
  Usock, Status, ok, failed, Sent, sent, cl_init, cl_sendto_q, cl_recvfrom_q,
}

-- A message with the number of bytes that were sent of it.
pub record Datagram : Type 0 where
  pub mbuf : MsgBuf
  pub size : ℕ

-- The datagram sockets of a machine, as unix(7) describes them: a datagram that is accepted waits at its
-- address, none is lost, and they are read in the order in which they were accepted. `sendto` may
-- refuse for any reason, a full queue or a missing address among them.
pub record Datagrams (K : Type 0) : Type 0 where
  pub waiting : K → ℕ → List Datagram
  pub sendto : K → ℤ → ℕ → Datagram → Bool × K
  pub recvfrom : K → ℕ → Option Datagram × K
  pub sendto_accepted :
      (k : K) (fd : ℤ) (a : ℕ) (d : Datagram)
      → (sendto k fd a d).0 ≡ true
      → waiting (sendto k fd a d).1 a ≡ waiting k a ++ d ∷ []
  pub sendto_elsewhere :
      (k : K) (fd : ℤ) (a : ℕ) (d : Datagram) (b : ℕ)
      → b ≢ a
      → waiting (sendto k fd a d).1 b ≡ waiting k b
  pub sendto_refused :
      (k : K) (fd : ℤ) (a : ℕ) (d : Datagram) (b : ℕ)
      → (sendto k fd a d).0 ≡ false
      → waiting (sendto k fd a d).1 b ≡ waiting k b
  pub recvfrom_next :
      (k : K) (a : ℕ) (d : Datagram) (ds : List Datagram)
      → waiting k a ≡ d ∷ ds
      → ((recvfrom k a).0 ≡ some d) × (waiting (recvfrom k a).1 a ≡ ds)
  pub recvfrom_empty :
      (k : K) (a : ℕ)
      → waiting k a ≡ []
      → ((recvfrom k a).0 ≡ none) × (waiting (recvfrom k a).1 a ≡ [])
  pub recvfrom_elsewhere : (k : K) (a b : ℕ) → b ≢ a → waiting (recvfrom k a).1 b ≡ waiting k b

-- A process: its table, and the type to which each of its sockets is bound.
pub record Process : Type 0 where
  pub table : Usock
  pub bound_to : ℤ → Option ℕ

-- What a call does to the datagrams, with the type that its caller asks for.
pub data Transfer : Type 0 where
  accepted : ℕ → Datagram → Transfer
  delivered : ℕ → Datagram → Transfer

-- A call of a process. `init` has what `socket` gives and whether `bind` succeeds.
pub data Call : Type 0 where
  init : ℕ → ℤ → Bool → Call
  send : ℕ → MsgBuf → ℕ → Call
  receive : ℕ → MsgBuf → ℕ → Call

-- What the receiver gets of a datagram in `len` bytes; `buf` starts behind 15 bytes.
abbrev cut : ℕ → Datagram → MsgBuf
cut len d = record d.mbuf { buf = take (min len d.size - 15) d.mbuf.buf }

abbrev bind_name : ℕ → ℤ → Status → (ℤ → Option ℕ) → ℤ → Option ℕ
bind_name my_mtype (pos m) ok bound_to (pos n) = if m == n then some my_mtype else bound_to (pos n)
bind_name my_mtype sock status bound_to fd = bound_to fd

-- `cl_init` of a process.
unfoldable pub joined : ℕ → ℤ → Bool → Process → Process
unfolding cl_init
joined my_mtype sock bound p =
    let (table, status) = cl_init my_mtype sock bound p.table in
    record { table = table; bound_to = bind_name my_mtype sock status p.bound_to }

-- What a call leaves of the kernel, and what has happened.
pub record Effect (K : Type 0) : Type 0 where
  pub kernel : K
  pub events : List Transfer

-- What a call returns to its process.
pub data Returned : Type 0 where
  status_of : Status → Returned
  sent_as : Option Sent → Returned
  received_as : Option (ℤ × MsgBuf) → Returned

abbrev pub quiet : {K : Type 0} → K → Effect K
quiet k = record { kernel = k; events = [] }

module _ {K : Type 0} (net : Datagrams K) where
  -- What the kernel answers to `sendto`, and what it does.
  abbrev pub send_answer : K → ℤ → ℕ → MsgBuf → ℕ → ℤ
  send_answer k fd address m n =
      if (net.sendto k fd address (record { mbuf = m; size = n })).0 then pos n else negsuc 0

  abbrev pub posted : K → ℕ → ℤ → ℕ → Datagram → Effect K
  posted k mtype fd address d = record {
    kernel = (net.sendto k fd address d).1;
    events = if (net.sendto k fd address d).0 then accepted mtype d ∷ [] else [];
  }

  abbrev pub handed : K → ℕ → ℕ → Option Sent → Effect K
  handed k mtype len (some (sent status fd address m)) =
      posted k mtype fd address (record { mbuf = m; size = len })
  handed k mtype len _ = quiet k

  -- What `recvfrom` gives, and what is left.
  abbrev pub recv_answer : K → (ℤ → Option ℕ) → ℤ → MsgBuf → ℕ → ℤ × MsgBuf
  recv_answer k bound_to fd mbuf len = elim (bound_to fd) [
    | none ↦ (negsuc 0, mbuf)
    | some a ↦ elim (net.recvfrom k a).0 [
      | none ↦ (negsuc 0, mbuf)
      | some d ↦ (pos (min len d.size), cut len d)
    ]
  ]

  abbrev pub heard : ℕ → Option Datagram → List Transfer
  heard a none = []
  heard a (some d) = delivered a d ∷ []

  -- A receive of `my_mtype`, with the type that its socket is bound to.
  abbrev pub fetched : K → ℕ → Option ℕ → Effect K
  fetched k my_mtype none = quiet k
  fetched k my_mtype (some a) = record {
    kernel = (net.recvfrom k a).1;
    events = heard my_mtype (net.recvfrom k a).0;
  }

  abbrev pub recv_call : K → (ℤ → Option ℕ) → ℕ → ℤ → MsgBuf → ℕ → ℤ × MsgBuf × Effect K
  recv_call k bound_to my_mtype fd mbuf len =
      let (ret, mbuf') = recv_answer k bound_to fd mbuf len in
      (ret, mbuf', fetched k my_mtype (bound_to fd))

  abbrev shown_to_caller : Option (ℤ × MsgBuf × Effect K) → Option (ℤ × MsgBuf)
  shown_to_caller none = none
  shown_to_caller (some (ret, mbuf, e)) = some (ret, mbuf)

  abbrev pub effect_of : K → Option (ℤ × MsgBuf × Effect K) → Effect K
  effect_of k none = quiet k
  effect_of k (some (ret, mbuf, e)) = e

  unfoldable pub call : K → Process → Call → Returned × Process × Effect K
  unfolding joined cl_sendto_q cl_recvfrom_q
  call k p (init my_mtype sock bound) =
      (status_of (cl_init my_mtype sock bound p.table).1, joined my_mtype sock bound p, quiet k)
  call k p (send mtype mbuf len) =
      let result = cl_sendto_q (send_answer k) mtype (some mbuf) len p.table in
      (sent_as result, p, handed k mtype len result)
  call k p (receive my_mtype mbuf len) =
      let result =
        cl_recvfrom_q (recv_call k p.bound_to my_mtype) (quiet k) my_mtype (some mbuf) len
          p.table in
      (received_as (shown_to_caller result), p, effect_of k result)

  abbrev pub at : List Process → ℕ → Call → K → Option Process → List Process × Effect K
  at ps i c k none = (ps, quiet k)
  at ps i c k (some p) = (set ps i (call k p c).1, (call k p c).2)

  -- Calls of several processes, in any order.
  unfoldable pub run : List (ℕ × Call) → List Process → K → List Process × Effect K
  unfolding call
  run [] ps k = (ps, quiet k)
  run ((i, c) ∷ cs) ps k =
      let (ps1, before) = at ps i c k (get_elem? ps i) in
      let (ps2, after) = run cs ps1 before.kernel in
      (ps2, record { kernel = after.kernel; events = before.events ++ after.events })
