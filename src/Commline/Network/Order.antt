-- ===== src/Commline/Network/Order.antt =====
-- src/commline: what the messages of a type come to, however the calls of the processes are mixed.
use whitefield.Base.{ℕ, ◌≡◌, Option, none, some, List, [], ◌∷◌, ◌++◌, get_elem?}
use whitefield.Base.Int.{ℤ}
use whitefield.Commline.Message.{get_line}
use whitefield.Commline.Usock.{Usock}
use whitefield.Commline.Network.Booking.{accepted_for, delivered_at}
use whitefield.Commline.Network.{Datagrams, Process, Call, receive, Effect, at}

-- A socket that a process reads for a type is bound to it, or to none.
abbrev IsOwn : ℕ → Option ℕ → Type 0
IsOwn my_mtype none = Unit
IsOwn my_mtype (some a) = a ≡ my_mtype

abbrev named : (ℤ → Option ℕ) → Option ℤ → Option ℕ
named bound_to none = none
named bound_to (some fd) = bound_to fd

abbrev pub IsAddressed : Call → Process → Type 0
IsAddressed (receive my_mtype mbuf len) p =
    IsOwn my_mtype (named p.bound_to (get_elem? p.table.fds (get_line my_mtype)))
IsAddressed _ p = Unit

abbrev pub IsAddressedAt : Call → Option Process → Type 0
IsAddressedAt c none = Unit
IsAddressedAt c (some p) = IsAddressed c p

module _ {K : Type 0} (net : Datagrams K) where
  -- What waits for a type and what comes in is what is delivered and what waits then.
  abbrev pub Conserves : K → ℕ → Effect K → Type 0
  Conserves k a e =
      net.waiting k a ++ accepted_for a e.events ≡ delivered_at a e.events ++ net.waiting e.kernel a

  -- Every receive of a run finds the socket of its line bound to the type that it asks for, or to
  -- none.
  abbrev pub RunIsAddressed : List (ℕ × Call) → List Process → K → Type 0
  RunIsAddressed [] ps k = Unit
  RunIsAddressed ((i, c) ∷ cs) ps k =
      let (ps1, before) = at net ps i c k (get_elem? ps i) in
      IsAddressedAt c (get_elem? ps i) × RunIsAddressed cs ps1 before.kernel
