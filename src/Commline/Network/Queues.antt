-- ===== src/Commline/Network/Queues.antt =====
-- Datagram sockets as a queue of bounded length for each message type.
use whitefield.Base.{
  ℕ, ◌≡◌, ◌≢◌, refl, Bool, true, false, Option, none, some, List, [], ◌∷◌, ◌++◌, length, ltb, ◌==◌,
  if◌then◌else◌, arith, Bool-cases, inl, inr,
}
use whitefield.Commline.Network.{Datagram, Datagrams}

abbrev pub Queues : Type 0
Queues = ℕ → List Datagram

abbrev put_at : Queues → ℕ → List Datagram → Queues
put_at q a ds b = if b == a then ds else q b

abbrev push : ℕ → Queues → ℕ → Datagram → Bool × Queues
push cap q a d = if ltb (length (q a)) cap then (true, put_at q a (q a ++ d ∷ [])) else (false, q)

abbrev pop : Queues → ℕ → List Datagram → Option Datagram × Queues
pop q a [] = (none, q)
pop q a (d ∷ ds) = (some d, put_at q a ds)

pub put_at_self : (q : Queues) (a : ℕ) (ds : List Datagram) → put_at q a ds a ≡ ds
put_at_self q a ds = let same : (a == a) ≡ true = ground arith in rw same refl

pub put_at-elsewhere : (q : Queues) (a b : ℕ) (ds : List Datagram) → b ≢ a → put_at q a ds b ≡ q b
put_at-elsewhere q a b ds apart = let other : (b == a) ≡ false = ground arith in rw other refl

-- A queue takes at most `cap` datagrams.
unfoldable pub queues : ℕ → Datagrams Queues
queues cap = record {
  waiting = λ q a. q a;
  sendto = λ q fd a d. push cap q a d;
  recvfrom = λ q a. pop q a (q a);
  sendto_accepted = λ q fd a d taken. elim (Bool-cases (ltb (length (q a)) cap)) [
    | inl room ↦ rw room (put_at_self q a (q a ++ d ∷ []))
    | inr full ↦ let wrong = rw full at taken in cc
  ];
  sendto_elsewhere = λ q fd a d b apart. elim (Bool-cases (ltb (length (q a)) cap)) [
    | inl room ↦ rw room (put_at-elsewhere q a b (q a ++ d ∷ []) apart)
    | inr full ↦ rw full refl
  ];
  sendto_refused = λ q fd a d b refused. elim (Bool-cases (ltb (length (q a)) cap)) [
    | inl room ↦ let wrong = rw room at refused in cc
    | inr full ↦ rw full refl
  ];
  recvfrom_next = λ q a d ds here. rw here (refl, put_at_self q a ds);
  recvfrom_empty = λ q a here. rw here (refl, here);
  recvfrom_elsewhere = λ q a b apart. popped q a b apart (q a);
}
  where
    popped : (q : Queues) (a b : ℕ) → b ≢ a → (ds : List Datagram) → (pop q a ds).1 b ≡ q b
    popped q a b apart [] = refl
    popped q a b apart (d ∷ ds) = put_at-elsewhere q a b ds apart
