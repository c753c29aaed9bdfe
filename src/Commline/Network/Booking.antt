-- ===== src/Commline/Network/Booking.antt =====
-- src/commline: what was accepted and delivered of a type, in what has happened.
use whitefield.Base.{
  ℕ, ◌≡◌, refl, ap, sym, ◌∙◌, List, [], ◌∷◌, ◌++◌, append_assoc, ◌==◌, if◌then◌else◌, Bool-cases,
  inl, inr,
}
use whitefield.Commline.Network.{Datagram, Transfer, accepted, delivered}

-- The datagrams that were accepted when a process asked to send to a type, and those that were
-- delivered when a process asked to receive it, oldest first.
abbrev pub accepted_for : ℕ → List Transfer → List Datagram
accepted_for a [] = []
accepted_for a (accepted b d ∷ es) =
    let rest = accepted_for a es in if b == a then d ∷ rest else rest
accepted_for a (delivered b d ∷ es) = accepted_for a es

abbrev pub delivered_at : ℕ → List Transfer → List Datagram
delivered_at a [] = []
delivered_at a (accepted b d ∷ es) = delivered_at a es
delivered_at a (delivered b d ∷ es) =
    let rest = delivered_at a es in if b == a then d ∷ rest else rest

pub accepted_for-append :
    (a : ℕ) (es fs : List Transfer)
    → accepted_for a (es ++ fs) ≡ accepted_for a es ++ accepted_for a fs
accepted_for-append a [] fs = refl
accepted_for-append a (accepted b d ∷ es) fs = elim (Bool-cases (b == a)) [
  | inl here ↦ rw here (ap (λ ds. d ∷ ds) (accepted_for-append a es fs))
  | inr elsewhere ↦ rw elsewhere (accepted_for-append a es fs)
]
accepted_for-append a (delivered b d ∷ es) fs = accepted_for-append a es fs

pub delivered_at-append :
    (a : ℕ) (es fs : List Transfer)
    → delivered_at a (es ++ fs) ≡ delivered_at a es ++ delivered_at a fs
delivered_at-append a [] fs = refl
delivered_at-append a (accepted b d ∷ es) fs = delivered_at-append a es fs
delivered_at-append a (delivered b d ∷ es) fs = elim (Bool-cases (b == a)) [
  | inl here ↦ rw here (ap (λ ds. d ∷ ds) (delivered_at-append a es fs))
  | inr elsewhere ↦ rw elsewhere (delivered_at-append a es fs)
]

-- Two balances, one after the other.
pub balance :
    (w0 w1 w2 in1 in2 out1 out2 : List Datagram)
    → w0 ++ in1 ≡ out1 ++ w1
    → w1 ++ in2 ≡ out2 ++ w2
    → w0 ++ (in1 ++ in2) ≡ (out1 ++ out2) ++ w2
balance w0 w1 w2 in1 in2 out1 out2 e f =
    sym (append_assoc w0 in1 in2)
    ∙ ap (λ l. l ++ in2) e
    ∙ append_assoc out1 w1 in2
    ∙ ap (λ l. out1 ++ l) f
    ∙ sym (append_assoc out1 out2 w2)
