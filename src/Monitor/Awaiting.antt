-- ===== src/Monitor/Awaiting.antt =====
-- src/utils/monitor.c: waiting for an answer, and what is made of it.
use whitefield.Base.{
  ℕ, zero, suc, ◌+◌, ◌-◌, ◌%◌, ◌^◌, ◌≤◌, ◌<◌, ◌≡◌, ◌≢◌, refl, ◌∙◌, true, false, some, List, [], ◌∷◌,
  ◌++◌, Bytes, length, take-all, All, leb, ◌==◌, arith,
}
use whitefield.Commline.Message.{MsgBuf}
use whitefield.Airline.Manager.Handling.{reply}
use whitefield.Monitor.{await_rsp, received, no_rsp}

-- A datagram without contents, as a round without an arrival leaves it.
abbrev pub IsEmpty : MsgBuf → Type 0
IsEmpty m = m.len ≡ 0

await_rsp-IsEmpty :
    (rounds line rsplen : ℕ) (before arrivals : List MsgBuf)
    → All IsEmpty before
    → length before ≤ rounds
    → await_rsp rounds line rsplen (before ++ arrivals)
      ≡ await_rsp (rounds - length before) line rsplen arrivals
unfolding await_rsp
await_rsp-IsEmpty rounds line rsplen [] arrivals h k =
    let e : rounds - 0 ≡ rounds = omega arith in rw e refl
await_rsp-IsEmpty zero line rsplen (m ∷ before) arrivals h k = absurd (omega arith)
await_rsp-IsEmpty (suc rounds) line rsplen (m ∷ before) arrivals (hm, h) k =
    let skipped : (m.len == 0) ≡ true = ground arith in
    let e : suc rounds - suc (length before) ≡ rounds - length before = omega arith in
    rw (skipped, e) (await_rsp-IsEmpty rounds line rsplen before arrivals h (omega arith))

pub await_rsp-silence :
    (rounds line rsplen : ℕ) (arrivals : List MsgBuf)
    → All IsEmpty arrivals
    → await_rsp rounds line rsplen arrivals ≡ no_rsp line
unfolding await_rsp
await_rsp-silence zero line rsplen arrivals h = refl
await_rsp-silence (suc rounds) line rsplen [] h = refl
await_rsp-silence (suc rounds) line rsplen (m ∷ arrivals) (hm, h) =
    let skipped : (m.len == 0) ≡ true = ground arith in
    rw skipped (await_rsp-silence rounds line rsplen arrivals h)

-- The first answer with contents, when it comes within the rounds.
pub await_rsp-answer :
    (rounds line rsplen : ℕ) (before : List MsgBuf) (m : MsgBuf) (later : List MsgBuf)
    → All IsEmpty before
    → length before < rounds
    → m.len ≢ 0
    → await_rsp rounds line rsplen (before ++ m ∷ later) ≡ received rsplen m
unfolding await_rsp
await_rsp-answer rounds line rsplen before m later h k full =
    await_rsp-IsEmpty rounds line rsplen before (m ∷ later) h (omega arith)
    ∙ first (rounds - length before) (omega arith)
  where
    first : (n : ℕ) → 0 < n → await_rsp n line rsplen (m ∷ later) ≡ received rsplen m
    first zero p = absurd (omega arith)
    first (suc n) p = let read : (m.len == 0) ≡ false = ground arith in rw read refl

pub received-reply :
    (rsplen : ℕ) (m : MsgBuf) (text : Bytes)
    → length text < rsplen
    → length text < 2048
    → received rsplen (reply m text (length text)) ≡ some (text, length text + 1)
received-reply rsplen m text fits short =
    let size : length text % 2 ^ 16 ≡ length text = omega arith in
    let next : (length text + 1) % 2 ^ 16 ≡ length text + 1 = omega arith in
    let inside : leb rsplen (length text) ≡ false = ground arith in
    rw (size, inside, next, take-all (length text) text (omega arith)) refl
