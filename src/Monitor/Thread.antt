-- ===== src/Monitor/Thread.antt =====
-- src/utils/monitor.c: `monitor_thread`, which answers operators.
use whitefield.Base.{
  ℕ, zero, suc, ◌+◌, ◌%◌, ◌^◌, ◌<◌, ◌≡◌, refl, ap, ◌∙◌, Bool, true, false, Option, none, some, List,
  [], ◌∷◌, ◌++◌, Bytes, codes, length, take, replicate, min, leb, ◌==◌, if◌then◌else◌, All, arith,
  Bool-cases, inl, inr, length-append, length-take, length-replicate, if-either, ◌>>=◌,
}
use whitefield.Base.Int.{ℤ, pos, negsuc, is_positive, u16_of}
use whitefield.Base.Text.{before, behind, atoi, starts_nocase}
use whitefield.Commline.Message.{MsgBuf, max_cmd_rsp_sz, airline, stackline}
use whitefield.Monitor.{
  Parsed, cmd_mbuf, starts_digit, to_line, behind_colon, refused, forward, parse_cmd, received,
  no_rsp, await_rsp, perform, fwd_cmd_on_commline,
}

-- What `recvfrom` returns and writes, and what is received on commline for the command.
pub record Request : Type 0 where
  pub size : ℤ
  pub text : Bytes
  pub arrivals : List MsgBuf

abbrev size_of : ℤ → ℕ
size_of (pos n) = n
size_of (negsuc n) = 0

-- `cmd` with its final 0: the text up to the first 0 of at most 127 bytes.
abbrev pub cmd_of : Request → Bytes
cmd_of r = before 0 (take (min (size_of r.size) 127) r.text)

-- END_OF_RSP with its final 0.
abbrev pub end_of_rsp : Bytes
end_of_rsp = codes "END" ++ 0 ∷ []

-- The first `n` bytes of the response buffer, in which a 0 follows the text.
abbrev pub datagram : Bytes → ℕ → Bytes
datagram text n = if n == 0 then codes "CMD_FAILURE" else take n (text ++ replicate n 0)

abbrev pub framed : List Bytes → List Bytes
framed [] = []
framed (answer ∷ answers) = answer ∷ end_of_rsp ∷ framed answers

-- `none` is a write behind the end of the response buffer.
abbrev pub sent_for : Option (Bytes × ℕ) → Option (List Bytes)
sent_for none = none
sent_for (some (text, n)) = some (datagram text n ∷ end_of_rsp ∷ [])

unfoldable pub monitor_round : Request → Option (List Bytes)
unfolding fwd_cmd_on_commline
monitor_round r =
    if is_positive r.size
    then sent_for (fwd_cmd_on_commline (cmd_of r) max_cmd_rsp_sz r.arrivals)
    else some []

-- The loop, with the datagrams that come in.
unfoldable pub monitor_thread : List Request → Option (List Bytes)
unfolding monitor_round
monitor_thread [] = some []
monitor_thread (r ∷ rs) = do out ← monitor_round r; more ← monitor_thread rs; some (out ++ more)

-- A response of at least one byte.
abbrev pub IsResponse : Option (Bytes × ℕ) → Type 0
IsResponse o = (text : Bytes) × (n : ℕ) × (o ≡ some (text, n)) × (0 < n)

-- What fits the response buffer.
abbrev pub AreShort : List MsgBuf → Type 0
AreShort = All (λ m. m.len < max_cmd_rsp_sz)

received-IsResponse : (m : MsgBuf) → m.len < max_cmd_rsp_sz → IsResponse (received max_cmd_rsp_sz m)
received-IsResponse m h =
    let fits : leb max_cmd_rsp_sz m.len ≡ false = ground arith in
    rw fits (take m.len m.buf, (m.len + 1) % 2 ^ 16, refl, omega arith)

no_rsp-IsResponse : (line : ℕ) → IsResponse (no_rsp line)
no_rsp-IsResponse line = (_, _, refl, omega arith)

await_rsp-IsResponse :
    (rounds line : ℕ) (arrivals : List MsgBuf)
    → AreShort arrivals
    → IsResponse (await_rsp rounds line max_cmd_rsp_sz arrivals)
unfolding await_rsp
await_rsp-IsResponse zero line arrivals h = no_rsp-IsResponse line
await_rsp-IsResponse (suc rounds) line [] h = no_rsp-IsResponse line
await_rsp-IsResponse (suc rounds) line (m ∷ arrivals) (fits, h) =
    if-either IsResponse (m.len == 0) (await_rsp-IsResponse rounds line arrivals h)
      (received-IsResponse m fits)

-- A refusal that says something, or a message.
abbrev IsSpoken : Parsed → Type 0
IsSpoken (refused text) = 0 < length text
IsSpoken (forward line mbuf) = Unit

digits-IsSpoken :
    (line : ℕ) (ptr : Bytes) (o : Option Bytes)
    → IsSpoken (elim o [
      | none ↦ refused (codes "INVALID_CMD")
      | some cmd ↦ forward line (cmd_mbuf line (u16_of (atoi ptr)) cmd)
    ])
digits-IsSpoken line ptr none = omega arith
digits-IsSpoken line ptr (some cmd) = tt

to_line-IsSpoken : (line : ℕ) (ptr : Bytes) → IsSpoken (to_line line ptr)
to_line-IsSpoken line ptr =
    if-either IsSpoken (starts_digit ptr) (digits-IsSpoken line ptr (behind b':' ptr)) tt

parse_cmd-IsSpoken : (cmd : Bytes) → IsSpoken (parse_cmd cmd)
unfolding parse_cmd
parse_cmd-IsSpoken cmd =
    if-either IsSpoken (starts_nocase (codes "AL:") cmd)
      (to_line-IsSpoken airline (behind_colon cmd))
      (if-either IsSpoken (starts_nocase (codes "SL:") cmd)
        (to_line-IsSpoken stackline (behind_colon cmd)) (omega arith))

perform-IsResponse :
    (parsed : Parsed) (arrivals : List MsgBuf)
    → IsSpoken parsed
    → AreShort arrivals
    → IsResponse (perform max_cmd_rsp_sz arrivals parsed)
unfolding perform
perform-IsResponse (refused text) arrivals spoken h = (text, length text, refl, spoken)
perform-IsResponse (forward line mbuf) arrivals spoken h = await_rsp-IsResponse 100 line arrivals h

-- Every command has a response of at least one byte.
fwd_cmd_on_commline-IsResponse :
    (cmd : Bytes) (arrivals : List MsgBuf)
    → AreShort arrivals
    → IsResponse (fwd_cmd_on_commline cmd max_cmd_rsp_sz arrivals)
unfolding fwd_cmd_on_commline
fwd_cmd_on_commline-IsResponse cmd arrivals h =
    perform-IsResponse (parse_cmd cmd) arrivals (parse_cmd-IsSpoken cmd) h

-- The first bytes of the response to a command are the answer.
abbrev pub IsAnswer : Request → Bytes → Type 0
IsAnswer r answer =
    (text : Bytes) × (n : ℕ) × (fwd_cmd_on_commline (cmd_of r) max_cmd_rsp_sz r.arrivals
      ≡ some (text, n))
    × (answer ≡ take n (text ++ replicate n 0))
    × (length answer ≡ n)
    × (0 < n)

-- The answers to the commands, in order; a request without bytes has none.
pub data Answers : List Request → List Bytes → Type 0 where
  none_left : Answers [] []
  answered :
      (r : Request) (rs : List Request) (answer : Bytes) (answers : List Bytes)
      → is_positive r.size ≡ true
      → IsAnswer r answer
      → Answers rs answers
      → Answers (r ∷ rs) (answer ∷ answers)
  skipped :
      (r : Request) (rs : List Request) (answers : List Bytes)
      → is_positive r.size ≡ false
      → Answers rs answers
      → Answers (r ∷ rs) answers

datagram-IsAnswer :
    (r : Request)
    → AreShort r.arrivals
    → (answer : Bytes) × IsAnswer r answer
      × (sent_for (fwd_cmd_on_commline (cmd_of r) max_cmd_rsp_sz r.arrivals)
          ≡ some (answer ∷ end_of_rsp ∷ []))
datagram-IsAnswer r h =
    let (text, n, e, low) = fwd_cmd_on_commline-IsResponse (cmd_of r) r.arrivals h in
    let some_bytes : (n == 0) ≡ false = ground arith in
    let whole : length (take n (text ++ replicate n 0)) ≡ n = omega (
      arith,
      length-take n (text ++ replicate n 0),
      length-append text (replicate n 0),
      length-replicate {A = ℕ} n 0,
    ) in
    (
      take n (text ++ replicate n 0),
      (text, n, e, refl, whole, low),
      ap sent_for e
          ∙ ap
              (λ b. some (
                (if b then codes "CMD_FAILURE" else take n (text ++ replicate n 0))
                ∷ end_of_rsp
                ∷ []))
              some_bytes,
    )

-- An operator's command is always answered: for each datagram that holds a command, in order, the
-- thread sends one answer of at least one byte, which is the response to that command, and then
-- "END"; it sends nothing else, and never the text for a failed command. What is received
-- on commline is shorter than the response buffer.
pub monitor_thread-Answers :
    (rs : List Request)
    → All (λ r. AreShort r.arrivals) rs
    → (answers : List Bytes) × (monitor_thread rs ≡ some (framed answers)) × Answers rs answers
unfolding monitor_thread monitor_round
monitor_thread-Answers [] h = ([], refl, none_left)
monitor_thread-Answers (r ∷ rs) (short, h) =
    let (answers, run, all) = monitor_thread-Answers rs h in
    let round : Bool → Option (List Bytes) = λ b.
      if b then sent_for (fwd_cmd_on_commline (cmd_of r) max_cmd_rsp_sz r.arrivals) else some [] in
    let after : List Bytes → Option (List Bytes) =
      λ out. monitor_thread rs >>= (λ more. some (out ++ more)) in
    elim (Bool-cases (is_positive r.size)) [
      | inl command ↦
          let (answer, is_answer, out) = datagram-IsAnswer r short in
          (
            answer ∷ answers,
            ap (λ b. round b >>= after) command
                ∙ ap (λ o. o >>= after) out
                ∙ ap (λ o. o >>= (λ more. some ((answer ∷ end_of_rsp ∷ []) ++ more))) run,
            answered r rs answer answers command is_answer all,
          )
      | inr nothing ↦ (
        answers,
        ap (λ b. round b >>= after) nothing ∙ ap (λ o. o >>= (λ more. some ([] ++ more))) run,
        skipped r rs answers nothing all,
      )
    ]
