-- ===== src/Monitor/Client/Seen.antt =====
-- src/utils/udp_cmd.c: what an operator sees of a command.
use whitefield.Base.{
  ℕ, zero, suc, ◌+◌, ◌≤◌, ◌<◌, ◌≡◌, ◌≢◌, refl, sym, ap, ◌∙◌, subst, Bool, true, false, ◌&&◌, some,
  List, [], ◌∷◌, ◌++◌, Bytes, codes, length, take, take-all, replicate, min, leb, ◌==◌,
  if◌then◌else◌, All, All-append, arith, length-append, append-nil, Bool-cases, inl, inr, ◌^◌,
}
use whitefield.Base.Int.{ℤ, pos, is_positive}
use whitefield.Base.Text.{
  before, before-append, starts_nocase, tolower, Lacks, Lacks-lacks, IsDigits, value, digits-Lacks,
  stoi,
}
use whitefield.Commline.Message.{MsgBuf, max_cmd_rsp_sz}
use whitefield.Airline.Nodeinfo.{Nodeinfo}
use whitefield.Airline.Config.Lookup.{get, get_node_info}
use whitefield.Airline.Manager.{Airline}
use whitefield.Airline.Manager.Commands.{World}
use whitefield.Monitor.{parse_cmd, fwd_cmd_on_commline}
use whitefield.Monitor.Answers.{ask, asked, al_command, ask-node_exec}
use whitefield.Monitor.Awaiting.{IsEmpty}
use whitefield.Monitor.Thread.{cmd_of, end_of_rsp, datagram, sent_for, monitor_round}
use whitefield.Monitor.Client.{is_end, shown, print_responses, request, printed_for, seen}

before-Lacks : (c : ℕ) (s : Bytes) → Lacks c s → before c s ≡ s
before-Lacks c [] h = refl
before-Lacks c (x ∷ s) (hx, h) =
    let other : (x == c) ≡ false = ground arith in rw other (ap (λ l. x ∷ l) (before-Lacks c s h))

cmd_of-request :
    (cmd : Bytes) (arrivals : List MsgBuf)
    → length cmd ≤ 127
    → Lacks 0 cmd
    → cmd_of (request cmd arrivals) ≡ cmd
cmd_of-request cmd arrivals short no_zero =
    let whole : min (length cmd) 127 ≡ length cmd = ground arith in
    ap (λ k. before 0 (take k cmd)) whole
    ∙ ap (before 0) (take-all (length cmd) cmd (omega arith))
    ∙ before-Lacks 0 cmd no_zero

take_terminated :
    (text zeros : Bytes) (k : ℕ)
    → k ≡ suc (length text)
    → take k (text ++ 0 ∷ zeros) ≡ text ++ 0 ∷ []
take_terminated [] zeros k e = subst (λ k. take k (0 ∷ zeros) ≡ 0 ∷ []) (sym e) refl
take_terminated (x ∷ text) zeros k e =
    subst (λ k. take k (x ∷ text ++ 0 ∷ zeros) ≡ x ∷ text ++ 0 ∷ []) (sym e)
      (ap (λ l. x ∷ l) (take_terminated text zeros (suc (length text)) refl))

-- A response with the 0 that ends it.
datagram_terminated : (text : Bytes) → datagram text (length text + 1) ≡ text ++ 0 ∷ []
datagram_terminated text =
    let next : length text + 1 ≡ suc (length text) = omega arith in
    let some_bytes : (suc (length text) == 0) ≡ false = ground arith in
    let whole = take (suc (length text)) (text ++ replicate (suc (length text)) 0) in
    subst (λ n. datagram text n ≡ text ++ 0 ∷ []) (sym next)
      (ap (λ b. if b then codes "CMD_FAILURE" else whole) some_bytes
        ∙ take_terminated text (replicate (length text) 0) (suc (length text)) refl)

starts_nocase-terminated :
    (p s : Bytes)
    → All (λ c. (tolower c == tolower 0) ≡ false) p
    → starts_nocase p s ≡ false
    → starts_nocase p (s ++ 0 ∷ []) ≡ false
starts_nocase-terminated [] s h e = e
starts_nocase-terminated (c ∷ p) [] (hc, h) e = rw hc refl
starts_nocase-terminated (c ∷ p) (x ∷ s) (hc, h) e = elim (Bool-cases (tolower c == tolower x)) [
  | inl same ↦ rw same (starts_nocase-terminated p s h (rw same at e))
  | inr other ↦ rw other refl
]

both_false : (a b : Bool) → b ≡ false → (a && b) ≡ false
both_false true b e = e
both_false false b e = refl

-- What is shown of a response that ends with a 0, and of the "END" behind it.
print_responses-answer :
    (text : Bytes)
    → length text < 8192
    → Lacks 0 text
    → starts_nocase (codes "END") text ≡ false
    → print_responses ((text ++ 0 ∷ []) ∷ end_of_rsp ∷ []) ≡ text
unfolding print_responses
print_responses-answer text short no_zero no_end =
    let whole : take 8192 (text ++ 0 ∷ []) ≡ text ++ 0 ∷ [] =
      take-all 8192 (text ++ 0 ∷ []) (omega (arith, length-append text (0 ∷ []))) in
    let goes_on = starts_nocase-terminated (codes "END") text (refl, (refl, (refl, tt))) no_end in
    let not_end : is_end (take 8192 (text ++ 0 ∷ [])) ≡ false =
      ap is_end whole ∙ both_false (leb 3 (length (text ++ 0 ∷ []))) _ goes_on in
    ap (λ b. if b then [] else shown (text ++ 0 ∷ []) ++ []) not_end
    ∙ append-nil (shown (text ++ 0 ∷ []))
    ∙ ap (before 0) whole
    ∙ before-append 0 text [] no_zero

positive_pos : (n : ℕ) → 0 < n → is_positive (pos n) ≡ true
positive_pos zero h = absurd (omega arith)
positive_pos (suc n) h = refl

-- The datagrams for a command: its response with a final 0, and the "END".
pub monitor_round-response :
    (cmd text : Bytes) (arrivals : List MsgBuf)
    → 0 < length cmd
    → length cmd ≤ 127
    → Lacks 0 cmd
    → fwd_cmd_on_commline cmd max_cmd_rsp_sz arrivals ≡ some (text, length text + 1)
    → monitor_round (request cmd arrivals) ≡ some ((text ++ 0 ∷ []) ∷ end_of_rsp ∷ [])
unfolding monitor_round
monitor_round-response cmd text arrivals some_cmd short no_zero ran =
    let received : is_positive (pos (length cmd)) ≡ true = positive_pos (length cmd) some_cmd in
    ap
      (λ b.
        if b
        then sent_for (fwd_cmd_on_commline (cmd_of (request cmd arrivals)) max_cmd_rsp_sz arrivals)
        else some [])
      received
    ∙ ap (λ s. sent_for (fwd_cmd_on_commline s max_cmd_rsp_sz arrivals))
        (cmd_of-request cmd arrivals short no_zero)
    ∙ ap sent_for ran
    ∙ ap (λ d. some (d ∷ end_of_rsp ∷ [])) (datagram_terminated text)

seen-response :
    (cmd text : Bytes) (arrivals : List MsgBuf)
    → 0 < length cmd
    → length cmd ≤ 127
    → Lacks 0 cmd
    → fwd_cmd_on_commline cmd max_cmd_rsp_sz arrivals ≡ some (text, length text + 1)
    → length text < 8192
    → Lacks 0 text
    → starts_nocase (codes "END") text ≡ false
    → seen cmd arrivals ≡ some text
unfolding seen
seen-response cmd text arrivals some_cmd short no_zero ran fits plain no_end =
    ap printed_for (monitor_round-response cmd text arrivals some_cmd short no_zero ran)
    ∙ ap some (print_responses-answer text fits plain no_end)

-- "AL:", the digits, and ":cmd_node_exec".
abbrev pub exec_command : Bytes → Bytes
exec_command digits = al_command digits (codes "cmd_node_exec")

exec_command-Lacks : (digits : Bytes) → IsDigits digits → Lacks 0 (exec_command digits)
exec_command-Lacks digits h =
    All-append (λ c. c ≢ 0) (codes "AL:") (digits ++ codes ":cmd_node_exec")
      (Lacks-lacks 0 (codes "AL:") refl)
      (All-append (λ c. c ≢ 0) digits (codes ":cmd_node_exec") (digits-Lacks 0 digits refl h)
        (Lacks-lacks 0 (codes ":cmd_node_exec") refl))

module _ {Real : Type 0} (w : World Real) where
  -- From the operator's terminal and back: the client that is given the command for the program of a
  -- node prints exactly this program, as the monitor, Airline and the monitor again pass it on. The
  -- number of the node is in at most 100 digits and below 65536, `numOfNodes` of the configuration
  -- is a number, Airline answers within 100 rounds, and the program has 1 to 2047 bytes without a
  -- 0 and does not begin like "END".
  pub seen-node_exec :
      (a : Airline Real) (d : ℕ) (ds : Bytes) (k : ℤ) (ni : Nodeinfo Real) (before : List MsgBuf)
      → IsDigits (d ∷ ds)
      → length ds < 100
      → value 0 (d ∷ ds) < 2 ^ 16
      → stoi (get (codes "numOfNodes") a.config) ≡ some k
      → get_node_info (value 0 (d ∷ ds)) a.config ≡ some ni
      → 0 < length ni.node_exec
      → length ni.node_exec < 2048
      → Lacks 0 ni.node_exec
      → starts_nocase (codes "END") ni.node_exec ≡ false
      → All IsEmpty before
      → length before < 100
      → seen (exec_command (d ∷ ds)) (asked w a before (parse_cmd (exec_command (d ∷ ds))))
        ≡ some ni.node_exec
  unfolding ask
  seen-node_exec a d ds k ni before digits few small configured known some_program short plain
        no_end empties rounds =
      let size = length-append (d ∷ ds) (codes ":cmd_node_exec") in
      seen-response (exec_command (d ∷ ds)) ni.node_exec
        (asked w a before (parse_cmd (exec_command (d ∷ ds)))) (omega arith) (omega (arith, size))
        (exec_command-Lacks (d ∷ ds) digits)
        (ask-node_exec w a d ds k ni max_cmd_rsp_sz before digits small configured known
          some_program short (omega arith) empties rounds)
        (omega arith) plain no_end
