-- ===== src/Monitor/Stacks.antt =====
-- src/utils/monitor.c and src/commline/cl_stackline_helpers.c: an operator's command to a stack, from
-- its text to the answer.
use whitefield.Base.{
  ℕ, ◌+◌, ◌%◌, ◌^◌, ◌≤◌, ◌<◌, ◌≡◌, ◌≢◌, refl, ap, ◌∙◌, false, Option, none, some, List, [], ◌∷◌,
  ◌++◌, Bytes, codes, length, take, take-all, length-append, length-take, All, leb, ltb, arith, sym,
  ◌⊎◌, inl, inr, true, Bool-cases,
}
use whitefield.Base.Text.{
  value, before, IsDigits, Lacks, before-append, behind-append, atoi-digits, behind-digits, text_eq,
  text_eq_refl, text_eq_sound,
}
use whitefield.Commline.Message.{MsgBuf, stackline, max_cmd_rsp_sz, define_mbuf}
use whitefield.Commline.Stack.{
  is_listed, command_argument, stack_reply, played, stack_answer, sl_handle_cmd,
}
use whitefield.Monitor.{
  Parsed, refused, forward, cmd_mbuf, parse_cmd, await_rsp, received, perform, fwd_cmd_on_commline,
}
use whitefield.Monitor.Awaiting.{IsEmpty, await_rsp-answer}

-- "SL:<digits>:<command>", and a command with its argument.
abbrev pub sl_command : Bytes → Bytes → Bytes
sl_command digits cmd = codes "SL:" ++ (digits ++ b':' ∷ cmd)

abbrev pub with_argument : Bytes → Bytes → Bytes
with_argument name arg = name ++ b':' ∷ arg

pub parse_cmd-sl_command :
    (d : ℕ) (ds cmd : Bytes)
    → IsDigits (d ∷ ds)
    → value 0 (d ∷ ds) < 2 ^ 16
    → parse_cmd (sl_command (d ∷ ds) cmd)
      ≡ forward stackline (cmd_mbuf stackline (value 0 (d ∷ ds)) cmd)
unfolding parse_cmd
parse_cmd-sl_command d ds cmd h small =
    let fits : value 0 (d ∷ ds) % 2 ^ 16 ≡ value 0 (d ∷ ds) = omega arith in
    rw
      (
        h.0,
        behind-digits (d ∷ ds) cmd b':' h refl,
        atoi-digits d b':' ds cmd h refl (omega arith),
        fits,
      )
      refl

pub received_reply :
    (rsplen : ℕ) (text : Bytes) (n : ℕ)
    → n ≤ 4096
    → n < rsplen
    → received rsplen (stack_reply (text, n)) ≡ some (take n text, n + 1)
received_reply rsplen text n narrow room =
    let whole : n % 2 ^ 16 ≡ n = omega arith in
    let next : (n + 1) % 2 ^ 16 ≡ n + 1 = omega arith in
    let inside : leb rsplen n ≡ false = ground arith in rw (whole, inside, next) refl

-- The commands of a stack, as `sl_handle_cmd` lists them.
abbrev pub thirteen : List Bytes
thirteen =
    codes "cmd_rpl_stats"
    ∷ codes "cmd_def_route"
    ∷ codes "cmd_route_table"
    ∷ codes "cmd_rtsize"
    ∷ codes "cmd_node_osname"
    ∷ codes "cmd_ipv6_stats"
    ∷ codes "cmd_nd6_stats"
    ∷ codes "cmd_icmp_stats"
    ∷ codes "cmd_udp_stats"
    ∷ codes "cmd_tcp_stats"
    ∷ codes "cmd_config_info"
    ∷ codes "cmd_start_udp"
    ∷ codes "cmd_get_udpapp_stat"
    ∷ []

abbrev pub Among : Bytes → List Bytes → Type 0
Among name [] = ⊥
Among name (n ∷ ns) = (name ≡ n) ⊎ Among name ns

is_listed-Among : (name : Bytes) (ns : List Bytes) → Among name ns → is_listed name ns ≡ true
is_listed-Among name [] h = absurd h
is_listed-Among name (n ∷ ns) (inl same) =
    let equal : text_eq name n ≡ true = ap (text_eq name) (sym same) ∙ text_eq_refl name in
    rw equal refl
is_listed-Among name (n ∷ ns) (inr h) = elim (Bool-cases (text_eq name n)) [
  | inl equal ↦ rw equal refl
  | inr other ↦ rw other (is_listed-Among name ns h)
]

is_listed-absent : (name : Bytes) (ns : List Bytes) → ¬ Among name ns → is_listed name ns ≡ false
is_listed-absent name [] h = refl
is_listed-absent name (n ∷ ns) h = elim (Bool-cases (text_eq name n)) [
  | inl equal ↦ absurd (h (inl (text_eq_sound name n equal)))
  | inr other ↦ rw other (is_listed-absent name ns (λ among. h (inr among)))
]

-- What a stack says to an unknown command: the first 255 bytes of its argument in SL_INVALID_CMD.
abbrev pub invalid_text : Bytes → Bytes
invalid_text arg = codes "SL_INVALID_CMD(" ++ (take 255 arg ++ codes ")")

-- One of the thirteen leaves `n` bytes of `text` for the argument and the node number 0; for any
-- other name this is the text about the argument.
abbrev pub IsAnsweredBy : (Bytes → ℕ → Bytes → ℕ → Bytes × ℕ) → Bytes → Bytes → Bytes → ℕ → Type 0
IsAnsweredBy play name arg text n =
    (Among name thirteen × (play name 0 arg 4096 ≡ (text, n)))
    ⊎ ((¬ Among name thirteen) × (text ≡ invalid_text arg) × (n ≡ length text))

length-invalid_text : (arg : Bytes) → length (invalid_text arg) ≤ 4095
length-invalid_text arg =
    omega (arith, length-append (take 255 arg) (codes ")"), length-take 255 arg)

module _ (play : Bytes → ℕ → Bytes → ℕ → Bytes × ℕ) where
  played-IsAnsweredBy :
      (name arg text : Bytes) (n : ℕ)
      → IsAnsweredBy play name arg text n
      → played play name arg ≡ (text, n)
  played-IsAnsweredBy name arg text n (inl (known, answer)) =
      rw (is_listed-Among name thirteen known) answer
  played-IsAnsweredBy name arg text n (inr (unknown, same, size)) =
      let whole = take-all 4095 (invalid_text arg) (length-invalid_text arg) in
      rw (is_listed-absent name thirteen unknown) (
        ap (λ t. (t, length (invalid_text arg))) (whole ∙ sym same)
        ∙ ap (λ m. (text, m)) (ap length (sym same) ∙ sym size))

  abbrev pub arriving : List MsgBuf → Option MsgBuf → List MsgBuf
  arriving before none = before
  arriving before (some answer) = before ++ answer ∷ []

  abbrev pub asked : List MsgBuf → Parsed → List MsgBuf
  asked before (refused text) = before
  asked before (forward line mbuf) = arriving before (sl_handle_cmd play mbuf)

  -- The monitor and the stack that gets the message.
  unfoldable pub ask_stack : Bytes → ℕ → List MsgBuf → Option (Bytes × ℕ)
  unfolding fwd_cmd_on_commline
  ask_stack cmd rsplen before = fwd_cmd_on_commline cmd rsplen (asked before (parse_cmd cmd))

  pub ask_stack-forward :
      (cmd : Bytes) (line rsplen : ℕ) (mbuf answer : MsgBuf) (before : List MsgBuf)
      → parse_cmd cmd ≡ forward line mbuf
      → sl_handle_cmd play mbuf ≡ some answer
      → ask_stack cmd rsplen before ≡ await_rsp 100 line rsplen (before ++ answer ∷ [])
  unfolding ask_stack fwd_cmd_on_commline perform
  ask_stack-forward cmd line rsplen mbuf answer before parsed ran =
      ap (λ p. perform rsplen (asked before p) p) parsed
      ∙ ap (λ a. await_rsp 100 line rsplen (arriving before a)) ran

  stack_answer-with_argument :
      (name arg : Bytes)
      → Lacks b':' name
      → length name ≤ 255
      → stack_answer play (with_argument name arg) ≡ played play name arg
  unfolding stack_answer
  stack_answer-with_argument name arg plain short =
      ap (λ word. played play (take 255 word) (command_argument (with_argument name arg)))
        (before-append b':' name arg plain)
      ∙ ap (λ word. played play word (command_argument (with_argument name arg)))
          (take-all 255 name short)
      ∙ ap (λ rest. played play name (elim rest [ none ↦ [] | some r ↦ r ]))
          (behind-append b':' name arg plain)

  sl_handle_cmd_lem :
      (mbuf : MsgBuf) (cmd : Bytes)
      → mbuf.len ≡ length cmd
      → mbuf.buf ≡ cmd
      → length cmd ≤ 4096
      → sl_handle_cmd play mbuf ≡ some (stack_reply (stack_answer play cmd))
  unfolding sl_handle_cmd
  sl_handle_cmd_lem mbuf cmd size same fits =
      let inside : ltb max_cmd_rsp_sz mbuf.len ≡ false = ground arith in
      let whole : take mbuf.len mbuf.buf ≡ cmd = rw same (take-all mbuf.len cmd (omega arith)) in
      rw inside (ap (λ c. some (stack_reply (stack_answer play c))) whole)

  -- The answer of a stack to an operator's command with its argument.
  stack_replies :
      (id : ℕ) (name arg : Bytes)
      → Lacks b':' name
      → length name ≤ 255
      → length (with_argument name arg) ≤ 4096
      → sl_handle_cmd play (cmd_mbuf stackline id (with_argument name arg))
        ≡ some (stack_reply (played play name arg))
  unfolding define_mbuf
  stack_replies id name arg plain short fits =
      sl_handle_cmd_lem (cmd_mbuf stackline id (with_argument name arg)) (with_argument name arg)
        (omega arith) (take-all 4096 (with_argument name arg) fits) fits
      ∙ ap (λ r. some (stack_reply r)) (stack_answer-with_argument name arg plain short)

  -- An operator's command to a stack, with an argument, is answered with what the stack's
  -- command leaves in the buffer for that argument and the node number 0, whichever node the
  -- operator names; a name that is not one of the thirteen is answered with the first 255 bytes
  -- of its argument in SL_INVALID_CMD. The number is in digits and below 65536, the name has no ':' and at most 255
  -- bytes, name and argument fit the message, the answer has 1 to 4096 bytes and fits the
  -- operator's buffer, and fewer than 100 empty rounds come first.
  pub ask_stack-sl_command :
      (d : ℕ) (ds name arg text : Bytes) (rsplen n : ℕ) (before : List MsgBuf)
      → IsDigits (d ∷ ds)
      → value 0 (d ∷ ds) < 2 ^ 16
      → Lacks b':' name
      → length name ≤ 255
      → length (with_argument name arg) ≤ 4096
      → IsAnsweredBy play name arg text n
      → 0 < n
      → n ≤ 4096
      → n < rsplen
      → All IsEmpty before
      → length before < 100
      → ask_stack (sl_command (d ∷ ds) (with_argument name arg)) rsplen before
        ≡ some (take n text, n + 1)
  ask_stack-sl_command d ds name arg text rsplen n before h small plain short fits answer contents
        narrow room empties rounds =
      let whole : n % 2 ^ 16 ≡ n = omega arith in
      let full : (stack_reply (text, n)).len ≢ 0 = omega arith in
      ask_stack-forward (sl_command (d ∷ ds) (with_argument name arg)) stackline rsplen
        (cmd_mbuf stackline (value 0 (d ∷ ds)) (with_argument name arg))
        (stack_reply (played play name arg)) before
        (parse_cmd-sl_command d ds (with_argument name arg) h small)
        (stack_replies (value 0 (d ∷ ds)) name arg plain short fits)
      ∙ ap (λ r. await_rsp 100 stackline rsplen (before ++ stack_reply r ∷ []))
          (played-IsAnsweredBy name arg text n answer)
      ∙ await_rsp-answer 100 stackline rsplen before (stack_reply (text, n)) [] empties rounds full
      ∙ received_reply rsplen text n narrow room
