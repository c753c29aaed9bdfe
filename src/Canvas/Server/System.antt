-- ===== src/Canvas/Server/System.antt =====
-- canvas/canvas.py with src/utils/monitor.c, Airline and the stacks: the graph that the page gets.
use whitefield.Base.{
  ℕ, suc, ◌≤◌, ◌<◌, ◌≡◌, ◌≢◌, ◌^◌, refl, sym, ap, subst, ◌∙◌, true, Option, none, some, List, [],
  ◌∷◌, ◌++◌, Bytes, codes, length, length-append, All, All-append, All-map, arith, ◌==◌,
  if◌then◌else◌,
}
use whitefield.Base.Int.{ℤ}
use whitefield.Base.Text.{decimal, value, stoi, IsDigits, Lacks, Lacks-lacks}
use whitefield.Base.Decimal.{decimal-IsDigits, decimal-cons, value-decimal, length-decimal_digits}
use whitefield.Commline.Message.{MsgBuf, airline, max_cmd_rsp_sz}
use whitefield.Airline.Config.Lookup.{get}
use whitefield.Airline.Manager.{Airline}
use whitefield.Airline.Manager.Commands.{World}
use whitefield.Monitor.{Parsed, refused, forward, parse_cmd, fwd_cmd_on_commline}
use whitefield.Monitor.Answers.{ask, asked}
use whitefield.Monitor.Awaiting.{IsEmpty}
use whitefield.Monitor.Stacks.{ask_stack, parse_cmd-sl_command}
use whitefield.Monitor.Stacks.{asked as stack_asked}
use whitefield.Monitor.Thread.{monitor_round}
use whitefield.Monitor.Client.{request}
use whitefield.Monitor.Client.Seen.{monitor_round-response}
use whitefield.Monitor.Page.{ask-positions, ask_stack-route}
use whitefield.Canvas.Server.{position_cmd, route_cmd}
use whitefield.Canvas.Server.Words.{IsShown, digits-AreShown}
use whitefield.Canvas.Server.Asking.{answered_by}

abbrev pub datagrams : Option (List Bytes) → List Bytes
datagrams none = []
datagrams (some ds) = ds

module _ {Real : Type 0} (w : World Real) (plays : ℕ → Bytes → ℕ → Bytes → ℕ → Bytes × ℕ)
    (quiet : List MsgBuf) (a : Airline Real) where
  -- What the monitor finds for a message: the quiet rounds, and the answer of Airline or of the stack
  -- of the node that the message is for.
  abbrev pub arrivals : Parsed → List MsgBuf
  arrivals (refused text) = quiet
  arrivals (forward line mbuf) =
      if line == airline
      then asked w a quiet (forward line mbuf)
      else stack_asked (plays mbuf.src_id) quiet (forward line mbuf)

  -- What the monitor sends back for a command.
  unfoldable pub system : Bytes → List Bytes
  unfolding monitor_round
  system cmd = datagrams (monitor_round (request cmd (arrivals (parse_cmd cmd))))

  module _ (empties : All IsEmpty quiet) (rounds : length quiet < 100) where
    pub system-positions :
        (c : ℕ) (path : Bytes) (k : ℤ)
        → stoi (get (codes "numOfNodes") a.config) ≡ some k
        → w.can_open (c ∷ path) ≡ true
        → length (c ∷ path) ≤ 100
        → Lacks 0 (c ∷ path)
        → system (position_cmd (c ∷ path)) ≡ answered_by (codes "SUCCESS")
    unfolding system ask parse_cmd
    system-positions c path k configured opens short no_zero = ap datagrams (
        monitor_round-response (position_cmd (c ∷ path)) (codes "SUCCESS")
          (asked w a quiet (parse_cmd (position_cmd (c ∷ path)))) (omega arith) (omega arith)
          (All-append (λ b. b ≢ 0) (codes "AL:cmd_node_position:") (c ∷ path)
            (Lacks-lacks 0 (codes "AL:cmd_node_position:") refl) no_zero)
          (ask-positions w a c path k quiet configured opens short empties rounds))

    route-digits :
        (d : ℕ) (ds text : Bytes)
        → IsDigits (d ∷ ds)
        → value 0 (d ∷ ds) < 2 ^ 16
        → length (d ∷ ds) ≤ 100
        → plays (value 0 (d ∷ ds)) (codes "cmd_def_route") 0 [] max_cmd_rsp_sz ≡ (text, length text)
        → 0 < length text
        → length text < 4096
        → system (route_cmd (d ∷ ds)) ≡ answered_by text
    unfolding system ask_stack
    route-digits d ds text h small few answer some_bytes short =
        let cmd = route_cmd (d ∷ ds) in
        let parsed = parse_cmd-sl_command d ds (codes "cmd_def_route") h small in
        let same : arrivals (parse_cmd cmd)
            ≡ stack_asked (plays (value 0 (d ∷ ds))) quiet (parse_cmd cmd) =
          ap arrivals parsed ∙ ap (stack_asked (plays (value 0 (d ∷ ds))) quiet) (sym parsed) in
        ap datagrams (
          monitor_round-response cmd text (arrivals (parse_cmd cmd)) (omega arith)
            (omega (arith, length-append (d ∷ ds) (codes ":cmd_def_route")))
            (All-append (λ b. b ≢ 0) (codes "SL:") (d ∷ ds ++ codes ":cmd_def_route")
              (Lacks-lacks 0 (codes "SL:") refl)
              (All-append (λ b. b ≢ 0) (d ∷ ds) (codes ":cmd_def_route")
                (All-map IsShown (λ b. b ≢ 0) (λ b hb e. absurd (omega arith)) (d ∷ ds)
                  (digits-AreShown (d ∷ ds) h))
                (Lacks-lacks 0 (codes ":cmd_def_route") refl)))
            (ap (fwd_cmd_on_commline cmd max_cmd_rsp_sz) same
              ∙ ask_stack-route (plays (value 0 (d ∷ ds))) d ds text quiet h small answer some_bytes
                  short empties rounds))

    pub system-route :
        (n : ℕ) (text : Bytes)
        → n < 2 ^ 16
        → plays n (codes "cmd_def_route") 0 [] max_cmd_rsp_sz ≡ (text, length text)
        → 0 < length text
        → length text < 4096
        → system (route_cmd (decimal n)) ≡ answered_by text
    system-route n text small answer some_bytes short =
        let (d, ds, e) = decimal-cons n in
        let same : value 0 (d ∷ ds) ≡ n = ap (value 0) (sym e) ∙ value-decimal n in
        let few : length (decimal n) ≤ 5 = length-decimal_digits (suc n) 4 n (omega arith) in
        subst (λ s. system (route_cmd s) ≡ answered_by text) (sym e)
          (route-digits d ds text (subst IsDigits e (decimal-IsDigits n)) (omega (arith, same))
            (omega (arith, few, ap length e))
            (ap (λ i. plays i (codes "cmd_def_route") 0 [] max_cmd_rsp_sz) same ∙ answer) some_bytes
            short)
