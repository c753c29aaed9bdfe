-- ===== src/Monitor/Answers.antt =====
-- src/utils/monitor.c and src/airline/NS3/AirlineManager.cc: an operator's command to Airline, from its
-- text to the answer.
use whitefield.Base.{
  ℕ, ◌+◌, ◌%◌, ◌^◌, ◌<◌, ◌≡◌, ◌≢◌, refl, subst, ap, ◌∙◌, Option, some, List, [], ◌∷◌, ◌++◌, Bytes,
  codes, length, take-all, All, arith,
}
use whitefield.Base.Int.{ℤ}
use whitefield.Base.Text.{value, stoi, IsDigits, atoi-digits, behind-digits}
use whitefield.Commline.Message.{MsgBuf, airline, define_mbuf, mtype}
use whitefield.Airline.Nodeinfo.{Nodeinfo}
use whitefield.Airline.Config.Lookup.{get, get_node_info}
use whitefield.Airline.Manager.{Airline, cmd_node_exec, get_node_config_val}
use whitefield.Airline.Manager.Commands.{World, handle_cmd}
use whitefield.Airline.Manager.Handling.{Handled, handled, stopped, reply, msgrecv_callback}
use whitefield.Monitor.{
  Parsed, refused, forward, cmd_mbuf, parse_cmd, await_rsp, perform, fwd_cmd_on_commline,
}
use whitefield.Monitor.Awaiting.{IsEmpty, await_rsp-answer, received-reply}

-- "AL:<digits>:<command>".
abbrev pub al_command : Bytes → Bytes → Bytes
al_command digits cmd = codes "AL:" ++ (digits ++ b':' ∷ cmd)

parse_cmd-al_command :
    (d : ℕ) (ds cmd : Bytes)
    → IsDigits (d ∷ ds)
    → value 0 (d ∷ ds) < 2 ^ 16
    → parse_cmd (al_command (d ∷ ds) cmd)
      ≡ forward airline (cmd_mbuf airline (value 0 (d ∷ ds)) cmd)
unfolding parse_cmd
parse_cmd-al_command d ds cmd h small =
    let fits : value 0 (d ∷ ds) % 2 ^ 16 ≡ value 0 (d ∷ ds) = omega arith in
    rw
      (
        h.0,
        behind-digits (d ∷ ds) cmd b':' h refl,
        atoi-digits d b':' ds cmd h refl (omega arith),
        fits,
      )
      refl

module _ {Real : Type 0} (w : World Real) where
  -- What arrives at the monitor when a process has handled the message.
  abbrev pub arriving : List MsgBuf → Handled Real → List MsgBuf
  arriving before (handled a replies) = before ++ replies
  arriving before (stopped _) = before

  abbrev pub asked : Airline Real → List MsgBuf → Parsed → List MsgBuf
  asked a before (refused text) = before
  asked a before (forward line mbuf) = arriving before (msgrecv_callback w mbuf a)

  -- The monitor and Airline together: an operator's command, what Airline makes of its message, and
  -- what the monitor then finds, behind the rounds `before` in which Airline is not ready yet.
  unfoldable pub ask : Airline Real → Bytes → ℕ → List MsgBuf → Option (Bytes × ℕ)
  unfolding fwd_cmd_on_commline
  ask a cmd rsplen before = fwd_cmd_on_commline cmd rsplen (asked a before (parse_cmd cmd))

  pub ask-forward :
      (a a' : Airline Real) (cmd : Bytes) (line rsplen : ℕ) (mbuf : MsgBuf)
      (before replies : List MsgBuf)
      → parse_cmd cmd ≡ forward line mbuf
      → msgrecv_callback w mbuf a ≡ handled a' replies
      → ask a cmd rsplen before ≡ await_rsp 100 line rsplen (before ++ replies)
  unfolding ask fwd_cmd_on_commline perform
  ask-forward a a' cmd line rsplen mbuf before replies parsed ran =
      ap (λ p. perform rsplen (asked a before p) p) parsed
      ∙ ap (λ h. await_rsp 100 line rsplen (arriving before h)) ran

  exec_reply :
      (a : Airline Real) (id : ℕ) (k : ℤ)
      → stoi (get (codes "numOfNodes") a.config) ≡ some k
      → msgrecv_callback w (cmd_mbuf airline id (codes "cmd_node_exec")) a
        ≡ handled a (
            reply
              (cmd_mbuf airline id (codes "cmd_node_exec"))
              (cmd_node_exec id 2048 a).0
              (cmd_node_exec id 2048 a).1
            ∷ [])
  unfolding msgrecv_callback mtype define_mbuf handle_cmd
  exec_reply a id k configured = rw (configured, msgrecv_callback, handle_cmd) refl

  -- The operator's command once it is parsed and handled.
  ask_exec :
      (a : Airline Real) (d : ℕ) (ds : Bytes) (k : ℤ) (rsplen : ℕ) (before : List MsgBuf)
      (text : Bytes) (n : ℕ)
      → IsDigits (d ∷ ds)
      → value 0 (d ∷ ds) < 2 ^ 16
      → stoi (get (codes "numOfNodes") a.config) ≡ some k
      → cmd_node_exec (value 0 (d ∷ ds)) 2048 a ≡ (text, n)
      → ask a (al_command (d ∷ ds) (codes "cmd_node_exec")) rsplen before
        ≡ await_rsp 100 airline rsplen (
            before
            ++ reply (cmd_mbuf airline (value 0 (d ∷ ds)) (codes "cmd_node_exec")) text n ∷ [])
  ask_exec a d ds k rsplen before text n h small configured ran =
      ask-forward a a (al_command (d ∷ ds) (codes "cmd_node_exec")) airline rsplen
        (cmd_mbuf airline (value 0 (d ∷ ds)) (codes "cmd_node_exec")) before _
        (parse_cmd-al_command d ds (codes "cmd_node_exec") h small)
        (subst
          (λ r.
            msgrecv_callback w (cmd_mbuf airline (value 0 (d ∷ ds)) (codes "cmd_node_exec")) a
            ≡ handled a
                (reply (cmd_mbuf airline (value 0 (d ∷ ds)) (codes "cmd_node_exec")) r.0 r.1 ∷ []))
          ran (exec_reply a (value 0 (d ∷ ds)) k configured))

  exec-known :
      (a : Airline Real) (id : ℕ) (ni : Nodeinfo Real)
      → get_node_info id a.config ≡ some ni
      → length ni.node_exec < 2048
      → cmd_node_exec id 2048 a ≡ (ni.node_exec, length ni.node_exec)
  unfolding cmd_node_exec get_node_config_val
  exec-known a id ni known short =
      rw (get_node_config_val, known, take-all 2047 ni.node_exec (omega arith)) refl

  -- An operator who asks Airline for the program of a node it has gets that program, with fewer
  -- than 100 empty rounds in front. The number is in digits and below 65536, `numOfNodes` of the
  -- configuration is a number, and the program has 1 to 2047 bytes and fits the response buffer
  -- with its final 0.
  pub ask-node_exec :
      (a : Airline Real) (d : ℕ) (ds : Bytes) (k : ℤ) (ni : Nodeinfo Real) (rsplen : ℕ)
      (before : List MsgBuf)
      → IsDigits (d ∷ ds)
      → value 0 (d ∷ ds) < 2 ^ 16
      → stoi (get (codes "numOfNodes") a.config) ≡ some k
      → get_node_info (value 0 (d ∷ ds)) a.config ≡ some ni
      → 0 < length ni.node_exec
      → length ni.node_exec < 2048
      → length ni.node_exec < rsplen
      → All IsEmpty before
      → length before < 100
      → ask a (al_command (d ∷ ds) (codes "cmd_node_exec")) rsplen before
        ≡ some (ni.node_exec, length ni.node_exec + 1)
  ask-node_exec a d ds k ni rsplen before h small configured known some_program short fits empties
        rounds =
      let m : MsgBuf =
        reply (cmd_mbuf airline (value 0 (d ∷ ds)) (codes "cmd_node_exec")) ni.node_exec
          (length ni.node_exec) in
      let full : length ni.node_exec % 2 ^ 16 ≢ 0 = omega arith in
      ask_exec a d ds k rsplen before ni.node_exec (length ni.node_exec) h small configured
        (exec-known a (value 0 (d ∷ ds)) ni known short)
      ∙ await_rsp-answer 100 airline rsplen before m [] empties rounds full
      ∙ received-reply rsplen (cmd_mbuf airline (value 0 (d ∷ ds)) (codes "cmd_node_exec"))
          ni.node_exec fits short
