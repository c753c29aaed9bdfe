-- ===== src/Monitor/Page.antt =====
-- src/utils/monitor.c with Airline and with the stacks: the answers to the commands that the server
-- of the page sends, for the positions and for the route of a node.
use whitefield.Base.{
  ℕ, ◌+◌, ◌≤◌, ◌<◌, ◌≡◌, ◌≢◌, ◌^◌, ◌%◌, refl, ap, ◌∙◌, true, some, List, [], ◌∷◌, ◌++◌, Bytes,
  codes, length, take-all, All, arith,
}
use whitefield.Base.Int.{ℤ}
use whitefield.Base.Text.{stoi, value, IsDigits, before}
use whitefield.Commline.Message.{
  MsgBuf, airline, stackline, cl_mgr_id, define_mbuf, max_cmd_rsp_sz, mtype,
}
use whitefield.Commline.Stack.{stack_answer, stack_reply, sl_handle_cmd}
use whitefield.Airline.Config.Lookup.{get}
use whitefield.Airline.Manager.{Airline}
use whitefield.Airline.Manager.Commands.{World, handle_cmd, cmd_node_position}
use whitefield.Airline.Manager.Handling.{handled, reply, msgrecv_callback}
use whitefield.Monitor.{parse_cmd, cmd_mbuf}
use whitefield.Monitor.Answers.{ask, ask-forward}
use whitefield.Monitor.Awaiting.{await_rsp-answer, received-reply, IsEmpty}
use whitefield.Monitor.Stacks.{
  ask_stack, ask_stack-forward, received_reply, parse_cmd-sl_command, sl_command,
}

abbrev pub positions_text : Bytes → Bytes
positions_text path = codes "cmd_node_position:" ++ path

module _ {Real : Type 0} (w : World Real) where
  positions_reply :
      (a : Airline Real) (c : ℕ) (path : Bytes) (k : ℤ)
      → stoi (get (codes "numOfNodes") a.config) ≡ some k
      → w.can_open (c ∷ path) ≡ true
      → length (c ∷ path) ≤ 100
      → msgrecv_callback w (cmd_mbuf airline cl_mgr_id (positions_text (c ∷ path))) a
        ≡ handled a (
            reply (cmd_mbuf airline cl_mgr_id (positions_text (c ∷ path))) (codes "SUCCESS") 7 ∷ [])
  unfolding msgrecv_callback mtype define_mbuf handle_cmd cmd_node_position
  positions_reply a c path k configured opens short =
      rw (configured, msgrecv_callback, handle_cmd, take-all 4077 path (omega arith), opens) refl

  -- Airline says that it has written the file.
  pub ask-positions :
      (a : Airline Real) (c : ℕ) (path : Bytes) (k : ℤ) (before : List MsgBuf)
      → stoi (get (codes "numOfNodes") a.config) ≡ some k
      → w.can_open (c ∷ path) ≡ true
      → length (c ∷ path) ≤ 100
      → All IsEmpty before
      → length before < 100
      → ask w a (codes "AL:" ++ positions_text (c ∷ path)) max_cmd_rsp_sz before
        ≡ some (codes "SUCCESS", 8)
  unfolding parse_cmd
  ask-positions a c path k before configured opens short empties rounds =
      let m = cmd_mbuf airline cl_mgr_id (positions_text (c ∷ path)) in
      let full : (reply m (codes "SUCCESS") 7).len ≢ 0 = omega arith in
      ask-forward w a a (codes "AL:" ++ positions_text (c ∷ path)) airline max_cmd_rsp_sz m before
        (reply m (codes "SUCCESS") 7 ∷ []) refl (positions_reply a c path k configured opens short)
      ∙ await_rsp-answer 100 airline max_cmd_rsp_sz before (reply m (codes "SUCCESS") 7) [] empties
          rounds full
      ∙ received-reply max_cmd_rsp_sz m (codes "SUCCESS") (omega arith) (omega arith)

module _ (play : Bytes → ℕ → Bytes → ℕ → Bytes × ℕ) where
  route_reply :
      (id : ℕ) (text : Bytes)
      → play (codes "cmd_def_route") 0 [] max_cmd_rsp_sz ≡ (text, length text)
      → sl_handle_cmd play (cmd_mbuf stackline id (codes "cmd_def_route"))
        ≡ some (stack_reply (text, length text))
  unfolding define_mbuf sl_handle_cmd stack_answer
  route_reply id text answer = ap (λ r. some (stack_reply r)) answer

  -- The stack's answer about its route.
  pub ask_stack-route :
      (d : ℕ) (ds text : Bytes) (before : List MsgBuf)
      → IsDigits (d ∷ ds)
      → value 0 (d ∷ ds) < 2 ^ 16
      → play (codes "cmd_def_route") 0 [] max_cmd_rsp_sz ≡ (text, length text)
      → 0 < length text
      → length text < 4096
      → All IsEmpty before
      → length before < 100
      → ask_stack play (sl_command (d ∷ ds) (codes "cmd_def_route")) max_cmd_rsp_sz before
        ≡ some (text, length text + 1)
  ask_stack-route d ds text before h small answer some_bytes short empties rounds =
      let whole : length text % 2 ^ 16 ≡ length text = omega arith in
      let full : (stack_reply (text, length text)).len ≢ 0 = omega arith in
      ask_stack-forward play (sl_command (d ∷ ds) (codes "cmd_def_route")) stackline max_cmd_rsp_sz
        (cmd_mbuf stackline (value 0 (d ∷ ds)) (codes "cmd_def_route"))
        (stack_reply (text, length text)) before
        (parse_cmd-sl_command d ds (codes "cmd_def_route") h small)
        (route_reply (value 0 (d ∷ ds)) text answer)
      ∙ await_rsp-answer 100 stackline max_cmd_rsp_sz before (stack_reply (text, length text)) []
          empties rounds full
      ∙ received_reply max_cmd_rsp_sz text (length text) (omega arith) (omega arith)
      ∙ ap (λ t. some (t, length text + 1)) (take-all (length text) text (omega arith))
