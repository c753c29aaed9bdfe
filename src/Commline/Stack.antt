-- ===== src/Commline/Stack.antt =====
-- src/commline/cl_stackline_helpers.c, `sl_handle_cmd`: a stack's answer to a command.
--
-- The commands are functions of the stacks, which are other projects: a parameter. The variant
-- with `dlsym` is not compiled in.
use whitefield.Base.{
  ℕ, ◌-◌, ◌%◌, ◌^◌, Bool, false, ◌||◌, Option, none, some, List, [], ◌∷◌, ◌++◌, Bytes, codes,
  length, take, ltb, if◌then◌else◌,
}
use whitefield.Base.Text.{behind, before, text_eq}
use whitefield.Commline.Message.{MsgBuf, define_mbuf, max_cmd_rsp_sz, mtype, monitor, cl_mgr_id}

abbrev pub stack_commands : List Bytes
stack_commands =
    codes "cmd_rpl_stats"
    ∷ codes "cmd_def_route"
    ∷ codes "cmd_route_table"
    ∷ codes "cmd_rtsize"
    ∷ codes "cmd_node_osname"
    ∷ codes "cmd_ipv6_stats"
    ∷ codes "cmd_nd6_stats"
    ∷ codes "cmd_icmp_stats"
    ∷ codes "cmd_udp_stats"
    ∷ codes "cmd_tcp_stats"
    ∷ codes "cmd_config_info"
    ∷ codes "cmd_start_udp"
    ∷ codes "cmd_get_udpapp_stat"
    ∷ []

abbrev pub is_listed : Bytes → List Bytes → Bool
is_listed cmd [] = false
is_listed cmd (name ∷ names) = text_eq cmd name || is_listed cmd names

-- The command's name and what stands behind its ':'.
abbrev pub command_name : Bytes → Bytes
command_name buf = take 255 (before b':' buf)

abbrev pub command_argument : Bytes → Bytes
command_argument buf = elim (behind b':' buf) [ none ↦ [] | some rest ↦ rest ]

abbrev invalid : Bytes → Bytes
invalid buf = codes "SL_INVALID_CMD(" ++ (take 255 buf ++ codes ")")

-- What is left in `cbuf` before it is sent.
abbrev pub stack_reply : Bytes × ℕ → MsgBuf
stack_reply (text, n) = record (define_mbuf max_cmd_rsp_sz) {
  mtype = mtype monitor cl_mgr_id;
  len = n % 2 ^ 16;
  buf = text;
}

-- A command is called with a node's number, its argument and the size of the buffer; it gives what
-- is in the buffer then, and its length.
module _ (play : Bytes → ℕ → Bytes → ℕ → Bytes × ℕ) where
  -- The number is the one of `cbuf`, which is 0.
  abbrev pub played : Bytes → Bytes → Bytes × ℕ
  played name arg =
      if is_listed name stack_commands
      then play name 0 arg max_cmd_rsp_sz
      else (take (max_cmd_rsp_sz - 1) (invalid arg), length (invalid arg))

  unfoldable pub stack_answer : Bytes → Bytes × ℕ
  stack_answer buf = played (command_name buf) (command_argument buf)

  -- The message that is sent; `none` is a copy behind the end of `cbuf`.
  unfoldable pub sl_handle_cmd : MsgBuf → Option MsgBuf
  unfolding stack_answer define_mbuf mtype
  sl_handle_cmd mbuf =
      if ltb max_cmd_rsp_sz mbuf.len
      then none
      else some (stack_reply (stack_answer (take mbuf.len mbuf.buf)))
