-- ===== src/Airline/Spawn/Sending.antt =====
-- src/airline/Config.cc, `spawnStackline`: a node's command as a message to the forker.
use whitefield.Base.{ℕ, ◌-◌, ◌%◌, ◌^◌, Option, none, some, [], ◌∷◌, Bytes, length, take, get_elem?}
use whitefield.Commline.Message.{MsgBuf, mtype, cl_mgr_id, commline_max_buf, forker}
use whitefield.Airline.Config.{Config}
use whitefield.Airline.Spawn.{Parsed, parsed, cmd_parser}

-- The message, on the stack of the function: what is not set is in `mbuf` before.
abbrev pub spawn_mbuf : MsgBuf → ℕ → Bytes → MsgBuf
spawn_mbuf mbuf id cmd = record mbuf {
  mtype = mtype forker cl_mgr_id;
  src_id = id;
  len = length cmd % 2 ^ 16;
  buf = take (commline_max_buf - 1) cmd;
}

abbrev pub sending : MsgBuf → ℕ → Parsed → Option MsgBuf
sending mbuf id (parsed cmd) = some (spawn_mbuf mbuf id cmd)
sending mbuf id _ = none

-- The message that is sent. `none` is a command that stops Airline, an empty one included, a command
-- that makes `cmdParser` read behind a buffer, and a number behind the end of `nodeArray`.
unfoldable pub spawn_stackline : {Real : Type 0} → MsgBuf → ℕ → Config Real → Option MsgBuf
unfolding cmd_parser mtype
spawn_stackline mbuf id c = elim (get_elem? c.node_array id) [
  | none ↦ none
  | some ni ↦ elim ni.node_exec [
    | [] ↦ none
    | x ∷ exec ↦ sending mbuf id (cmd_parser (x ∷ exec) id)
  ]
]
