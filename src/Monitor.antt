-- ===== src/Monitor.antt =====
-- src/utils/monitor.c: operator commands as messages, and the answers that come back.
--
-- A command is a text of at most 127 bytes. What `cl_recvfrom_q` leaves in the buffer in each of the
-- 100 rounds is an argument; the sockets and the thread are left out.
pub mod Awaiting
pub mod Answers
pub mod Stacks
pub mod Thread
pub mod Client
pub mod Page
mod Tests
use whitefield.Base.{
  ℕ, zero, suc, ◌+◌, ◌-◌, ◌%◌, ◌^◌, Bool, true, false, Option, none, some, List, [], ◌∷◌, ◌++◌,
  Bytes, codes, length, take, leb, ltb, ◌==◌, if◌then◌else◌, min,
}
use whitefield.Base.Int.{u16_of}
use whitefield.Base.Text.{decimal, decimal_digits, behind, is_digit, atoi, starts_nocase}
use whitefield.Commline.Message.{
  MsgBuf, define_mbuf, max_cmd_rsp_sz, mbuf_is_cmd, airline, stackline, cl_mgr_id, mtype,
}

-- What `fwd_cmd_on_commline` makes of a command: a text for the operator, or a message.
pub data Parsed : Type 0 where
  refused : Bytes → Parsed
  forward : ℕ → MsgBuf → Parsed

-- The message for a line: STACKLINE goes to the node, AIRLINE to its manager.
abbrev pub cmd_mbuf : ℕ → ℕ → Bytes → MsgBuf
cmd_mbuf line src_id cmd = record (define_mbuf max_cmd_rsp_sz) {
  mtype = mtype line (if line == stackline then src_id else cl_mgr_id);
  src_id = src_id;
  flags = mbuf_is_cmd;
  len = length cmd % 2 ^ 16;
  buf = take max_cmd_rsp_sz cmd;
}

abbrev starts_digit : Bytes → Bool
starts_digit [] = false
starts_digit (c ∷ s) = is_digit c

-- `ptr` is the command behind its first ':'.
abbrev to_line : ℕ → Bytes → Parsed
to_line line ptr =
    if starts_digit ptr
    then (elim (behind b':' ptr) [
      | none ↦ refused (codes "INVALID_CMD")
      | some cmd ↦ forward line (cmd_mbuf line (u16_of (atoi ptr)) cmd)
    ])
    else forward line (cmd_mbuf line cl_mgr_id ptr)

abbrev behind_colon : Bytes → Bytes
behind_colon cmd = elim (behind b':' cmd) [ none ↦ [] | some ptr ↦ ptr ]

unfoldable pub parse_cmd : Bytes → Parsed
unfolding define_mbuf mtype
parse_cmd cmd =
    if starts_nocase (codes "AL:") cmd
    then to_line airline (behind_colon cmd)
    else if starts_nocase (codes "SL:") cmd
    then to_line stackline (behind_colon cmd)
    else refused (codes "INVALID_LINE")

-- The response and the number of bytes that are returned to the operator; `none` is a write behind
-- the end of the response buffer.
abbrev pub received : ℕ → MsgBuf → Option (Bytes × ℕ)
received rsplen mbuf =
    if leb rsplen mbuf.len then none else some (take mbuf.len mbuf.buf, (mbuf.len + 1) % 2 ^ 16)

abbrev pub no_rsp : ℕ → Option (Bytes × ℕ)
no_rsp line =
    some (
      codes "NO_RSP_FROM_LINE:" ++ decimal line,
      length (codes "NO_RSP_FROM_LINE:" ++ decimal line),
    )

-- `while (c++ < 100)`, with the rounds that are left and what is received in them.
unfoldable pub await_rsp : ℕ → ℕ → ℕ → List MsgBuf → Option (Bytes × ℕ)
unfolding decimal_digits
await_rsp zero line rsplen arrivals = no_rsp line
await_rsp (suc rounds) line rsplen [] = no_rsp line
await_rsp (suc rounds) line rsplen (mbuf ∷ arrivals) =
    let rest = await_rsp rounds line rsplen arrivals in
    if mbuf.len == 0 then rest else received rsplen mbuf

-- What a refusal prints, or the answer that is waited for.
unfoldable pub perform : ℕ → List MsgBuf → Parsed → Option (Bytes × ℕ)
unfolding await_rsp
perform rsplen arrivals (refused text) = some (text, length text)
perform rsplen arrivals (forward line mbuf) = await_rsp 100 line rsplen arrivals

unfoldable pub fwd_cmd_on_commline : Bytes → ℕ → List MsgBuf → Option (Bytes × ℕ)
unfolding parse_cmd perform
fwd_cmd_on_commline cmd rsplen arrivals = perform rsplen arrivals (parse_cmd cmd)
