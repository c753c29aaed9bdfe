-- ===== src/Monitor/Client.antt =====
-- src/utils/udp_cmd.c: the client that sends an operator's command to the monitor.
--
-- The datagrams that arrive before the socket's timeout are an argument, and so is what the system
-- answers to the calls before.
pub mod Seen
use whitefield.Base.{
  ℕ, zero, suc, ◌+◌, ◌≤◌, ◌<◌, ◌≡◌, ◌≢◌, refl, sym, ap, ◌∙◌, subst, Bool, true, false, ◌&&◌, Option,
  none, some, List, [], ◌∷◌, ◌++◌, Bytes, codes, length, take, take-all, replicate, min, leb, ◌==◌,
  if◌then◌else◌, All, All-append, arith, length-append, append-nil, Bool-cases, inl, inr, ◌^◌,
}
use whitefield.Base.Int.{ℤ, pos, is_positive}
use whitefield.Base.Text.{
  before, before-append, starts_nocase, tolower, Lacks, Lacks-lacks, IsDigits, value, digits-Lacks,
  stoi,
}
use whitefield.Commline.Message.{MsgBuf, max_cmd_rsp_sz}
use whitefield.Airline.Nodeinfo.{Nodeinfo}
use whitefield.Airline.Config.Lookup.{get, get_node_info}
use whitefield.Airline.Manager.{Airline}
use whitefield.Airline.Manager.Commands.{World}
use whitefield.Monitor.{parse_cmd, fwd_cmd_on_commline}
use whitefield.Monitor.Answers.{ask, asked, al_command, ask-node_exec}
use whitefield.Monitor.Awaiting.{IsEmpty}
use whitefield.Monitor.Thread.{Request, cmd_of, end_of_rsp, datagram, sent_for, monitor_round}

-- `n >= 3 && !strncasecmp(buf, "END", 3)`.
abbrev pub is_end : Bytes → Bool
is_end d = leb 3 (length d) && starts_nocase (codes "END") d

-- "%.*s" of a datagram in a buffer of 8192 bytes stops at a 0.
abbrev pub shown : Bytes → Bytes
shown d = before 0 (take 8192 d)

-- What the loop prints.
unfoldable pub print_responses : List Bytes → Bytes
print_responses [] = []
print_responses (d ∷ ds) =
    let rest = print_responses ds in if is_end (take 8192 d) then [] else shown d ++ rest

-- The status, the datagram that is sent, and what is printed.
pub record ClientRun : Type 0 where
  pub status : ℕ
  pub sent : Option Bytes
  pub printed : Bytes

abbrev stopped : ClientRun
stopped = record { status = 1; sent = none; printed = [] }

-- Whether the host is known, and whether `socket` and `sendto` succeed.
unfoldable pub udp_cmd : List Bytes → Bool → Bool → Bool → List Bytes → ClientRun
unfolding print_responses
udp_cmd (name ∷ host ∷ port ∷ message ∷ rest) known opened granted datagrams =
    if known
    then (if opened
        then (if granted
            then record { status = 0; sent = some message; printed = print_responses datagrams }
            else stopped)
        else stopped)
    else stopped
udp_cmd _ known opened granted datagrams = stopped

-- A command as the monitor receives it.
abbrev pub request : Bytes → List MsgBuf → Request
request cmd arrivals = record { size = pos (length cmd); text = cmd; arrivals = arrivals }

abbrev pub printed_for : Option (List Bytes) → Option Bytes
printed_for none = none
printed_for (some datagrams) = some (print_responses datagrams)

-- What an operator sees of a command; `none` is a write behind the monitor's response buffer.
unfoldable pub seen : Bytes → List MsgBuf → Option Bytes
unfolding print_responses monitor_round
seen cmd arrivals = printed_for (monitor_round (request cmd arrivals))
