-- ===== src/Monitor/Tests.antt =====
-- An operator who asks a small Airline.
use whitefield.Base.{ℕ, Bytes, length, inl, inr, ◌∷◌, [], List, ◌≡◌, refl, some, codes, arith}
use whitefield.Base.Int.{pos}
use whitefield.Commline.Message.{MsgBuf, define_mbuf}
use whitefield.Airline.Nodeinfo.{new_nodeinfo}
use whitefield.Airline.Config.Lookup.{get, get_node_info}
use whitefield.Airline.Manager.Small.{world, airline}
use whitefield.Monitor.Stacks.{
  Among, thirteen, ask_stack, sl_command, with_argument, ask_stack-sl_command,
}
use whitefield.Base.Text.{Lacks, Lacks-lacks}
use whitefield.Monitor.Client.{seen}
use whitefield.Monitor.Client.Seen.{exec_command, seen-node_exec}
use whitefield.Monitor.Answers.{asked}
use whitefield.Monitor.{parse_cmd}
use whitefield.Monitor.Thread.{Request, framed, Answers, monitor_thread, monitor_thread-Answers}

-- One round in which nothing has arrived.
abbrev silence : List MsgBuf
silence = define_mbuf 4096 ∷ []

-- A stack whose commands give their argument back.
abbrev echo : Bytes → ℕ → Bytes → ℕ → Bytes × ℕ
echo name id arg max_len = (arg, length arg)

abbrev start_udp : Bytes
start_udp = codes "cmd_start_udp"

start_udp-Lacks : Lacks b':' start_udp
start_udp-Lacks = Lacks-lacks b':' start_udp refl

start_udp-Among : Among start_udp thirteen
start_udp-Among = inr (inr (inr (inr (inr (inr (inr (inr (inr (inr (inr (inl refl)))))))))))

ask_stack-sl_command_example :
    ask_stack echo (sl_command (codes "3") (with_argument start_udp (codes "on"))) 4096 silence
    ≡ some (codes "on", 3)
unfolding define_mbuf
ask_stack-sl_command_example =
    ask_stack-sl_command echo b'3' [] start_udp (codes "on") (codes "on") 4096 2 silence (refl, tt)
      (omega arith) start_udp-Lacks (omega arith) (omega arith) (inl (start_udp-Among, refl))
      (omega arith) (omega arith) (omega arith) (refl, tt) (omega arith)

-- A question to Airline, a datagram without bytes, and a command for no line.
abbrev requests : List Request
requests =
    record { size = pos 16; text = codes "AL:cmd_node_exec"; arrivals = silence }
    ∷ record { size = pos 0; text = []; arrivals = [] }
    ∷ record { size = pos 2; text = codes "XL"; arrivals = [] }
    ∷ []

monitor_thread-Answers_example :
    (answers : List Bytes) × (monitor_thread requests ≡ some (framed answers))
    × Answers requests answers
unfolding define_mbuf
monitor_thread-Answers_example = monitor_thread-Answers requests ((omega arith, tt), (tt, (tt, tt)))

two_answers :
    monitor_thread requests ≡ some (framed (codes "NO_RSP_FROM_LINE:2" ∷ codes "INVALID_LINE" ∷ []))
unfolding monitor_thread define_mbuf
two_answers = refl

seen-node_exec_example :
    seen
      (exec_command (codes "0"))
      (asked world airline silence (parse_cmd (exec_command (codes "0"))))
    ≡ some (codes "mote")
unfolding get get_node_info define_mbuf
seen-node_exec_example =
    seen-node_exec world airline b'0' [] (pos 1) (record new_nodeinfo { node_exec = codes "mote" })
      silence (refl, tt) (omega arith) (omega arith) refl refl (omega arith) (omega arith)
      (Lacks-lacks 0 (codes "mote") refl) refl (refl, tt) (omega arith)
