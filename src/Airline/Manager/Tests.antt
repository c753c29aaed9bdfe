-- ===== src/Airline/Manager/Tests.antt =====
-- A small Airline at concrete messages.
use whitefield.Base.{◌≡◌, refl, some, [], ◌∷◌, codes, arith}
use whitefield.Commline.Message.{MsgBuf, define_mbuf, mbuf_is_cmd}
use whitefield.Airline.Manager.Small.{world, airline}
use whitefield.Airline.Manager.Handling.{reply, msgrecv_callback, msg_reader}
use whitefield.Airline.Manager.Unchanged.{Keeps}
use whitefield.Airline.Manager.Keeping.{msgrecv_callback-Keeps}
use whitefield.Airline.Manager.Draining.{
  Served, idle, pass, serve, ticks, HasServed, ticks_drain, msg_reader_prefix,
}

abbrev nothing : MsgBuf
nothing = define_mbuf 2048

-- The monitor's question for the program of node 0.
abbrev question : MsgBuf
question = record nothing { flags = mbuf_is_cmd; len = 13; buf = codes "cmd_node_exec" }

-- Node 1 is placed.
abbrev placing : MsgBuf
placing = record nothing {
  flags = mbuf_is_cmd;
  src_id = 1;
  buf = codes "cmd_set_node_position 7 8";
}

msgrecv_callback-Keeps_example : Keeps 1 airline (msgrecv_callback world placing airline)
msgrecv_callback-Keeps_example = msgrecv_callback-Keeps world airline placing

question-Served :
    Served world airline (nothing ∷ question ∷ []) airline (reply question (codes "mote") 4 ∷ [])
unfolding msgrecv_callback define_mbuf
question-Served =
    pass airline nothing (question ∷ []) airline (reply question (codes "mote") 4 ∷ []) refl (
      serve airline airline question [] (reply question (codes "mote") 4 ∷ []) airline []
        (omega arith) refl (idle airline))

ticks_drain_example :
    ticks world 2 (record { airline = airline; sent = []; waiting = nothing ∷ question ∷ [] })
    ≡ some (record { airline = airline; sent = reply question (codes "mote") 4 ∷ []; waiting = [] })
ticks_drain_example =
    ticks_drain world airline airline (nothing ∷ question ∷ [])
      (reply question (codes "mote") 4 ∷ []) question-Served

msg_reader_prefix_example :
    HasServed world airline
      (nothing ∷ question ∷ [])
      []
      (record { airline = airline; sent = []; waiting = question ∷ [] })
unfolding msg_reader define_mbuf
msg_reader_prefix_example =
    msg_reader_prefix world airline (nothing ∷ question ∷ [])
      (record { airline = airline; sent = []; waiting = question ∷ [] }) refl
