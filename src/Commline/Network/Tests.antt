-- ===== src/Commline/Network/Tests.antt =====
-- Airline and the monitor with bounded queues.
use whitefield.Base.{ℕ, ◌≡◌, refl, true, none, List, [], ◌∷◌, codes, arith}
use whitefield.Base.Int.{pos}
use whitefield.Commline.Message.{MsgBuf, define_mbuf, get_line}
use whitefield.Commline.Usock.{new_usock}
use whitefield.Commline.Network.{Process, Call, init, send, receive, run, call, joined}
use whitefield.Commline.Network.Booking.{delivered_at}
use whitefield.Commline.Network.Sending.{SentOrNot, send-SentOrNot}
use whitefield.Commline.Network.Queues.{Queues, queues}

abbrev airline_type : ℕ
airline_type = 0x2ffff

abbrev monitor_type : ℕ
monitor_type = 0x4ffff

abbrev fresh : Process
fresh = record { table = new_usock; bound_to = λ fd. none }

abbrev ping : MsgBuf
ping = record (define_mbuf 2048) { len = 4; buf = codes "ping" }

-- Both join, the monitor sends twice, and Airline reads once.
abbrev calls : List (ℕ × Call)
calls =
    (0, init airline_type (pos 3) true)
    ∷ (1, init monitor_type (pos 3) true)
    ∷ (1, send airline_type ping 20)
    ∷ (1, send airline_type ping 19)
    ∷ (0, receive airline_type ping 2064)
    ∷ []

abbrev idle : Queues
idle a = []

-- One datagram is delivered, and one waits.
calls_delivered :
    delivered_at airline_type (run (queues 10) calls (fresh ∷ fresh ∷ []) idle).1.events
    ≡ record { mbuf = record ping { mtype = airline_type }; size = 20 } ∷ []
unfolding run call queues define_mbuf get_line
calls_delivered = refl

abbrev bound : Process
bound = joined monitor_type (pos 3) true fresh

send-SentOrNot_example : SentOrNot (queues 10) idle bound airline_type ping 19 (pos 3)
unfolding joined get_line
send-SentOrNot_example =
    send-SentOrNot (queues 10) idle bound airline_type ping 19 4 (pos 3) refl refl (omega arith)
