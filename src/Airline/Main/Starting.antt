-- ===== src/Airline/Main/Starting.antt =====
-- src/airline/main.cc: how Airline comes to run the simulator.
use whitefield.Base.{ℕ, true}
use whitefield.Base.Int.{pos}
use whitefield.Commline.Message.{mtype, airline, cl_mgr_id}
use whitefield.Commline.Usock.{Usock, new_usock, usock_init}
use whitefield.Airline.Config.{Config}
use whitefield.Airline.Manager.{Airline}

-- The table with Airline's socket.
abbrev bound_usock : ℕ → Usock
bound_usock fd = (usock_init (mtype airline cl_mgr_id) (pos fd) true new_usock).0
