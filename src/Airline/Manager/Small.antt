-- ===== src/Airline/Manager/Small.antt =====
-- A small Airline, for runs.
use whitefield.Base.{ℕ, true, some, [], ◌∷◌, codes, length}
use whitefield.Airline.Nodeinfo.{new_nodeinfo}
use whitefield.Airline.Iface.Handler.{null_iface}
use whitefield.Airline.Manager.{Airline}
use whitefield.Airline.Manager.Commands.{World}

-- Positions are numbers that are printed as nothing; power line is not compiled in.
abbrev pub world : World ℕ
world = record {
  now = 9;
  zero_real = 0;
  stod = λ s. some (length s);
  show_place = λ place. [];
  can_open = λ path. true;
  plc = null_iface;
}

abbrev pub airline : Airline ℕ
airline = record {
  config = record {
    node_array = record new_nodeinfo { node_exec = codes "mote" } ∷ [];
    num_of_nodes = 1;
    keyval = (codes "numOfNodes", codes "1") ∷ [];
  };
  is_inited = true;
  tv = 0;
  ctx = record { devices = []; requests = [] };
  positions = (1, 2, 3) ∷ [];
}
