-- ===== src/Airline/Main/Tests.antt =====
-- Airline with a small configuration file.
use whitefield.Base.{
  ℕ, ◌*◌, ◌/◌, ◌%◌, true, Option, some, none, [], ◌∷◌, Bytes, codes, if◌then◌else◌,
}
use whitefield.Base.Int.{ℤ, pos, negsuc}
use whitefield.Base.Text.{text_eq, value}
use whitefield.Airline.Nodeinfo.{new_nodeinfo}
use whitefield.Airline.Config.{Config}
use whitefield.Airline.Manager.{Airline}
use whitefield.Airline.Manager.Commands.{World}
use whitefield.Airline.Manager.Small.{world}
use whitefield.Airline.Startup.{Allocator, Outside, grid}
use whitefield.Airline.Main.{System}

-- Real numbers are natural ones, and a grid is filled by rows.
abbrev small_world : World ℕ
small_world = record world { stod = λ s. some (value 0 s) }

abbrev quotient : ℕ → ℤ → ℕ
quotient x (pos n) = x / n
quotient x (negsuc n) = 0

abbrev place : Allocator ℕ → ℕ → ℕ × ℕ × ℕ
place (grid dx dy (pos width)) id = (id % width * dx, id / width * dy, 0)
place _ id = (0, 0, 0)

abbrev outside : Outside ℕ
outside = record { world = small_world; divide = quotient; allocate = place; plc_setup = none }

abbrev files : Bytes → Option Bytes
files fname =
    if text_eq fname (codes "grid")
    then some (codes "numOfNodes=3\ntopologyType=grid\ngridWidth=2\nfieldX=20\nfieldY=30\n")
    else none

abbrev system : System ℕ
system = record {
  sock = pos 3;
  bound = true;
  files = files;
  fuel = 1;
  forker = some (codes "forker");
  outside = outside;
}

abbrev grid_config : Config ℕ
grid_config = record {
  node_array = new_nodeinfo ∷ new_nodeinfo ∷ new_nodeinfo ∷ [];
  num_of_nodes = 3;
  keyval =
      (codes "numOfNodes", codes "3")
      ∷ (codes "topologyType", codes "grid")
      ∷ (codes "gridWidth", codes "2")
      ∷ (codes "fieldX", codes "20")
      ∷ (codes "fieldY", codes "30")
      ∷ [];
}
