-- ===== src/Airline/Manager/Positions.antt =====
-- src/airline/NS3/AirlineManager.cc, `cmd_node_position`: the file that it writes.
use whitefield.Base.{
  ℕ, ◌+◌, ◌||◌, Option, none, some, List, [], ◌∷◌, ◌++◌, Bytes, codes, ◌==◌, if◌then◌else◌,
}
use whitefield.Base.Text.{decimal, decimal_digits, starts_nocase}
use whitefield.Commline.Message.{MsgBuf}
use whitefield.Airline.Manager.{Airline}
use whitefield.Airline.Manager.Commands.{World, argument}

-- `show_real` is `<<` of a double.
module _ {Real : Type 0} (show_real : Real → Bytes) where
  abbrev pub coordinates : Real × Real × Real → Bytes
  coordinates (x, y, z) = show_real x ++ b' ' ∷ (show_real y ++ b' ' ∷ (show_real z ++ b'\n' ∷ []))

  abbrev pub file_line : ℕ → Real × Real × Real → Bytes
  file_line i place = codes "Node " ++ (decimal i ++ (codes " Location= " ++ coordinates place))

  -- The loop over the nodes from number `i`, where a file is open.
  unfoldable pub file_positions : ℕ → ℕ → List (Real × Real × Real) → Bytes
  unfolding decimal_digits
  file_positions id i [] = []
  file_positions id i (place ∷ places) =
      let rest = file_positions id (i + 1) places in
      if id == 0xffff || id == i then file_line i place ++ rest else rest

  abbrev pub file_at : World Real → ℕ → Airline Real → Bytes → Option (Bytes × Bytes)
  file_at w id a [] = none
  file_at w id a (c ∷ path) =
      if w.can_open (c ∷ path) then some (c ∷ path, file_positions id 0 a.positions) else none

  -- The file that a command for Airline makes, with what is in it, where `numOfNodes` is a number.
  unfoldable pub position_file : World Real → MsgBuf → Airline Real → Option (Bytes × Bytes)
  unfolding file_positions
  position_file w mbuf a =
      if starts_nocase (codes "cmd_node_exec") mbuf.buf
      then none
      else if starts_nocase (codes "cmd_node_position") mbuf.buf
      then file_at w mbuf.src_id a (argument mbuf.buf)
      else none
