-- ===== src/Canvas/Server/Starting.antt =====
-- canvas/canvas.py: `get_config`, and how the server starts.
use whitefield.Base.{
  ℕ, true, false, Option, none, some, List, [], ◌∷◌, Bytes, codes, ltb, ◌==◌, if◌then◌else◌,
}
use whitefield.Base.Int.{ℤ, pos, negsuc}
use whitefield.Base.Text.{starts_with, text_eq}
use whitefield.Canvas.Server.Strings.{strip, file_lines, partition, int}
use whitefield.Canvas.Server.{
  Result, ok, timed_out, raised, Node, Edge, Python, query_nodes, query_edges,
}

-- CFGINC, with the newest entry first, and what a line of config.inc does to it.
abbrev pub Cfginc : Type 0
Cfginc = List (Bytes × Bytes)

abbrev pub with_setting : Cfginc → Bytes × Bytes → Cfginc
with_setting cfg (name, var) =
    if starts_with (codes "#") name then cfg else (strip name, strip var) ∷ cfg

unfoldable pub read_settings : Cfginc → List Bytes → Cfginc
read_settings cfg [] = cfg
read_settings cfg (line ∷ lines) = read_settings (with_setting cfg (partition b'=' line)) lines

abbrev pub lookup : Bytes → Cfginc → Option Bytes
lookup key [] = none
lookup key ((name, var) ∷ cfg) = elim (text_eq name key) [
  | true ↦ some var
  | false ↦ lookup key cfg
]

-- How `get_config` ends: with MONITOR_PORT, by `sys.exit()`, or by an exception.
pub data Configured : Type 0 where
  port : ℕ → Configured
  exits : Configured
  fails : Configured

abbrev pub checked_port : Option ℤ → Configured
checked_port none = fails
checked_port (some (negsuc n)) = exits
checked_port (some (pos n)) = if n == 0 then exits else port n

abbrev pub port_of : Option Bytes → Configured
port_of none = fails
port_of (some s) = checked_port (int 10 s)

-- The file as it is decoded; `none` when it cannot be opened or decoded.
unfoldable pub get_config : Option Bytes → Configured
unfolding file_lines read_settings int
get_config none = fails
get_config (some s) = port_of (lookup (codes "MONITOR_PORT") (read_settings [] (file_lines s)))

-- The server listens, or the process ends with a status.
pub data Started : Type 0 where
  listening : Started
  ended : ℕ → Started

module _ {Real : Type 0} (py : Python Real) where
  abbrev pub edges_done : Result (List Edge × List Bytes) → Started
  edges_done (ok _) = listening
  edges_done timed_out = ended 255
  edges_done raised = ended 1

  -- `query_edges(query_nodes())`; the loop over None is a TypeError, which is not caught.
  abbrev pub probe : (Bytes → List Bytes) → Result (Option (List (Node Real))) → Started
  probe respond (ok (some ns)) = edges_done (query_edges py respond ns [])
  probe respond (ok none) = ended 1
  probe respond timed_out = ended 255
  probe respond raised = ended 1

  -- The answers depend on the port; a port above 65535 is an OverflowError of `sendto`.
  abbrev pub started : (ℕ → Bytes → List Bytes) → Bytes → Option Bytes → Configured → Started
  started respond path content fails = ended 1
  started respond path content exits = ended 0
  started respond path content (port n) =
      if ltb 65535 n then ended 1 else probe (respond n) (query_nodes py (respond n) path content).0

  unfoldable pub main : Option Bytes → (ℕ → Bytes → List Bytes) → Bytes → Option Bytes → Started
  unfolding get_config query_nodes query_edges
  main config respond path content = started respond path content (get_config config)
