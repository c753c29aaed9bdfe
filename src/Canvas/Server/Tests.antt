-- ===== src/Canvas/Server/Tests.antt =====
-- Runs of the server, and the theorems at a small simulation.
use whitefield.Base.{
  ℕ, zero, suc, ◌<◌, ◌≡◌, refl, ap, Option, none, some, List, [], ◌∷◌, Bytes, codes, ◌==◌,
  if◌then◌else◌, arith,
}
use whitefield.Base.Int.{ℤ, pos, negsuc}
use whitefield.Base.Text.{decimal, decimal_digits, text_eq, Lacks-lacks}
use whitefield.Commline.Message.{MsgBuf, define_mbuf}
use whitefield.Airline.Config.Lookup.{get}
use whitefield.Airline.Manager.{Airline}
use whitefield.Airline.Manager.Small.{world, airline}
use whitefield.Airline.Manager.Positions.{file_positions}
use whitefield.Canvas.Server.Strings.{file_lines, int, digits_from}
use whitefield.Canvas.Server.{
  Python, ok, elements, status_500, graph, read_nodes, edges_for, edge_to,
}
use whitefield.Canvas.Server.Reading.{
  Printing, nodes_near, read_nodes-file_positions, decimal-IsWord,
}
use whitefield.Canvas.Server.Starting.{listening, ended, exits, fails, main, get_config}
use whitefield.Canvas.Server.Configured.{config_text, port_line, int-decimal, get_config-port_line}
use whitefield.Canvas.Server.Asking.{Utf8, answered_by, edges_from}
use whitefield.Canvas.Server.Parents.{Route, no_route, via}
use whitefield.Canvas.Server.Refused.{refused-ends}
use whitefield.Canvas.Server.System.{system}
use whitefield.Canvas.Server.Routes.{HasRoute, links_for}
use whitefield.Canvas.Server.Graph.{written, graph-system, main-listening}

abbrev natural_of : Option ℤ → Option ℕ
natural_of none = none
natural_of (some (pos n)) = some n
natural_of (some (negsuc n)) = none

abbrev natural : Bytes → Option ℕ
natural s = natural_of (int 10 s)

-- Coordinates are natural numbers in decimal digits, and texts are ASCII.
abbrev python : Python ℕ
python = record { encode = some; decode = some; to_float = natural }

python-Utf8 : Utf8 python
python-Utf8 = record { encodes = λ s h. refl; decodes = λ s h. refl }

python-Printing : Printing python decimal (λ n. n)
python-Printing = record {
  are_shown = λ n. (decimal-IsWord n).0;
  has_bytes = λ n. (decimal-IsWord n).1;
  is_read = λ n. ap natural_of (int-decimal n);
}

-- Two nodes, of which the second has the first as its parent.
abbrev pair : Airline ℕ
pair = record airline { positions = (1, 2, 3) ∷ (40, 5, 6) ∷ [] }

abbrev routes : Bytes → Route
routes id = if text_eq id (codes "0") then no_route else via (codes "fe80:") (codes "00")

abbrev plays : ℕ → Bytes → ℕ → Bytes → ℕ → Bytes × ℕ
plays n name id arg max_len = if n == 0 then (codes "[NONE]", 6) else (codes "fe80::00", 8)

pair-HasRoute : (n : ℕ) → n < 2 → HasRoute plays n (routes (decimal n))
unfolding decimal_digits
pair-HasRoute zero h = record {
  played = refl;
  address = tt;
  shown = omega arith;
  fits = omega arith;
}
pair-HasRoute (suc zero) h = record {
  played = refl;
  address = (omega arith, (refl, (refl, tt)));
  shown = omega arith;
  fits = omega arith;
}
pair-HasRoute (suc (suc n)) h = absurd (omega arith)

abbrev silence : List MsgBuf
silence = define_mbuf 4096 ∷ []

graph-system_example :
    graph python
      (system world plays silence pair)
      (codes "/tmp/a")
      (written python decimal world pair (codes "/tmp/a"))
    ≡ ok (
        elements
          (nodes_near (λ n. n) 0 pair.positions)
          (edges_from (links_for routes) (nodes_near (λ n. n) 0 pair.positions)))
unfolding get define_mbuf
graph-system_example =
    graph-system python python-Utf8 decimal (λ n. n) python-Printing world plays silence pair
      (refl, tt) (omega arith) routes b'/' (codes "tmp/a") (pos 1) refl refl (omega arith)
      (omega arith) (omega arith) pair-HasRoute (omega arith)

-- The server's configuration, as the setup writes it.
abbrev config : Bytes
config =
    config_text (codes "# ports" ∷ codes "MONITOR_PORT=1" ∷ (port_line 64530 ∷ codes "LOG=x" ∷ []))

abbrev at_port : ℕ → Bytes → List Bytes
at_port n = if n == 64530 then system world plays silence pair else λ cmd. []

main-listening_example :
    main python
      (some config)
      at_port
      (codes "/tmp/a")
      (written python decimal world pair (codes "/tmp/a"))
    ≡ listening
unfolding get define_mbuf
main-listening_example =
    main-listening python python-Utf8 decimal (λ n. n) python-Printing world plays silence pair
      (refl, tt) (omega arith) routes b'/' (codes "tmp/a") (pos 1) refl refl (omega arith)
      (omega arith) (omega arith) pair-HasRoute at_port
      (codes "# ports" ∷ codes "MONITOR_PORT=1" ∷ []) (codes "LOG=x" ∷ []) 64530 refl (grind arith)
      (grind arith) (refl, tt) (omega arith) (omega arith)

-- An Airline that cannot open the file.
abbrev unwritten : ℕ → Bytes → List Bytes
unwritten n cmd = answered_by (codes "could not open file /tmp/a and more")

refused-ends_example :
    (graph python (unwritten 64530) (codes "/tmp/a") none ≡ ok status_500)
    × (main python (some config) unwritten (codes "/tmp/a") none ≡ ended 1)
refused-ends_example =
    refused-ends python python-Utf8 (unwritten 64530) (codes "/tmp/a")
      (codes "could not open file /tmp/a and more") (omega arith) refl (omega arith)
      (Lacks-lacks 0 (codes "could not open file /tmp/a and more") refl) (omega arith) refl
      (some config) none unwritten 64530 refl
      (get_config-port_line (codes "# ports" ∷ codes "MONITOR_PORT=1" ∷ []) (codes "LOG=x" ∷ [])
        64530 (grind arith) (grind arith) (refl, tt) (omega arith))
      (omega arith)

read_nodes-file_positions_example :
    read_nodes python (file_lines (file_positions decimal 0xffff 0 pair.positions))
    ≡ some (nodes_near (λ n. n) 0 pair.positions)
read_nodes-file_positions_example =
    read_nodes-file_positions python decimal (λ n. n) python-Printing pair.positions

-- A node, its parent in base 16, and answers that are no number.
parent_of : edges_for (codes "3") (codes "fe80::0_1F") ≡ some (edge_to (codes "3") (pos 31) ∷ [])
unfolding int digits_from
parent_of = refl

no_parent : edges_for (codes "3") (codes "fe80::") ≡ none
unfolding int digits_from
no_parent = refl

-- Without MONITOR_PORT the start ends by an exception, with a port of 0 by a message.
no_port : get_config (some (codes "A=1\r\nB=2")) ≡ fails
unfolding get_config
no_port = refl

port_zero : get_config (some (codes " MONITOR_PORT = 0 ")) ≡ exits
unfolding get_config
port_zero = refl

-- The elements of the pair: two nodes, and the edge "1-0".
pair_nodes :
    nodes_near (λ n. n) 0 pair.positions
    ≡ record { id = codes "0"; x = 1; y = 2 } ∷ record { id = codes "1"; x = 40; y = 5 } ∷ []
unfolding decimal_digits
pair_nodes = refl

pair_edges :
    edges_from (links_for routes) (nodes_near (λ n. n) 0 pair.positions)
    ≡ record { id = codes "1-0"; source = codes "1"; target = codes "0" } ∷ []
unfolding decimal_digits
pair_edges = refl
