-- ===== src/Canvas/Server/Graph.antt =====
-- canvas/canvas.py, `graph`: the whole way from the state of the simulation to the page's elements.
use whitefield.Base.{
  ℕ, ◌+◌, ◌≤◌, ◌<◌, ◌≡◌, ◌≢◌, ◌^◌, refl, ap, ◌∙◌, true, false, Option, none, some, List, [], ◌∷◌,
  ◌++◌, Bytes, codes, length, take-all, All, All-append, All-map, arith, ltb,
}
use whitefield.Base.Int.{ℤ}
use whitefield.Base.Text.{decimal, stoi}
use whitefield.Commline.Message.{MsgBuf, airline, cl_mgr_id, define_mbuf}
use whitefield.Airline.Config.Lookup.{get}
use whitefield.Airline.Manager.{Airline}
use whitefield.Airline.Manager.Commands.{World}
use whitefield.Airline.Manager.Positions.{file_positions, position_file}
use whitefield.Monitor.{cmd_mbuf}
use whitefield.Monitor.Awaiting.{IsEmpty}
use whitefield.Monitor.Page.{positions_text}
use whitefield.Canvas.Server.{
  Python, ok, elements, position_cmd, query_nodes, query_edges, with_edges, graph_of, graph,
}
use whitefield.Canvas.Server.Words.{IsShown}
use whitefield.Canvas.Server.Reading.{
  Printing, IsInFile, file_positions-AreInFile, nodes_near, read_nodes-file_positions,
}
use whitefield.Canvas.Server.Asking.{
  IsAscii, Utf8, query_nodes-written, Routed, edges_from, query_edges-Routed,
}
use whitefield.Canvas.Server.Parents.{Route, route_text, edges_for-route_text}
use whitefield.Canvas.Server.Starting.{listening, started, main}
use whitefield.Canvas.Server.Configured.{
  IsLine, IsOther, config_text, port_line, get_config-port_line,
}
use whitefield.Canvas.Server.System.{system, system-positions, system-route}
use whitefield.Canvas.Server.Routes.{
  route_cmd-IsAscii, HasRoute, route_text-length, text_for, links_for,
}

module _ {Real : Type 0} (py : Python Real) (show_real : Real → Bytes) (w : World Real)
    (a : Airline Real) where
  -- What is in the file when the server reads it.
  abbrev pub decoded : Option (Bytes × Bytes) → Option Bytes
  decoded none = none
  decoded (some (path, s)) = py.decode s

  -- The file that Airline writes for the server's command, as it is decoded.
  unfoldable pub written : Bytes → Option Bytes
  unfolding position_file
  written path =
      decoded (position_file show_real w (cmd_mbuf airline cl_mgr_id (positions_text path)) a)

module _ {Real : Type 0} (py : Python Real) (utf8 : Utf8 py) (show_real : Real → Bytes)
    (near : Real → Real) (prints : Printing py show_real near) (w : World Real)
    (plays : ℕ → Bytes → ℕ → Bytes → ℕ → Bytes × ℕ) (quiet : List MsgBuf) (a : Airline Real)
    (empties : All IsEmpty quiet) (rounds : length quiet < 100) where
  nodes-Routed :
      (routes : Bytes → Route) (i : ℕ) (places : List (Real × Real × Real))
      → i + length places ≤ 2 ^ 16
      → ((n : ℕ) → n < i + length places → HasRoute plays n (routes (decimal n)))
      → All
          (Routed py utf8 (system w plays quiet a) (text_for routes) (links_for routes))
          (nodes_near near i places)
  nodes-Routed routes i [] few h = tt
  nodes-Routed routes i (place ∷ places) few h =
      let r = routes (decimal i) in
      let here = h i (omega arith) in
      (
        record {
          plain = route_cmd-IsAscii i;
          answer =
              system-route w plays quiet a empties rounds i (route_text r) (omega arith) here.played
                (route_text-length r) (omega (arith, here.fits));
          ascii = All-map IsShown (λ c. c < 128) (λ c hc. omega arith) (route_text r) here.shown;
          no_zero =
              All-map IsShown (λ c. c ≢ 0) (λ c hc e. absurd (omega arith)) (route_text r)
                here.shown;
          has_bytes = route_text-length r;
          fits = here.fits;
          read = edges_for-route_text (decimal i) r here.address;
        },
        nodes-Routed routes (i + 1) places (omega arith) (λ n hn. h n (omega arith)),
      )

  written_lem :
      (c : ℕ) (path : Bytes)
      → w.can_open (c ∷ path) ≡ true
      → length (c ∷ path) ≤ 100
      → written py show_real w a (c ∷ path) ≡ some (file_positions show_real 0xffff 0 a.positions)
  unfolding written position_file define_mbuf
  written_lem c path opens short =
      rw (take-all 4077 path (omega arith), opens)
        (utf8.decodes (file_positions show_real 0xffff 0 a.positions) (
          All-map IsInFile (λ b. b < 128) (λ b hb. omega arith)
            (file_positions show_real 0xffff 0 a.positions)
            (file_positions-AreInFile py show_real near prints 0 a.positions)))

  graph_of-nodes :
      (respond : Bytes → List Bytes) (places : List (Real × Real × Real))
      → 0 < length places
      → graph_of py respond (ok (some (nodes_near near 0 places)))
        ≡ with_edges py respond
            (nodes_near near 0 places)
            (query_edges py respond (nodes_near near 0 places) [])
  graph_of-nodes respond [] some_nodes = absurd (omega arith)
  graph_of-nodes respond (place ∷ places) some_nodes = refl

  module _ (routes : Bytes → Route) (c : ℕ) (path : Bytes) (k : ℤ)
      (configured : stoi (get (codes "numOfNodes") a.config) ≡ some k)
      (opens : w.can_open (c ∷ path) ≡ true) (short : length (c ∷ path) ≤ 100)
      (shown : All IsShown (c ∷ path)) (few : length a.positions ≤ 2 ^ 16)
      (has_routes : (n : ℕ) → n < length a.positions → HasRoute plays n (routes (decimal n))) where
    query_nodes-system :
        query_nodes py (system w plays quiet a) (c ∷ path) (written py show_real w a (c ∷ path))
        ≡ (ok (some (nodes_near near 0 a.positions)), true)
    query_nodes-system =
        let respond = system w plays quiet a in
        let plain : IsAscii (position_cmd (c ∷ path)) =
          All-append (λ b. b < 128) (codes "AL:cmd_node_position:") (c ∷ path) (omega arith)
            (All-map IsShown (λ b. b < 128) (λ b hb. omega arith) (c ∷ path) shown) in
        let answer =
          system-positions w plays quiet a empties rounds c path k configured opens short
            (All-map IsShown (λ b. b ≢ 0) (λ b hb e. absurd (omega arith)) (c ∷ path) shown) in
        ap (query_nodes py respond (c ∷ path)) (written_lem c path opens short)
        ∙ query_nodes-written py utf8 respond (c ∷ path)
            (file_positions show_real 0xffff 0 a.positions) (nodes_near near 0 a.positions) plain
            answer (read_nodes-file_positions py show_real near prints a.positions)

    query_edges-system :
        query_edges py (system w plays quiet a) (nodes_near near 0 a.positions) []
        ≡ ok (edges_from (links_for routes) (nodes_near near 0 a.positions), [])
    query_edges-system =
        query_edges-Routed py utf8 (system w plays quiet a) (text_for routes) (links_for routes)
          (nodes_near near 0 a.positions)
          (nodes-Routed routes 0 a.positions (omega arith) (λ n hn. has_routes n (omega arith)))

    -- The page gets the graph of the simulation: for each node of Airline, in order, its number with
    -- the numbers next to its first two coordinates, and for each node that has a route the edge to
    -- the number that the last field of its stack's answer spells in base 16. `numOfNodes` of the
    -- configuration is a number, Airline can open the server's file, whose path has 1 to 100
    -- printable characters and no blank, there are 1 to 65536 nodes, each stack answers with "[NONE]" or with
    -- an address, in fewer than 64 such characters, Airline and the stacks answer within 100
    -- rounds, UTF-8 leaves ASCII as it is, and a double is written as a word that is read again
    -- as a number.
    pub graph-system :
        0 < length a.positions
        → graph py (system w plays quiet a) (c ∷ path) (written py show_real w a (c ∷ path))
          ≡ ok (
              elements
                (nodes_near near 0 a.positions)
                (edges_from (links_for routes) (nodes_near near 0 a.positions)))
    unfolding graph
    graph-system some_nodes =
        let respond = system w plays quiet a in
        ap (λ r. graph_of py respond r.0) query_nodes-system
        ∙ graph_of-nodes respond a.positions some_nodes
        ∙ ap (with_edges py respond (nodes_near near 0 a.positions)) query_edges-system

    -- The server starts: it comes to listen when the last line of the configuration that sets
    -- MONITOR_PORT gives a number from 1 to 65535, at which the monitor is, and lines have no
    -- carriage return. `numOfNodes` is a number, Airline can open the server's file, whose path has
    -- 1 to 100 printable characters and no blank, there are at most 65536 nodes, each stack answers with "[NONE]"
    -- or with an address, in fewer than 64 such characters, Airline and the stacks answer within
    -- 100 rounds, UTF-8 leaves ASCII as it is, and a double is written as a word that is read
    -- again as a number.
    pub main-listening :
        (respond : ℕ → Bytes → List Bytes) (front back : List Bytes) (n : ℕ)
        → respond n ≡ system w plays quiet a
        → All IsLine front
        → All IsLine back
        → All IsOther back
        → 0 < n
        → n < 2 ^ 16
        → main py
            (some (config_text (front ++ port_line n ∷ back)))
            respond
            (c ∷ path)
            (written py show_real w a (c ∷ path))
          ≡ listening
    unfolding main
    main-listening respond front back n answers hf hb others some_port small =
        let inside : ltb 65535 n ≡ false = ground arith in
        rw
          (
            get_config-port_line front back n hf hb others some_port,
            started,
            inside,
            answers,
            query_nodes-system,
            query_edges-system,
          )
          refl
