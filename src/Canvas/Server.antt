-- ===== src/Canvas/Server.antt =====
-- canvas/canvas.py: the server that asks the monitor for the nodes and their routes, and answers the
-- page with the graph.
--
-- Texts are lists of code points. What arrives on a socket for a datagram that is sent is an
-- argument; a receive that finds nothing is the timeout. An exception ends a function, so a
-- function gives a value, the timeout or another exception. `mkstemp`, `sendto` and `os.remove`
-- succeed. Bottle is not the program's.
mod Strings
pub mod Words
pub mod Reading
pub mod Starting
pub mod Asking
pub mod Parents
pub mod Configured
pub mod Refused
pub mod Routes
pub mod System
pub mod Graph
mod Tests
use whitefield.Base.{
  ℕ, ◌+◌, Bool, true, false, ◌&&◌, ◌||◌, Option, none, some, List, [], ◌∷◌, ◌++◌, Bytes, codes,
  take, ltb, ◌==◌, if◌then◌else◌,
}
use whitefield.Base.Int.{ℤ, pos, negsuc, is_positive}
use whitefield.Base.Text.{text_eq, starts_with}
use whitefield.Canvas.Server.Strings.{
  strip, strip_by, split_words, file_lines, partition, last_field, int, str,
}

-- How a function ends.
pub data Result (A : Type 0) : Type 0 where
  ok : A → Result A
  timed_out : Result A
  raised : Result A

-- The datagrams that wait on a socket are the state.
abbrev pub Action : Type 0 → Type 0
Action A = List Bytes → Result (A × List Bytes)

infixl 5 ◌>>=◌ ◌>>◌
abbrev pub ◌>>=◌ : {A B : Type 0} → Action A → (A → Action B) → Action B
◌>>=◌ m f q = elim (m q) [ ok r ↦ f r.0 r.1 | timed_out ↦ timed_out | raised ↦ raised ]

abbrev pub ◌>>◌ : {A B : Type 0} → Action A → Action B → Action B
m >> k = m >>= λ _. k

abbrev pub pure : {A : Type 0} → A → Action A
pure a q = ok (a, q)

abbrev pub or_raise : {A : Type 0} → Option A → Action A
or_raise none q = raised
or_raise (some a) q = ok (a, q)

-- `recv(n)`, which cuts a longer datagram.
abbrev pub recv : ℕ → Action Bytes
recv n [] = timed_out
recv n (d ∷ q) = ok (take n d, q)

-- An element of `nodes` and an element of `edges`.
pub record Node (Real : Type 0) : Type 0 where
  pub id : Bytes
  pub x : Real
  pub y : Real

pub record Edge : Type 0 where
  pub id : Bytes
  pub source : Bytes
  pub target : Bytes

-- What /graph answers: the elements, or status 500.
pub data Answer (Real : Type 0) : Type 0 where
  elements : List (Node Real) → List Edge → Answer Real
  status_500 : Answer Real

-- `encode` and `decode` of UTF-8 and `float`; `none` is the exception.
pub record Python (Real : Type 0) : Type 0 where
  pub encode : Bytes → Option Bytes
  pub decode : Bytes → Option Bytes
  pub to_float : Bytes → Option Real

abbrev pub position_cmd : Bytes → Bytes
position_cmd path = codes "AL:cmd_node_position:" ++ path

abbrev pub route_cmd : Bytes → Bytes
route_cmd id = codes "SL:" ++ (id ++ codes ":cmd_def_route")

-- `.strip('\0')`.
abbrev pub strip_zeros : Bytes → Bytes
strip_zeros s = strip_by (λ c. c == 0) s

-- The edge from a node to the parent in an answer; `none` is the ValueError of `int`.
abbrev pub edge_to : Bytes → ℤ → Edge
edge_to id parent = record { id = id ++ b'-' ∷ str parent; source = id; target = str parent }

abbrev pub edge_of : Bytes → Bytes → Option Edge
edge_of id rsp = elim (int 16 (last_field b':' rsp)) [ none ↦ none | some n ↦ some (edge_to id n) ]

-- `edges.append`, unless the node has no route.
abbrev pub edges_for : Bytes → Bytes → Option (List Edge)
edges_for id rsp =
    if text_eq rsp (codes "[NONE]")
    then some []
    else elim (edge_of id rsp) [ none ↦ none | some e ↦ some (e ∷ []) ]

module _ {Real : Type 0} (py : Python Real) where
  -- `_, node_id, _, x, y, _ = line.split()` and what is made of it.
  abbrev pub node_at : Bytes → Option Real → Option Real → Option (Node Real)
  node_at id (some x) (some y) = some (record { id = id; x = x; y = y })
  node_at id _ _ = none

  abbrev pub node_of : List Bytes → Option (Node Real)
  node_of (_ ∷ id ∷ _ ∷ x ∷ y ∷ _ ∷ []) = node_at id (py.to_float x) (py.to_float y)
  node_of _ = none

  abbrev pub with_node : Option (Node Real) → Option (List (Node Real)) → Option (List (Node Real))
  with_node (some n) (some ns) = some (n ∷ ns)
  with_node _ _ = none

  -- The loop over the file; `none` is a ValueError.
  unfoldable pub read_nodes : List Bytes → Option (List (Node Real))
  unfolding split_words
  read_nodes [] = some []
  read_nodes (line ∷ lines) = with_node (node_of (split_words [] line)) (read_nodes lines)

  -- A text that is received.
  abbrev pub receive : ℕ → Action Bytes
  receive n = do d ← recv n; s ← or_raise (py.decode d); pure (strip_zeros s)

  -- The nodes of a file, if it is decoded, and what `query_nodes` makes of them.
  abbrev pub nodes_read : Option (List (Node Real)) → Result (Option (List (Node Real))) × Bool
  nodes_read none = (raised, false)
  nodes_read (some ns) = (ok (some ns), true)

  abbrev pub lines_of : Option Bytes → Option (List (Node Real))
  lines_of none = none
  lines_of (some s) = read_nodes (file_lines s)

  -- What arrives for a datagram that is sent to the monitor.
  module _ (respond : Bytes → List Bytes) where
    abbrev pub send : Bytes → Action Unit
    send text q = elim (py.encode text) [ none ↦ raised | some d ↦ ok (tt, q ++ respond d) ]

    -- `query_nodes` up to the test of the answer.
    unfoldable pub positions_written : Bytes → Action Bool
    positions_written path = do
      send (position_cmd path)
      answer ← receive 32
      pure (text_eq answer (codes "SUCCESS"))

    -- `query_nodes` for the file that `mkstemp` made, with what is in it when it is read, if that
    -- can be decoded: its value, where `none` is None, and whether the file is gone.
    unfoldable pub query_nodes : Bytes → Option Bytes → Result (Option (List (Node Real))) × Bool
    unfolding positions_written file_lines read_nodes
    query_nodes path content = elim (positions_written path []) [
      | ok r ↦ if r.0 then nodes_read (lines_of content) else (ok none, true)
      | timed_out ↦ (timed_out, false)
      | raised ↦ (raised, false)
    ]

    -- `query_edges`, whose nodes use one socket.
    unfoldable pub query_edges : List (Node Real) → Action (List Edge)
    unfolding int
    query_edges [] = pure []
    query_edges (n ∷ ns) = do
      send (route_cmd n.id)
      rsp ← receive 64
      recv 64
      edge ← or_raise (edges_for n.id rsp)
      edges ← query_edges ns
      pure (edge ++ edges)

    abbrev pub with_edges :
        List (Node Real) → Result (List Edge × List Bytes) → Result (Answer Real)
    with_edges nodes (ok r) = ok (elements nodes r.0)
    with_edges nodes timed_out = timed_out
    with_edges nodes raised = raised

    -- An empty list of nodes is as false as None.
    abbrev pub graph_of : Result (Option (List (Node Real))) → Result (Answer Real)
    graph_of (ok (some (n ∷ ns))) = with_edges (n ∷ ns) (query_edges (n ∷ ns) [])
    graph_of (ok _) = ok status_500
    graph_of timed_out = timed_out
    graph_of raised = raised

    unfoldable pub graph : Bytes → Option Bytes → Result (Answer Real)
    unfolding query_nodes query_edges
    graph path content = graph_of (query_nodes path content).0
