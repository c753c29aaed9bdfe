-- ===== src/Canvas/Tests.antt =====
-- Runs of the page, and the theorems at concrete runs.
use text.Mathlib.Text.{◌==◌ as str_eq}
use whitefield.Base.{
  ◌≡◌, refl, true, false, Option, none, some, String, List, [], ◌∷◌, arith, if◌then◌else◌,
}
use whitefield.Canvas.{
  App, Request, Event, LayoutOptions, preset, dagre, interval, tree_button, ready_state_change,
  step, run, start, query_graph, view_tree,
}
use whitefield.Canvas.Polling.{IsOvertaken, starved}
use whitefield.Canvas.Prompt.{Turn, timer, tree, turn_events, picture, drawn, run-drawn}
use whitefield.Canvas.Fitting.{recorder}

-- A parser that refuses the empty body, as JSON.parse does.
abbrev parse_nonempty : String → Option String
parse_nonempty t = if str_eq t "" then none else some t

abbrev answer : Request
answer = record { ready_state = 4; response_text = "{}" }

abbrev session : List Event
session =
    ready_state_change 0 answer
    ∷ interval
    ∷ ready_state_change 1 answer
    ∷ tree_button
    ∷ ready_state_change 2 answer
    ∷ []

session_layouts :
    (run (recorder parse_nonempty) (start []) session).view
    ≡ record { name = dagre; fit = true; rank_dir = "BT" }
      ∷ record { name = preset; fit = false; rank_dir = "BT" }
      ∷ record { name = preset; fit = true; rank_dir = "BT" }
      ∷ []
unfolding run step start query_graph view_tree
session_layouts = refl

-- Each answer comes just after the next query.
abbrev slow : List Event
slow = interval ∷ ready_state_change 0 answer ∷ interval ∷ ready_state_change 1 answer ∷ []

slow-IsOvertaken : IsOvertaken (recorder parse_nonempty) (start []) slow
unfolding start step query_graph
slow-IsOvertaken = (tt, (λ e. absurd (omega arith), (tt, (λ e. absurd (omega arith), tt))))

starved_example : (run (recorder parse_nonempty) (start []) slow).view ≡ []
starved_example = starved (recorder parse_nonempty) [] slow slow-IsOvertaken

-- Two queries, of which the second is answered first.
abbrev answered : App (List LayoutOptions)
answered = record {
  xhr = 1;
  requests = record { ready_state = 1; response_text = "" } ∷ answer ∷ [];
  first_run = false;
  layout_name = preset;
  view = [];
}

-- Two queries, each answered before the next: the second by the button for the tree.
abbrev prompt : List Turn
prompt =
    record {
      trigger = timer;
      partial = record { ready_state = 2; response_text = "" } ∷ [];
      text = "{}";
    }
    ∷ record { trigger = tree; partial = []; text = "{}" }
    ∷ []

run-drawn_example :
    picture (run (recorder parse_nonempty) (start []) (turn_events 1 prompt))
    ≡ drawn (recorder parse_nonempty) (picture (start [])) prompt
unfolding start query_graph
run-drawn_example =
    run-drawn (recorder parse_nonempty) (start []) prompt
      ((λ e. absurd (omega arith), tt), (tt, tt))
