-- ===== src/Canvas/Fitting.antt =====
-- cytoscape_app.js: `layout_name` and `first_run`, seen in the layouts that the page runs.
use whitefield.Base.{
  ℕ, ◌+◌, ◌≤◌, ◌≡◌, refl, ap, ◌∙◌, Bool, true, false, Option, none, some, String, List, [], ◌∷◌,
  arith, ◌==◌, Bool-cases, Option-cases, inl, inr, get_elem?, set,
}
use whitefield.Canvas.{
  App, Request, Event, Cytoscape, LayoutOptions, Layout, preset, dagre, interval, position_button,
  tree_button, ready_state_change, query_graph, view_position, view_tree, show,
  on_ready_state_change, step, run, start,
}

-- A cytoscape that keeps the options of every layout that it ran, newest first.
abbrev pub recorder : {Graph : Type 0} → (String → Option Graph) → Cytoscape (List LayoutOptions)
recorder {Graph} parse = record {
  Graph = Graph;
  create = λ options. [];
  parse = parse;
  json = λ graph view. view;
  layout = λ options view. options ∷ view;
}

abbrev one_if : Bool → ℕ
one_if true = 1
one_if false = 0

-- How many layouts moved the viewport.
abbrev pub fits : List LayoutOptions → ℕ
fits [] = 0
fits (o ∷ os) = one_if o.fit + fits os

abbrev pub presses : List Event → ℕ
presses [] = 0
presses (position_button ∷ es) = 1 + presses es
presses (tree_button ∷ es) = 1 + presses es
presses (_ ∷ es) = presses es

-- The layout that the last pressed button chose, or `name` when none was pressed.
abbrev pub last_chosen : Layout → List Event → Layout
last_chosen name [] = name
last_chosen name (position_button ∷ es) = last_chosen preset es
last_chosen name (tree_button ∷ es) = last_chosen dagre es
last_chosen name (_ ∷ es) = last_chosen name es

module _ {View : Type 0} (cy : Cytoscape View) where
  handler_keeps_name :
      (s : App View) (o : Option Request)
      → (on_ready_state_change cy s o).layout_name ≡ s.layout_name
  unfolding on_ready_state_change show
  handler_keeps_name s none = refl
  handler_keeps_name s (some r) = elim (Bool-cases (r.ready_state == 4)) [
    | inl done ↦ elim (Option-cases (cy.parse r.response_text)) [
      | inl bad ↦ rw (done, bad) refl
      | inr (g, good) ↦ rw (done, good) refl
    ]
    | inr other ↦ rw other refl
  ]

  run-layout_name :
      (s : App View) (es : List Event) → (run cy s es).layout_name ≡ last_chosen s.layout_name es
  unfolding run step view_position view_tree query_graph
  run-layout_name s [] = refl
  run-layout_name s (interval ∷ es) = run-layout_name (step cy s interval) es
  run-layout_name s (position_button ∷ es) = run-layout_name (step cy s position_button) es
  run-layout_name s (tree_button ∷ es) = run-layout_name (step cy s tree_button) es
  run-layout_name s (ready_state_change i r ∷ es) =
      let requests : List Request = set s.requests i r in
      run-layout_name (step cy s (ready_state_change i r)) es
      ∙ ap (λ name. last_chosen name es)
          (handler_keeps_name (record s { requests = requests }) (get_elem? requests s.xhr))

  -- After any events the layout in force is that of the last button pressed, and `preset` before
  -- the first press.
  pub start-layout_name :
      (view : View) (es : List Event) → (run cy (start view) es).layout_name ≡ last_chosen preset es
  unfolding start query_graph
  start-layout_name view es = run-layout_name (start view) es

module _ {Graph : Type 0} (parse : String → Option Graph) where
  -- Layouts that fitted, and one more if the next one will.
  abbrev budget : App (List LayoutOptions) → ℕ
  budget s = fits s.view + one_if s.first_run

  handler_budget :
      (s : App (List LayoutOptions)) (o : Option Request)
      → budget (on_ready_state_change (recorder parse) s o) ≡ budget s
  unfolding on_ready_state_change show
  handler_budget s none = refl
  handler_budget s (some r) = elim (Bool-cases (r.ready_state == 4)) [
    | inl done ↦ elim (Option-cases (parse r.response_text)) [
      | inl bad ↦ rw (done, bad) refl
      | inr (g, good) ↦ rw (done, good) (omega arith)
    ]
    | inr other ↦ rw other refl
  ]

  one_if-le : (b : Bool) → one_if b ≤ 1
  one_if-le true = omega arith
  one_if-le false = omega arith

  run-budget :
      (s : App (List LayoutOptions)) (es : List Event)
      → budget (run (recorder parse) s es) ≤ budget s + presses es
  unfolding run step view_position view_tree query_graph
  run-budget s [] = omega arith
  run-budget s (interval ∷ es) = run-budget (step (recorder parse) s interval) es
  run-budget s (position_button ∷ es) =
      omega (arith, run-budget (step (recorder parse) s position_button) es, one_if-le s.first_run)
  run-budget s (tree_button ∷ es) =
      omega (arith, run-budget (step (recorder parse) s tree_button) es, one_if-le s.first_run)
  run-budget s (ready_state_change i r ∷ es) =
      let requests : List Request = set s.requests i r in
      omega (
        arith,
        run-budget (step (recorder parse) s (ready_state_change i r)) es,
        handler_budget (record s { requests = requests }) (get_elem? requests s.xhr),
      )

  -- The viewport is fitted at most once for the start of the page and once for each button press:
  -- the polling in between never moves it.
  pub fits-le-presses :
      (es : List Event) → fits (run (recorder parse) (start []) es).view ≤ 1 + presses es
  unfolding start query_graph
  fits-le-presses es = omega (arith, run-budget (start []) es)
