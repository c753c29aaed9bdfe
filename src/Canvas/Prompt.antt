-- ===== src/Canvas/Prompt.antt =====
-- cytoscape_app.js: a server that answers each query before anything else happens.
use whitefield.Base.{
  ℕ, suc, ◌≡◌, ◌≢◌, refl, ap, sym, ◌∙◌, Bool, true, false, Option, none, some, List, [], ◌∷◌, ◌++◌,
  map, All, length, set, arith, ◌==◌, length-append, length-set, get_elem?-set_self, String,
}
use whitefield.Canvas.{
  App, Request, Event, Layout, Cytoscape, show, interval, position_button, tree_button,
  ready_state_change, preset, dagre, opened, query_graph, view_position, view_tree,
  on_ready_state_change, step, run,
}

-- What sends a query.
pub data Trigger : Type 0 where
  timer position tree : Trigger

-- A query with its answer: the states of the request that the browser reports on the way, and the
-- text that it ends with.
pub record Turn : Type 0 where
  pub trigger : Trigger
  pub partial : List Request
  pub text : String

abbrev pub trigger_event : Trigger → Event
trigger_event timer = interval
trigger_event position = position_button
trigger_event tree = tree_button

abbrev complete : String → Request
complete text = record { ready_state = 4; response_text = text }

-- The events of the turns, the first of which makes request `i`.
abbrev pub turn_events : ℕ → List Turn → List Event
turn_events i [] = []
turn_events i (t ∷ ts) =
    trigger_event t.trigger
    ∷ (map (λ r. ready_state_change i r) t.partial
        ++ ready_state_change i (complete t.text) ∷ turn_events (suc i) ts)

abbrev pub IsPartial : Request → Type 0
IsPartial r = r.ready_state ≢ 4

abbrev pub ArePrompt : List Turn → Type 0
ArePrompt ts = All (λ t. All IsPartial t.partial) ts

-- The page without its requests.
pub record Picture (View : Type 0) : Type 0 where
  pub first_run : Bool
  pub layout_name : Layout
  pub view : View

abbrev pub picture : {View : Type 0} → App View → Picture View
picture s = record { first_run = s.first_run; layout_name = s.layout_name; view = s.view }

abbrev choose : {View : Type 0} → Trigger → Picture View → Picture View
choose timer p = p
choose position p = record p { layout_name = preset; first_run = true }
choose tree p = record p { layout_name = dagre; first_run = true }

module _ {View : Type 0} (cy : Cytoscape View) where
  abbrev redraw : Option cy.Graph → Picture View → Picture View
  redraw none p = p
  redraw (some graph) p = record p {
    first_run = false;
    view =
        cy.layout (record { name = p.layout_name; fit = p.first_run; rank_dir = "BT" })
          (cy.json graph p.view);
  }

  -- The specification: each turn chooses a layout and draws the graph of its text.
  abbrev pub drawn : Picture View → List Turn → Picture View
  drawn p [] = p
  drawn p (t ∷ ts) = drawn (redraw (cy.parse t.text) (choose t.trigger p)) ts

  -- The newest request is number `i`.
  abbrev IsAt : ℕ → App View → Type 0
  IsAt i s = (s.xhr ≡ i) × (length s.requests ≡ suc i)

  trigger_picture :
      (s : App View) (t : Trigger)
      → IsAt (length s.requests) (step cy s (trigger_event t))
        × (picture (step cy s (trigger_event t)) ≡ choose t (picture s))
  unfolding step view_position view_tree query_graph
  trigger_picture s timer = ((refl, omega (arith, length-append s.requests (opened ∷ []))), refl)
  trigger_picture s position = ((refl, omega (arith, length-append s.requests (opened ∷ []))), refl)
  trigger_picture s tree = ((refl, omega (arith, length-append s.requests (opened ∷ []))), refl)

  -- The handler reads the request that has changed.
  change-newest :
      (i : ℕ) (s : App View) (r : Request)
      → IsAt i s
      → step cy s (ready_state_change i r)
        ≡ on_ready_state_change cy (record s { requests = set s.requests i r }) (some r)
  unfolding step
  change-newest i s r (here, size) = rw (here, get_elem?-set_self s.requests i r (omega arith)) refl

  step-partial :
      (i : ℕ) (s : App View) (r : Request)
      → IsAt i s
      → IsPartial r
      → step cy s (ready_state_change i r) ≡ record s { requests = set s.requests i r }
  unfolding on_ready_state_change
  step-partial i s r at part =
      let early : (r.ready_state == 4) ≡ false = ground arith in
      change-newest i s r at ∙ rw early refl

  picture-show : (s : App View) (g : Option cy.Graph) → picture (show cy s g) ≡ redraw g (picture s)
  unfolding show
  picture-show s none = refl
  picture-show s (some g) = refl

  requests-show : (s : App View) (g : Option cy.Graph) → (show cy s g).requests ≡ s.requests
  unfolding show
  requests-show s none = refl
  requests-show s (some g) = refl

  step-complete :
      (i : ℕ) (s : App View) (text : String)
      → IsAt i s
      → (length (step cy s (ready_state_change i (complete text))).requests ≡ suc i)
        × (picture (step cy s (ready_state_change i (complete text)))
            ≡ redraw (cy.parse text) (picture s))
  unfolding on_ready_state_change
  step-complete i s text at =
      let t : App View = record s { requests = set s.requests i (complete text) } in
      rw (change-newest i s (complete text) at) (
        ap length (requests-show t (cy.parse text))
            ∙ length-set s.requests i (complete text)
            ∙ at.1,
        picture-show t (cy.parse text),
      )

  -- The answer to a query, with the turns behind it as `rest`.
  answer_picture :
      (i : ℕ) (s : App View) (partial : List Request) (text : String) (rest : List Event)
      → IsAt i s
      → All IsPartial partial
      → (s' : App View) × (run cy s (
            map (λ r. ready_state_change i r) partial
            ++ ready_state_change i (complete text) ∷ rest)
          ≡ run cy s' rest)
        × (length s'.requests ≡ suc i)
        × (picture s' ≡ redraw (cy.parse text) (picture s))
  unfolding run
  answer_picture i s [] text rest at h =
      let (size, same) = step-complete i s text at in
      (step cy s (ready_state_change i (complete text)), refl, size, same)
  answer_picture i s (r ∷ partial) text rest at (hr, h) =
      let t : App View = record s { requests = set s.requests i r } in
      let (s', ran, size, same) =
        answer_picture i t partial text rest (at.0, length-set s.requests i r ∙ at.1) h in
      (
        s',
        ap
              (λ u. run cy u (
                map (λ r'. ready_state_change i r') partial
                ++ ready_state_change i (complete text) ∷ rest))
              (step-partial i s r at hr)
            ∙ ran,
        size,
        same,
      )

  -- While each query is answered before the next one, the page draws exactly what the
  -- specification says: every answer that parses is shown once, in the layout that was chosen last.
  pub run-drawn :
      (s : App View) (ts : List Turn)
      → ArePrompt ts
      → picture (run cy s (turn_events (length s.requests) ts)) ≡ drawn (picture s) ts
  unfolding run
  run-drawn s [] h = refl
  run-drawn s (t ∷ ts) (ht, h) =
      let asked : App View = step cy s (trigger_event t.trigger) in
      let (at, chosen) = trigger_picture s t.trigger in
      let (s', ran, size, same) =
        answer_picture (length s.requests) asked t.partial t.text
          (turn_events (suc (length s.requests)) ts) at ht in
      ap picture ran
      ∙ ap (λ n. picture (run cy s' (turn_events n ts))) (sym size)
      ∙ run-drawn s' ts h
      ∙ ap (λ p. drawn p ts) (same ∙ ap (λ p. redraw (cy.parse t.text) p) chosen)
