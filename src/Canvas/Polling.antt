-- ===== src/Canvas/Polling.antt =====
-- cytoscape_app.js: which responses reach the view.
use whitefield.Base.{
  ℕ, zero, suc, ◌≡◌, ◌≢◌, refl, ap, ◌∙◌, inl, inr, Bool-cases, true, false, Option, none, some,
  List, [], ◌∷◌, ◌++◌, length, get_elem?, set, arith, ◌==◌, length-append, length-set,
  get_elem?-set_ne, String,
}
use whitefield.Canvas.{
  App, Request, Event, Cytoscape, show, interval, position_button, tree_button, ready_state_change,
  preset, dagre, globals, opened, query_graph, view_position, view_tree, on_ready_state_change,
  step, run, start,
}

-- The global `xhr` is the newest request.
abbrev pub IsNewest : {View : Type 0} → App View → Type 0
IsNewest s = suc s.xhr ≡ length s.requests

get_elem?-append_last {ℓ} :
    {A : Type ℓ} (xs : List A) (v : A) → get_elem? (xs ++ v ∷ []) (length xs) ≡ some v
get_elem?-append_last [] v = refl
get_elem?-append_last (x ∷ xs) v = get_elem?-append_last xs v

get_elem?-set_last {ℓ} :
    {A : Type ℓ} (xs : List A) (u v : A)
    → get_elem? (set (xs ++ u ∷ []) (length xs) v) (length xs) ≡ some v
get_elem?-set_last [] u v = refl
get_elem?-set_last (x ∷ xs) u v = get_elem?-set_last xs u v

-- Not yet complete: the handler does nothing while it reads such a request.
abbrev pub IsPending : Option Request → Type 0
IsPending none = Unit
IsPending (some r) = r.ready_state ≢ 4

module _ {View : Type 0} (cy : Cytoscape View) where
  show_keeps :
      (s : App View) (g : Option cy.Graph)
      → ((show cy s g).xhr ≡ s.xhr) × ((show cy s g).requests ≡ s.requests)
  unfolding show
  show_keeps s none = (refl, refl)
  show_keeps s (some g) = (refl, refl)

  handler_keeps :
      (s : App View) (o : Option Request)
      → ((on_ready_state_change cy s o).xhr ≡ s.xhr)
        × ((on_ready_state_change cy s o).requests ≡ s.requests)
  unfolding on_ready_state_change
  handler_keeps s none = (refl, refl)
  handler_keeps s (some r) = elim (Bool-cases (r.ready_state == 4)) [
    | inl done ↦ rw done (show_keeps s (cy.parse r.response_text))
    | inr other ↦ rw other (refl, refl)
  ]

  handler_pending :
      (s : App View) (o : Option Request) → IsPending o → on_ready_state_change cy s o ≡ s
  unfolding on_ready_state_change
  handler_pending s none h = refl
  handler_pending s (some r) h = ground arith

  step-IsNewest : (s : App View) (e : Event) → IsNewest s → IsNewest (step cy s e)
  unfolding step query_graph view_position view_tree
  step-IsNewest s interval h = omega (arith, length-append s.requests (opened ∷ []))
  step-IsNewest s position_button h = omega (arith, length-append s.requests (opened ∷ []))
  step-IsNewest s tree_button h = omega (arith, length-append s.requests (opened ∷ []))
  step-IsNewest s (ready_state_change i r) h =
      let requests : List Request = set s.requests i r in
      let t : App View = record s { requests = requests } in
      let keeps = handler_keeps t (get_elem? requests s.xhr) in
      rw (keeps.0, keeps.1) (omega (arith, length-set s.requests i r))

  run-IsNewest : (s : App View) (es : List Event) → IsNewest s → IsNewest (run cy s es)
  unfolding run
  run-IsNewest s [] h = h
  run-IsNewest s (e ∷ es) h = run-IsNewest (step cy s e) es (step-IsNewest s e h)

  -- After any events at all, the object that the handlers read is the last one that was made.
  pub run-start-IsNewest : (view : View) (es : List Event) → IsNewest (run cy (start view) es)
  unfolding start query_graph
  run-start-IsNewest view es = run-IsNewest (start view) es refl

  -- A query that is answered before the next one is made: a response that parses is shown with the
  -- layout in force, fitted as `first_run` says, and nothing else fits until a button is pressed.
  pub poll_answered :
      (s : App View) (text : String) {graph : cy.Graph}
      → cy.parse text ≡ some graph
      → let done = step cy (step cy s interval) (
          ready_state_change
            (length s.requests)
            (record { ready_state = 4; response_text = text })) in
        (done.view
          ≡ cy.layout
              (record { name = s.layout_name; fit = s.first_run; rank_dir = "BT" })
              (cy.json graph s.view))
        × (done.first_run ≡ false)
        × (done.layout_name ≡ s.layout_name)
  unfolding step query_graph on_ready_state_change
  poll_answered s text e =
      rw
        (get_elem?-set_last s.requests opened (record { ready_state = 4; response_text = text }), e)
        (refl, refl, refl)

  -- The newest request is not complete.
  abbrev pub IsWaiting : App View → Type 0
  IsWaiting s = IsPending (get_elem? s.requests s.xhr)

  -- The event does not complete the newest request.
  abbrev pub IsLate : App View → Event → Type 0
  IsLate s (ready_state_change i r) = i ≡ s.xhr → r.ready_state ≢ 4
  IsLate s _ = Unit

  -- Whenever a response arrives, a newer request has already taken the place of its own.
  abbrev pub IsOvertaken : App View → List Event → Type 0
  IsOvertaken s [] = Unit
  IsOvertaken s (e ∷ es) = IsLate s e × IsOvertaken (step cy s e) es

  query_graph-IsWaiting : (s : App View) → IsWaiting (query_graph s)
  unfolding query_graph
  query_graph-IsWaiting s = rw (get_elem?-append_last s.requests opened) (λ e. omega arith)

  set-IsPending :
      (xs : List Request) (i j : ℕ) (r : Request)
      → IsPending (get_elem? xs j)
      → (i ≡ j → r.ready_state ≢ 4)
      → IsPending (get_elem? (set xs i r) j)
  set-IsPending [] i j r h late = h
  set-IsPending (x ∷ xs) zero zero r h late = late refl
  set-IsPending (x ∷ xs) zero (suc j) r h late = h
  set-IsPending (x ∷ xs) (suc i) zero r h late = h
  set-IsPending (x ∷ xs) (suc i) (suc j) r h late = set-IsPending xs i j r h (λ e. late (ap suc e))

  late_step :
      (s : App View) (e : Event)
      → IsWaiting s
      → IsLate s e
      → IsWaiting (step cy s e) × ((step cy s e).view ≡ s.view)
  unfolding step view_position view_tree
  late_step s interval h late = (query_graph-IsWaiting s, unfold query_graph in refl)
  late_step s position_button h late = (
    query_graph-IsWaiting (record s { layout_name = preset; first_run = true }),
    unfold query_graph in refl,
  )
  late_step s tree_button h late = (
    query_graph-IsWaiting (record s { layout_name = dagre; first_run = true }),
    unfold query_graph in refl,
  )
  late_step s (ready_state_change i r) h late =
      let requests : List Request = set s.requests i r in
      let t : App View = record s { requests = requests } in
      let pending : IsPending (get_elem? requests s.xhr) =
        set-IsPending s.requests i s.xhr r h late in
      rw (handler_pending t (get_elem? requests s.xhr) pending) (pending, refl)

  overtaken :
      (s : App View) (es : List Event)
      → IsWaiting s
      → IsOvertaken s es
      → (run cy s es).view ≡ s.view
  unfolding run
  overtaken s [] h o = refl
  overtaken s (e ∷ es) h (late, o) =
      let (waiting, same) = late_step s e h late in overtaken (step cy s e) es waiting o ∙ same

  -- If every response arrives when a newer query has been sent, as when the server takes longer
  -- than the polling interval, the page never shows anything, however many responses arrive.
  pub starved :
      (view : View) (es : List Event)
      → IsOvertaken (start view) es
      → (run cy (start view) es).view ≡ view
  unfolding start
  starved view es o =
      overtaken (start view) es (query_graph-IsWaiting (globals view)) o
      ∙ unfold query_graph in refl

  -- A completed newest response is shown again whenever an older request changes in any way.
  pub shown_again :
      (s : App View) (i : ℕ) (r newest : Request) {graph : cy.Graph}
      → i ≢ s.xhr
      → get_elem? s.requests s.xhr ≡ some newest
      → newest.ready_state ≡ 4
      → cy.parse newest.response_text ≡ some graph
      → (step cy s (ready_state_change i r)).view
        ≡ cy.layout
            (record { name = s.layout_name; fit = s.first_run; rank_dir = "BT" })
            (cy.json graph s.view)
  unfolding step on_ready_state_change
  shown_again s i r newest ne here done e =
      rw (get_elem?-set_ne s.requests i s.xhr r ne, here, on_ready_state_change, done, e) refl
