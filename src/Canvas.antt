-- ===== src/Canvas.antt =====
-- canvas/assets/cytoscape_app.js: the browser page that polls the topology graph and lays it out.
--
-- The page's state is its globals (`xhr`, `first_run`, `layout_name`), the requests that it has
-- made and what cytoscape shows. XMLHttpRequest, JSON.parse and cytoscape are not the program's:
-- the browser changes a request's `readyState` and `responseText` by an event, and JSON.parse and
-- the calls on cytoscape are parameters. The functions keep the source's names.
pub mod Polling
pub mod Fitting
pub mod Prompt
pub mod Server
mod Tests
use whitefield.Base.{
  ℕ, ◌+◌, Bool, true, false, Option, none, some, List, [], ◌∷◌, ◌++◌, String, get_elem?, set,
  length, ◌==◌, if◌then◌else◌,
}

-- The values that the program gives to `layout_name`.
pub data Layout : Type 0 where
  preset dagre : Layout

-- What the page reads of an XMLHttpRequest object.
pub record Request : Type 0 where
  pub ready_state : ℕ
  pub response_text : String

-- The options of `layout({name, fit, rankDir})`.
pub record LayoutOptions : Type 0 where
  pub name : Layout
  pub fit : Bool
  pub rank_dir : String

-- `xhr` is the place of the object in `requests`, which holds every request made, oldest first.
pub record App (View : Type 0) : Type 0 where
  pub xhr : ℕ
  pub requests : List Request
  pub first_run : Bool
  pub layout_name : Layout
  pub view : View

-- What happens to the page: the timer, the two buttons, and the browser that moves request `i` to
-- a new `readyState` and calls its handler.
pub data Event : Type 0 where
  interval : Event
  position_button : Event
  tree_button : Event
  ready_state_change : ℕ → Request → Event

-- `open` moves a new request to readyState 1 before the handler is set.
abbrev pub opened : Request
opened = record { ready_state = 1; response_text = "" }

-- `xhr` is a global, so a new query replaces what every handler reads.
unfoldable pub query_graph : {View : Type 0} → App View → App View
query_graph s = record s { requests = s.requests ++ opened ∷ []; xhr = length s.requests }

unfoldable pub view_position : {View : Type 0} → App View → App View
unfolding query_graph
view_position s = query_graph (record s { layout_name = preset; first_run = true })

unfoldable pub view_tree : {View : Type 0} → App View → App View
unfolding query_graph
view_tree s = query_graph (record s { layout_name = dagre; first_run = true })

-- One rule of a style sheet: a selector, and properties with their values in order.
pub record StyleRule : Type 0 where
  pub selector : String
  pub style : List (String × String)

-- The options of `new cytoscape({container, style})`; `container` is the id of the element.
pub record CytoscapeOptions : Type 0 where
  pub container : String
  pub style_sheet : List StyleRule

-- The options that the script passes.
unfoldable pub page_options : CytoscapeOptions
page_options = record {
  container = "cy";
  style_sheet =
      record {
        selector = "node";
        style =
            ("background-color", "#0471A6")
            ∷ ("label", "data(id)")
            ∷ ("text-halign", "center")
            ∷ ("text-valign", "center")
            ∷ [];
      }
      ∷ record {
        selector = "edge";
        style =
            ("line-color", "#43AA8B")
            ∷ ("target-arrow-color", "#43AA8B")
            ∷ ("target-arrow-shape", "triangle")
            ∷ ("curve-style", "bezier")
            ∷ [];
      }
      ∷ [];
}

-- What cytoscape and JSON.parse do. `create` is the constructor. `parse` is `none` where JSON.parse throws; the exception
-- leaves the handler before anything is changed.
pub record Cytoscape (View : Type 0) : Type 1 where
  pub Graph : Type 0
  pub create : CytoscapeOptions → View
  pub parse : String → Option Graph
  pub json : Graph → View → View
  pub layout : LayoutOptions → View → View

module _ {View : Type 0} (cy : Cytoscape View) where
  pub show : App View → Option cy.Graph → App View
  show s none = s
  show s (some graph) = record s {
    view =
        cy.layout (record { name = s.layout_name; fit = s.first_run; rank_dir = "BT" })
          (cy.json graph s.view);
    first_run = false;
  }

  -- The handler that `query_graph` sets, for whichever request it is called.
  pub on_ready_state_change : App View → Option Request → App View
  on_ready_state_change s none = s
  on_ready_state_change s (some xhr) =
      if xhr.ready_state == 4 then show s (cy.parse xhr.response_text) else s

  unfoldable pub step : App View → Event → App View
  unfolding on_ready_state_change show
  step s interval = query_graph s
  step s position_button = view_position s
  step s tree_button = view_tree s
  step s (ready_state_change i request) =
      let requests = set s.requests i request in
      on_ready_state_change (record s { requests = requests }) (get_elem? requests s.xhr)

  unfoldable pub run : App View → List Event → App View
  run s [] = s
  run s (e ∷ es) = run (step s e) es

-- The globals as the script's last lines set them; `xhr` is not defined yet.
abbrev pub globals : {View : Type 0} → View → App View
globals view = record {
  xhr = 0;
  requests = [];
  first_run = true;
  layout_name = preset;
  view = view;
}

-- The script ends with the first query.
unfoldable pub start : {View : Type 0} → View → App View
unfolding query_graph
start view = query_graph (globals view)

-- The whole script: the instance is created, the globals are set, and the first query is sent.
unfoldable pub page : {View : Type 0} → Cytoscape View → App View
unfolding start page_options
page cy = start (cy.create page_options)
