-- ===== src/Canvas/Server/Routes.antt =====
-- canvas/canvas.py: the routes of the nodes, as the stacks answer.
use whitefield.Base.{
  ℕ, ◌<◌, ◌≡◌, List, [], ◌∷◌, Bytes, codes, length, All, All-append, All-map, arith,
}
use whitefield.Base.Text.{decimal}
use whitefield.Commline.Message.{max_cmd_rsp_sz}
use whitefield.Canvas.Server.{Edge, route_cmd}
use whitefield.Canvas.Server.Words.{IsShown}
use whitefield.Canvas.Server.Reading.{decimal-IsWord}
use whitefield.Canvas.Server.Asking.{IsAscii}
use whitefield.Canvas.Server.Parents.{Route, no_route, via, route_text, IsAddress, links}

pub route_cmd-IsAscii : (n : ℕ) → IsAscii (route_cmd (decimal n))
route_cmd-IsAscii n =
    All-append (λ c. c < 128) (codes "SL:") _ (omega arith)
      (All-append (λ c. c < 128) (decimal n) (codes ":cmd_def_route")
        (All-map IsShown (λ c. c < 128) (λ c hc. omega arith) (decimal n) (decimal-IsWord n).0)
        (omega arith))

-- The stack of node `n` answers with the route.
pub record HasRoute (plays : ℕ → Bytes → ℕ → Bytes → ℕ → Bytes × ℕ) (n : ℕ) (r : Route)
    : Type 0 where
  pub played :
      plays n (codes "cmd_def_route") 0 [] max_cmd_rsp_sz ≡ (route_text r, length (route_text r))
  pub address : IsAddress r
  pub shown : All IsShown (route_text r)
  pub fits : length (route_text r) < 64

pub route_text-length : (r : Route) → 0 < length (route_text r)
route_text-length no_route = omega arith
route_text-length (via [] digits) = omega arith
route_text-length (via (c ∷ front) digits) = omega arith

-- The text and the edges of the node that is written as `id`.
abbrev pub text_for : (Bytes → Route) → Bytes → Bytes
text_for routes id = route_text (routes id)

abbrev pub links_for : (Bytes → Route) → Bytes → List Edge
links_for routes id = links id (routes id)
