-- ===== src/Canvas/Server/Asking.antt =====
-- canvas/canvas.py: `query_nodes` and `query_edges` on sockets on which each command is answered.
use whitefield.Base.{
  ℕ, ◌<◌, ◌≡◌, ◌≢◌, refl, ap, ◌∙◌, Bool, true, false, some, List, [], ◌∷◌, ◌++◌, Bytes, codes,
  length, length-append, take, take-all, All, All-append, ◌==◌, arith,
}
use whitefield.Base.Text.{Lacks, Lacks-lacks}
use whitefield.Monitor.Thread.{end_of_rsp}
use whitefield.Canvas.Server.Strings.{skip_front, with_front, skip_back, file_lines}
use whitefield.Canvas.Server.{
  ok, ◌>>=◌, Node, Edge, Python, strip_zeros, position_cmd, route_cmd, edges_for, send, receive,
  positions_written, read_nodes, query_nodes, query_edges,
}

abbrev pub is_zero : ℕ → Bool
is_zero c = c == 0

pub with_front-zero : (c : ℕ) (s : Bytes) → c ≢ 0 → with_front is_zero c s ≡ c ∷ s
with_front-zero c [] h = let other : (c == 0) ≡ false = ground arith in rw other refl
with_front-zero c (d ∷ s) h = refl

skip_back-zero : (s : Bytes) → Lacks 0 s → skip_back is_zero (s ++ 0 ∷ []) ≡ s
skip_back-zero [] h = refl
skip_back-zero (c ∷ s) (hc, h) =
    ap (with_front is_zero c) (skip_back-zero s h) ∙ with_front-zero c s hc

skip_front-zero :
    (s : Bytes) → Lacks 0 s → 0 < length s → skip_front is_zero (s ++ 0 ∷ []) ≡ s ++ 0 ∷ []
skip_front-zero [] h some_bytes = absurd (omega arith)
skip_front-zero (c ∷ s) (hc, h) some_bytes =
    let other : (c == 0) ≡ false = ground arith in rw (other, skip_front) refl

-- The 0 behind a response is stripped.
pub strip_zeros-response : (s : Bytes) → Lacks 0 s → 0 < length s → strip_zeros (s ++ 0 ∷ []) ≡ s
strip_zeros-response s h some_bytes =
    ap (skip_back is_zero) (skip_front-zero s h some_bytes) ∙ skip_back-zero s h

-- ASCII.
abbrev pub IsAscii : Bytes → Type 0
IsAscii s = All (λ c. c < 128) s

-- UTF-8 leaves ASCII as it is.
pub record Utf8 {Real : Type 0} (py : Python Real) : Type 0 where
  pub encodes : (s : Bytes) → IsAscii s → py.encode s ≡ some s
  pub decodes : (s : Bytes) → IsAscii s → py.decode s ≡ some s

-- The datagrams of the monitor for a response.
abbrev pub answered_by : Bytes → List Bytes
answered_by text = (text ++ 0 ∷ []) ∷ end_of_rsp ∷ []

abbrev pub edges_from : {Real : Type 0} → (Bytes → List Edge) → List (Node Real) → List Edge
edges_from edges [] = []
edges_from edges (n ∷ ns) = edges n.id ++ edges_from edges ns

module _ {Real : Type 0} (py : Python Real) (utf8 : Utf8 py) where
  pub receive-response :
      (n : ℕ) (text : Bytes) (q : List Bytes)
      → IsAscii text
      → Lacks 0 text
      → 0 < length text
      → length text < n
      → receive py n ((text ++ 0 ∷ []) ∷ q) ≡ ok (text, q)
  receive-response n text q ascii no_zero some_bytes fits =
      let whole : take n (text ++ 0 ∷ []) ≡ text ++ 0 ∷ [] =
        take-all n (text ++ 0 ∷ []) (omega (arith, length-append text (0 ∷ []))) in
      rw
        (
          whole,
          receive,
          utf8.decodes (text ++ 0 ∷ [])
              (All-append (λ c. c < 128) text (0 ∷ []) ascii (omega arith)),
          strip_zeros-response text no_zero some_bytes,
        )
        refl

module _ {Real : Type 0} (py : Python Real) (utf8 : Utf8 py) (respond : Bytes → List Bytes) where
  pub send-ascii : (s : Bytes) → IsAscii s → send py respond s [] ≡ ok (tt, respond s)
  send-ascii s h = rw (utf8.encodes s h, send) refl

  -- `query_nodes` when Airline says that the file is written.
  pub query_nodes-written :
      (path s : Bytes) (ns : List (Node Real))
      → IsAscii (position_cmd path)
      → respond (position_cmd path) ≡ answered_by (codes "SUCCESS")
      → read_nodes py (file_lines s) ≡ some ns
      → query_nodes py respond path (some s) ≡ (ok (some ns), true)
  unfolding query_nodes positions_written
  query_nodes-written path s ns plain answer read =
      rw
        (
          query_nodes,
          positions_written,
          ◌>>=◌,
          send-ascii (position_cmd path) plain,
          answer,
          receive-response py utf8 32 (codes "SUCCESS") (end_of_rsp ∷ []) (omega arith) no_zeros
              (omega arith) (omega arith),
          read,
        )
        refl
    where
      no_zeros : Lacks 0 (codes "SUCCESS")
      no_zeros = Lacks-lacks 0 (codes "SUCCESS") refl

  -- What a node's stack answers, and the edges that this makes.
  pub record Routed (route : Bytes → Bytes) (edges : Bytes → List Edge) (n : Node Real)
      : Type 0 where
    pub plain : IsAscii (route_cmd n.id)
    pub answer : respond (route_cmd n.id) ≡ answered_by (route n.id)
    pub ascii : IsAscii (route n.id)
    pub no_zero : Lacks 0 (route n.id)
    pub has_bytes : 0 < length (route n.id)
    pub fits : length (route n.id) < 64
    pub read : edges_for n.id (route n.id) ≡ some (edges n.id)

  -- Each response is read for the node that was asked, since the "END" behind it is read too.
  pub query_edges-Routed :
      (route : Bytes → Bytes) (edges : Bytes → List Edge) (ns : List (Node Real))
      → All (Routed route edges) ns
      → query_edges py respond ns [] ≡ ok (edges_from edges ns, [])
  unfolding query_edges
  query_edges-Routed route edges [] h = refl
  query_edges-Routed route edges (n ∷ ns) (hn, h) =
      rw
        (
          query_edges,
          ◌>>=◌,
          send-ascii (route_cmd n.id) hn.plain,
          hn.answer,
          receive-response py utf8 64 (route n.id) (end_of_rsp ∷ []) hn.ascii hn.no_zero
              hn.has_bytes hn.fits,
          hn.read,
          query_edges-Routed route edges ns h,
        )
        refl
