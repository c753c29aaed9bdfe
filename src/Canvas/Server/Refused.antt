-- ===== src/Canvas/Server/Refused.antt =====
-- canvas/canvas.py: what comes of an answer of Airline other than SUCCESS.
use whitefield.Base.{
  ℕ, zero, suc, ◌≤◌, ◌<◌, ◌^◌, ◌≡◌, ◌≢◌, inl, inr, refl, sym, ap, ◌∙◌, true, false, ◌&&◌, Option,
  none, List, [], ◌∷◌, ◌++◌, Bytes, codes, length, take, take-all, All, ltb, ◌==◌, Bool-cases,
  arith,
}
use whitefield.Base.Text.{Lacks, text_eq}
use whitefield.Monitor.Thread.{end_of_rsp}
use whitefield.Canvas.Server.Strings.{skip_front, with_front, skip_back}
use whitefield.Canvas.Server.{
  ok, ◌>>=◌, Python, status_500, strip_zeros, position_cmd, receive, positions_written, query_nodes,
  graph_of, graph,
}
use whitefield.Canvas.Server.Asking.{
  is_zero, IsAscii, Utf8, answered_by, with_front-zero, send-ascii, receive-response,
}
use whitefield.Canvas.Server.Starting.{port, ended, started, get_config, main}

strip_zeros-Lacks : (s : Bytes) → Lacks 0 s → strip_zeros s ≡ s
strip_zeros-Lacks [] h = refl
strip_zeros-Lacks (c ∷ s) (hc, h) =
    let other : (c == 0) ≡ false = ground arith in rw (other, skip_front) (kept (c ∷ s) (hc, h))
  where
    kept : (s : Bytes) → Lacks 0 s → skip_back is_zero s ≡ s
    kept [] h = refl
    kept (c ∷ s) (hc, h) = ap (with_front is_zero c) (kept s h) ∙ with_front-zero c s hc

All-take : (P : ℕ → Type 0) (n : ℕ) (s : Bytes) → All P s → All P (take n s)
All-take P zero s h = tt
All-take P (suc n) [] h = tt
All-take P (suc n) (c ∷ s) (hc, h) = (hc, All-take P n s h)

take-append : (n : ℕ) (s t : Bytes) → n ≤ length s → take n (s ++ t) ≡ take n s
take-append zero s t h = refl
take-append (suc n) [] t h = absurd (omega arith)
take-append (suc n) (c ∷ s) t h = ap (λ r. c ∷ r) (take-append n s t (omega arith))

text_eq-take : (n : ℕ) (s t : Bytes) → length t < n → text_eq (take n s) t ≡ text_eq s t
text_eq-take zero s t h = absurd (omega arith)
text_eq-take (suc n) [] t h = refl
text_eq-take (suc n) (x ∷ s) [] h = refl
text_eq-take (suc n) (x ∷ s) (y ∷ t) h = ap (λ b. x == y && b) (text_eq-take n s t (omega arith))

module _ {Real : Type 0} (py : Python Real) (utf8 : Utf8 py) where
  -- A response as it is received, cut where it is too long.
  receive-cut :
      (n : ℕ) (text : Bytes) (q : List Bytes)
      → IsAscii text
      → Lacks 0 text
      → 0 < length text
      → receive py n ((text ++ 0 ∷ []) ∷ q) ≡ ok (take n text, q)
  receive-cut n text q ascii no_zero some_bytes = elim (Bool-cases (ltb (length text) n)) [
    | inl fits ↦
        let room : length text < n = ground arith in
        receive-response py utf8 n text q ascii no_zero some_bytes room
        ∙ ap (λ t. ok (t, q)) (sym (take-all n text (omega arith)))
    | inr long ↦
        let over : n ≤ length text = ground arith in
        rw
          (
            take-append n text (0 ∷ []) over,
            receive,
            utf8.decodes (take n text) (All-take (λ c. c < 128) n text ascii),
            strip_zeros-Lacks (take n text) (All-take (λ c. c ≢ 0) n text no_zero),
          )
          refl
  ]

  module _ (respond : Bytes → List Bytes) (path text : Bytes) (plain : IsAscii (position_cmd path))
      (answer : respond (position_cmd path) ≡ answered_by text) (ascii : IsAscii text)
      (no_zero : Lacks 0 text) (some_bytes : 0 < length text)
      (refusal : text_eq text (codes "SUCCESS") ≡ false) where
    query_nodes-refusal :
        (content : Option Bytes) → query_nodes py respond path content ≡ (ok none, true)
    unfolding query_nodes positions_written
    query_nodes-refusal content =
        let other : text_eq (take 32 text) (codes "SUCCESS") ≡ false =
          text_eq-take 32 text (codes "SUCCESS") (omega arith) ∙ refusal in
        rw
          (
            query_nodes,
            positions_written,
            ◌>>=◌,
            send-ascii py utf8 respond (position_cmd path) plain,
            answer,
            receive-cut 32 text (end_of_rsp ∷ []) ascii no_zero some_bytes,
            other,
          )
          refl

    -- When Airline answers the server's first command with another text than SUCCESS, such as that
    -- the file cannot be opened, then the server that runs answers the page with status 500, but a
    -- server that starts ends with status 1, as its loop over no nodes raises an exception. The
    -- port is read from the configuration and below 65536; command and answer are ASCII, and the
    -- answer has a byte and no 0.
    pub refused-ends :
        (config content : Option Bytes) (ports : ℕ → Bytes → List Bytes) (n : ℕ)
        → ports n ≡ respond
        → get_config config ≡ port n
        → n < 2 ^ 16
        → (graph py respond path content ≡ ok status_500)
          × (main py config ports path content ≡ ended 1)
    unfolding graph main
    refused-ends config content ports n answers configured small =
        let inside : ltb 65535 n ≡ false = ground arith in
        (
          ap (λ r. graph_of py respond r.0) (query_nodes-refusal content),
          rw (configured, started, inside, answers, query_nodes-refusal content) refl,
        )
