-- ===== src/Airline/Spawn/Words.antt =====
-- src/airline/Config.cc: commands that are plain words between blanks.
use whitefield.Base.{
  ℕ, zero, suc, ◌+◌, ◌≤◌, ◌<◌, ◌≡◌, ◌≢◌, refl, ap, ◌∙◌, false, Option, none, some, List, [], ◌∷◌,
  ◌++◌, append_assoc, append-nil, Bytes, length, take-all, length-append, take, All, leb, ◌==◌,
  arith,
}
use whitefield.Base.Text.{
  behind, before, skip_spaces, is_space, Lacks, before-append, behind-append, behind-Lacks,
}
use whitefield.Airline.Spawn.{
  resolve_token, Parsed, parsed, parse_loop, cmd_parser, token_at, separated, with_next, with_token,
}

-- A byte that `cmdParser` and the forker read as itself.
abbrev pub IsPlain : ℕ → Type 0
IsPlain c = (is_space c ≡ false) × (c ≢ b'"') × (c ≢ b'$') × (c ≢ b'|')

abbrev pub IsWord : Bytes → Type 0
IsWord w = (0 < length w) × (length w < 512) × All IsPlain w

-- The words between delimiters, and the words each behind one.
abbrev pub joined : ℕ → List Bytes → Bytes
joined c [] = []
joined c (w ∷ ws) = c ∷ (w ++ joined c ws)

abbrev pub join : ℕ → List Bytes → Bytes
join c [] = []
join c (w ∷ ws) = w ++ joined c ws

-- What is left of the command when `ws` are still to come.
abbrev left : List Bytes → Option Bytes
left [] = none
left (w ∷ ws) = some (join b' ' (w ∷ ws))

Lacks-plain : (c : ℕ) (w : Bytes) → ((x : ℕ) → IsPlain x → x ≢ c) → All IsPlain w → Lacks c w
Lacks-plain c [] differs h = tt
Lacks-plain c (x ∷ w) differs (hx, h) = (differs x hx, Lacks-plain c w differs h)

no_blank : (x : ℕ) → IsPlain x → x ≢ b' '
no_blank x h e = ground (arith, h.0)

before-joined : (w : Bytes) (ws : List Bytes) → Lacks b' ' w → before b' ' (w ++ joined b' ' ws) ≡ w
before-joined w (v ∷ ws) h = before-append b' ' w (v ++ joined b' ' ws) h
before-joined [] [] h = refl
before-joined (x ∷ w) [] (hx, h) = ground (arith, before-joined w [] h)

behind-joined :
    (w : Bytes) (ws : List Bytes) → Lacks b' ' w → behind b' ' (w ++ joined b' ' ws) ≡ left ws
behind-joined w (v ∷ ws) h = behind-append b' ' w (v ++ joined b' ' ws) h
behind-joined w [] h = rw (append-nil w) (behind-Lacks b' ' w h)

pair :
    {a b : Bytes} {r s : Option Bytes}
    → a ≡ b
    → r ≡ s
    → ◌≡◌ {A = Bytes × Option Bytes} (a, r) (b, s)
pair e e' = rw (e, e') refl

dollar_free : (w : Bytes) → All IsPlain w → behind b'$' w ≡ none
dollar_free w h = behind-Lacks b'$' w (Lacks-plain b'$' w (λ x (_, _, no_dollar, _). no_dollar) h)

token_at-word :
    (w : Bytes) (ws : List Bytes)
    → IsWord w
    → token_at 512 (skip_spaces (w ++ joined b' ' ws)) ≡ some (w, left ws)
token_at-word [] ws (some_byte, short, plain) = absurd (omega arith)
token_at-word (x ∷ w) ws (some_byte, short, ((not_space, no_quote, rest, rest'), plain)) =
    let word : Lacks b' ' (x ∷ w) =
      Lacks-plain b' ' (x ∷ w) no_blank ((not_space, no_quote, rest, rest'), plain) in
    let bare : (x == b'"') ≡ false = ground arith in
    rw (not_space, bare)
      (ap some (
        pair
          (ap (λ s. take 511 s) (before-joined (x ∷ w) ws word)
            ∙ take-all 511 (x ∷ w) (omega arith))
          (behind-joined (x ∷ w) ws word)))

joined-count : (ws : List Bytes) → length ws ≤ length (joined b' ' ws)
joined-count [] = omega arith
joined-count (w ∷ ws) = omega (arith, joined-count ws, length-append w (joined b' ' ws))

-- What the buffer holds behind the words still to come.
abbrev filled : Bytes → List Bytes → Bytes
filled buf ws = buf ++ joined b'|' ws

separated_some : (buf : Bytes) → 0 < length buf → separated buf ≡ buf ++ b'|' ∷ []
separated_some [] h = absurd (omega arith)
separated_some (c ∷ buf) h = refl

with_token-fits :
    (buf tok : Bytes) (go_on : Bytes → Parsed)
    → length (separated buf) + length tok < 1014
    → with_token buf (some tok) go_on ≡ go_on (separated buf ++ tok)
with_token-fits buf tok go_on h =
    let fits : leb 1014 (length (separated buf) + length tok) ≡ false = ground arith in rw fits refl

resolve_token-word : (id : ℕ) (w : Bytes) → All IsPlain w → resolve_token id w ≡ some w
unfolding resolve_token
resolve_token-word id w h = rw (dollar_free w h, resolve_token) refl

with_next-word :
    (id : ℕ) (buf w : Bytes) (r : Option Bytes) (go_on : Option Bytes → Bytes → Parsed)
    → All IsPlain w
    → with_next id buf (some (w, r)) go_on ≡ with_token buf (some w) (λ buf'. go_on r buf')
with_next-word id buf w r go_on h =
    ap (λ tok. with_token buf tok (λ buf'. go_on r buf')) (resolve_token-word id w h)

parse_loop-words :
    (fuel id : ℕ) (ws : List Bytes) (buf : Bytes)
    → All IsWord ws
    → length ws < fuel
    → 0 < length buf
    → length (filled buf ws) < 1014
    → parse_loop fuel id (left ws) buf ≡ parsed (filled buf ws)
unfolding parse_loop
parse_loop-words zero id ws buf h enough some_byte short = absurd (omega arith)
parse_loop-words (suc fuel) id [] buf h enough some_byte short = rw (append-nil buf) refl
parse_loop-words (suc fuel) id (w ∷ ws) buf (hw, h) enough some_byte short =
    let lens : length (filled buf (w ∷ ws))
        ≡ length buf + suc (length w + length (joined b'|' ws)) =
      length-append buf (b'|' ∷ (w ++ joined b'|' ws))
      ∙ ap (λ n. length buf + suc n) (length-append w (joined b'|' ws)) in
    let sep : separated buf ≡ buf ++ b'|' ∷ [] = separated_some buf some_byte in
    let sep_len : length (separated buf) ≡ length buf + 1 =
      ap length sep ∙ length-append buf (b'|' ∷ []) in
    let next_len : length (separated buf ++ w) ≡ length (separated buf) + length w =
      length-append (separated buf) w in
    let same : filled (separated buf ++ w) ws ≡ filled buf (w ∷ ws) = rw sep (
      append_assoc (buf ++ b'|' ∷ []) w (joined b'|' ws)
      ∙ append_assoc buf (b'|' ∷ []) (w ++ joined b'|' ws)) in
    let ih =
      parse_loop-words fuel id ws (separated buf ++ w) h (omega arith) (omega arith)
        (rw same short) in
    rw (token_at-word w ws hw) (
      with_next-word id buf w (left ws) (λ rest buf'. parse_loop fuel id rest buf') hw.2
      ∙ with_token-fits buf w (λ buf'. parse_loop fuel id (left ws) buf') (omega arith)
      ∙ ih
      ∙ ap parsed same)

-- A command of plain words between single blanks becomes the same words between '|', as long as
-- they fit the buffer.
pub cmd_parser-words :
    (id : ℕ) (w : Bytes) (ws : List Bytes)
    → All IsWord (w ∷ ws)
    → length (join b'|' (w ∷ ws)) < 1014
    → cmd_parser (join b' ' (w ∷ ws)) id ≡ parsed (join b'|' (w ∷ ws))
unfolding cmd_parser parse_loop
cmd_parser-words id w ws (hw, h) short =
    let lens : length (join b'|' (w ∷ ws)) ≡ length w + length (joined b'|' ws) =
      length-append w (joined b'|' ws) in
    let size : length (join b' ' (w ∷ ws)) ≡ length w + length (joined b' ' ws) =
      length-append w (joined b' ' ws) in
    rw (token_at-word w ws hw) (
      with_next-word id [] w (left ws)
        (λ rest buf'. parse_loop (length (join b' ' (w ∷ ws))) id rest buf') hw.2
      ∙ with_token-fits [] w (λ buf'. parse_loop (length (join b' ' (w ∷ ws))) id (left ws) buf')
          (omega arith)
      ∙ parse_loop-words (length (join b' ' (w ∷ ws))) id ws w h (omega (arith, joined-count ws))
          hw.0 short)
