-- ===== src/Airline/Spawn/Ending.antt =====
-- src/airline/Config.cc: the loop of `cmdParser` ends.
use whitefield.Base.{
  ℕ, zero, suc, ◌≤◌, ◌<◌, ◌≢◌, Option, none, some, [], ◌∷◌, Bytes, length, leb, ◌==◌, ◌+◌, ◌++◌,
  arith, Bool-cases, inl, inr,
}
use whitefield.Base.Text.{behind, before, skip_spaces}
use whitefield.Airline.Spawn.{
  copied, token_at, get_next_cmd_token, resolve_token, Parsed, out_of_fuel, with_next, with_token,
  separated, parse_loop, cmd_parser,
}

-- How much of the command is left.
abbrev size : Option Bytes → ℕ
size none = 0
size (some s) = length s

abbrev Shrinks : ℕ → Option (Bytes × Option Bytes) → Type 0
Shrinks n none = Unit
Shrinks n (some (tok, rest)) = size rest < n

size-behind : (c : ℕ) (s : Bytes) → size (behind c s) ≤ length s
size-behind c [] = omega arith
size-behind c (x ∷ s) = ground (arith, size-behind c s)

quoted-Shrinks :
    (tok : Bytes) (n : ℕ) (o : Option Bytes)
    → size o < n
    → Shrinks n (elim o [ none ↦ none | some rest ↦ some (tok, some rest) ])
quoted-Shrinks tok n none h = tt
quoted-Shrinks tok n (some rest) h = h

token_at-Shrinks : (tok_len : ℕ) (s : Bytes) → Shrinks (length s) (token_at tok_len s)
token_at-Shrinks tok_len [] = tt
token_at-Shrinks tok_len (c ∷ s) = elim (Bool-cases (c == b'"')) [
  | inl quote ↦ rw quote (
      quoted-Shrinks (copied tok_len (before b'"' s)) (suc (length s)) (behind b'"' s)
        (omega (arith, size-behind b'"' s)))
  | inr bare ↦ rw bare (size-plain c s)
]
  where
    size-plain : (c : ℕ) (s : Bytes) → size (behind b' ' (c ∷ s)) < suc (length s)
    size-plain c s = ground (arith, size-behind b' ' s)

length-skip_spaces : (s : Bytes) → length (skip_spaces s) ≤ length s
length-skip_spaces [] = omega arith
length-skip_spaces (c ∷ s) = ground (arith, length-skip_spaces s)

Shrinks-mono : (m n : ℕ) (o : Option (Bytes × Option Bytes)) → m ≤ n → Shrinks m o → Shrinks n o
Shrinks-mono m n none h k = tt
Shrinks-mono m n (some (tok, rest)) h k = omega arith

get_next_cmd_token-Shrinks :
    (tok_len : ℕ) (ptr : Option Bytes) → Shrinks (size ptr) (get_next_cmd_token tok_len ptr)
unfolding get_next_cmd_token
get_next_cmd_token-Shrinks tok_len none = tt
get_next_cmd_token-Shrinks tok_len (some s) =
    Shrinks-mono (length (skip_spaces s)) (length s) (token_at tok_len (skip_spaces s))
      (length-skip_spaces s) (token_at-Shrinks tok_len (skip_spaces s))

with_token-ends :
    (buf : Bytes) (tok : Option Bytes) (go_on : Bytes → Parsed)
    → ((buf' : Bytes) → go_on buf' ≢ out_of_fuel)
    → with_token buf tok go_on ≢ out_of_fuel
with_token-ends buf none go_on h = λ e. cc
with_token-ends buf (some tok) go_on h =
    elim (Bool-cases (leb 1014 (length (separated buf) + length tok))) [
      | inl full ↦ rw full (λ e. cc)
      | inr fits ↦ rw fits (h (separated buf ++ tok))
    ]

with_next-ends :
    (id n : ℕ) (buf : Bytes) (o : Option (Bytes × Option Bytes))
    (go_on : Option Bytes → Bytes → Parsed)
    → Shrinks n o
    → ((rest : Option Bytes) (buf' : Bytes) → size rest < n → go_on rest buf' ≢ out_of_fuel)
    → with_next id buf o go_on ≢ out_of_fuel
with_next-ends id n buf none go_on k h = λ e. cc
with_next-ends id n buf (some (tok, rest)) go_on k h =
    with_token-ends buf (resolve_token id tok) (λ buf'. go_on rest buf') (λ buf'. h rest buf' k)

parse_loop-ends :
    (fuel id : ℕ) (ptr : Option Bytes) (buf : Bytes)
    → size ptr < fuel
    → parse_loop fuel id ptr buf ≢ out_of_fuel
unfolding parse_loop
parse_loop-ends zero id ptr buf h = absurd (omega arith)
parse_loop-ends (suc fuel) id ptr buf h =
    with_next-ends id (size ptr) buf (get_next_cmd_token 512 ptr)
      (λ rest buf'. parse_loop fuel id rest buf') (get_next_cmd_token-Shrinks 512 ptr)
      (λ rest buf' k. parse_loop-ends fuel id rest buf' (omega arith))

-- The parsing of every command ends within the fuel: with a text, with the stop for a command that
-- is too long, or with a read behind a buffer.
pub cmd_parser-ends : (cmd : Bytes) (id : ℕ) → cmd_parser cmd id ≢ out_of_fuel
unfolding cmd_parser
cmd_parser-ends cmd id = parse_loop-ends (suc (length cmd)) id (some cmd) [] (omega arith)
