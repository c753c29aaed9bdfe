-- ===== src/Airline/Spawn.antt =====
-- src/airline/Config.cc: from a node's command to the message that starts its stack.
--
-- A C string is its bytes without the terminator. `cmdParser` has buffers of 1024 and 512 bytes.
pub mod Words
pub mod Resolve
pub mod Ending
pub mod Sending
use whitefield.Base.{
  ℕ, zero, suc, ◌+◌, ◌-◌, ◌/◌, ◌%◌, Bool, true, false, Option, none, some, List, [], ◌∷◌, ◌++◌,
  Bytes, codes, length, take, drop, leb, ltb, ◌==◌, if◌then◌else◌,
}
use whitefield.Base.Int.{ℤ, pos, negsuc}
use whitefield.Base.Text.{decimal, decimal_digits, behind, before, skip_spaces, atoi, starts_with}

-- `copyBetweenPtr` up to the byte that ends the token, or `strncpy` up to the end.
abbrev copied : ℕ → Bytes → Bytes
copied tok_len s = take (tok_len - 1) s

-- The token, and what is left of the command; `none` for the rest is `*state = 0`.
abbrev quoted : ℕ → Bytes → Option (Bytes × Option Bytes)
quoted tok_len s = elim (behind b'"' s) [
  | none ↦ none
  | some rest ↦ some (copied tok_len (before b'"' s), some rest)
]

abbrev plain : ℕ → Bytes → Bytes × Option Bytes
plain tok_len s = (copied tok_len (before b' ' s), behind b' ' s)

abbrev token_at : ℕ → Bytes → Option (Bytes × Option Bytes)
token_at tok_len [] = none
token_at tok_len (c ∷ s) = if c == b'"' then quoted tok_len s else some (plain tok_len (c ∷ s))

unfoldable pub get_next_cmd_token : ℕ → Option Bytes → Option (Bytes × Option Bytes)
get_next_cmd_token tok_len none = none
get_next_cmd_token tok_len (some ptr) = token_at tok_len (skip_spaces ptr)

abbrev format : ℤ → Bytes
format (pos n) = decimal n
format (negsuc n) = b'-' ∷ decimal (suc n)

-- `nodeID + atoi(…)`.
abbrev plus : ℕ → ℤ → ℤ
plus id (pos n) = pos (id + n)
plus id (negsuc n) = if ltb n id then pos (id - suc n) else negsuc (n - id)

-- The number replaces "$NODEID+" and one more byte of the token; `none` is a token that ends at the
-- '+', where the code reads behind its end, and a number so long that it overwrites what is
-- still to be copied. After a number of nine bytes its final 0 stands where that begins.
abbrev with_offset : Bytes → Bytes → Bytes → Option Bytes
with_offset pre number s =
    if ltb (length s) 8
    then none
    else if ltb 9 (length number)
    then none
    else some (pre ++ (if length number == 9 then number else number ++ drop 8 s))

-- `pre` and `s` are the token before and behind its first '$'.
abbrev substituted : ℕ → Bytes → Bytes → Bytes → Option Bytes
substituted id tok pre s =
    if starts_with (codes "NODEID+") s
    then with_offset pre (format (plus id (atoi (drop 7 s)))) s
    else if starts_with (codes "NODEID") s
    then some (pre ++ (decimal id ++ drop 6 s))
    else some tok

unfoldable pub resolve_token : ℕ → Bytes → Option Bytes
unfolding decimal_digits
resolve_token id tok = elim (behind b'$' tok) [
  | none ↦ some tok
  | some s ↦ substituted id tok (before b'$' tok) s
]

-- How `cmdParser` ends; `stopped` is WF_STOP.
pub data Parsed : Type 0 where
  parsed : Bytes → Parsed
  stopped : Parsed
  undefined : Parsed
  out_of_fuel : Parsed

abbrev separated : Bytes → Bytes
separated [] = []
separated (c ∷ buf) = (c ∷ buf) ++ b'|' ∷ []

-- `buflen` counts the whole token, also where `snprintf` cuts it.
abbrev with_token : Bytes → Option Bytes → (Bytes → Parsed) → Parsed
with_token buf none go_on = undefined
with_token buf (some tok) go_on =
    if leb 1014 (length (separated buf) + length tok) then stopped else go_on (separated buf ++ tok)

abbrev with_next :
    ℕ → Bytes → Option (Bytes × Option Bytes) → (Option Bytes → Bytes → Parsed) → Parsed
with_next id buf none go_on = parsed buf
with_next id buf (some (tok, rest)) go_on =
    with_token buf (resolve_token id tok) (λ buf'. go_on rest buf')

-- The loop, with the bytes in `buf` so far.
unfoldable pub parse_loop : ℕ → ℕ → Option Bytes → Bytes → Parsed
unfolding get_next_cmd_token resolve_token
parse_loop zero id ptr buf = out_of_fuel
parse_loop (suc fuel) id ptr buf =
    with_next id buf (get_next_cmd_token 512 ptr) (λ rest buf'. parse_loop fuel id rest buf')

unfoldable pub cmd_parser : Bytes → ℕ → Parsed
unfolding parse_loop
cmd_parser cmd id = parse_loop (suc (length cmd)) id (some cmd) []
