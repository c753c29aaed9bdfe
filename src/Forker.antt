-- ===== src/Forker.antt =====
-- src/utils/forker.c: a message of Airline as a program to run.
pub mod Spawned
pub mod Queue
pub mod Pty
pub mod Network
mod Tests
use whitefield.Base.{
  ℕ, zero, suc, ◌+◌, Bool, true, false, ◌||◌, Option, none, some, List, [], ◌∷◌, ◌++◌, Bytes, codes,
  length, leb, ltb, ◌==◌, if◌then◌else◌,
}
use whitefield.Base.Text.{behind, starts_with}

-- The parts between the '|'; there is always a last one.
abbrev extend : ℕ → List Bytes → List Bytes
extend c [] = (c ∷ []) ∷ []
extend c (p ∷ ps) = (c ∷ p) ∷ ps

unfoldable pub parts : Bytes → List Bytes
parts [] = [] ∷ []
parts (c ∷ s) = let ps = parts s in if c == b'|' then [] ∷ ps else extend c ps

-- `strstr(s, needle) != NULL`.
abbrev contains : Bytes → Bytes → Bool
contains needle [] = starts_with needle []
contains needle (c ∷ s) = starts_with needle (c ∷ s) || contains needle s

abbrev has_equals : Bytes → Bool
has_equals s = elim (behind b'=' s) [ none ↦ false | some _ ↦ true ]

-- `argv`, `envp` and `pty`.
pub record Exec : Type 0 where
  pub argv : List Bytes
  pub envp : List Bytes
  pub pty : Bool

-- SET_ARG_ENV.
unfoldable pub set_arg_env : Bytes → Exec → Exec
set_arg_env buf x =
    if contains (codes "PTY=1") buf
    then record x { pty = true }
    else if has_equals buf
    then record x { envp = x.envp ++ buf ∷ [] }
    else record x { argv = x.argv ++ buf ∷ [] }

unfoldable pub set_all : List Bytes → Exec → Exec
unfolding set_arg_env
set_all [] x = x
set_all (p ∷ ps) x = set_all ps (set_arg_env p x)

-- What a call comes to: the program that is run, FAILURE, or a write behind the end of `argv` or
-- `envp`, which have 20 elements with the null pointer.
pub data Forked : Type 0 where
  running : Exec → Forked
  failed : Forked
  fault : Forked

-- The statements behind the loop. `exists` stands for `stat`; a failing `fork` is left out.
abbrev launched : (Bytes → Bool) → Exec → Forked
launched exists x =
    if leb 20 (length x.argv) || leb 20 (length x.envp)
    then fault
    else (elim x.argv [ [] ↦ failed | bin ∷ _ ↦ if exists bin then running x else failed ])

unfoldable pub fork_n_exec : (Bytes → Bool) → Bytes → Forked
unfolding parts set_all
fork_n_exec exists buf =
    launched exists (set_all (parts buf) (record { argv = []; envp = []; pty = false }))
