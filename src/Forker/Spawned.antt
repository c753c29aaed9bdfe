-- ===== src/Forker/Spawned.antt =====
-- src/utils/forker.c and src/airline/Config.cc: what the forker runs for a node's command.
use whitefield.Base.{
  ℕ, ◌≤◌, ◌<◌, ◌≡◌, refl, ap, ◌∙◌, Bool, true, false, not, ◌||◌, ◌&&◌, List, [], ◌∷◌, ◌++◌,
  append_assoc, append-nil, Bytes, codes, length, All, leb, ◌==◌, if◌then◌else◌, arith, Bool-cases,
  inl, inr,
}
use whitefield.Base.Text.{Lacks}
use whitefield.Airline.Spawn.{parsed, cmd_parser}
use whitefield.Airline.Spawn.Words.{IsPlain, IsWord, joined, join, cmd_parser-words}
use whitefield.Forker.{
  parts, contains, has_equals, Exec, set_arg_env, set_all, running, launched, fork_n_exec,
}

bar_free : (w : Bytes) → All IsPlain w → Lacks b'|' w
bar_free [] h = tt
bar_free (x ∷ w) ((_, _, _, no_bar), h) = (no_bar, bar_free w h)

parts_word : (w : Bytes) → Lacks b'|' w → parts w ≡ w ∷ []
unfolding parts
parts_word [] h = refl
parts_word (x ∷ w) (hx, h) =
    let apart : (x == b'|') ≡ false = ground arith in rw (apart, parts_word w h) refl

parts-append : (w s : Bytes) → Lacks b'|' w → parts (w ++ b'|' ∷ s) ≡ w ∷ parts s
unfolding parts
parts-append [] s h = refl
parts-append (x ∷ w) s (hx, h) =
    let apart : (x == b'|') ≡ false = ground arith in rw (apart, parts-append w s h) refl

parts-join :
    (w : Bytes) (ws : List Bytes)
    → Lacks b'|' w
    → All (Lacks b'|') ws
    → parts (join b'|' (w ∷ ws)) ≡ w ∷ ws
parts-join w [] h hs = rw (append-nil w) (parts_word w h)
parts-join w (v ∷ vs) h (hv, hs) =
    parts-append w (v ++ joined b'|' vs) h ∙ ap (λ r. w ∷ r) (parts-join v vs hv hs)

-- Which words are settings of the environment, which are arguments, and whether one asks for a
-- terminal.
abbrev pub asks_pty : Bytes → Bool
asks_pty w = contains (codes "PTY=1") w

abbrev pub keep : (Bytes → Bool) → List Bytes → List Bytes
keep test [] = []
keep test (w ∷ ws) = if test w then w ∷ keep test ws else keep test ws

abbrev pub some_of : (Bytes → Bool) → List Bytes → Bool
some_of test [] = false
some_of test (w ∷ ws) = test w || some_of test ws

abbrev pub is_setting : Bytes → Bool
is_setting w = not (asks_pty w) && has_equals w

abbrev pub is_argument : Bytes → Bool
is_argument w = not (asks_pty w) && not (has_equals w)

or_false : (b : Bool) → (b || false) ≡ b
or_false true = refl
or_false false = refl

or_true : (b : Bool) → (b || true) ≡ true
or_true true = refl
or_true false = refl

set_all-keep :
    (ws : List Bytes) (x : Exec)
    → set_all ws x ≡ record {
      argv = x.argv ++ keep is_argument ws;
      envp = x.envp ++ keep is_setting ws;
      pty = x.pty || some_of asks_pty ws;
    }
unfolding set_all set_arg_env
set_all-keep [] x = rw (append-nil x.argv, append-nil x.envp, or_false x.pty) refl
set_all-keep (w ∷ ws) x = elim (Bool-cases (asks_pty w)) [
  | inl asks ↦ rw asks (rw (or_true x.pty) (set_all-keep ws (record x { pty = true })))
  | inr plain ↦ elim (Bool-cases (has_equals w)) [
    | inl setting ↦
        rw (plain, setting)
          (rw (← append_assoc x.envp (w ∷ []) (keep is_setting ws))
            (set_all-keep ws (record x { envp = x.envp ++ w ∷ [] })))
    | inr argument ↦
        rw (plain, argument)
          (rw (← append_assoc x.argv (w ∷ []) (keep is_argument ws))
            (set_all-keep ws (record x { argv = x.argv ++ w ∷ [] })))
  ]
]

length-keep : (test : Bytes → Bool) (ws : List Bytes) → length (keep test ws) ≤ length ws
length-keep test [] = omega arith
length-keep test (w ∷ ws) = ground (arith, length-keep test ws)

All-Lacks : (ws : List Bytes) → All IsWord ws → All (Lacks b'|') ws
All-Lacks [] h = tt
All-Lacks (w ∷ ws) ((_, _, plain), h) = (bar_free w plain, All-Lacks ws h)

abbrev asked : List Bytes → Exec
asked ws = record {
  argv = keep is_argument ws;
  envp = keep is_setting ws;
  pty = some_of asks_pty ws;
}

set_all-parts :
    (w : Bytes) (ws : List Bytes)
    → All IsWord (w ∷ ws)
    → set_all (parts (join b'|' (w ∷ ws))) (record { argv = []; envp = []; pty = false })
      ≡ asked (w ∷ ws)
set_all-parts w ws h =
    let (bars, bars') = All-Lacks (w ∷ ws) h in
    rw (parts-join w ws bars bars')
      (set_all-keep (w ∷ ws) (record { argv = []; envp = []; pty = false }))

launched-running :
    (exists : Bytes → Bool) (x : Exec) (bin : Bytes) (args : List Bytes)
    → length x.argv < 20
    → length x.envp < 20
    → x.argv ≡ bin ∷ args
    → exists bin ≡ true
    → launched exists x ≡ running (record x { argv = bin ∷ args })
launched-running exists x bin args few few' first there =
    let room : leb 20 (length x.argv) ≡ false = ground arith in
    let room' : leb 20 (length x.envp) ≡ false = ground arith in
    rw (room, room', first, there) (ap (λ words. running (record x { argv = words })) first)

pub fork_n_exec-join :
    (exists : Bytes → Bool) (w : Bytes) (ws : List Bytes) (bin : Bytes) (args : List Bytes)
    → All IsWord (w ∷ ws)
    → length (w ∷ ws) < 20
    → keep is_argument (w ∷ ws) ≡ bin ∷ args
    → exists bin ≡ true
    → fork_n_exec exists (join b'|' (w ∷ ws))
      ≡ running (record {
        argv = bin ∷ args;
        envp = keep is_setting (w ∷ ws);
        pty = some_of asks_pty (w ∷ ws);
      })
unfolding fork_n_exec
fork_n_exec-join exists w ws bin args h few first there =
    ap (λ x. launched exists x) (set_all-parts w ws h)
    ∙ launched-running exists (asked (w ∷ ws)) bin args
        (omega (arith, length-keep is_argument (w ∷ ws)))
        (omega (arith, length-keep is_setting (w ∷ ws))) first there

-- A node's command of fewer than 20 plain words goes through Airline and the forker unharmed: the
-- program is run with the words that are no setting as its arguments, in order, the words with an
-- '=' as its environment, and on a terminal when a word says PTY=1. The program must exist.
pub fork_n_exec-cmd_parser :
    (exists : Bytes → Bool) (id : ℕ) (w : Bytes) (ws : List Bytes) (bin : Bytes) (args : List Bytes)
    → All IsWord (w ∷ ws)
    → length (join b'|' (w ∷ ws)) < 1014
    → length (w ∷ ws) < 20
    → keep is_argument (w ∷ ws) ≡ bin ∷ args
    → exists bin ≡ true
    → (cmd : Bytes) × (cmd_parser (join b' ' (w ∷ ws)) id ≡ parsed cmd)
      × (fork_n_exec exists cmd
          ≡ running (record {
            argv = bin ∷ args;
            envp = keep is_setting (w ∷ ws);
            pty = some_of asks_pty (w ∷ ws);
          }))
fork_n_exec-cmd_parser exists id w ws bin args h short few first there = (
  join b'|' (w ∷ ws),
  cmd_parser-words id w ws h short,
  fork_n_exec-join exists w ws bin args h few first there,
)
