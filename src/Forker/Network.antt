-- ===== src/Forker/Network.antt =====
-- src/airline/Config.cc and src/utils/forker.c: the stacks of a network, from their commands in the
-- configuration to the programs that run.
use whitefield.Base.{
  ℕ, ◌%◌, ◌^◌, ◌<◌, ◌≡◌, refl, ap, sym, ◌∙◌, Bool, true, false, Option, none, some, List, [], ◌∷◌,
  ◌++◌, map, Bytes, length, length-set, length-append, take-all, All, get_elem?, set, ltb, ◌==◌,
  arith,
}
use whitefield.Base.Int.{ℤ, pos}
use whitefield.Commline.Message.{MsgBuf}
use whitefield.Airline.Nodeinfo.{Nodeinfo}
use whitefield.Airline.Config.{Config}
use whitefield.Airline.Spawn.{cmd_parser}
use whitefield.Airline.Spawn.Words.{IsWord, join, joined, cmd_parser-words}
use whitefield.Airline.Spawn.Sending.{spawn_mbuf, sending, spawn_stackline}
use whitefield.Forker.{Exec, running, fork_n_exec}
use whitefield.Forker.Spawned.{keep, some_of, asks_pty, is_setting, is_argument, fork_n_exec-join}
use whitefield.Forker.Queue.{Children, going_on, with_child, with_message, next, wait_on_q}

-- A node with the words of its command.
pub record Node : Type 0 where
  pub id : ℕ
  pub word : Bytes
  pub words : List Bytes

abbrev pub command : Node → Bytes
command n = join b' ' (n.word ∷ n.words)

-- What the command asks for.
abbrev pub program : Node → Exec
program n = record {
  argv = keep is_argument (n.word ∷ n.words);
  envp = keep is_setting (n.word ∷ n.words);
  pty = some_of asks_pty (n.word ∷ n.words);
}

-- A command of fewer than 20 plain words that names a program that exists.
pub record IsCommand (exists : Bytes → Bool) (n : Node) : Type 0 where
  pub plain : All IsWord (n.word ∷ n.words)
  pub short : length (join b'|' (n.word ∷ n.words)) < 1014
  pub few : length (n.word ∷ n.words) < 20
  pub bin : Bytes
  pub args : List Bytes
  pub first : keep is_argument (n.word ∷ n.words) ≡ bin ∷ args
  pub there : exists bin ≡ true

-- Node `n.id` of the configuration has the command.
abbrev pub IsConfigured : {Real : Type 0} → Config Real → Node → Type 0
IsConfigured {Real} c n =
    (ni : Nodeinfo Real) × (get_elem? c.node_array n.id ≡ some ni) × (ni.node_exec ≡ command n)

-- The messages that Airline sends for the nodes, in that order.
unfoldable pub spawn_all : {Real : Type 0} → MsgBuf → List ℕ → Config Real → Option (List MsgBuf)
unfolding spawn_stackline
spawn_all mbuf [] c = some []
spawn_all mbuf (id ∷ ids) c = elim (spawn_stackline mbuf id c) [
  | none ↦ none
  | some m ↦ elim (spawn_all mbuf ids c) [ none ↦ none | some ms ↦ some (m ∷ ms) ]
]

abbrev pub ids_of : List Node → List ℕ
ids_of ns = map (λ n. n.id) ns

module _ (fork : ℕ → Exec → ℤ) where
  -- The table of children and the programs with one more node.
  abbrev started_by : Node → Children → Children
  started_by n f = record {
    pids = set f.pids n.id (fork n.id (program n));
    started = f.started ++ (n.id, program n) ∷ [];
  }

  -- The specification: each node's program is started, in order, and its pid is stored.
  abbrev pub launched_all : List Node → Children → Children
  launched_all [] f = f
  launched_all (n ∷ ns) f = launched_all ns (started_by n f)

starts : (c : ℕ) (w : Bytes) (ws : List Bytes) → IsWord w → 0 < length (join c (w ∷ ws))
starts c w ws h = omega (arith, length-append w (joined c ws))

module _ (exists : Bytes → Bool) (fork : ℕ → Exec → ℤ) (mbuf : MsgBuf) {Real : Type 0}
    (c : Config Real) where
  -- A node that can be started, with the pid of its process.
  abbrev pub CanStart : Node → Type 0
  CanStart n =
      IsCommand exists n
      × IsConfigured c n
      × (n.id < 2000)
      × ((pid : ℕ) × (fork n.id (program n) ≡ pos pid))

  abbrev bars : Node → Bytes
  bars n = join b'|' (n.word ∷ n.words)

  -- The message of a node is the words between '|'.
  spawn_stackline-command :
      (n : Node)
      → IsCommand exists n
      → IsConfigured c n
      → spawn_stackline mbuf n.id c ≡ some (spawn_mbuf mbuf n.id (bars n))
  unfolding spawn_stackline
  spawn_stackline-command n h (ni, here, exec) =
      let some_byte : 0 < length ni.node_exec = rw exec (starts b' ' n.word n.words h.plain.0) in
      rw (here, spawn_stackline)
        (first_byte ni.node_exec some_byte
          ∙ ap (λ cmd. sending mbuf n.id (cmd_parser cmd n.id)) exec
          ∙ ap (sending mbuf n.id) (cmd_parser-words n.id n.word n.words h.plain h.short))
    where
      first_byte :
          (s : Bytes)
          → 0 < length s
          → (elim s [ [] ↦ none | x ∷ rest ↦ sending mbuf n.id (cmd_parser (x ∷ rest) n.id) ])
            ≡ sending mbuf n.id (cmd_parser s n.id)
      first_byte [] p = absurd (omega arith)
      first_byte (x ∷ s) p = refl

  fork_n_exec-program :
      (n : Node) → IsCommand exists n → fork_n_exec exists (bars n) ≡ running (program n)
  fork_n_exec-program n h =
      fork_n_exec-join exists n.word n.words h.bin h.args h.plain h.few h.first h.there
      ∙ ap
          (λ words. running (record {
            argv = words;
            envp = keep is_setting (n.word ∷ n.words);
            pty = some_of asks_pty (n.word ∷ n.words);
          }))
          (sym h.first)

  with_child-running :
      (n : Node) (f : Children) (pid : ℕ)
      → n.id < length f.pids
      → fork n.id (program n) ≡ pos pid
      → with_child n.id fork f (running (program n)) ≡ going_on (started_by fork n f)
  with_child-running n f pid inside answered =
      let room : ltb n.id (length f.pids) ≡ true = ground arith in rw (room, answered) refl

  with_message-running :
      (n : Node) (f : Children)
      → CanStart n
      → length f.pids ≡ 2000
      → with_message exists fork (some (spawn_mbuf mbuf n.id (bars n))) f
        ≡ going_on (started_by fork n f)
  with_message-running n f (h, _, small, (pid, answered)) size =
      let contents : 0 < length (bars n) = starts b'|' n.word n.words h.plain.0 in
      let fits : length (bars n) < 1014 = h.short in
      let full : (length (bars n) % 2 ^ 16 == 0) ≡ false = ground arith in
      rw full (
        ap (λ cmd. with_child n.id fork f (fork_n_exec exists cmd))
          (take-all 2047 (bars n) (omega arith))
        ∙ ap (with_child n.id fork f) (fork_n_exec-program n h)
        ∙ with_child-running n f pid (omega arith) answered)

  -- The stacks of a network start: when each node's command in the configuration is of fewer
  -- than 20 plain words that stay below 1014 bytes and names a program that exists, the node's
  -- number is below the 2000 elements of the table of children and no fork fails, the messages
  -- that Airline sends for the nodes make the forker start each node's program, in order, and
  -- store its pid, and the forker goes on.
  pub wait_on_q-spawn_all :
      (ns : List Node) (f : Children)
      → All CanStart ns
      → length f.pids ≡ 2000
      → (ms : List MsgBuf) × (spawn_all mbuf (ids_of ns) c ≡ some ms)
        × (wait_on_q exists fork (map some ms) f ≡ going_on (launched_all fork ns f))
  unfolding spawn_all wait_on_q
  wait_on_q-spawn_all [] f h size = ([], refl, refl)
  wait_on_q-spawn_all (n ∷ ns) f (hn, h) size =
      let (named, configured, _, _) = hn in
      let (ms, sent, ran) =
        wait_on_q-spawn_all ns (started_by fork n f) h
          (length-set f.pids n.id (fork n.id (program n)) ∙ size) in
      (
        spawn_mbuf mbuf n.id (bars n) ∷ ms,
        rw (spawn_stackline-command n named configured, spawn_all, sent) refl,
        ap (next exists fork (λ f'. wait_on_q exists fork (map some ms) f'))
              (with_message-running n f hn size)
            ∙ ran,
      )
