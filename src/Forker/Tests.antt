-- ===== src/Forker/Tests.antt =====
-- Commands from the configuration to the forker, and the theorems about them.
use whitefield.Base.{replicate, false, map}
use whitefield.Forker.Pty.{event_word, Peer, Bridge, to_peer, to_master, pty_handler_thread}
use whitefield.Forker.Pty.Alone.{Report, reported, IsIsolated, pty_handler_thread-IsIsolated}
use whitefield.Base.{
  ℕ, ◌+◌, ◌<◌, ◌≡◌, ◌≢◌, refl, true, map, replicate, length-replicate, List, some, [], ◌∷◌, Bytes,
  Bool, codes, All, arith,
}
use whitefield.Base.Text.{decimal_digits}
use whitefield.Airline.Spawn.{
  out_of_fuel, resolve_token, parsed, get_next_cmd_token, cmd_parser, parse_loop,
}
use whitefield.Airline.Spawn.Words.{IsPlain, IsWord}
use whitefield.Airline.Spawn.Ending.{cmd_parser-ends}
use whitefield.Base.Int.{ℤ, pos}
use whitefield.Commline.Message.{MsgBuf, define_mbuf}
use whitefield.Airline.Nodeinfo.{new_nodeinfo}
use whitefield.Airline.Config.{Config}
use whitefield.Forker.{Exec}
use whitefield.Forker.Queue.{Children, going_on, wait_on_q}
use whitefield.Forker.Network.{
  Node, IsCommand, CanStart, spawn_all, launched_all, wait_on_q-spawn_all,
}

-- A quoted token and a node id.
node_command :
    cmd_parser (codes "bin/node  \"a b\" --id=$NODEID") 12 ≡ parsed (codes "bin/node|a b|--id=12")
unfolding cmd_parser parse_loop get_next_cmd_token resolve_token decimal_digits
node_command = refl

abbrev bin : Bytes
bin = codes "ls"

abbrev setting : Bytes
setting = codes "A=b"

plain : (c : ℕ) → 96 < c → c < 123 → IsPlain c
plain c low high = (ground arith, (λ e. omega arith), (λ e. omega arith), (λ e. omega arith))

words-Are : All IsWord (bin ∷ setting ∷ [])
words-Are = (
  (
    omega arith,
    omega arith,
    (plain b'l' (omega arith) (omega arith), (plain b's' (omega arith) (omega arith), tt)),
  ),
  (
    (
      omega arith,
      omega arith,
      (
        (refl, (λ e. omega arith), (λ e. omega arith), (λ e. omega arith)),
        (
          (refl, (λ e. omega arith), (λ e. omega arith), (λ e. omega arith)),
          (plain b'b' (omega arith) (omega arith), tt),
        ),
      ),
    ),
    tt,
  ),
)

abbrev exists : Bytes → Bool
exists path = true

cmd_parser-ends_example : cmd_parser (codes "ls \"a b\"") 3 ≢ out_of_fuel
cmd_parser-ends_example = cmd_parser-ends (codes "ls \"a b\"") 3

-- A network of two nodes with the same command, whose processes get the pids 100 and 101.
abbrev node : ℕ → Node
node id = record { id = id; word = bin; words = setting ∷ [] }

abbrev both : List Node
both = node 0 ∷ node 1 ∷ []

abbrev configured : Config ℕ
configured = record {
  node_array =
      record new_nodeinfo { node_exec = codes "ls A=b" }
      ∷ record new_nodeinfo { node_exec = codes "ls A=b" }
      ∷ [];
  num_of_nodes = 2;
  keyval = [];
}

abbrev fork : ℕ → Exec → ℤ
fork id x = pos (100 + id)

abbrev childless : Children
childless = record { pids = replicate 2000 (pos 0); started = [] }

node-IsCommand : (id : ℕ) → IsCommand exists (node id)
node-IsCommand id = record {
  plain = words-Are;
  short = omega arith;
  few = omega arith;
  bin = bin;
  args = [];
  first = refl;
  there = refl;
}

both-CanStart : All (CanStart exists fork (define_mbuf 2048) configured) both
both-CanStart = (
  (
    node-IsCommand 0,
    (record new_nodeinfo { node_exec = codes "ls A=b" }, refl, refl),
    omega arith,
    (100, refl),
  ),
  (
    (
      node-IsCommand 1,
      (record new_nodeinfo { node_exec = codes "ls A=b" }, refl, refl),
      omega arith,
      (101, refl),
    ),
    tt,
  ),
)

wait_on_q-spawn_all_example :
    (ms : List MsgBuf) × (spawn_all (define_mbuf 2048) (0 ∷ 1 ∷ []) configured ≡ some ms)
    × (wait_on_q exists fork (map some ms) childless ≡ going_on (launched_all fork both childless))
wait_on_q-spawn_all_example =
    wait_on_q-spawn_all exists fork (define_mbuf 2048) configured both childless both-CanStart
      (length-replicate 2000 (pos 0))

abbrev nobody : Peer
nobody = record { address = []; len = 0 }

abbrev operator : Peer
operator = record { address = codes "/tmp/op"; len = 9 }

-- Node 1 prints for nobody, then for an operator who has written to it.
abbrev reports : List Report
reports =
    record {
      node = 1;
      ismaster = true;
      io = record { size = pos 2; bytes = codes "hi"; from = nobody; written = pos 2 };
    }
    ∷ record {
      node = 1;
      ismaster = false;
      io = record { size = pos 3; bytes = codes "who"; from = operator; written = pos 3 };
    }
    ∷ record {
      node = 1;
      ismaster = true;
      io = record { size = pos 2; bytes = codes "me"; from = nobody; written = pos 2 };
    }
    ∷ []

pty_handler_thread-IsIsolated_example :
    (b : Bridge) × (pty_handler_thread (map reported reports) (replicate 2 nobody) ≡ some b)
    × IsIsolated reports (replicate 2 nobody) b
pty_handler_thread-IsIsolated_example =
    pty_handler_thread-IsIsolated reports (replicate 2 nobody) (omega arith)
      (omega arith, (omega arith, (omega arith, tt)))

bridged :
    pty_handler_thread (map reported reports) (replicate 2 nobody)
    ≡ some (record {
      peers = nobody ∷ operator ∷ [];
      outs = (1, to_master (codes "who")) ∷ (1, to_peer operator (codes "me")) ∷ [];
    })
unfolding pty_handler_thread event_word
bridged = refl
