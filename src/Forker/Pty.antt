-- ===== src/Forker/Pty.antt =====
-- src/utils/pty_handler.c: the thread that connects terminals with datagram sockets.
--
-- A stack with a terminal has its master side and a socket; what the stack prints goes to the peer that
-- wrote to the socket last, and what a peer writes goes to the terminal. The kernel's answers are the
-- fields of `Io`. An access outside of `g_child_info` is `none`. Log lines are left out.
pub mod Alone
use whitefield.Base.{
  ℕ, ◌-◌, ◌/◌, ◌%◌, ◌^◌, Bool, true, false, not, ◌&&◌, Option, none, some, ◌>>=◌, List, [], ◌∷◌,
  ◌++◌, Bytes, codes, get_elem?, set, take, leb, ltb, ◌==◌, if◌then◌else◌, bit_or, map,
}
use whitefield.Base.Int.{ℤ, pos, negsuc, is_positive}
use whitefield.Commline.Usock.Naming.{hex_digit}

-- `peer` and `peerlen` of a child.
pub record Peer : Type 0 where
  pub address : Bytes
  pub len : ℕ

-- What `read` or `recvfrom` returns, the bytes that it reads, what is in `peer` and `peerlen` after
-- `recvfrom`, and what `sendto` or `write` returns.
pub record Io : Type 0 where
  pub size : ℤ
  pub bytes : Bytes
  pub from : Peer
  pub written : ℤ

-- What is sent to a peer, or written to the terminal.
pub data Out : Type 0 where
  to_peer : Peer → Bytes → Out
  to_master : Bytes → Out

-- The peer afterwards, what goes out, and whether SUCCESS is returned.
pub record Result : Type 0 where
  pub peer : Peer
  pub outs : List Out
  pub success : Bool

unfoldable pub handle_pty_event : Bool → Io → Peer → Result
handle_pty_event true io p =
    if is_positive io.size && not (p.len == 0)
    then record { peer = p; outs = to_peer p io.bytes ∷ []; success = is_positive io.written }
    else record { peer = p; outs = []; success = is_positive io.size }
handle_pty_event false io p =
    if is_positive io.size
    then record { peer = io.from; outs = to_master io.bytes ∷ []; success = is_positive io.written }
    else record { peer = record io.from { len = 0 }; outs = []; success = false }

-- The word that `pty_add_fd` gives to epoll for a descriptor.
unfoldable pub event_word : ℕ → Bool → ℕ
event_word nodeid ismaster = bit_or (if ismaster then 0x80000000 else 0) nodeid

-- `epoll_ctl` answers; FAILURE is `none`.
unfoldable pub pty_add_fd : ℕ → ℤ → Bool → Bool → Option (ℤ × ℕ)
unfolding event_word
pty_add_fd nodeid fd ismaster granted =
    if granted then some (fd, event_word nodeid ismaster) else none

-- `& 0x7fffffff` and `& 0x80000000` of 32 bits.
abbrev pub node_of : ℕ → ℕ
node_of word = word % 2 ^ 31

abbrev pub is_master : ℕ → Bool
is_master word = leb (2 ^ 31) word

-- The peers of all children, and what goes out for which node.
pub record Bridge : Type 0 where
  pub peers : List Peer
  pub outs : List (ℕ × Out)

abbrev pub labelled : ℕ → List Out → List (ℕ × Out)
labelled nodeid = map (λ out. (nodeid, out))

abbrev pub handled : ℕ → List Peer → Result → Bridge
handled nodeid peers r = record { peers = set peers nodeid r.peer; outs = labelled nodeid r.outs }

unfoldable pub handle_event : ℕ → Io → List Peer → Option Bridge
unfolding handle_pty_event
handle_event word io peers = elim (get_elem? peers (node_of word)) [
  | none ↦ none
  | some p ↦ some (handled (node_of word) peers (handle_pty_event (is_master word) io p))
]

abbrev pub followed : Bridge → Option Bridge → Option Bridge
followed b none = none
followed b (some c) = some (record c { outs = b.outs ++ c.outs })

-- The events that epoll reports, in order; a report without events changes nothing.
unfoldable pub pty_handler_thread : List (ℕ × Io) → List Peer → Option Bridge
unfolding handle_event
pty_handler_thread [] peers = some (record { peers = peers; outs = [] })
pty_handler_thread ((word, io) ∷ events) peers = elim (handle_event word io peers) [
  | none ↦ none
  | some b ↦ followed b (pty_handler_thread events b.peers)
]

abbrev or_text : Option Bytes → Bytes → Bytes
or_text none def = def
or_text (some s) def = s

-- "%04x" of a node number of 16 bits.
abbrev hex4 : ℕ → Bytes
hex4 n =
    hex_digit (n / 2 ^ 12)
    ∷ hex_digit (n / 2 ^ 8 % 16)
    ∷ hex_digit (n / 2 ^ 4 % 16)
    ∷ hex_digit (n % 16)
    ∷ []

-- `getenv` gives LOGPATH and MONITOR_PORT; a missing one is printed as "(null)" by "%s".
unfoldable pub uds_get_path : Option Bytes → Option Bytes → ℕ → ℕ → Bytes
uds_get_path logpath monitor_port nodeid maxlen = take (maxlen - 1) (
    or_text logpath (codes "/tmp")
    ++ (b'/'
        ∷ (or_text monitor_port (codes "(null)") ++ (b'_' ∷ (hex4 nodeid ++ codes ".unixsock")))))

-- What `socket` and `bind` give; FAILURE is `none`. `sun_path` has 108 bytes.
unfoldable pub uds_open : Option Bytes → Option Bytes → ℕ → ℤ → Bool → Option (ℤ × Bytes)
unfolding uds_get_path
uds_open logpath monitor_port nodeid (negsuc n) bound = none
uds_open logpath monitor_port nodeid (pos fd) bound =
    if bound then some (pos fd, uds_get_path logpath monitor_port nodeid 108) else none
