-- ===== src/Airline/Manager/Handling.antt =====
-- src/airline/NS3/AirlineManager.cc: the message handler and its loop.
use whitefield.Base.{
  ℕ, ◌%◌, ◌^◌, Bool, true, not, Option, none, some, List, [], ◌∷◌, ◌++◌, Bytes, codes, ltb, ◌==◌,
  if◌then◌else◌,
}
use whitefield.Base.Int.{ℤ, pos, negsuc}
use whitefield.Base.Text.{stoi}
use whitefield.Commline.Message.{
  MsgBuf, has_flag, mbuf_is_cmd, mbuf_do_not_respond, cl_dstid_machdr_present, cl_mgr_id, monitor,
  mtype,
}
use whitefield.Airline.Config.Lookup.{get, cfg_int}
use whitefield.Airline.Stats.{Macstats, al_tx, set_stats}
use whitefield.Airline.Iface.Lrwpan.{IfaceCtx, IfaceStatus, uncaught}
use whitefield.Airline.Iface.Handler.{iface_send_packet}
use whitefield.Airline.Manager.{
  Airline, macstats, with_macstats, Ran, answered, crashed, endless_loop,
}
use whitefield.Airline.Manager.Commands.{World, handle_cmd}

abbrev pub is_nonzero : ℤ → Bool
is_nonzero (pos n) = not (n == 0)
is_nonzero (negsuc n) = true

-- The message as it goes back, with 16 bits of the length.
abbrev pub reply : MsgBuf → Bytes → ℕ → MsgBuf
reply mbuf text n = record mbuf { mtype = mtype monitor cl_mgr_id; buf = text; len = n % 2 ^ 16 }

-- What a call of the reader leaves: the state, the messages sent, and the messages not yet read.
pub record Read (Real : Type 0) : Type 0 where
  pub airline : Airline Real
  pub sent : List MsgBuf
  pub waiting : List MsgBuf

-- What a message comes to: the new state with the messages sent to the monitor, or the ways in which
-- the process does not go on.
pub data Handled (Real : Type 0) : Type 0 where
  handled : Airline Real → List MsgBuf → Handled Real
  stopped : Ran Real → Handled Real

module _ {Real : Type 0} where
  abbrev pub responded : MsgBuf → Ran Real → Handled Real
  responded mbuf (answered a text n) =
      handled a (if has_flag mbuf mbuf_do_not_respond then [] else reply mbuf text n ∷ [])
  responded mbuf other = stopped other

  abbrev pub read_next :
      List MsgBuf
      → Handled Real
      → (Airline Real → List MsgBuf → Option (Read Real))
      → Option (Read Real)
  read_next before (stopped _) go_on = none
  read_next before (handled a replies) go_on = go_on a (before ++ replies)

  abbrev pub counted : Airline Real → Option (Macstats Real) → Handled Real
  counted a none = stopped endless_loop
  counted a (some m) = handled (with_macstats m a) []

  -- The packet is counted whatever the interface returns.
  unfoldable pub with_ctx : ℕ → MsgBuf → Airline Real → IfaceCtx Real × IfaceStatus → Handled Real
  unfolding set_stats
  with_ctx now mbuf a (ctx, uncaught) = stopped crashed
  with_ctx now mbuf a (ctx, _) =
      counted (record a { ctx = ctx }) (set_stats now al_tx mbuf (macstats a))

module _ {Real : Type 0} (w : World Real) where
  unfoldable pub transmit : MsgBuf → Airline Real → Handled Real
  unfolding iface_send_packet with_ctx
  transmit mbuf a = with_ctx w.now mbuf a (iface_send_packet w.plc a.config mbuf.src_id mbuf a.ctx)

  abbrev pub packet : MsgBuf → Airline Real → Handled Real
  packet mbuf a =
      if mbuf.dst_id == cl_dstid_machdr_present
      then (elim (cfg_int (codes "macHeaderAdd") (codes "1") a.config) [
        | none ↦ stopped crashed
        | some add ↦ if is_nonzero add then handled a [] else transmit mbuf a
      ])
      else transmit mbuf a

  abbrev pub for_nodes : MsgBuf → Airline Real → ℤ → Handled Real
  for_nodes mbuf a (negsuc n) = handled a []
  for_nodes mbuf a (pos n) = if ltb mbuf.src_id n then packet mbuf a else handled a []

  unfoldable pub msgrecv_callback : MsgBuf → Airline Real → Handled Real
  unfolding get cfg_int handle_cmd transmit mtype
  msgrecv_callback mbuf a = elim (stoi (get (codes "numOfNodes") a.config)) [
    | none ↦ stopped crashed
    | some num_nodes ↦
        if has_flag mbuf mbuf_is_cmd
        then responded mbuf (handle_cmd w mbuf a)
        else for_nodes mbuf a num_nodes
  ]

  -- `msgReader` on the datagrams that wait, oldest first. A read without a datagram leaves a length
  -- of 0. `none` is a process that does not go on.
  unfoldable pub msg_reader : List MsgBuf → Airline Real → List MsgBuf → Option (Read Real)
  unfolding msgrecv_callback
  msg_reader out a [] = some (record { airline = a; sent = out; waiting = [] })
  msg_reader out a (mbuf ∷ queue) =
      let rest = read_next out (msgrecv_callback mbuf a) (λ a' out'. msg_reader out' a' queue) in
      if mbuf.len == 0 then some (record { airline = a; sent = out; waiting = queue }) else rest
