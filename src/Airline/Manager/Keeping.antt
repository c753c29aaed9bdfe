-- ===== src/Airline/Manager/Keeping.antt =====
-- src/airline/NS3/AirlineManager.cc: what every message leaves as it was.
use whitefield.Base.{
  if-either, ℕ, ◌∙◌, Option, none, some, [], ◌∷◌, Bytes, codes, ltb, ◌==◌, if◌then◌else◌,
}
use whitefield.Base.Int.{ℤ, pos, negsuc}
use whitefield.Base.Text.{starts_nocase, stoi}
use whitefield.Commline.Message.{
  MsgBuf, has_flag, mbuf_is_cmd, commline_max_buf, cl_dstid_machdr_present,
}
use whitefield.Airline.Config.Lookup.{get, cfg_int}
use whitefield.Airline.Stats.{Macstats, al_tx, set_stats}
use whitefield.Airline.Stats.Kept.{HasNodes, set_stats-HasNodes}
use whitefield.Airline.Iface.Lrwpan.{IfaceCtx, IfaceStatus, done, failed, not_supported, uncaught}
use whitefield.Airline.Iface.Handler.{iface_set_address, iface_send_packet}
use whitefield.Airline.Manager.{Airline, macstats, Ran, answered, crashed, endless_loop, bad_access}
use whitefield.Airline.Manager.Commands.{
  World, argument, cmd_node_position, list_positions, handle_cmd,
}
use whitefield.Airline.Manager.Handling.{
  handled, stopped, msgrecv_callback, responded, with_ctx, transmit, counted, packet, for_nodes,
  is_nonzero,
}
use whitefield.Airline.Manager.Unchanged.{
  IsKept, RunKeeps, Keeps, same, set_ext_addr-Keeps, cmd_mac_stats-Keeps, positions-Keeps,
  cmd_set_node_position-Keeps,
}

module _ {Real : Type 0} (w : World Real) (a : Airline Real) where
  cmd_node_position-Keeps :
      (id : ℕ) (buf : Bytes) (buflen : ℕ) → RunKeeps id a (cmd_node_position w id buf buflen a)
  unfolding cmd_node_position
  cmd_node_position-Keeps id [] buflen =
      positions-Keeps id a buflen (list_positions w id buflen 0 [] a.positions)
  cmd_node_position-Keeps id (c ∷ path) buflen = same id a

  handle_cmd-Keeps : (mbuf : MsgBuf) → RunKeeps mbuf.src_id a (handle_cmd w mbuf a)
  unfolding handle_cmd
  handle_cmd-Keeps mbuf =
      if-either (RunKeeps mbuf.src_id a) (starts_nocase (codes "cmd_node_exec") mbuf.buf)
        (same mbuf.src_id a)
        (if-either (RunKeeps mbuf.src_id a) (starts_nocase (codes "cmd_node_position") mbuf.buf)
          (cmd_node_position-Keeps mbuf.src_id (argument mbuf.buf) commline_max_buf)
          (if-either (RunKeeps mbuf.src_id a)
            (starts_nocase (codes "cmd_set_node_position") mbuf.buf)
            (cmd_set_node_position-Keeps w.zero_real w.stod a mbuf.src_id (argument mbuf.buf)
              commline_max_buf)
            (if-either (RunKeeps mbuf.src_id a)
              (starts_nocase (codes "cmd_802154_set_ext_addr") mbuf.buf)
              (set_ext_addr-Keeps mbuf.src_id a commline_max_buf (
                iface_set_address w.plc a.config mbuf.src_id (argument mbuf.buf) commline_max_buf
                  a.ctx))
              (if-either (RunKeeps mbuf.src_id a) (starts_nocase (codes "cmd_mac_stats") mbuf.buf)
                (cmd_mac_stats-Keeps mbuf.src_id a w.now mbuf.src_id commline_max_buf)
                (same mbuf.src_id a)))))

  responded-Keeps :
      (mbuf : MsgBuf) (r : Ran Real)
      → RunKeeps mbuf.src_id a r
      → Keeps mbuf.src_id a (responded mbuf r)
  responded-Keeps mbuf (answered a' text n) h = h
  responded-Keeps mbuf crashed h = tt
  responded-Keeps mbuf endless_loop h = tt
  responded-Keeps mbuf bad_access h = tt

  counted-Keeps :
      (mbuf : MsgBuf) (sent : Airline Real) (o : Option (Macstats Real))
      → IsKept mbuf.src_id a sent
      → HasNodes sent.config.node_array o
      → Keeps mbuf.src_id a (counted sent o)
  unfolding get
  counted-Keeps mbuf sent none k h = tt
  counted-Keeps mbuf sent (some m) (key, num, nodes, places, others) h =
      (key, num, h ∙ nodes, places, others)

  sent-Keeps :
      (mbuf : MsgBuf) (ctx : IfaceCtx Real)
      → Keeps mbuf.src_id a
          (counted (record a { ctx = ctx }) (set_stats w.now al_tx mbuf (macstats a)))
  sent-Keeps mbuf ctx =
      counted-Keeps mbuf (record a { ctx = ctx }) (set_stats w.now al_tx mbuf (macstats a))
        (same mbuf.src_id a) (set_stats-HasNodes w.now al_tx mbuf (macstats a))

  with_ctx-Keeps :
      (mbuf : MsgBuf) (r : IfaceCtx Real × IfaceStatus)
      → Keeps mbuf.src_id a (with_ctx w.now mbuf a r)
  unfolding with_ctx
  with_ctx-Keeps mbuf (ctx, done) = sent-Keeps mbuf ctx
  with_ctx-Keeps mbuf (ctx, failed) = sent-Keeps mbuf ctx
  with_ctx-Keeps mbuf (ctx, not_supported) = sent-Keeps mbuf ctx
  with_ctx-Keeps mbuf (ctx, uncaught) = tt

  transmit-Keeps : (mbuf : MsgBuf) → Keeps mbuf.src_id a (transmit w mbuf a)
  unfolding transmit
  transmit-Keeps mbuf =
      with_ctx-Keeps mbuf (iface_send_packet w.plc a.config mbuf.src_id mbuf a.ctx)

  packet-Keeps : (mbuf : MsgBuf) → Keeps mbuf.src_id a (packet w mbuf a)
  packet-Keeps mbuf =
      if-either (Keeps mbuf.src_id a) (mbuf.dst_id == cl_dstid_machdr_present)
        (with_header (cfg_int (codes "macHeaderAdd") (codes "1") a.config)) (transmit-Keeps mbuf)
    where
      with_header :
          (o : Option ℤ)
          → Keeps mbuf.src_id a (elim o [
            | none ↦ stopped crashed
            | some add ↦ if is_nonzero add then handled a [] else transmit w mbuf a
          ])
      with_header none = tt
      with_header (some add) =
          if-either (Keeps mbuf.src_id a) (is_nonzero add) (same mbuf.src_id a)
            (transmit-Keeps mbuf)

  for_nodes-Keeps : (mbuf : MsgBuf) (n : ℤ) → Keeps mbuf.src_id a (for_nodes w mbuf a n)
  for_nodes-Keeps mbuf (negsuc n) = same mbuf.src_id a
  for_nodes-Keeps mbuf (pos n) =
      if-either (Keeps mbuf.src_id a) (ltb mbuf.src_id n) (packet-Keeps mbuf) (same mbuf.src_id a)

  -- No message that Airline survives, command or packet, changes what a setting reads as, the
  -- number of nodes, anything of a node but its counters, the number of positions, or the position
  -- of a node other than the one that sent it.
  pub msgrecv_callback-Keeps : (mbuf : MsgBuf) → Keeps mbuf.src_id a (msgrecv_callback w mbuf a)
  unfolding msgrecv_callback
  msgrecv_callback-Keeps mbuf = for_count (stoi (get (codes "numOfNodes") a.config))
    where
      for_count :
          (o : Option ℤ)
          → Keeps mbuf.src_id a (elim o [
            | none ↦ stopped crashed
            | some num_nodes ↦
                if has_flag mbuf mbuf_is_cmd
                then responded mbuf (handle_cmd w mbuf a)
                else for_nodes w mbuf a num_nodes
          ])
      for_count none = tt
      for_count (some n) =
          if-either (Keeps mbuf.src_id a) (has_flag mbuf mbuf_is_cmd)
            (responded-Keeps mbuf (handle_cmd w mbuf a) (handle_cmd-Keeps mbuf))
            (for_nodes-Keeps mbuf n)
