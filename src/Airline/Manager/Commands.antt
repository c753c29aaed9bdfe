-- ===== src/Airline/Manager/Commands.antt =====
-- src/airline/NS3/AirlineManager.cc and Command.cc: `cmd_mac_stats`, `cmd_node_position`, and the choice
-- of a command.
use whitefield.Base.{
  ℕ, ◌+◌, ◌-◌, ◌^◌, Bool, ◌||◌, Option, none, some, List, [], ◌∷◌, ◌++◌, Bytes, codes, length, take,
  ltb, ◌==◌, if◌then◌else◌,
}
use whitefield.Base.Int.{pos, negsuc}
use whitefield.Base.Text.{decimal, decimal_digits, behind, stoi, starts_nocase}
use whitefield.Commline.Message.{MsgBuf, commline_max_buf, cl_mgr_id}
use whitefield.Airline.Config.Lookup.{get}
use whitefield.Airline.Stats.Summary.{
  Summary, Reply, report, internal_error, endless, out_of_bounds, get_summary,
}
use whitefield.Airline.Iface.Handler.{IfaceApi}
use whitefield.Airline.Manager.{
  Airline, macstats, printed, cmd_node_exec, Ran, crashed, endless_loop, bad_access, answer,
  cmd_set_node_position, cmd_802154_set_ext_addr,
}

-- "%ld" of a counter, which C reads as signed.
abbrev long : ℕ → Bytes
long n = if ltb n (2 ^ 63) then decimal n else b'-' ∷ decimal (2 ^ 64 - n)

abbrev attempts_text : ℕ → List ℕ → Bytes
attempts_text i [] = []
attempts_text i (n ∷ ns) =
    codes ",tx_attempt" ++ (decimal i ++ (codes "=" ++ (long n ++ attempts_text (i + 1) ns)))

abbrev summary_text : Summary → Bytes
summary_text s =
    codes "MCAST_PKTS: rx="
    ++ (long s.mcast_rx
        ++ (codes ",tx="
            ++ (long s.mcast_tx
                ++ (codes "\nUCAST_PKTS: rx="
                    ++ (long s.ucast_rx
                        ++ (codes ",tx="
                            ++ (long s.ucast_tx
                                ++ (codes ",tx_succ="
                                    ++ (long s.tx_succ
                                        ++ (codes ",tx_fail="
                                            ++ (long s.tx_fail
                                                ++ attempts_text 1 s.attempts)))))))))))

-- "%ld" of a difference of times.
abbrev seconds : ℕ → ℕ → Bytes
seconds now tv = if ltb now tv then b'-' ∷ decimal (tv - now) else decimal (now - tv)

-- The first line, for the whole network.
abbrev duration_text : ℕ → ℕ → ℕ → Bytes
duration_text now tv id =
    if id == cl_mgr_id
    then codes "Airline MAC stats: duration=" ++ (seconds now tv ++ codes "\n")
    else []

module _ {Real : Type 0} where
  abbrev pub positions_answer : ℕ → Airline Real → Option Bytes → Ran Real
  positions_answer buflen a none = bad_access
  positions_answer buflen a (some text) = answer a (printed text buflen)

  abbrev pub summary_answer : ℕ → ℕ → ℕ → Airline Real → Reply → Ran Real
  summary_answer now id buflen a (report s) =
      answer a (printed (duration_text now a.tv id ++ summary_text s) buflen)
  summary_answer now id buflen a internal_error = answer a (printed (codes "INTERNAL_ERROR") buflen)
  summary_answer now id buflen a endless = endless_loop
  summary_answer now id buflen a out_of_bounds = bad_access

  -- A negative `macMaxRetry` leaves the loop over the attempts empty.
  unfoldable pub cmd_mac_stats : ℕ → ℕ → ℕ → Airline Real → Ran Real
  unfolding get get_summary
  cmd_mac_stats now id buflen a = elim (stoi (get (codes "macMaxRetry") a.config)) [
    | none ↦ crashed
    | some (pos n) ↦ summary_answer now id buflen a (get_summary n id (macstats a))
    | some (negsuc _) ↦ summary_answer now id buflen a (get_summary 0 id (macstats a))
  ]

-- HANDLE_CMD: what the command finds in the buffer.
abbrev pub argument : Bytes → Bytes
argument buf = elim (behind b':' buf) [ none ↦ [] | some aux ↦ aux ]

abbrev pub invalid_cmd : MsgBuf → Bytes × ℕ
invalid_cmd mbuf =
    printed (codes "AL_INVALID_CMD(" ++ (take 255 mbuf.buf ++ codes ")")) mbuf.max_len

-- What lies outside: the clock, `stod` and the number 0, the text of a position, which files can be
-- opened, and the entry of the interface table for power line.
pub record World (Real : Type 0) : Type 0 where
  pub now : ℕ
  pub zero_real : Real
  pub stod : Bytes → Option Real
  pub show_place : Real × Real × Real → Bytes
  pub can_open : Bytes → Bool
  pub plc : IfaceApi Real

module _ {Real : Type 0} (w : World Real) where
  abbrev place_line : ℕ → Real × Real × Real → Bytes
  place_line i place = decimal i ++ (codes " loc= " ++ (w.show_place place ++ codes "\n"))

  -- The loop over the nodes from number `i`, where no file is open; `none` is a write behind the
  -- buffer, when a line was longer than what was left of it.
  unfoldable pub list_positions : ℕ → ℕ → ℕ → Bytes → List (Real × Real × Real) → Option Bytes
  unfolding decimal_digits
  list_positions id buflen i text [] = some text
  list_positions id buflen i text (place ∷ places) =
      let text' = text ++ place_line i place in
      let rest = list_positions id buflen (i + 1) text' places in
      let skipped = list_positions id buflen (i + 1) text places in
      if id == 0xffff || id == i
      then (if ltb (buflen - 50) (length text')
          then (if ltb buflen (length text') then none else some (text' ++ codes "[TRUNC]"))
          else rest)
      else skipped

  -- With a file name the lines go to the file, which Manager/Positions models.
  abbrev pub to_file : Bytes → ℕ → Airline Real → Ran Real
  to_file path buflen a = answer a (
      printed
        (if w.can_open path then codes "SUCCESS" else codes "could not open file " ++ take 255 path)
        buflen)

  unfoldable pub cmd_node_position : ℕ → Bytes → ℕ → Airline Real → Ran Real
  unfolding list_positions
  cmd_node_position id [] buflen a =
      positions_answer buflen a (list_positions id buflen 0 [] a.positions)
  cmd_node_position id (c ∷ path) buflen a = to_file (c ∷ path) buflen a

  unfoldable pub al_handle_cmd : MsgBuf → Airline Real → Ran Real
  unfolding cmd_mac_stats
  al_handle_cmd mbuf a =
      if starts_nocase (codes "cmd_mac_stats") mbuf.buf
      then cmd_mac_stats w.now mbuf.src_id commline_max_buf a
      else answer a (invalid_cmd mbuf)

  unfoldable pub handle_cmd : MsgBuf → Airline Real → Ran Real
  unfolding cmd_node_exec cmd_node_position cmd_set_node_position cmd_802154_set_ext_addr
      al_handle_cmd
  handle_cmd mbuf a =
      if starts_nocase (codes "cmd_node_exec") mbuf.buf
      then answer a (cmd_node_exec mbuf.src_id commline_max_buf a)
      else if starts_nocase (codes "cmd_node_position") mbuf.buf
      then cmd_node_position mbuf.src_id (argument mbuf.buf) commline_max_buf a
      else if starts_nocase (codes "cmd_set_node_position") mbuf.buf
      then cmd_set_node_position w.zero_real w.stod mbuf.src_id (argument mbuf.buf) commline_max_buf
          a
      else if starts_nocase (codes "cmd_802154_set_ext_addr") mbuf.buf
      then cmd_802154_set_ext_addr w.plc mbuf.src_id (argument mbuf.buf) commline_max_buf a
      else al_handle_cmd mbuf a
