-- ===== src/Airline/Manager.antt =====
-- src/airline/NS3/AirlineManager.cc and Command.cc: what Airline does with a message.
--
-- Parameters: `stod`, the printing of a position, and which files can be opened for writing; the file that
-- `cmd_node_position` writes is in Positions. The positions of the nodes are the simulator's, kept as a list.
pub mod Commands
pub mod Positions
pub mod Handling
pub mod Draining
pub mod Unchanged
pub mod Keeping
pub mod Small
mod Tests
use whitefield.Base.{
  ℕ, zero, suc, ◌+◌, ◌-◌, ◌*◌, ◌%◌, ◌^◌, Bool, true, false, not, ◌&&◌, Option, none, some, List, [],
  ◌∷◌, ◌++◌, Bytes, codes, String, length, get_elem?, set, take, leb, ltb, ◌==◌, if◌then◌else◌,
}
use whitefield.Base.Int.{ℤ, pos, negsuc}
use whitefield.Base.Text.{decimal, decimal_digits, before, behind, stoi, starts_nocase, text_eq}
use whitefield.Commline.Message.{
  MsgBuf, has_flag, mbuf_is_cmd, mbuf_do_not_respond, commline_max_buf, cl_dstid_machdr_present,
  in_range,
}
use whitefield.Airline.Nodeinfo.{Nodeinfo}
use whitefield.Airline.Config.{Config}
use whitefield.Airline.Config.Lookup.{get, cfg_int, get_node_info}
use whitefield.Airline.Stats.{Macstats, al_tx, set_stats}
use whitefield.Airline.Stats.Summary.{
  Summary, Reply, report, internal_error, endless, out_of_bounds, get_summary,
}
use whitefield.Airline.Iface.Lrwpan.{IfaceCtx, IfaceStatus, done, uncaught}
use whitefield.Airline.Iface.Handler.{IfaceApi, iface_set_address, iface_send_packet}

-- What the process holds. The nodes of the configuration carry the counters; `is_inited` and `tv`
-- are the static members of Macstats.
pub record Airline (Real : Type 0) : Type 0 where
  pub config : Config Real
  pub is_inited : Bool
  pub tv : ℕ
  pub ctx : IfaceCtx Real
  pub positions : List (Real × Real × Real)

abbrev pub macstats : {Real : Type 0} → Airline Real → Macstats Real
macstats a = record { nodes = a.config.node_array; is_inited = a.is_inited; tv = a.tv }

abbrev pub with_macstats : {Real : Type 0} → Macstats Real → Airline Real → Airline Real
with_macstats m a = record a {
  config = record a.config { node_array = m.nodes };
  is_inited = m.is_inited;
  tv = m.tv;
}

-- What a command leaves in the buffer, and what it returns. `snprintf` writes at most `buflen - 1`
-- bytes and returns the length of the whole text.
abbrev pub printed : Bytes → ℕ → Bytes × ℕ
printed text buflen = (take (buflen - 1) text, length text)

-- `getNodeConfigVal` returns 0 with its two error texts.
unfoldable pub get_node_config_val : {Real : Type 0} → ℕ → Bytes → ℕ → Airline Real → Bytes × ℕ
unfolding get_node_info decimal_digits
get_node_config_val id key vallen a = elim (get_node_info id a.config) [
  | none ↦ (take (vallen - 1) (codes "cudnot get nodeinfo id=" ++ decimal id), 0)
  | some ni ↦
      if text_eq key (codes "nodeexec")
      then printed ni.node_exec vallen
      else (take (vallen - 1) (codes "unknown key [" ++ (key ++ codes "]")), 0)
]

unfoldable pub cmd_node_exec : {Real : Type 0} → ℕ → ℕ → Airline Real → Bytes × ℕ
unfolding get_node_config_val
cmd_node_exec id buflen a = get_node_config_val id (codes "nodeexec") buflen a

-- `strtok_r(s, " ", …)`: the next token, and what is left.
abbrev skip_blanks : Bytes → Bytes
skip_blanks [] = []
skip_blanks (c ∷ s) = if c == b' ' then skip_blanks s else c ∷ s

abbrev rest_of : Option Bytes → Bytes
rest_of none = []
rest_of (some s) = s

abbrev token_of : Bytes → Option (Bytes × Bytes)
token_of [] = none
token_of (c ∷ s) = some (before b' ' (c ∷ s), rest_of (behind b' ' (c ∷ s)))

abbrev pub strtok : Bytes → Option (Bytes × Bytes)
strtok s = token_of (skip_blanks s)

-- What a command comes to: an answer, a C++ exception, which only `startManager` catches, so that
-- Airline ends, a loop without end, or an access outside of an array.
pub data Ran (Real : Type 0) : Type 0 where
  answered : Airline Real → Bytes → ℕ → Ran Real
  crashed : Ran Real
  endless_loop : Ran Real
  bad_access : Ran Real

module _ {Real : Type 0} where
  abbrev pub answer : Airline Real → Bytes × ℕ → Ran Real
  answer a (text, n) = answered a text n

  abbrev pub placed : ℕ → Real × Real × Real → ℕ → Airline Real → Ran Real
  placed id place buflen a =
      answer (record a { positions = set a.positions id place }) (printed (codes "SUCCESS") buflen)

  abbrev pub bad_format : Bytes → ℕ → Airline Real → Ran Real
  bad_format text buflen a = answer a (printed text buflen)

  abbrev pub set_ext_addr_answer : Airline Real → ℕ → IfaceCtx Real × IfaceStatus → Ran Real
  set_ext_addr_answer a buflen (ctx, done) =
      answer (record a { ctx = ctx }) (printed (codes "SUCCESS") buflen)
  set_ext_addr_answer a buflen (ctx, uncaught) = crashed
  set_ext_addr_answer a buflen (ctx, _) =
      answer (record a { ctx = ctx }) (printed (codes "FAILURE") buflen)

module _ {Real : Type 0} (zero_real : Real) (stod : Bytes → Option Real) where
  -- The third coordinate, 0 where there is none.
  abbrev pub third : Option (Bytes × Bytes) → Option Real
  third none = some zero_real
  third (some (z, _)) = stod z

  abbrev pub with_y : ℕ → ℕ → Airline Real → Real → Option (Bytes × Bytes) → Ran Real
  with_y id buflen a x none = bad_format (codes "invalid loc format! No y pos!") buflen a
  with_y id buflen a x (some (y, s)) = elim (stod y) [
    | none ↦ crashed
    | some y_pos ↦ elim (third (strtok s)) [
      | none ↦ crashed
      | some z_pos ↦ placed id (x, y_pos, z_pos) buflen a
    ]
  ]

  abbrev pub with_x : ℕ → ℕ → Airline Real → Option (Bytes × Bytes) → Ran Real
  with_x id buflen a none = bad_format (codes "invalid loc format! No x pos!") buflen a
  with_x id buflen a (some (x, s)) = elim (stod x) [
    | none ↦ crashed
    | some x_pos ↦ with_y id buflen a x_pos (strtok s)
  ]

  unfoldable pub cmd_set_node_position : ℕ → Bytes → ℕ → Airline Real → Ran Real
  unfolding get decimal_digits
  cmd_set_node_position id buf buflen a = elim (stoi (get (codes "numOfNodes") a.config)) [
    | none ↦ crashed
    | some (negsuc n) ↦
        answer a (printed (codes "NodeID mandatory for setting node pos id=" ++ decimal id) buflen)
    | some (pos n) ↦
        if ltb id n
        then with_x id buflen a (strtok buf)
        else answer a
            (printed (codes "NodeID mandatory for setting node pos id=" ++ decimal id) buflen)
  ]

module _ {Real : Type 0} (plc : IfaceApi Real) where
  -- The size of the buffer is passed as the size of the address.
  unfoldable pub cmd_802154_set_ext_addr : ℕ → Bytes → ℕ → Airline Real → Ran Real
  unfolding iface_set_address
  cmd_802154_set_ext_addr id buf buflen a =
      set_ext_addr_answer a buflen (iface_set_address plc a.config id buf buflen a.ctx)
