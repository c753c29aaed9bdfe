-- ===== src/Commline/Message.antt =====
-- src/commline/commline.h: messages, their flags, and the types that name a queue.
pub mod Types
use whitefield.Base.{
  ℕ, ◌+◌, ◌*◌, ◌/◌, ◌%◌, ◌^◌, ◌<◌, Bool, not, ◌&&◌, [], Bytes, bit_and, bit_or, leb, ltb, ◌==◌,
}

abbrev pub mbuf_is_ack : ℕ
mbuf_is_ack = 1

abbrev pub mbuf_is_cmd : ℕ
mbuf_is_cmd = 2

abbrev pub mbuf_do_not_respond : ℕ
mbuf_do_not_respond = 4

abbrev pub commline_max_buf : ℕ
commline_max_buf = 2048

abbrev pub max_cmd_rsp_sz : ℕ
max_cmd_rsp_sz = 4096

-- The lines, and the limit of their enumeration.
abbrev pub stackline : ℕ
stackline = 1

abbrev pub airline : ℕ
airline = 2

abbrev pub forker : ℕ
forker = 3

abbrev pub monitor : ℕ
monitor = 4

abbrev pub max_cl_line : ℕ
max_cl_line = 5

abbrev pub cl_mgr_id : ℕ
cl_mgr_id = 0xffff

abbrev pub cl_dstid_machdr_present : ℕ
cl_dstid_machdr_present = 0xfffe

abbrev pub wf_status_ack_ok : ℕ
wf_status_ack_ok = 0

abbrev pub wf_status_no_ack : ℕ
wf_status_no_ack = 1

abbrev pub wf_status_err : ℕ
wf_status_err = 2

abbrev pub wf_status_fatal : ℕ
wf_status_fatal = 3

-- `msg_buf_t`. The two bytes of the union `info` are `sig.lqi` and `sig.rssi` of a packet, and
-- `ack.retries` and `ack.status` of an acknowledgement. `buf` is the text in the buffer,
-- whose first byte is a member and whose others lie behind the structure.
pub record MsgBuf : Type 0 where
  pub mtype : ℕ
  pub src_id : ℕ
  pub dst_id : ℕ
  pub flags : ℕ
  pub info_first : ℕ
  pub info_second : ℕ
  pub len : ℕ
  pub max_len : ℕ
  pub buf : Bytes

-- `sizeof(msg_buf_t)`, which is packed.
abbrev pub sizeof_msg_buf : ℕ
sizeof_msg_buf = 16

-- `flags & FLAG`.
abbrev pub has_flag : MsgBuf → ℕ → Bool
has_flag mbuf flag = not (bit_and mbuf.flags flag == 0)

-- DEFINE_MBUF_SZ: all bytes are 0 but `max_len`.
unfoldable pub define_mbuf : ℕ → MsgBuf
define_mbuf sz = record {
  mtype = 0;
  src_id = 0;
  dst_id = 0;
  flags = 0;
  info_first = 0;
  info_second = 0;
  len = 0;
  max_len = sz;
  buf = [];
}

-- MTYPE and GET_LINE.
unfoldable pub mtype : ℕ → ℕ → ℕ
mtype line id = bit_or (line * 2 ^ 16) id

unfoldable pub get_line : ℕ → ℕ
get_line mt = mt / 2 ^ 16

-- IN_RANGE.
abbrev pub in_range : ℕ → ℕ → ℕ → Bool
in_range val min_n max_n = leb min_n val && ltb val max_n
