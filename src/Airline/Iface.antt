-- ===== src/Airline/Iface.antt =====
-- src/airline/NS3/LrwpanIface.cc, with `SendAckToStackline` of src/airline/common.cc: addresses of
-- the radio interface, and how the result of a transmission becomes an acknowledgement.
--
-- A Mac16Address is its two bytes. The enumeration of results is the simulator's; the model keeps
-- the enumerators that the code names, and `other` stands for the rest.
pub mod Confirm
pub mod Lrwpan
pub mod Handler
pub mod Receiving
pub mod Setup
mod Tests
use whitefield.Base.{ℕ, ◌+◌, ◌*◌, ◌/◌, ◌%◌, ◌^◌, Option, none, some, ◌==◌, if◌then◌else◌}
use whitefield.Commline.Message.{
  MsgBuf, define_mbuf, commline_max_buf, mbuf_is_ack, wf_status_ack_ok, wf_status_no_ack,
  wf_status_err, wf_status_fatal,
}

-- LrWpanMcpsDataConfirmStatus.
pub data ConfirmStatus : Type 0 where
  success no_ack : ConfirmStatus
  transaction_overflow transaction_expired channel_access_failure : ConfirmStatus
  invalid_gts counter_error frame_too_long : ConfirmStatus
  unavailable_key unsupported_security invalid_parameter other : ConfirmStatus

unfoldable pub wf_ack_status : ConfirmStatus → ℕ
wf_ack_status success = wf_status_ack_ok
wf_ack_status no_ack = wf_status_no_ack
wf_ack_status transaction_overflow = wf_status_err
wf_ack_status transaction_expired = wf_status_err
wf_ack_status channel_access_failure = wf_status_err
wf_ack_status _ = wf_status_fatal

unfoldable pub addr2id : ℕ × ℕ → ℕ
addr2id addr = addr.0 * 2 ^ 8 + addr.1

unfoldable pub id2addr : ℕ → ℕ × ℕ
id2addr id = (id / 2 ^ 8, id % 2 ^ 8)

-- The message of `SendAckToStackline`; `retries` has eight bits.
unfoldable pub ack_mbuf : ℕ → ℕ → ℕ → ℕ → MsgBuf
unfolding define_mbuf
ack_mbuf src_id dst_id status retries = record (define_mbuf commline_max_buf) {
  src_id = src_id;
  dst_id = dst_id;
  info_second = status;
  info_first = if status == wf_status_ack_ok then retries % 2 ^ 8 else 0;
  flags = mbuf_is_ack;
  len = 1;
}

-- What `DataConfirm` counts and sends to the stack; broadcasts have no acknowledgement.
unfoldable pub data_confirm : ℕ → ℕ × ℕ → ConfirmStatus → ℕ → Option MsgBuf
unfolding ack_mbuf wf_ack_status addr2id
data_confirm id short_dst status retries =
    if addr2id short_dst == 0xffff
    then none
    else some (ack_mbuf id (addr2id short_dst) (wf_ack_status status) (retries + 1))
