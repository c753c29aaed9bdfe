-- ===== src/Commline/Msgq.antt =====
-- src/commline/cl_msgq.c: the transport over one message queue, which is compiled in without
-- USE_UNIX_SOCKETS.
--
-- The kernel's answers are arguments: the key, the id of the queue, and what msgsnd and msgrcv return
-- and write.
pub mod Agreeing
use whitefield.Base.{ℕ, ◌%◌, Bool, false, Option, none, some, ◌==◌, if◌then◌else◌}
use whitefield.Base.Int.{ℤ, pos, negsuc, is_neg}
use whitefield.Commline.Message.{MsgBuf}
use whitefield.Commline.Usock.{Status, ok, failed, received}

abbrev is_minus_one : ℤ → Bool
is_minus_one (pos n) = false
is_minus_one (negsuc n) = n == 0

-- CL_CREATEQ is bit 0 of the flags.
abbrev creates : ℕ → Bool
creates flags = flags % 2 == 1

abbrev opened : ℤ → ℤ × Status
opened id = (id, if is_minus_one id then failed else ok)

-- `gMsgQ_id` afterwards, and the status; `msgget` is asked for a new queue or for any.
unfoldable pub msgq_init : ℤ → (Bool → ℤ) → ℕ → ℤ → ℤ × Status
msgq_init key msgget flags id =
    if is_minus_one key then (id, failed) else opened (msgget (creates flags))

-- The queue that is deleted, if the kernel allows it.
unfoldable pub msgq_cleanup : (ℤ → Bool) → ℤ → Option ℤ
msgq_cleanup allows id = if allows id then some id else none

unfoldable pub msgq_recvfrom : (ℤ → ℕ → MsgBuf → ℕ → ℤ × MsgBuf) → ℕ → MsgBuf → ℕ → ℤ → ℤ × MsgBuf
msgq_recvfrom msgrcv mtype mbuf len id =
    let (ret, m) = msgrcv id mtype (record mbuf { len = 0 }) len in (received ret, m)

unfoldable pub msgq_sendto : (ℤ → MsgBuf → ℕ → ℤ) → ℕ → MsgBuf → ℕ → ℤ → Status × MsgBuf
msgq_sendto msgsnd mtype mbuf len id =
    let m = record mbuf { mtype = mtype } in (if is_neg (msgsnd id m len) then failed else ok, m)
