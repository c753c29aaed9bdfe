-- ===== src/Commline/Message/Types.antt =====
-- src/commline/commline.h: a message type names one line and one node.
use whitefield.Base.{ℕ, ◌+◌, ◌*◌, ◌^◌, ◌<◌, ◌≡◌, arith}
use whitefield.Base.Bits.{bit_or-disjoint}
use whitefield.Commline.Message.{mtype, get_line}

mtype-add : (line id : ℕ) → id < 2 ^ 16 → mtype line id ≡ line * 2 ^ 16 + id
unfolding mtype
mtype-add line id h = bit_or-disjoint 16 line id h

-- The line of a message type is the one that it was made from.
pub get_line-mtype : (line id : ℕ) → id < 2 ^ 16 → get_line (mtype line id) ≡ line
unfolding get_line
get_line-mtype line id h = omega (arith, mtype-add line id h)

-- Two message types are the same only for the same line and the same node, so no process receives
-- what was sent to another.
pub mtype-injective :
    (line id line' id' : ℕ)
    → id < 2 ^ 16
    → id' < 2 ^ 16
    → mtype line id ≡ mtype line' id'
    → (line ≡ line') × (id ≡ id')
mtype-injective line id line' id' h h' e =
    omega (arith, mtype-add line id h, mtype-add line' id' h')
