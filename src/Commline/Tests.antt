-- ===== src/Commline/Tests.antt =====
-- The theorems about messages, addresses and sockets at concrete values.
use whitefield.Base.{ℕ, ◌-◌, true, set, replicate, ◌≡◌, refl, arith}
use whitefield.Base.Int.{ℤ, pos}
use whitefield.Commline.Message.{MsgBuf, get_line}
use whitefield.Commline.Usock.{new_usock, usock_init, usock_cleanup}
use whitefield.Commline.Usock.Naming.{usock_setabsaddr-injective}
use whitefield.Commline.Usock.Table.{usock_cleanup_stdin}

abbrev node : ℕ
node = 7

-- The type of node 5's stack.
abbrev stack : ℕ
stack = 0x10005

abbrev accept : ℤ → ℕ → MsgBuf → ℕ → ℤ
accept fd address mbuf len = pos len

usock_setabsaddr-injective_example : stack ≡ stack
usock_setabsaddr-injective_example =
    usock_setabsaddr-injective 1000 stack stack (omega arith) (omega arith) (omega arith) refl

usock_cleanup_stdin_example :
    (usock_cleanup (usock_init stack (pos 3) true new_usock).0).0
    ≡ set (replicate 4 (pos 0)) (get_line stack - 1) (pos 3)
unfolding get_line
usock_cleanup_stdin_example = usock_cleanup_stdin stack 2 refl
