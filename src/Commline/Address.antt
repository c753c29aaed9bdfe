-- ===== src/Commline/Address.antt =====
-- src/commline/cl_stackline_helpers.c: node ids as link-layer addresses of eight bytes.
--
-- A byte is a number below 256. The ids are stored with the low byte first, as on the machines that
-- the program runs on. A null pointer is `none`.
pub mod Ids
use whitefield.Base.{
  ℕ, zero, ◌+◌, ◌*◌, ◌/◌, ◌%◌, ◌^◌, Option, none, some, List, [], ◌∷◌, replicate, get_elem?, set,
  bit_or, ◌==◌, if◌then◌else◌, not,
}

abbrev g_serial_id : List ℕ
g_serial_id = 1 ∷ 2 ∷ 3 ∷ 4 ∷ 5 ∷ 6 ∷ 7 ∷ 8 ∷ []

-- Byte `i` of an address.
abbrev pub byte : ℕ → List ℕ → ℕ
byte i addr = elim (get_elem? addr i) [ none ↦ 0 | some b ↦ b ]

-- `none` is FAILURE.
unfoldable pub cl_get_id2longaddr : ℕ → ℕ → Option (List ℕ)
cl_get_id2longaddr id addrlen =
    if not (addrlen == 8)
    then none
    else if id == 0xffff
    then some (replicate 8 0)
    else some (set (set g_serial_id 6 (id / 256)) 7 (id % 256))

unfoldable pub all_bits : List ℕ → ℕ
all_bits addr =
    bit_or
      (bit_or
        (bit_or
          (bit_or (bit_or (bit_or (bit_or (byte 0 addr) (byte 1 addr)) (byte 2 addr)) (byte 3 addr))
            (byte 4 addr))
          (byte 5 addr))
        (byte 6 addr))
      (byte 7 addr)

unfoldable pub cl_get_longaddr2id : Option (List ℕ) → ℕ
unfolding all_bits
cl_get_longaddr2id none = 0xffff
cl_get_longaddr2id (some addr) =
    if all_bits addr == 0 then 0xffff else byte 7 addr + 256 * byte 6 addr
