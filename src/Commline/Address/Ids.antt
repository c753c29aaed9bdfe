-- ===== src/Commline/Address/Ids.antt =====
-- src/commline/cl_stackline_helpers.c: an address names the node that it was made for.
use whitefield.Base.{
  ℕ, ◌/◌, ◌%◌, ◌^◌, ◌<◌, ◌≡◌, ◌≢◌, refl, false, some, List, [], ◌∷◌, replicate, length, bit_or,
  ◌==◌, arith, Bool-cases, inl, inr, All,
}
use whitefield.Base.Bits.{bit_or-odd}
use whitefield.Commline.Address.{all_bits, cl_get_id2longaddr, cl_get_longaddr2id}

-- The first byte alone keeps the address of a node from being the address for all.
all_bits-one : (a b : ℕ) → all_bits (1 ∷ 2 ∷ 3 ∷ 4 ∷ 5 ∷ 6 ∷ a ∷ b ∷ []) ≢ 0
unfolding all_bits
all_bits-one a b e = omega (arith, bit_or-odd (bit_or 7 a) b (bit_or-odd 7 a refl))

-- Every 16-bit id is read back from its address, the id of all nodes included, and the address has
-- eight bytes.
pub cl_get_longaddr2id-cl_get_id2longaddr :
    (id : ℕ)
    → id < 2 ^ 16
    → (addr : List ℕ) × (cl_get_id2longaddr id 8 ≡ some addr)
      × (length addr ≡ 8)
      × All (λ b. b < 256) addr
      × (cl_get_longaddr2id (some addr) ≡ id)
unfolding cl_get_id2longaddr cl_get_longaddr2id
cl_get_longaddr2id-cl_get_id2longaddr id h = elim (Bool-cases (id == 0xffff)) [
  | inl everyone ↦ (
    replicate 8 0,
    rw everyone refl,
    refl,
    omega arith,
    let same : id ≡ 0xffff = ground arith in rw same refl,
  )
  | inr one ↦ (
    1 ∷ 2 ∷ 3 ∷ 4 ∷ 5 ∷ 6 ∷ id / 256 ∷ id % 256 ∷ [],
    rw one refl,
    refl,
    omega arith,
    let some_bit : (all_bits (1 ∷ 2 ∷ 3 ∷ 4 ∷ 5 ∷ 6 ∷ id / 256 ∷ id % 256 ∷ []) == 0) ≡ false =
          ground (arith, all_bits-one (id / 256) (id % 256)) in
        rw some_bit (omega arith),
  )
]
