-- ===== src/Airline/Spawn/Resolve.antt =====
-- src/airline/Config.cc: node ids in commands.
use whitefield.Base.{ℕ, suc, ◌≡◌, refl, false, some, ◌++◌, Bytes, codes, arith}
use whitefield.Base.Text.{
  decimal, starts_with, value, IsDigits, Lacks, before-append, behind-append,
}
use whitefield.Base.Decimal.{decimal_digits-value}
use whitefield.Airline.Spawn.{resolve_token}

-- The token with $NODEID gets the node's id in decimal digits in that place.
pub resolve_token_id :
    (id : ℕ) (pre post : Bytes)
    → Lacks b'$' pre
    → starts_with (codes "+") post ≡ false
    → (digits : Bytes) × (resolve_token id (pre ++ (codes "$NODEID" ++ post))
        ≡ some (pre ++ (digits ++ post)))
      × (value 0 digits ≡ id)
      × IsDigits digits
unfolding resolve_token
resolve_token_id id pre post h no_plus =
    let (same, ds) = decimal_digits-value (suc id) id (omega arith) in
    (
      decimal id,
      rw
          (
            behind-append b'$' pre (codes "NODEID" ++ post) h,
            resolve_token,
            before-append b'$' pre (codes "NODEID" ++ post) h,
            no_plus,
          )
          refl,
      same,
      ds,
    )
