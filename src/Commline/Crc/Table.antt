-- ===== src/Commline/Crc/Table.antt =====
-- The checksum step at each of its 65536 arguments.
use whitefield.Base.{
  ℕ, zero, suc, ◌+◌, ◌*◌, ◌/◌, ◌%◌, ◌<◌, ◌^◌, ◌≡◌, refl, Bool, true, ◌&&◌, arith, ◌==◌, ==_iff,
  if◌then◌else◌, bit_xor, ltb,
}
use whitefield.Commline.Crc.{mix}

-- Whether a test holds for each number under a limit, from the largest down.
pub each_under : (ℕ → Bool) → ℕ → Bool
each_under test zero = true
each_under test (suc limit) = test limit && each_under test limit

pub each_under_lem :
    (test : ℕ → Bool) (limit k : ℕ) → each_under test limit ≡ true → k < limit → test k ≡ true
unfolding each_under
each_under_lem test (suc limit) k holds under = ground (arith, each_under_lem test limit k)
each_under_lem test zero k holds under = absurd (omega arith)

-- One bit of a CRC with the reflected CCITT polynomial x^16 + x^12 + x^5 + 1.
pub shift : ℕ → ℕ
shift s = if s % 2 == 0 then s / 2 else bit_xor (s / 2) 0x8408

pub shift8 : ℕ → ℕ
unfolding shift
shift8 s = shift (shift (shift (shift (shift (shift (shift (shift s)))))))

row : ℕ → Bool
unfolding each_under
row hi =
    each_under
      (λ lo. mix (hi * 256 + lo) == shift8 (hi * 256 + lo) && ltb (mix (hi * 256 + lo)) 65536) 256

mix_table : each_under row 256 ≡ true
unfolding each_under row mix shift8
mix_table = refl

mix_row : (s : ℕ) → s < 2 ^ 16 → (mix s == shift8 s && ltb (mix s) 65536) ≡ true
unfolding row
mix_row s h =
    let in_row : row (s / 256) ≡ true = each_under_lem row 256 (s / 256) mix_table (omega arith) in
    let here =
      each_under_lem
        (λ lo.
          mix (s / 256 * 256 + lo) == shift8 (s / 256 * 256 + lo)
          && ltb (mix (s / 256 * 256 + lo)) 65536)
        256 (s % 256) in_row (omega arith) in
    let e : s / 256 * 256 + s % 256 ≡ s = omega arith in rw e at here

pub mix-shift8 : (s : ℕ) → s < 2 ^ 16 → mix s ≡ shift8 s
mix-shift8 s h = ground (arith, mix_row s h)

pub mix-lt : (s : ℕ) → s < 2 ^ 16 → mix s < 2 ^ 16
mix-lt s h = ground (arith, mix_row s h)

high_table : each_under (λ h. mix (h * 256) == h) 256 ≡ true
unfolding each_under mix
high_table = refl

-- A register whose low byte is clear only moves its high byte down.
pub mix_high : (h : ℕ) → h < 256 → mix (h * 256) ≡ h
mix_high h lt = (==_iff _ _).0 (each_under_lem (λ h. mix (h * 256) == h) 256 h high_table lt)
