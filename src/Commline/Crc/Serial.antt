-- ===== src/Commline/Crc/Serial.antt =====
-- The checksum of pcap_util.c against the CRC that it stands for, and what a receiver computes.
use whitefield.Base.{
  ℕ, ◌+◌, ◌*◌, ◌/◌, ◌%◌, ◌<◌, ◌^◌, ◌≡◌, refl, ap, subst, ◌∙◌, [], ◌∷◌, ◌++◌, Bytes, All, arith,
  bit_xor,
}
use whitefield.Base.Bits.{bit_xor-lt, bit_xor-low}
use whitefield.Commline.Crc.{mix, crc16_add, crc16_data}
use whitefield.Commline.Crc.Table.{shift8, mix-shift8, mix-lt, mix_high}

abbrev pub IsByte : ℕ → Type 0
IsByte b = b < 256

-- The byte at a time formula is eight shifts of the reflected CCITT register, for every byte and
-- every register.
pub crc16_add-shift8 :
    (b acc : ℕ) → b < 256 → acc < 2 ^ 16 → crc16_add b acc ≡ shift8 (bit_xor acc b)
unfolding crc16_add
crc16_add-shift8 b acc hb ha = mix-shift8 (bit_xor acc b) (bit_xor-lt 16 acc b ha (omega arith))

crc16_add-lt : (b acc : ℕ) → b < 256 → acc < 2 ^ 16 → crc16_add b acc < 2 ^ 16
unfolding crc16_add
crc16_add-lt b acc hb ha = mix-lt (bit_xor acc b) (bit_xor-lt 16 acc b ha (omega arith))

pub crc16_data-lt :
    (bs : Bytes) (acc : ℕ) → All IsByte bs → acc < 2 ^ 16 → crc16_data bs acc < 2 ^ 16
unfolding crc16_data
crc16_data-lt [] acc h ha = ha
crc16_data-lt (b ∷ bs) acc (hb, h) ha =
    crc16_data-lt bs (crc16_add b acc) h (crc16_add-lt b acc hb ha)

pub crc16_data-append :
    (xs ys : Bytes) (acc : ℕ) → crc16_data (xs ++ ys) acc ≡ crc16_data ys (crc16_data xs acc)
unfolding crc16_data
crc16_data-append [] ys acc = refl
crc16_data-append (x ∷ xs) ys acc = crc16_data-append xs ys (crc16_add x acc)

-- The two bytes of a checksum in the order in which a little-endian host stores them.
abbrev pub fcs : ℕ → Bytes
fcs crc = crc % 256 ∷ crc / 256 ∷ []

crc16_data-fcs : (acc : ℕ) → acc < 2 ^ 16 → crc16_data (fcs acc) acc ≡ 0
unfolding crc16_data crc16_add
crc16_data-fcs acc ha =
    let h : ℕ = acc / 256 in
    let split : h * 2 ^ 8 + acc % 256 ≡ acc = omega arith in
    let low : bit_xor acc (acc % 256) ≡ h * 256 =
      subst (λ a. bit_xor a (acc % 256) ≡ h * 256) split
        (bit_xor-low 8 h (acc % 256) (omega arith)) in
    let first : mix (bit_xor acc (acc % 256)) ≡ h = ap mix low ∙ mix_high h (omega arith) in
    let clear : bit_xor h h ≡ 0 =
      let zero_high : 0 * 2 ^ 8 + h ≡ h = omega arith in
      subst (λ a. bit_xor a h ≡ 0) zero_high (bit_xor-low 8 0 h (omega arith)) in
    ap (λ x. mix (bit_xor x h)) first ∙ ap mix clear ∙ mix_high 0 (omega arith)

-- A frame followed by its checksum has checksum 0, which is how a receiver tests it.
pub crc16_data_residue :
    (bs : Bytes) → All IsByte bs → crc16_data (bs ++ fcs (crc16_data bs 0)) 0 ≡ 0
crc16_data_residue bs h =
    crc16_data-append bs (fcs (crc16_data bs 0)) 0
    ∙ crc16_data-fcs (crc16_data bs 0) (crc16_data-lt bs 0 h (omega arith))
