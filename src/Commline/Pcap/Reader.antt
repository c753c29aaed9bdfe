-- ===== src/Commline/Pcap/Reader.antt =====
-- A reader of capture files, by the published pcap format, and the files that pcap_util.c writes.
use whitefield.Base.{
  ℕ, zero, suc, ◌+◌, ◌*◌, ◌^◌, Option, none, some, List, [], ◌∷◌, Bytes, ◌==◌, ◌&&◌, leb, length,
  take, drop, if◌then◌else◌,
}

infixl 5 ◌>>=◌
abbrev ◌>>=◌ {ℓ κ} : {A : Type ℓ} {B : Type κ} → Option A → (A → Option B) → Option B
none >>= f = none
some a >>= f = f a

-- A captured frame as a reader sees it, its checksum included.
pub record Packet : Type 0 where
  pub sec : ℕ
  pub usec : ℕ
  pub frame : Bytes

unfoldable pub read_int : Bytes → Option (ℕ × Bytes)
read_int (a ∷ b ∷ c ∷ d ∷ rest) = some (a + b * 2 ^ 8 + c * 2 ^ 16 + d * 2 ^ 24, rest)
read_int _ = none

unfoldable pub read_short : Bytes → Option (ℕ × Bytes)
read_short (a ∷ b ∷ rest) = some (a + b * 2 ^ 8, rest)
read_short _ = none

unfoldable pub read_packet : Bytes → Option (Packet × Bytes)
read_packet s = do
  (sec, s1) ← read_int s
  (usec, s2) ← read_int s1
  (included, s3) ← read_int s2
  (original, s4) ← read_int s3
  if included == original && leb included (length s4)
      then some (record { sec = sec; usec = usec; frame = take included s4 }, drop included s4)
      else none

-- Every packet takes at least sixteen bytes, so the number of bytes is fuel enough.
unfoldable pub read_packets : ℕ → Bytes → Option (List Packet)
read_packets fuel [] = some []
read_packets zero (x ∷ s) = none
read_packets (suc fuel) (x ∷ s) = do
  (packet, rest) ← read_packet (x ∷ s)
  packets ← read_packets fuel rest
  some (packet ∷ packets)

-- The header: magic number, version 2.4, no time zone, no accuracy, at most 4096 bytes a frame,
-- link type 195 (IEEE 802.15.4 with checksum).
unfoldable pub read_header : Bytes → Option Bytes
read_header s = do
  (magic, s1) ← read_int s
  (major, s2) ← read_short s1
  (minor, s3) ← read_short s2
  (zone, s4) ← read_int s3
  (figures, s5) ← read_int s4
  (snap, s6) ← read_int s5
  (link, s7) ← read_int s6
  if magic == 0xa1b2c3d4 && major == 2 && minor == 4 && snap == 4096 && link == 195
      then some s7
      else none

unfoldable pub read_file : Bytes → Option (List Packet)
read_file s = read_header s >>= λ body. read_packets (length body) body
