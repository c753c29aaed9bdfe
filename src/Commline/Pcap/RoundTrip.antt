-- ===== src/Commline/Pcap/RoundTrip.antt =====
-- pcap_util.c: a reader gets back the frames that were captured, each with its checksum.
use whitefield.Base.{
  ℕ, zero, suc, ◌+◌, ◌/◌, ◌%◌, ◌<◌, ◌≤◌, ◌^◌, ◌≡◌, refl, ap, ◌∙◌, true, false, Option, none, some,
  List, [], ◌∷◌, ◌++◌, Bytes, All, arith, ◌==◌, leb, length, length-append, length-take, take, drop,
  map, append_assoc, append-nil, ltb,
}
use whitefield.Commline.Crc.{crc16_data}
use whitefield.Commline.Pcap.{write_int, pcap_init, put_crc, pcap_write}
use whitefield.Commline.Pcap.Reader.{
  Packet, read_int, read_short, read_packet, read_packets, read_header, read_file,
}

-- One call of `pcap_write`: the caller's buffer, the frame's length in it and the clock.
pub record Call : Type 0 where
  pub buf : Bytes
  pub buflen : ℕ
  pub sec : ℕ
  pub usec : ℕ

-- The checksum fits behind the frame, and the numbers are those of 32 bits.
pub record IsValid (c : Call) : Type 0 where
  pub room : c.buflen + 2 ≤ length c.buf
  pub len_bits : c.buflen + 2 < 2 ^ 32
  pub sec_bits : c.sec < 2 ^ 32
  pub usec_bits : c.usec < 2 ^ 32

-- The calls in turn, on the handle that `pcap_init` returned.
pub capture : Option Bytes → List Call → Option (Option Bytes)
capture handle [] = some handle
capture handle (c ∷ cs) = elim (pcap_write handle c.buf c.buflen c.sec c.usec) [
  | none ↦ none
  | some (handle', buf') ↦ capture handle' cs
]

abbrev crc_of : Call → ℕ
crc_of c = crc16_data (take c.buflen c.buf) 0

-- What a reader should find: the clock, and the frame followed by its checksum.
abbrev pub packet_of : Call → Packet
packet_of c = record {
  sec = c.sec;
  usec = c.usec;
  frame = take c.buflen c.buf ++ crc_of c % 2 ^ 8 ∷ crc_of c / 2 ^ 8 % 2 ^ 8 ∷ [];
}

abbrev int_bytes : ℕ → Bytes
int_bytes v = v % 2 ^ 8 ∷ v / 2 ^ 8 % 2 ^ 8 ∷ v / 2 ^ 16 % 2 ^ 8 ∷ v / 2 ^ 24 % 2 ^ 8 ∷ []

abbrev entry : Call → Bytes
entry c =
    int_bytes c.sec
    ++ (int_bytes c.usec
        ++ (int_bytes (c.buflen + 2) ++ (int_bytes (c.buflen + 2) ++ (packet_of c).frame)))

take_crc :
    (n : ℕ) (buf rest : Bytes) (lo hi : ℕ)
    → n ≤ length buf
    → take (n + 2) (take n buf ++ (lo ∷ hi ∷ []) ++ rest) ≡ take n buf ++ lo ∷ hi ∷ []
take_crc zero buf rest lo hi h = refl
take_crc (suc n) [] rest lo hi h = absurd (omega arith)
take_crc (suc n) (x ∷ buf) rest lo hi h =
    let e : suc n + 2 ≡ suc (n + 2) = omega arith in
    rw e (ap (λ l. x ∷ l) (take_crc n buf rest lo hi (omega arith)))

length-frame : (c : Call) → IsValid c → length (packet_of c).frame ≡ c.buflen + 2
length-frame c v = omega (
  arith,
  v,
  length-append (take c.buflen c.buf) (crc_of c % 2 ^ 8 ∷ crc_of c / 2 ^ 8 % 2 ^ 8 ∷ []),
  length-take c.buflen c.buf,
)

pcap_write-entry :
    (h : Bytes) (c : Call)
    → IsValid c
    → pcap_write (some h) c.buf c.buflen c.sec c.usec
      ≡ some (some (h ++ entry c), put_crc c.buf c.buflen (crc_of c))
unfolding pcap_write write_int put_crc
pcap_write-entry h c v =
    let fits : ltb (length c.buf) (c.buflen + 2) ≡ false = ground arith in
    rw
      (
        fits,
        take_crc c.buflen c.buf (drop (c.buflen + 2) c.buf) (crc_of c % 2 ^ 8)
            (crc_of c / 2 ^ 8 % 2 ^ 8) (omega arith),
      )
      (simp append_assoc)

read_int-bytes :
    (v : ℕ) (rest : Bytes) → v < 2 ^ 32 → read_int (int_bytes v ++ rest) ≡ some (v, rest)
unfolding read_int
read_int-bytes v rest h = ap (λ n. some (n, rest)) (omega arith)

take-append_length {ℓ} : {A : Type ℓ} (xs ys : List A) → take (length xs) (xs ++ ys) ≡ xs
take-append_length [] ys = refl
take-append_length (x ∷ xs) ys = ap (λ l. x ∷ l) (take-append_length xs ys)

drop-append_length {ℓ} : {A : Type ℓ} (xs ys : List A) → drop (length xs) (xs ++ ys) ≡ ys
drop-append_length [] ys = refl
drop-append_length (x ∷ xs) ys = drop-append_length xs ys

leb-length-append : (xs ys : Bytes) → leb (length xs) (length (xs ++ ys)) ≡ true
leb-length-append xs ys = ground (arith, length-append xs ys)

read_packet-entry :
    (c : Call) (rest : Bytes) → IsValid c → read_packet (entry c ++ rest) ≡ some (packet_of c, rest)
unfolding read_packet
read_packet-entry c rest v =
    let frame : Bytes = (packet_of c).frame in
    let len : length frame ≡ c.buflen + 2 = length-frame c v in
    let fits : leb (c.buflen + 2) (length (frame ++ rest)) ≡ true =
      rw (← len) (leb-length-append frame rest) in
    let taken : take (c.buflen + 2) (frame ++ rest) ≡ frame =
      rw (← len) (take-append_length frame rest) in
    let left : drop (c.buflen + 2) (frame ++ rest) ≡ rest =
      rw (← len) (drop-append_length frame rest) in
    let s4 : Bytes = frame ++ rest in
    let s3 : Bytes = int_bytes (c.buflen + 2) ++ s4 in
    let s2 : Bytes = int_bytes (c.buflen + 2) ++ s3 in
    let same : (c.buflen + 2 == c.buflen + 2) ≡ true = ground arith in
    rw
      (
        read_int-bytes c.sec (int_bytes c.usec ++ s2) v.sec_bits,
        read_int-bytes c.usec s2 v.usec_bits,
        read_int-bytes (c.buflen + 2) s3 v.len_bits,
        read_int-bytes (c.buflen + 2) s4 v.len_bits,
        same,
        fits,
        taken,
        left,
      )
      refl

-- What the calls append to the file.
abbrev entries : List Call → Bytes
entries [] = []
entries (c ∷ cs) = entry c ++ entries cs

capture-entries :
    (h : Bytes) (cs : List Call)
    → All IsValid cs
    → capture (some h) cs ≡ some (some (h ++ entries cs))
unfolding capture
capture-entries h [] v = rw append-nil refl
capture-entries h (c ∷ cs) (v, vs) =
    rw (pcap_write-entry h c v, capture) (capture-entries (h ++ entry c) cs vs ∙ simp append_assoc)

read_packets-entries :
    (fuel : ℕ) (cs : List Call)
    → All IsValid cs
    → length (entries cs) ≤ fuel
    → read_packets fuel (entries cs) ≡ some (map packet_of cs)
unfolding read_packets
read_packets-entries zero [] v h = refl
read_packets-entries (suc fuel) [] v h = refl
read_packets-entries zero (c ∷ cs) v h = absurd (omega arith)
read_packets-entries (suc fuel) (c ∷ cs) (v, vs) h =
    rw
      (
        read_packet-entry c (entries cs) v,
        read_packets-entries fuel cs vs (omega (arith, length-append (entry c) (entries cs))),
      )
      refl

abbrev header : Bytes
unfolding pcap_init
header = elim (pcap_init true) [ none ↦ [] | some h ↦ h ]

read_header-header : (body : Bytes) → read_header (header ++ body) ≡ some body
unfolding read_header read_int read_short pcap_init
read_header-header body = refl

-- A file that was opened and then written to by any valid calls is read back as the frames of
-- those calls, in order, with their times, and each followed by its checksum.
pub read_file-capture :
    (cs : List Call)
    → All IsValid cs
    → (file : Bytes) × (capture (pcap_init true) cs ≡ some (some file))
      × (read_file file ≡ some (map packet_of cs))
unfolding pcap_init read_file
read_file-capture cs v = (
  header ++ entries cs,
  capture-entries header cs v,
  rw (read_header-header (entries cs))
      (read_packets-entries (length (entries cs)) cs v (omega arith)),
)
