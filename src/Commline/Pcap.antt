-- ===== src/Commline/Pcap.antt =====
-- src/commline/pcap_util.c: `pcap_init` and `pcap_write`.
--
-- An open FILE is the bytes written to it so far. `fwrite` of an integer stores its bytes in the
-- host's order, which is little-endian here. The clock of `gettimeofday` is an argument.
pub mod Reader
pub mod RoundTrip
mod Tests
use whitefield.Base.{
  ℕ, ◌+◌, ◌/◌, ◌%◌, ◌^◌, Bool, true, false, Option, none, some, [], ◌∷◌, ◌++◌, Bytes, length, take,
  drop, ltb, if◌then◌else◌,
}
use whitefield.Commline.Crc.{crc16_data}

-- WRITEINT and WRITESHORT.
unfoldable pub write_int : ℕ → Bytes → Bytes
write_int val handle =
    handle ++ val % 2 ^ 8 ∷ val / 2 ^ 8 % 2 ^ 8 ∷ val / 2 ^ 16 % 2 ^ 8 ∷ val / 2 ^ 24 % 2 ^ 8 ∷ []

unfoldable pub write_short : ℕ → Bytes → Bytes
write_short val handle = handle ++ val % 2 ^ 8 ∷ val / 2 ^ 8 % 2 ^ 8 ∷ []

-- The argument says whether `fopen` succeeds; `none` is the null handle.
unfoldable pub pcap_init : Bool → Option Bytes
unfolding write_int write_short
pcap_init false = none
pcap_init true = some (
    write_int 195 (
      write_int 4096 (
        write_int 0
          (write_int 0 (write_short 0x0004 (write_short 0x0002 (write_int 0xa1b2c3d4 [])))))))

-- The checksum goes into the caller's buffer behind the frame.
unfoldable pub put_crc : Bytes → ℕ → ℕ → Bytes
put_crc buf buflen crc =
    take buflen buf ++ (crc % 2 ^ 8 ∷ crc / 2 ^ 8 % 2 ^ 8 ∷ []) ++ drop (buflen + 2) buf

-- The result is the file and the caller's buffer, which the function also changes; `none` is a
-- write behind the end of that buffer.
unfoldable pub pcap_write : Option Bytes → Bytes → ℕ → ℕ → ℕ → Option (Option Bytes × Bytes)
unfolding write_int put_crc
pcap_write none buf buflen sec usec = some (none, buf)
pcap_write (some handle) buf buflen sec usec =
    let crc = crc16_data (take buflen buf) 0 in
    let buf' = put_crc buf buflen crc in
    let len : ℕ = buflen + 2 in
    if ltb (length buf) (buflen + 2)
    then none
    else some (
      some (write_int len (write_int len (write_int usec (write_int sec handle))) ++ take len buf'),
      buf',
    )
