-- ===== src/Commline/Pcap/Tests.antt =====
-- A capture of one frame, and the theorems about captures at concrete frames.
use whitefield.Base.{◌≡◌, refl, true, some, [], ◌∷◌, Bytes, map, arith, bit_xor}
use whitefield.Commline.Crc.{crc16_add, crc16_data}
use whitefield.Commline.Crc.Table.{shift8}
use whitefield.Commline.Crc.Serial.{crc16_add-shift8}
use whitefield.Commline.Pcap.{pcap_init}
use whitefield.Commline.Pcap.Reader.{read_file}
use whitefield.Commline.Pcap.RoundTrip.{Call, IsValid, capture, packet_of, read_file-capture}

abbrev hello : Call
hello = record { buf = 0x68 ∷ 0x69 ∷ 0 ∷ 0 ∷ 0 ∷ []; buflen = 2; sec = 10; usec = 500000 }

check_string :
    crc16_data (0x31 ∷ 0x32 ∷ 0x33 ∷ 0x34 ∷ 0x35 ∷ 0x36 ∷ 0x37 ∷ 0x38 ∷ 0x39 ∷ []) 0 ≡ 0x2189
unfolding crc16_data crc16_add
check_string = refl

read_file-capture_example :
    (file : Bytes) × (capture (pcap_init true) (hello ∷ hello ∷ []) ≡ some (some file))
    × (read_file file ≡ some (map packet_of (hello ∷ hello ∷ [])))
read_file-capture_example =
    read_file-capture (hello ∷ hello ∷ []) (hello-IsValid, (hello-IsValid, tt))
  where
    hello-IsValid : IsValid hello
    hello-IsValid = omega arith

crc16_add-shift8_example : crc16_add 0x31 0x1234 ≡ shift8 (bit_xor 0x1234 0x31)
crc16_add-shift8_example = crc16_add-shift8 0x31 0x1234 (omega arith) (omega arith)
