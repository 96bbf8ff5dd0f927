-- ===== src/Examples/Helpers.antt =====
-- Helpers, references, headers and the logger at concrete inputs.
use modbus_cpp.Prelude.{
  ℕ, ◌+◌, ◌-◌, ◌^◌, ◌≤◌, ◌<◌, ◌≡◌, refl, Bool, true, [], ◌∷◌, ◌++◌, length, drop, arith,
}
use mathlib.Core.List.{map}
use modbus_cpp.Types.{Header, Packet}
use modbus_cpp.Errors.{ok, throw, undefined, out_of_range}
use modbus_cpp.Struc.BigEndian.{big_endian, big_endian-IsBigEndian}
use modbus_cpp.Adu
use modbus_cpp.Adu.{Adu, make_code_with_header, header_packet, decode_header}
use modbus_cpp.Adu.Wire.{decode_header-header_packet}
use modbus_cpp.Block.{ref_slice, validate_size, moved}
use modbus_cpp.Block.References.{Refers, ref_slice_lem}
use modbus_cpp.Utilities.{Text, uint16, unpack, packet_str}
use modbus_cpp.Utilities.Unpacking.{two, width, limit, wire, unpack_lem}
use modbus_cpp.Utilities.Printing.{joined, packet_str_lem}
use modbus_cpp.Logger.{initial, create_with}
use modbus_cpp.Logger.Printing.{Prints, here, next, creates_with, Reach-Prints}
use modbus_cpp.Examples.Plant.{levels, levels-IsValid}

abbrev three_bytes : Packet
three_bytes = 1 ∷ 44 ∷ 7 ∷ []

-- On a platform with sizes of eight bytes.
unpack_lem_example :
    (length three_bytes ≤ 1 → unpack 8 uint16 three_bytes 1 ≡ throw out_of_range)
    × (1 < length three_bytes
        → length three_bytes < 1 + width two
        → unpack 8 uint16 three_bytes 1 ≡ undefined)
    × ((n : ℕ) (rest : Packet)
        → n < limit two
        → drop 1 three_bytes ≡ wire two n ++ rest
        → unpack 8 uint16 three_bytes 1 ≡ ok n)
unpack_lem_example = unpack_lem 8 (omega arith) two three_bytes 1

-- The number that two of the bytes stand for, and the read past the last byte.
unpack-three_bytes : unpack 8 uint16 three_bytes 0 ≡ ok 300
unfolding unpack modbus_cpp.Utilities.network_to_host
unpack-three_bytes = refl

unpack-three_bytes_past : unpack 8 uint16 three_bytes 2 ≡ undefined
unfolding unpack
unpack-three_bytes_past = refl

-- One letter for each byte.
abbrev letter : ℕ → Text
letter b = (97 + b) ∷ []

packet_str_lem_example :
    packet_str letter (0 ∷ 1 ∷ []) ≡ b'[' ∷ joined (map letter (0 ∷ 1 ∷ [])) ++ b']' ∷ []
packet_str_lem_example = packet_str_lem letter (0 ∷ 1 ∷ [])

abbrev some_header : Header
some_header = record { transaction = 300; length = 6; unit = 1 }

abbrev blank : Adu
blank = Adu.make 0 0 0

decode_header-header_packet_example :
    decode_header big_endian
      (header_packet big_endian (make_code_with_header blank 3 some_header) ++ 5 ∷ [])
      blank
    ≡ (ok tt, make_code_with_header blank 3 some_header)
decode_header-header_packet_example =
    decode_header-header_packet big_endian big_endian-IsBigEndian blank blank 3 some_header (5 ∷ [])
      (omega arith) (omega arith) (omega arith) (omega arith)

ref_slice_lem_example : Refers levels 11 (2 ^ 64 - 1)
ref_slice_lem_example =
    ref_slice_lem levels 11 (2 ^ 64 - 1) levels-IsValid (omega arith) (omega arith) (omega arith)

-- From address 11 on, `SIZE_MAX` registers: the iterators stand at the cells 1 and 0.
ref_slice_wraps : ref_slice levels 11 (2 ^ 64 - 1) ≡ ok (1, 0)
unfolding ref_slice validate_size moved
ref_slice_wraps = refl

Reach-Prints_example : (p : ℕ) × (d : Bool) × Prints (b'a' ∷ []) (create_with 0 true initial) p d
Reach-Prints_example = Reach-Prints (b'a' ∷ []) (next here (creates_with initial 0 true))
