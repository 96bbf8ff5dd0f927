-- ===== src/Utilities.antt =====
-- include/modbuscpp/modbuscpp/utilities.hpp: numbers read from a packet, and a packet as text.
pub mod Unpacking
pub mod Printing
use modbus_cpp.Prelude.{
  ℕ, ◌+◌, ◌*◌, ◌/◌, leb, ltb, if◌then◌else◌, List, [], ◌∷◌, ◌++◌, length, get_elem?, drop,
  take_exact,
}
use modbus_cpp.Types.{Packet}
use modbus_cpp.Errors.{Result, ok, throw, out_of_range, index_result, ◌>>=◌}

-- `std::string`, by its character codes.
abbrev pub Text : Type 0
Text = List ℕ

-- The type argument of `unpack`: the packet's own `char`, or another integral type.
pub data Integral : Type 0 where
  value_type : Integral
  uint16 : Integral
  uint32 : Integral
  other : Integral

-- `ntohs` and `ntohl`, the conversions of the system library, of the bytes as they lie in memory: the
-- first is the highest.
unfoldable pub network_to_host : ℕ → List ℕ → ℕ
network_to_host high [] = high
network_to_host high (b ∷ bytes) = network_to_host (high * 256 + b) bytes

-- `*(T*)(packet.data() + start_index)`, for a type of `width` bytes.
abbrev pub load : ℕ → Packet → ℕ → Result (List ℕ)
load width packet start_index = index_result (take_exact width (drop start_index packet))

-- The test and the read for a type of `width` bytes. The test divides by `sizeof(packet_t::size_type)`,
-- here `size_of_size`, and not by the size of a `char`.
unfoldable pub unpack_wide : ℕ → ℕ → Packet → ℕ → Result ℕ
unpack_wide size_of_size width packet start_index =
    if leb (length packet) (start_index + width / size_of_size)
    then throw out_of_range
    else (do bytes ← load width packet start_index; ok (network_to_host 0 bytes))

-- `unpack<T>(packet, start_index)`
unfoldable pub unpack : ℕ → Integral → Packet → ℕ → Result ℕ
unfolding unpack_wide
unpack size_of_size value_type packet start_index = index_result (get_elem? packet start_index)
unpack size_of_size uint16 packet start_index = unpack_wide size_of_size 2 packet start_index
unpack size_of_size uint32 packet start_index = unpack_wide size_of_size 4 packet start_index
unpack size_of_size other packet start_index = ok 0

-- The loop of `packet_str`; `hex` is the library fmt's `{:#04x}` of a `std::uint8_t`.
module _ (hex : ℕ → Text) where
  unfoldable pub packet_str_loop : ℕ → ℕ → Text → Packet → Text
  packet_str_loop size index s [] = s
  packet_str_loop size index s (byte ∷ packet) =
      let index' = index + 1 in
      packet_str_loop size index'
        (s ++ (if ltb index' size then hex byte ++ b' ' ∷ [] else hex byte)) packet

  unfoldable pub packet_str : Packet → Text
  unfolding packet_str_loop
  packet_str packet = packet_str_loop (length packet) 0 (b'[' ∷ []) packet ++ b']' ∷ []
