-- ===== src/Operation.antt =====
-- source/operation.cpp: coils packed into bytes, lowest bit first.
pub mod Packing
use modbus_cpp.Prelude.{
  ℕ, zero, suc, ◌+◌, ◌*◌, ◌/◌, ◌%◌, ◌^◌, Bool, true, false, not, ◌==◌, if◌then◌else◌, List, [], ◌∷◌,
  ◌++◌, bit_or, bit_and, u8,
}
use modbus_cpp.Types.{Packet}

-- `static_cast<char>(*ptr)`
abbrev pub bit_value : Bool → ℕ
bit_value true = 1
bit_value false = 0

-- `one_byte |= static_cast<char>(*ptr) << shift`, kept to a `char`.
abbrev pub or_shifted : ℕ → Bool → ℕ → ℕ
or_shifted one_byte bit shift = u8 (bit_or one_byte (bit_value bit * 2 ^ shift))

-- The loop over the bits that are left, and the last byte if it is begun.
unfoldable pub pack_loop : List Bool → ℕ → ℕ → Packet → Packet
pack_loop [] shift one_byte packet = if not (shift == 0) then packet ++ one_byte ∷ [] else packet
pack_loop (b ∷ bits) shift one_byte packet =
    let full = pack_loop bits 0 0 (packet ++ or_shifted one_byte b shift ∷ []) in
    let more = pack_loop bits (shift + 1) (or_shifted one_byte b shift) packet in
    if shift == 7 then full else more

unfoldable pub pack_bits : List Bool → Packet
unfolding pack_loop
pack_bits bits = pack_loop bits 0 0 []

-- `static_cast<bool>(*ptr & bit)` for `bit = 1 << k`, `n` values of `k` still to go.
unfoldable pub unpack_byte : ℕ → ℕ → ℕ → List Bool
unpack_byte zero k b = []
unpack_byte (suc n) k b = not (bit_and b (2 ^ k) == 0) ∷ unpack_byte n (k + 1) b

unfoldable pub unpack_bits : Packet → List Bool
unfolding unpack_byte
unpack_bits [] = []
unpack_bits (b ∷ packet) = unpack_byte 8 0 b ++ unpack_bits packet
