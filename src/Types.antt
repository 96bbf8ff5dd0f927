-- ===== src/Types.antt =====
-- include/modbuscpp/modbuscpp/types.hpp: the header, packets and the numbers with a range.
-- A `base_metadata_t<std::uint16_t>` is its `value_`, a number below 65536.
pub mod Numbers
use modbus_cpp.Prelude.{ℕ, ◌+◌, ◌-◌, ◌<◌, Bool, ltb, leb, ◌&&◌, if◌then◌else◌, u16, List}
use modbus_cpp.Constants.{
  max_address, max_num_bits_read, max_num_bits_write, max_num_regs_read, max_num_regs_write,
}

-- `header_t`
pub record Header : Type 0 where
  pub transaction : ℕ
  pub length : ℕ
  pub unit : ℕ

-- `packet_t`: a `std::vector<char>`, by the bytes that its characters stand for.
abbrev pub Packet : Type 0
Packet = List ℕ

abbrev pub IsByte : ℕ → Type 0
IsByte b = b < 256

abbrev pub IsU16 : ℕ → Type 0
IsU16 n = n < 65536

-- `base_metadata_t::validate(value)`. The member `validate()`, which every derived class inherits,
-- calls this one, also on a `num_bits_t` or a `num_regs_t`.
abbrev pub validate : ℕ → Bool
validate value = leb 0 value && leb value max_address

-- `base_metadata_t::operator-`
abbrev pub metadata_sub : ℕ → ℕ → ℕ
metadata_sub a b = u16 (a + 65536 - b)

-- The static `num_bits_t<write>::validate(value)`.
abbrev pub num_bits_validate : Bool → ℕ → Bool
num_bits_validate write value =
    ltb 0 value && leb value (if write then max_num_bits_write else max_num_bits_read)

-- The static `num_regs_t<write>::validate(value)`.
abbrev pub num_regs_validate : Bool → ℕ → Bool
num_regs_validate write value =
    ltb 0 value && leb value (if write then max_num_regs_write else max_num_regs_read)

-- `static_cast<std::uint16_t>` of a `char`, whose sign is the platform's.
abbrev pub char_to_u16 : Bool → ℕ → ℕ
char_to_u16 char_signed c = if char_signed && leb 128 c then c + 65280 else c
