-- ===== src/BitWrite/MultipleCoils/Request.antt =====
-- `request::write_multiple_coils`
use modbus_cpp.Prelude.{
  ℕ, ◌+◌, ◌/◌, ◌%◌, Bool, false, ◌||◌, not, ◌==◌, u8, u16, if◌then◌else◌, List, [], ◌∷◌, ◌++◌,
  length, get_elem?, drop, resize,
}
use modbus_cpp.Constants.FunctionCode as Code
use modbus_cpp.Types.{Packet, validate}
use modbus_cpp.Errors.{bad_data, server_device_failure, at_result}
use modbus_cpp.Operation.{pack_bits, unpack_bits}
use modbus_cpp.Actions.{
  Action, lift, gets, modify, throw_if, try_catch, rethrow_all, focus, ◌>>=◌, ◌>>◌,
}
use modbus_cpp.Struc.{Struc, Format, Args, short, byte, unpack_at}
use modbus_cpp.Adu
use modbus_cpp.Adu.{
  Adu, header_length, header, calc_length, calc_adu_length, decode_header, header_packet,
}

-- `byte_count` is the field `byte_count_`, and `calc_byte_count` the method `byte_count()`.
pub record WriteCoils : Type 0 where
  pub adu : Adu
  pub address : ℕ
  pub count : ℕ
  pub values : List Bool
  pub byte_count : ℕ

-- `byte_count()`: the count is cut to eight bits before the division.
abbrev pub calc_byte_count : ℕ → ℕ
calc_byte_count count =
    let bytes : ℕ = u8 count / 8 in
    let remainder : ℕ = u8 count % 8 in if not (remainder == 0) then u8 (bytes + 1) else bytes

-- `write_multiple_coils(address, count, values)`
abbrev pub make : ℕ → ℕ → List Bool → WriteCoils
make address count values = record {
  adu = Adu.make Code.write_multiple_coils 0x00 0x00;
  address = address;
  count = count;
  values = values;
  byte_count = calc_byte_count count;
}

abbrev pub data_length : WriteCoils → ℕ
data_length r = u16 (4 + 1 + r.byte_count)

-- The format "HHB"
abbrev pub format : Format
format = short ∷ short ∷ byte ∷ []

abbrev pub response_size : WriteCoils → ℕ
response_size r = calc_adu_length 4

-- `count_.validate()`, the inherited member.
abbrev pub validate_count : WriteCoils → Bool
validate_count r = validate r.count

abbrev pub with_adu : Adu → WriteCoils → WriteCoils
with_adu a r = record r { adu = a }

abbrev pub on_adu {ℓ} : {A : Type ℓ} → Action Adu A → Action WriteCoils A
on_adu = focus (λ r. r.adu) with_adu

abbrev pub store : Args format → WriteCoils → WriteCoils
store (address, (count, (byte_count, _))) r = record r {
  address = address;
  count = count;
  byte_count = byte_count;
}

abbrev pub values_idx : ℕ
values_idx = header_length + 1 + 5

-- `values_ = op::unpack_bits(…)` and `values_.resize(count_())`
abbrev pub store_values : List Bool → WriteCoils → WriteCoils
store_values values r = record r { values = resize r.count false values }

module _ (s : Struc) where
  unfoldable pub encode : Action WriteCoils Packet
  encode = do
    throw_if (λ r. not (validate r.address) || not (validate_count r)) (λ _. bad_data)
    r ← gets (λ r. r)
    on_adu (modify (calc_length (data_length r)))
    packet ← gets λ r'.
        header_packet s r'.adu
        ++ s.pack format (r'.address, (r'.count, (calc_byte_count r'.count, tt)))
        ++ pack_bits r'.values
    throw_if (λ r'. not (length packet == data_length r' + header_length + 1)) (λ _. bad_data)
    gets (λ _. packet)

  unfoldable pub decode : Packet → Action WriteCoils (Unit {0})
  decode packet =
      try_catch
        (do
          c ← lift (at_result (get_elem? packet header_length))
          throw_if (λ r. not (c == r.adu.function)) (λ _. bad_data)
          on_adu (decode_header s packet)
          a ← lift (unpack_at s format packet (header_length + 1))
          modify (store a)
          modify (store_values (unpack_bits (drop values_idx packet))))
        (rethrow_all λ r. server_device_failure r.adu.function (header r.adu))
