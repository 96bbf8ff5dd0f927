-- ===== src/RegisterWrite/MultipleRegisters/Request.antt =====
-- `request::write_multiple_registers`
use modbus_cpp.Prelude.{
  ℕ, ◌+◌, ◌*◌, Bool, ◌||◌, not, ◌==◌, u8, u16, List, [], ◌∷◌, ◌++◌, length, get_elem?, resize,
}
use modbus_cpp.Constants.FunctionCode as Code
use modbus_cpp.Types.{Packet, validate}
use modbus_cpp.Errors.{bad_data, server_device_failure, at_result}
use modbus_cpp.Registers.{pack_registers, unpack_registers, rounds}
use modbus_cpp.Actions.{
  Action, lift, read, gets, modify, throw_if, try_catch, rethrow_all, focus, ◌>>=◌, ◌>>◌,
}
use modbus_cpp.Struc.{Struc, Format, Args, short, byte, unpack_at}
use modbus_cpp.Adu
use modbus_cpp.Adu.{
  Adu, header_length, header, calc_length, calc_adu_length, decode_header, header_packet,
}

pub record WriteRegisters : Type 0 where
  pub adu : Adu
  pub address : ℕ
  pub count : ℕ
  pub values : List ℕ

-- `write_multiple_registers(address, count, values)`
abbrev pub make : ℕ → ℕ → List ℕ → WriteRegisters
make address count values = record {
  adu = Adu.make Code.write_multiple_registers 0x00 0x00;
  address = address;
  count = count;
  values = values;
}

abbrev pub byte_count : WriteRegisters → ℕ
byte_count r = u8 (r.count * 2)

abbrev pub data_length : WriteRegisters → ℕ
data_length r = u16 (4 + 1 + byte_count r)

-- The format "HHB"
abbrev pub format : Format
format = short ∷ short ∷ byte ∷ []

abbrev pub response_size : WriteRegisters → ℕ
response_size r = calc_adu_length 4

-- `count_.validate()`, the inherited member.
abbrev pub validate_count : WriteRegisters → Bool
validate_count r = validate r.count

abbrev pub with_adu : Adu → WriteRegisters → WriteRegisters
with_adu a r = record r { adu = a }

abbrev pub on_adu {ℓ} : {A : Type ℓ} → Action Adu A → Action WriteRegisters A
on_adu = focus (λ r. r.adu) with_adu

abbrev pub store : Args format → WriteRegisters → WriteRegisters
store (address, (count, _)) r = record r { address = address; count = count }

-- `buffer.resize(count_())` and `values_.swap(buffer)`
abbrev pub store_values : List ℕ → WriteRegisters → WriteRegisters
store_values buffer r = record r { values = resize r.count 0 buffer }

abbrev pub values_idx : ℕ
values_idx = header_length + 1 + 5

module _ (s : Struc) where
  unfoldable pub encode : Action WriteRegisters Packet
  encode = do
    throw_if (λ r. not (validate r.address) || not (validate_count r)) (λ _. bad_data)
    r ← gets (λ r. r)
    on_adu (modify (calc_length (data_length r)))
    packet ← gets λ r'.
        header_packet s r'.adu
        ++ s.pack format (r'.address, (r'.count, (byte_count r', tt)))
        ++ pack_registers s r'.values
    throw_if (λ r'. not (length packet == data_length r' + header_length + 1)) (λ _. bad_data)
    gets (λ _. packet)

  unfoldable pub decode : Packet → Action WriteRegisters (Unit {0})
  decode packet =
      try_catch
        (do
          c ← lift (at_result (get_elem? packet header_length))
          throw_if (λ r. not (c == r.adu.function)) (λ _. bad_data)
          on_adu (decode_header s packet)
          a ← lift (unpack_at s format packet (header_length + 1))
          modify (store a)
          throw_if (λ r. not (byte_count r == a.1.1.0)) (λ _. bad_data)
          buffer ← read (λ r. unpack_registers s packet values_idx (rounds (byte_count r)))
          modify (store_values buffer))
        (rethrow_all λ r. server_device_failure r.adu.function (header r.adu))
