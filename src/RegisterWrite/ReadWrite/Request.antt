-- ===== src/RegisterWrite/ReadWrite/Request.antt =====
-- `request::read_write_multiple_registers`
use modbus_cpp.Prelude.{
  ℕ, ◌+◌, ◌*◌, Bool, ◌||◌, not, ◌==◌, u8, u16, List, [], ◌∷◌, ◌++◌, length, get_elem?, resize,
}
use modbus_cpp.Constants.FunctionCode as Code
use modbus_cpp.Types.{Packet, validate}
use modbus_cpp.Errors.{bad_data, server_device_failure, at_result}
use modbus_cpp.Registers.{pack_registers, unpack_registers, rounds}
use modbus_cpp.Actions.{
  Action, lift, read, gets, modify, throw_if, try_catch, rethrow_all, focus, ◌>>=◌, ◌>>◌,
}
use modbus_cpp.Struc.{Struc, Format, Args, short, byte, unpack_at}
use modbus_cpp.Adu
use modbus_cpp.Adu.{
  Adu, header_length, header, calc_length, calc_adu_length, decode_header, header_packet,
}

pub record ReadWrite : Type 0 where
  pub adu : Adu
  pub read_address : ℕ
  pub read_count : ℕ
  pub write_address : ℕ
  pub write_count : ℕ
  pub values : List ℕ

-- `read_write_multiple_registers(read_address, read_count, write_address, write_count, values)`
abbrev pub make : ℕ → ℕ → ℕ → ℕ → List ℕ → ReadWrite
make read_address read_count write_address write_count values = record {
  adu = Adu.make Code.read_write_multiple_registers 0x00 0x00;
  read_address = read_address;
  read_count = read_count;
  write_address = write_address;
  write_count = write_count;
  values = values;
}

abbrev pub byte_count : ReadWrite → ℕ
byte_count r = u8 (r.write_count * 2)

abbrev pub data_length : ReadWrite → ℕ
data_length r = u16 (2 + 2 + 2 + 2 + 1 + byte_count r)

-- The format "HHHHB"
abbrev pub format : Format
format = short ∷ short ∷ short ∷ short ∷ byte ∷ []

abbrev pub response_size : ReadWrite → ℕ
response_size r = calc_adu_length (1 + u8 (r.read_count * 2))

-- `read_count_.validate()` and `write_count_.validate()`, the inherited member.
abbrev pub validate_counts : ReadWrite → Bool
validate_counts r = not (not (validate r.read_count) || not (validate r.write_count))

abbrev pub validate_addresses : ReadWrite → Bool
validate_addresses r = not (not (validate r.read_address) || not (validate r.write_address))

abbrev pub with_adu : Adu → ReadWrite → ReadWrite
with_adu a r = record r { adu = a }

abbrev pub on_adu {ℓ} : {A : Type ℓ} → Action Adu A → Action ReadWrite A
on_adu = focus (λ r. r.adu) with_adu

abbrev pub store : Args format → ReadWrite → ReadWrite
store (read_address, (read_count, (write_address, (write_count, _)))) r = record r {
  read_address = read_address;
  read_count = read_count;
  write_address = write_address;
  write_count = write_count;
}

-- `buffer.resize(write_count_())` and `values_.swap(buffer)`
abbrev pub store_values : List ℕ → ReadWrite → ReadWrite
store_values buffer r = record r { values = resize r.write_count 0 buffer }

abbrev pub values_idx : ℕ
values_idx = header_length + 1 + 9

module _ (s : Struc) where
  unfoldable pub encode : Action ReadWrite Packet
  encode = do
    throw_if (λ r. not (validate_addresses r) || not (validate_counts r)) (λ _. bad_data)
    r ← gets (λ r. r)
    on_adu (modify (calc_length (data_length r)))
    packet ← gets λ r'.
        header_packet s r'.adu
        ++ s.pack format (
          r'.read_address,
          (r'.read_count, (r'.write_address, (r'.write_count, (byte_count r', tt)))),
        )
        ++ pack_registers s r'.values
    throw_if (λ r'. not (length packet == data_length r' + header_length + 1)) (λ _. bad_data)
    gets (λ _. packet)

  unfoldable pub decode : Packet → Action ReadWrite (Unit {0})
  decode packet =
      try_catch
        (do
          c ← lift (at_result (get_elem? packet header_length))
          throw_if (λ r. not (c == r.adu.function)) (λ _. bad_data)
          on_adu (decode_header s packet)
          a ← lift (unpack_at s format packet (header_length + 1))
          modify (store a)
          throw_if (λ r. not (byte_count r == a.1.1.1.1.0)) (λ _. bad_data)
          buffer ← read (λ r. unpack_registers s packet values_idx (rounds (byte_count r)))
          modify (store_values buffer))
        (rethrow_all λ r. server_device_failure r.adu.function (header r.adu))
