-- ===== src/BitWrite/SingleCoil/Request.antt =====
-- `request::write_single_coil`
use modbus_cpp.Prelude.{ℕ, ◌+◌, not, ◌==◌, [], ◌∷◌, ◌++◌, get_elem?}
use modbus_cpp.Constants.{check_bits_value}
use modbus_cpp.Constants.FunctionCode as Code
use modbus_cpp.Types.{Packet, validate}
use modbus_cpp.Errors.{bad_data, server_device_failure, at_result}
use modbus_cpp.Actions.{
  Action, lift, gets, modify, throw_if, try_catch, rethrow_all, focus, ◌>>=◌, ◌>>◌,
}
use modbus_cpp.Struc.{Struc, Format, short, unpack_at}
use modbus_cpp.Adu
use modbus_cpp.Adu.{
  Adu, header_length, header, calc_length, calc_adu_length, decode_header, header_packet,
}

pub record WriteCoil : Type 0 where
  pub adu : Adu
  pub address : ℕ
  pub value : ℕ

-- `write_single_coil(address, value)`
abbrev pub make : ℕ → ℕ → WriteCoil
make address value = record {
  adu = Adu.make Code.write_single_coil 0x00 0x00;
  address = address;
  value = value;
}

abbrev pub data_length : ℕ
data_length = 4

-- The format "HH"
abbrev pub format : Format
format = short ∷ short ∷ []

abbrev pub response_size : WriteCoil → ℕ
response_size r = calc_adu_length data_length

abbrev pub with_adu : Adu → WriteCoil → WriteCoil
with_adu a r = record r { adu = a }

abbrev pub on_adu {ℓ} : {A : Type ℓ} → Action Adu A → Action WriteCoil A
on_adu = focus (λ r. r.adu) with_adu

-- `address_.ref()` is written before the value is checked.
abbrev pub store_address : ℕ → WriteCoil → WriteCoil
store_address address r = record r { address = address }

abbrev pub store_value : ℕ → WriteCoil → WriteCoil
store_value value r = record r { value = value }

module _ (s : Struc) where
  unfoldable pub encode : Action WriteCoil Packet
  encode = do
    throw_if (λ r. not (validate r.address)) (λ _. bad_data)
    on_adu (modify (calc_length data_length))
    gets (λ r. header_packet s r.adu ++ s.pack format (r.address, (r.value, tt)))

  unfoldable pub decode : Packet → Action WriteCoil (Unit {0})
  decode packet =
      try_catch
        (do
          c ← lift (at_result (get_elem? packet header_length))
          throw_if (λ r. not (c == r.adu.function)) (λ _. bad_data)
          on_adu (decode_header s packet)
          a ← lift (unpack_at s format packet (header_length + 1))
          modify (store_address a.0)
          throw_if (λ _. not (check_bits_value a.1.0)) (λ _. bad_data)
          modify (store_value a.1.0))
        (rethrow_all λ r. server_device_failure r.adu.function (header r.adu))
