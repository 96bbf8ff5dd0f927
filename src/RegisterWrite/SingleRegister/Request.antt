-- ===== src/RegisterWrite/SingleRegister/Request.antt =====
-- `request::write_single_register`
use modbus_cpp.Prelude.{ℕ, ◌+◌, not, ◌==◌, [], ◌∷◌, ◌++◌, get_elem?}
use modbus_cpp.Constants.FunctionCode as Code
use modbus_cpp.Types.{Packet, validate}
use modbus_cpp.Errors.{bad_data, server_device_failure, at_result}
use modbus_cpp.Actions.{
  Action, lift, gets, modify, throw_if, try_catch, rethrow_all, focus, ◌>>=◌, ◌>>◌,
}
use modbus_cpp.Struc.{Struc, Format, Args, short, unpack_at}
use modbus_cpp.Adu
use modbus_cpp.Adu.{
  Adu, header_length, header, calc_length, calc_adu_length, decode_header, header_packet,
}

pub record WriteRegister : Type 0 where
  pub adu : Adu
  pub address : ℕ
  pub value : ℕ

-- `write_single_register(address, value)`
abbrev pub make : ℕ → ℕ → WriteRegister
make address value = record {
  adu = Adu.make Code.write_single_register 0x00 0x00;
  address = address;
  value = value;
}

abbrev pub data_length : ℕ
data_length = 4

-- The format "HH"
abbrev pub format : Format
format = short ∷ short ∷ []

abbrev pub response_size : WriteRegister → ℕ
response_size r = calc_adu_length data_length

abbrev pub with_adu : Adu → WriteRegister → WriteRegister
with_adu a r = record r { adu = a }

abbrev pub on_adu {ℓ} : {A : Type ℓ} → Action Adu A → Action WriteRegister A
on_adu = focus (λ r. r.adu) with_adu

abbrev pub store : Args format → WriteRegister → WriteRegister
store (address, (value, _)) r = record r { address = address; value = value }

module _ (s : Struc) where
  unfoldable pub encode : Action WriteRegister Packet
  encode = do
    throw_if (λ r. not (validate r.address)) (λ _. bad_data)
    on_adu (modify (calc_length data_length))
    gets (λ r. header_packet s r.adu ++ s.pack format (r.address, (r.value, tt)))

  unfoldable pub decode : Packet → Action WriteRegister (Unit {0})
  decode packet =
      try_catch
        (do
          c ← lift (at_result (get_elem? packet header_length))
          throw_if (λ r. not (c == r.adu.function)) (λ _. bad_data)
          on_adu (decode_header s packet)
          a ← lift (unpack_at s format packet (header_length + 1))
          modify (store a))
        (rethrow_all λ r. server_device_failure r.adu.function (header r.adu))
