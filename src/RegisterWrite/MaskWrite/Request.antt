-- ===== src/RegisterWrite/MaskWrite/Request.antt =====
-- `request::mask_write_register`
use modbus_cpp.Prelude.{ℕ, ◌+◌, not, ◌==◌, [], ◌∷◌, ◌++◌, get_elem?}
use modbus_cpp.Constants.FunctionCode as Code
use modbus_cpp.Types.{Packet, validate}
use modbus_cpp.Errors.{bad_data, server_device_failure, at_result}
use modbus_cpp.Actions.{
  Action, lift, gets, modify, throw_if, try_catch, rethrow_all, focus, ◌>>=◌, ◌>>◌,
}
use modbus_cpp.Struc.{Struc, Format, Args, short, unpack_at}
use modbus_cpp.Adu
use modbus_cpp.Adu.{
  Adu, header_length, header, calc_length, calc_adu_length, decode_header, header_packet,
}

pub record MaskWrite : Type 0 where
  pub adu : Adu
  pub address : ℕ
  pub and_mask : ℕ
  pub or_mask : ℕ

-- `mask_write_register(address, and_mask, or_mask)`
abbrev pub make : ℕ → ℕ → ℕ → MaskWrite
make address and_mask or_mask = record {
  adu = Adu.make Code.mask_write_register 0x00 0x00;
  address = address;
  and_mask = and_mask;
  or_mask = or_mask;
}

abbrev pub data_length : ℕ
data_length = 6

-- The format "HHH"
abbrev pub format : Format
format = short ∷ short ∷ short ∷ []

abbrev pub response_size : MaskWrite → ℕ
response_size r = calc_adu_length data_length

abbrev pub with_adu : Adu → MaskWrite → MaskWrite
with_adu a r = record r { adu = a }

abbrev pub on_adu {ℓ} : {A : Type ℓ} → Action Adu A → Action MaskWrite A
on_adu = focus (λ r. r.adu) with_adu

abbrev pub store : Args format → MaskWrite → MaskWrite
store (address, (and_mask, (or_mask, _))) r = record r {
  address = address;
  and_mask = and_mask;
  or_mask = or_mask;
}

module _ (s : Struc) where
  unfoldable pub encode : Action MaskWrite Packet
  encode = do
    throw_if (λ r. not (validate r.address)) (λ _. bad_data)
    on_adu (modify (calc_length data_length))
    gets (λ r. header_packet s r.adu ++ s.pack format (r.address, (r.and_mask, (r.or_mask, tt))))

  unfoldable pub decode : Packet → Action MaskWrite (Unit {0})
  decode packet =
      try_catch
        (do
          c ← lift (at_result (get_elem? packet header_length))
          throw_if (λ r. not (c == r.adu.function)) (λ _. bad_data)
          on_adu (decode_header s packet)
          a ← lift (unpack_at s format packet (header_length + 1))
          modify (store a))
        (rethrow_all λ r. server_device_failure r.adu.function (header r.adu))
