-- ===== src/BitWrite/SingleCoil/Response.antt =====
-- `response::write_single_coil`, and `execute` of its request.
use modbus_cpp.Prelude.{ℕ, ◌+◌, not, ◌&&◌, ◌==◌, if◌then◌else◌, [], ◌∷◌, ◌++◌, length}
use modbus_cpp.Constants.{bits_on, bits_off, check_bits_value}
use modbus_cpp.Types.{Packet}
use modbus_cpp.Errors.{
  Result, ok, bad_data, illegal_data_value, illegal_data_address, or_throw,
  ◌>>=◌ as and_then_result,
}
use modbus_cpp.Actions.{
  Action, pure, lift, read, gets, modify, throw_if, try_catch, rethrow_all, rethrow_range, focus,
  ◌>>=◌, ◌>>◌,
}
use modbus_cpp.Struc.{Struc, Format, short, unpack_at}
use modbus_cpp.Adu.{Adu, header_length, header, calc_length, header_packet}
use modbus_cpp.Block
use modbus_cpp.Request.{check_response_packet}
use modbus_cpp.Response
use modbus_cpp.Response.{Response, Derived, bad_address, failure}
use modbus_cpp.Table.{Table}
use modbus_cpp.Pointing.{Pointing, on_response, set_coils}
use modbus_cpp.BitWrite.SingleCoil.Request
use modbus_cpp.BitWrite.SingleCoil.Request.{WriteCoil}

-- `value_` has no value before the first method that reads it has set it; 0 stands for that.
pub record WriteCoilResponse : Type 0 where
  pub base : Response
  pub request : WriteCoil
  pub value : ℕ

-- `write_single_coil(request, data_table)`
abbrev pub make : WriteCoil → WriteCoilResponse
make request = record {
  base = Response.for_request request.adu.function request.adu;
  request = request;
  value = 0;
}

abbrev pub data_length : ℕ
data_length = 4

-- The format "HH"
abbrev pub format : Format
format = short ∷ short ∷ []

abbrev pub with_base : Response → WriteCoilResponse → WriteCoilResponse
with_base b r = record r { base = b }

abbrev pub on_adu {ℓ} : {A : Type ℓ} → Action Adu A → Action WriteCoilResponse A
on_adu m = focus (λ r. r.base) with_base (Response.on_adu m)

abbrev pub store_value : ℕ → WriteCoilResponse → WriteCoilResponse
store_value value r = record r { value = value }

-- `request::write_single_coil::execute`
unfoldable pub execute : WriteCoil → Table → Result WriteCoilResponse
execute r table =
    or_throw (not (check_bits_value r.value)) (illegal_data_value r.adu.function (header r.adu)) (
      and_then_result (Block.validate table.coils r.address) λ valid.
        or_throw (not valid) (illegal_data_address r.adu.function (header r.adu)) (ok (make r)))

module _ (s : Struc) where
  -- The `try` block of `encode`.
  abbrev pub encode_steps : Action (Pointing WriteCoilResponse) Packet
  encode_steps = do
    value ← read (λ w. Block.get w.1.coils w.0.request.address)
    on_response (modify (store_value (if value then bits_on else bits_off)))
    on_response (on_adu (modify (calc_length data_length)))
    packet ←
        gets
          λ w. header_packet s w.0.base.adu ++ s.pack format (w.0.request.address, (w.0.value, tt))
    throw_if (λ w. not (check_response_packet (Request.response_size w.0.request) packet))
        (λ w. failure w.0.base)
    set_coils (λ w. Block.set_value w.1.coils w.0.request.address (w.0.request.value == bits_on))
    pure packet

  unfoldable pub encode : Action (Pointing WriteCoilResponse) Packet
  encode =
      try_catch encode_steps (rethrow_range (λ w. bad_address w.0.base) (λ w. failure w.0.base))

  unfoldable pub decode_passed : Packet → Action WriteCoilResponse (Unit {0})
  decode_passed packet =
      try_catch
        (do
          throw_if (λ r. not (length packet == Request.response_size r.request)) (λ _. bad_data)
          a ← lift (unpack_at s format packet (header_length + 1))
          throw_if (λ r. not (r.request.address == a.0)) (λ _. bad_data)
          throw_if (λ r. not (r.request.value == a.1.0) && check_bits_value a.1.0) (λ _. bad_data)
          modify (store_value a.1.0))
        (rethrow_all λ _. bad_data)

  abbrev pub derived : Derived WriteCoilResponse
  derived = record { base = λ r. r.base; set_base = with_base; decode_passed = decode_passed }
