-- ===== src/BitWrite/MultipleCoils/Response.antt =====
-- `response::write_multiple_coils`, and `execute` of its request.
use modbus_cpp.Prelude.{ℕ, ◌+◌, not, ◌==◌, [], ◌∷◌, ◌++◌, length}
use modbus_cpp.Types.{Packet}
use modbus_cpp.Errors.{
  Result, ok, bad_data, illegal_data_value, illegal_data_address, or_throw,
  ◌>>=◌ as and_then_result,
}
use modbus_cpp.Actions.{
  Action, pure, lift, gets, modify, throw_if, try_catch, rethrow_all, rethrow_range, focus, ◌>>=◌,
  ◌>>◌,
}
use modbus_cpp.Struc.{Struc, Format, Args, short, unpack_at}
use modbus_cpp.Adu.{Adu, header_length, header, calc_length, header_packet}
use modbus_cpp.Block
use modbus_cpp.Response
use modbus_cpp.Response.{Response, Derived, bad_address, failure}
use modbus_cpp.Table.{Table, write_num_bits}
use modbus_cpp.Pointing.{Pointing, on_response, set_coils}
use modbus_cpp.BitWrite.MultipleCoils.Request
use modbus_cpp.BitWrite.MultipleCoils.Request.{WriteCoils}

pub record WriteCoilsResponse : Type 0 where
  pub base : Response
  pub request : WriteCoils
  pub address : ℕ
  pub count : ℕ

-- `write_multiple_coils(request, data_table)`; the defaults are those of `address_t` and
-- `write_num_bits_t`.
abbrev pub make : WriteCoils → WriteCoilsResponse
make request = record {
  base = Response.for_request request.adu.function request.adu;
  request = request;
  address = 0;
  count = 1;
}

abbrev pub data_length : ℕ
data_length = 4

-- The format "HH"
abbrev pub format : Format
format = short ∷ short ∷ []

abbrev pub with_base : Response → WriteCoilsResponse → WriteCoilsResponse
with_base b r = record r { base = b }

abbrev pub on_adu {ℓ} : {A : Type ℓ} → Action Adu A → Action WriteCoilsResponse A
on_adu m = focus (λ r. r.base) with_base (Response.on_adu m)

abbrev pub store : Args format → WriteCoilsResponse → WriteCoilsResponse
store (address, (count, _)) r = record r { address = address; count = count }

-- `request::write_multiple_coils::execute`
unfoldable pub execute : WriteCoils → Table → Result WriteCoilsResponse
execute r table =
    or_throw (not (Request.validate_count r)) (illegal_data_value r.adu.function (header r.adu)) (
      and_then_result (Block.validate_count write_num_bits table.coils r.address r.count) λ valid.
        or_throw (not valid) (illegal_data_address r.adu.function (header r.adu)) (ok (make r)))

module _ (s : Struc) where
  -- The `try` block of `encode`.
  abbrev pub encode_steps : Action (Pointing WriteCoilsResponse) Packet
  encode_steps = do
    on_response (on_adu (modify (calc_length data_length)))
    packet ← gets λ w.
        header_packet s w.0.base.adu ++ s.pack format (w.0.request.address, (w.0.request.count, tt))
    set_coils (λ w. Block.set_slice w.1.coils w.0.request.address w.0.request.values)
    pure packet

  unfoldable pub encode : Action (Pointing WriteCoilsResponse) Packet
  encode =
      try_catch encode_steps (rethrow_range (λ w. bad_address w.0.base) (λ w. failure w.0.base))

  unfoldable pub decode_passed : Packet → Action WriteCoilsResponse (Unit {0})
  decode_passed packet =
      try_catch
        (do
          throw_if (λ r. not (length packet == Request.response_size r.request)) (λ _. bad_data)
          a ← lift (unpack_at s format packet (header_length + 1))
          modify (store a)
          throw_if (λ r. not (r.request.address == r.address)) (λ _. bad_data)
          throw_if (λ r. not (r.request.count == r.count)) (λ _. bad_data))
        (rethrow_all λ _. bad_data)

  abbrev pub derived : Derived WriteCoilsResponse
  derived = record { base = λ r. r.base; set_base = with_base; decode_passed = decode_passed }
