-- ===== src/RegisterWrite/MaskWrite/Response.antt =====
-- `response::mask_write_register`, and `execute` of its request.
use modbus_cpp.Prelude.{ℕ, ◌+◌, ◌||◌, not, ◌==◌, [], ◌∷◌, ◌++◌, length, bit_and, bit_or, u16}
use modbus_cpp.Types.{Packet, validate}
use modbus_cpp.Errors.{
  Result, ok, bad_data, illegal_data_value, illegal_data_address, or_throw,
  ◌>>=◌ as and_then_result,
}
use modbus_cpp.Actions.{
  Action, pure, lift, read, gets, modify, throw_if, try_catch, rethrow_all, rethrow_range, focus,
  ◌>>=◌, ◌>>◌,
}
use modbus_cpp.Struc.{Struc, Format, short, unpack_at}
use modbus_cpp.Adu.{Adu, header_length, header, calc_length, header_packet}
use modbus_cpp.Block
use modbus_cpp.Request.{check_response_packet}
use modbus_cpp.Response
use modbus_cpp.Response.{Response, Derived, bad_address, failure}
use modbus_cpp.Table.{Table}
use modbus_cpp.Pointing.{Pointing, on_response, set_holding_registers}
use modbus_cpp.RegisterWrite.MaskWrite.Request
use modbus_cpp.RegisterWrite.MaskWrite.Request.{MaskWrite}

pub record MaskWriteResponse : Type 0 where
  pub base : Response
  pub request : MaskWrite
  pub address : ℕ
  pub and_mask : ℕ
  pub or_mask : ℕ

-- `mask_write_register(request, data_table)`
abbrev pub make : MaskWrite → MaskWriteResponse
make request = record {
  base = Response.for_request request.adu.function request.adu;
  request = request;
  address = 0;
  and_mask = 0;
  or_mask = 0;
}

abbrev pub data_length : ℕ
data_length = 6

-- The format "HHH"
abbrev pub format : Format
format = short ∷ short ∷ short ∷ []

abbrev pub with_base : Response → MaskWriteResponse → MaskWriteResponse
with_base b r = record r { base = b }

abbrev pub on_adu {ℓ} : {A : Type ℓ} → Action Adu A → Action MaskWriteResponse A
on_adu m = focus (λ r. r.base) with_base (Response.on_adu m)

-- The copies of the request's address and masks.
abbrev pub copy_request : MaskWriteResponse → MaskWriteResponse
copy_request r = record r {
  address = r.request.address;
  and_mask = r.request.and_mask;
  or_mask = r.request.or_mask;
}

-- `(current_value & and_mask) | or_mask`, as a `std::uint16_t`
abbrev pub masked : ℕ → MaskWrite → ℕ
masked current_value r = u16 (bit_or (bit_and current_value r.and_mask) r.or_mask)

-- `request::mask_write_register::execute`
unfoldable pub execute : MaskWrite → Table → Result MaskWriteResponse
execute r table =
    or_throw (not (validate r.and_mask) || not (validate r.or_mask))
      (illegal_data_value r.adu.function (header r.adu))
      (and_then_result (Block.validate table.holding_registers r.address) λ valid.
        or_throw (not valid) (illegal_data_address r.adu.function (header r.adu)) (ok (make r)))

module _ (s : Struc) where
  -- The `try` block of `encode`.
  abbrev pub encode_steps : Action (Pointing MaskWriteResponse) Packet
  encode_steps = do
    on_response (on_adu (modify (calc_length data_length)))
    packet ← gets λ w.
        header_packet s w.0.base.adu
        ++ s.pack format (w.0.request.address, (w.0.request.and_mask, (w.0.request.or_mask, tt)))
    throw_if (λ w. not (check_response_packet (Request.response_size w.0.request) packet))
        (λ w. failure w.0.base)
    current_value ← read (λ w. Block.get w.1.holding_registers w.0.request.address)
    set_holding_registers λ w.
        Block.set_value w.1.holding_registers w.0.request.address (masked current_value w.0.request)
    on_response (modify copy_request)
    pure packet

  unfoldable pub encode : Action (Pointing MaskWriteResponse) Packet
  encode =
      try_catch encode_steps (rethrow_range (λ w. bad_address w.0.base) (λ w. failure w.0.base))

  unfoldable pub decode_passed : Packet → Action MaskWriteResponse (Unit {0})
  decode_passed packet =
      try_catch
        (do
          throw_if (λ r. not (length packet == Request.response_size r.request)) (λ _. bad_data)
          a ← lift (unpack_at s format packet (header_length + 1))
          throw_if (λ r. not (r.request.address == a.0)) (λ _. bad_data)
          throw_if (λ r. not (r.request.and_mask == a.1.0)) (λ _. bad_data)
          throw_if (λ r. not (r.request.or_mask == a.1.1.0)) (λ _. bad_data)
          modify copy_request)
        (rethrow_all λ _. bad_data)

  abbrev pub derived : Derived MaskWriteResponse
  derived = record { base = λ r. r.base; set_base = with_base; decode_passed = decode_passed }
