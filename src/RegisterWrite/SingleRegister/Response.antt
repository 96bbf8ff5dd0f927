-- ===== src/RegisterWrite/SingleRegister/Response.antt =====
-- `response::write_single_register`, and `execute` of its request.
use modbus_cpp.Prelude.{ℕ, ◌+◌, not, ◌==◌, [], ◌∷◌, ◌++◌, length}
use modbus_cpp.Types.{Packet, validate}
use modbus_cpp.Errors.{
  Result, ok, bad_data, illegal_data_value, illegal_data_address, or_throw,
  ◌>>=◌ as and_then_result,
}
use modbus_cpp.Actions.{
  Action, pure, lift, gets, modify, throw_if, try_catch, rethrow_all, rethrow_range, focus, ◌>>=◌,
  ◌>>◌,
}
use modbus_cpp.Struc.{Struc, Format, short, unpack_at}
use modbus_cpp.Adu.{Adu, header_length, header, calc_length, header_packet}
use modbus_cpp.Block
use modbus_cpp.Request.{check_response_packet}
use modbus_cpp.Response
use modbus_cpp.Response.{Response, Derived, bad_address, failure}
use modbus_cpp.Table.{Table}
use modbus_cpp.Pointing.{Pointing, on_response, set_holding_registers}
use modbus_cpp.RegisterWrite.SingleRegister.Request
use modbus_cpp.RegisterWrite.SingleRegister.Request.{WriteRegister}

pub record WriteRegisterResponse : Type 0 where
  pub base : Response
  pub request : WriteRegister
  pub address : ℕ
  pub value : ℕ

-- `write_single_register(request, data_table)`
abbrev pub make : WriteRegister → WriteRegisterResponse
make request = record {
  base = Response.for_request request.adu.function request.adu;
  request = request;
  address = 0;
  value = 0;
}

abbrev pub data_length : ℕ
data_length = 4

-- The format "HH"
abbrev pub format : Format
format = short ∷ short ∷ []

abbrev pub with_base : Response → WriteRegisterResponse → WriteRegisterResponse
with_base b r = record r { base = b }

abbrev pub on_adu {ℓ} : {A : Type ℓ} → Action Adu A → Action WriteRegisterResponse A
on_adu m = focus (λ r. r.base) with_base (Response.on_adu m)

-- `address_ = request_->address(); value_ = request_->value();`
abbrev pub copy_request : WriteRegisterResponse → WriteRegisterResponse
copy_request r = record r { address = r.request.address; value = r.request.value }

-- `request::write_single_register::execute`
unfoldable pub execute : WriteRegister → Table → Result WriteRegisterResponse
execute r table =
    or_throw (not (validate r.value)) (illegal_data_value r.adu.function (header r.adu)) (
      and_then_result (Block.validate table.holding_registers r.address) λ valid.
        or_throw (not valid) (illegal_data_address r.adu.function (header r.adu)) (ok (make r)))

module _ (s : Struc) where
  -- The `try` block of `encode`.
  abbrev pub encode_steps : Action (Pointing WriteRegisterResponse) Packet
  encode_steps = do
    on_response (on_adu (modify (calc_length data_length)))
    packet ← gets λ w.
        header_packet s w.0.base.adu ++ s.pack format (w.0.request.address, (w.0.request.value, tt))
    throw_if (λ w. not (check_response_packet (Request.response_size w.0.request) packet))
        (λ w. failure w.0.base)
    set_holding_registers
        (λ w. Block.set_value w.1.holding_registers w.0.request.address w.0.request.value)
    on_response (modify copy_request)
    pure packet

  unfoldable pub encode : Action (Pointing WriteRegisterResponse) Packet
  encode =
      try_catch encode_steps (rethrow_range (λ w. bad_address w.0.base) (λ w. failure w.0.base))

  unfoldable pub decode_passed : Packet → Action WriteRegisterResponse (Unit {0})
  decode_passed packet =
      try_catch
        (do
          throw_if (λ r. not (length packet == Request.response_size r.request)) (λ _. bad_data)
          a ← lift (unpack_at s format packet (header_length + 1))
          throw_if (λ r. not (r.request.address == a.0)) (λ _. bad_data)
          throw_if (λ r. not (r.request.value == a.1.0)) (λ _. bad_data)
          modify copy_request)
        (rethrow_all λ _. bad_data)

  abbrev pub derived : Derived WriteRegisterResponse
  derived = record { base = λ r. r.base; set_base = with_base; decode_passed = decode_passed }
