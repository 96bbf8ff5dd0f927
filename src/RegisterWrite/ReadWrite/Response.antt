-- ===== src/RegisterWrite/ReadWrite/Response.antt =====
-- `response::read_write_multiple_registers`, and `execute` of its request.
use modbus_cpp.Prelude.{ℕ, ◌+◌, ◌*◌, not, ◌==◌, u8, List, [], ◌∷◌, ◌++◌, length, get_elem?}
use modbus_cpp.Types.{Packet}
use modbus_cpp.Errors.{
  Result, ok, bad_data, illegal_data_value, illegal_data_address, index_result, or_throw,
  ◌>>=◌ as and_then_result,
}
use modbus_cpp.Actions.{
  Action, pure, lift, read, gets, modify, throw_if, try_catch, rethrow_all, rethrow_range, focus,
  ◌>>=◌, ◌>>◌,
}
use modbus_cpp.Struc.{Struc, Format, byte}
use modbus_cpp.Adu.{Adu, header_length, header, calc_length, header_packet}
use modbus_cpp.Block
use modbus_cpp.Request.{check_response_packet}
use modbus_cpp.Response
use modbus_cpp.Response.{Response, Derived, bad_address, failure}
use modbus_cpp.Registers.{pack_registers, unpack_registers, rounds}
use modbus_cpp.Table.{Table, read_num_regs, write_num_regs}
use modbus_cpp.Pointing.{Pointing, on_response, set_holding_registers}
use modbus_cpp.RegisterWrite.ReadWrite.Request
use modbus_cpp.RegisterWrite.ReadWrite.Request.{ReadWrite}

pub record ReadWriteResponse : Type 0 where
  pub base : Response
  pub request : ReadWrite
  pub count : ℕ
  pub registers : List ℕ

-- `read_write_multiple_registers(request, data_table)`
abbrev pub make : ReadWrite → ReadWriteResponse
make request = record {
  base = Response.for_request request.adu.function request.adu;
  request = request;
  count = u8 (request.read_count * 2);
  registers = [];
}

-- The format "B"
abbrev pub format : Format
format = byte ∷ []

abbrev pub byte_idx : ℕ
byte_idx = header_length + 1

abbrev pub with_base : Response → ReadWriteResponse → ReadWriteResponse
with_base b r = record r { base = b }

abbrev pub on_adu {ℓ} : {A : Type ℓ} → Action Adu A → Action ReadWriteResponse A
on_adu m = focus (λ r. r.base) with_base (Response.on_adu m)

abbrev pub store_registers : List ℕ → ReadWriteResponse → ReadWriteResponse
store_registers registers r = record r { registers = registers }

abbrev pub store_count : ℕ → ReadWriteResponse → ReadWriteResponse
store_count count r = record r { count = count }

-- `request::read_write_multiple_registers::execute`; the tests run from left to right, and the last
-- is made only if the others pass.
unfoldable pub execute : ReadWrite → Table → Result ReadWriteResponse
execute r table =
    let bad = illegal_data_address r.adu.function (header r.adu) in
    or_throw (not (Request.validate_counts r)) (illegal_data_value r.adu.function (header r.adu)) (
      or_throw (not (Request.validate_addresses r)) bad (
        and_then_result
          (Block.validate_count read_num_regs table.holding_registers r.read_address r.read_count)
          λ readable. or_throw (not readable) bad (
            and_then_result
              (Block.validate_count write_num_regs table.holding_registers r.write_address
                r.write_count)
              λ writable. or_throw (not writable) bad (ok (make r)))))

module _ (s : Struc) where
  -- The `try` block of `encode`.
  abbrev pub encode_steps : Action (Pointing ReadWriteResponse) Packet
  encode_steps = do
    set_holding_registers
        (λ w. Block.set_slice w.1.holding_registers w.0.request.write_address w.0.request.values)
    registers ← read λ w.
        Block.get_slice read_num_regs w.1.holding_registers w.0.request.read_address
          w.0.request.read_count
    on_response (modify (store_registers registers))
    r ← gets (λ w. w.0)
    on_response (on_adu (modify (calc_length (1 + r.count))))
    packet ← gets λ w.
        header_packet s w.0.base.adu ++ s.pack format (w.0.count, tt) ++ pack_registers s registers
    throw_if (λ w. not (check_response_packet (Request.response_size w.0.request) packet))
        (λ w. failure w.0.base)
    pure packet

  unfoldable pub encode : Action (Pointing ReadWriteResponse) Packet
  encode =
      try_catch encode_steps (rethrow_range (λ w. bad_address w.0.base) (λ w. failure w.0.base))

  unfoldable pub decode_passed : Packet → Action ReadWriteResponse (Unit {0})
  decode_passed packet =
      try_catch
        (do
          throw_if (λ r. not (length packet == Request.response_size r.request)) (λ _. bad_data)
          c ← lift (index_result (get_elem? packet byte_idx))
          modify (store_count (u8 c))
          throw_if (λ r. not (r.count == u8 (r.request.read_count * 2))) (λ _. bad_data)
          buffer ← read (λ r. unpack_registers s packet (byte_idx + 1) (rounds r.count))
          throw_if (λ r. not (length buffer == r.request.read_count)) (λ _. bad_data)
          modify (store_registers buffer))
        (rethrow_all λ _. bad_data)

  abbrev pub derived : Derived ReadWriteResponse
  derived = record { base = λ r. r.base; set_base = with_base; decode_passed = decode_passed }
