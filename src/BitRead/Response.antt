-- ===== src/BitRead/Response.antt =====
-- `response::base_read_bits<function_code>`, for its two function codes.
use modbus_cpp.Prelude.{ℕ, ◌+◌, Bool, List, not, ◌==◌, [], ◌∷◌, ◌++◌, length, drop, get_elem?}
use modbus_cpp.Types.{Packet, char_to_u16}
use modbus_cpp.Errors.{
  bad_data, illegal_data_value, illegal_data_address, Result, index_result, or_throw, ok,
  ◌>>=◌ as and_then_result,
}
use modbus_cpp.Actions.{
  Action, pure, lift, read, gets, modify, throw_if, try_catch, rethrow_all, rethrow_range, focus,
  ◌>>=◌, ◌>>◌,
}
use modbus_cpp.Struc.{Struc, Format, byte}
use modbus_cpp.Adu.{Adu, header_length, header, calc_length, header_packet}
use modbus_cpp.Operation.{pack_bits, unpack_bits}
use modbus_cpp.Block
use modbus_cpp.Table.{Table, read_num_bits}
use modbus_cpp.Request.{check_response_packet}
use modbus_cpp.Response
use modbus_cpp.Response.{Response, Derived, bad_address, failure}
use modbus_cpp.BitRead.Request
use modbus_cpp.BitRead.Request.{ReadBits, Kind, code, block}

-- `count_` has no value before `decode_passed`, which is the one that reads it; 0 stands for that.
pub record ReadBitsResponse : Type 0 where
  pub base : Response
  pub request : ReadBits
  pub count : ℕ
  pub bits : List Bool

-- `base_read_bits(request, data_table)`
abbrev pub make : Kind → ReadBits → ReadBitsResponse
make kind request = record {
  base = Response.for_request (code kind) request.adu;
  request = request;
  count = 0;
  bits = [];
}

-- The format "B"
abbrev pub format : Format
format = byte ∷ []

abbrev pub byte_idx : ℕ
byte_idx = header_length + 1

abbrev pub with_base : Response → ReadBitsResponse → ReadBitsResponse
with_base b r = record r { base = b }

abbrev pub on_adu {ℓ} : {A : Type ℓ} → Action Adu A → Action ReadBitsResponse A
on_adu m = focus (λ r. r.base) with_base (Response.on_adu m)

abbrev pub store_bits : List Bool → ReadBitsResponse → ReadBitsResponse
store_bits bits r = record r { bits = bits }

abbrev pub store_count : ℕ → ReadBitsResponse → ReadBitsResponse
store_count count r = record r { count = count }

-- `request::base_read_bits::execute`: it makes the response, or throws.
unfoldable pub execute : Kind → ReadBits → Table → Result ReadBitsResponse
execute kind r table =
    or_throw (not (Request.validate_count r)) (illegal_data_value r.adu.function (header r.adu)) (
      and_then_result (Block.validate_count read_num_bits (block kind table) r.address r.count)
        λ valid.
          or_throw (not valid) (illegal_data_address r.adu.function (header r.adu))
            (ok (make kind r)))

module _ (s : Struc) where
  unfoldable pub encode : Kind → Table → Action ReadBitsResponse Packet
  encode kind table =
      try_catch
        (do
          bits ← read (λ r.
              Block.get_slice read_num_bits (block kind table) r.request.address r.request.count)
          modify (store_bits bits)
          r ← gets (λ r. r)
          on_adu (modify (calc_length (Request.byte_count r.request + 1)))
          packet ← gets (λ r'.
              header_packet s r'.base.adu
              ++ s.pack format (Request.byte_count r.request, tt)
              ++ pack_bits bits)
          throw_if (λ r'. not (check_response_packet (Request.response_size r'.request) packet))
              (λ r. failure r.base)
          pure packet)
        (rethrow_range (λ r. bad_address r.base) (λ r. failure r.base))

module _ (char_signed : Bool) where
  unfoldable pub decode_passed : Packet → Action ReadBitsResponse (Unit {0})
  decode_passed packet =
      try_catch
        (do
          throw_if (λ r. not (length packet == Request.response_size r.request)) (λ _. bad_data)
          c ← lift (index_result (get_elem? packet byte_idx))
          modify (store_count (char_to_u16 char_signed c))
          throw_if (λ r. not (r.count == r.request.count)) (λ _. bad_data)
          buffer ← pure (unpack_bits (drop (byte_idx + 1) packet))
          throw_if (λ r. not (length buffer == r.request.count)) (λ _. bad_data)
          modify (store_bits buffer))
        (rethrow_all λ _. bad_data)

  abbrev pub derived : Derived ReadBitsResponse
  derived = record { base = λ r. r.base; set_base = with_base; decode_passed = decode_passed }
