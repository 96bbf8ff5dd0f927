-- ===== src/Request.antt =====
-- include/modbuscpp/modbuscpp/request.hpp and source/request.cpp: what all requests share, and the
-- request with an unknown function code.
use modbus_cpp.Prelude.{ℕ, Bool, ◌==◌, [], length}
use modbus_cpp.Constants.FunctionCode as Code
use modbus_cpp.Types.{Packet}
use modbus_cpp.Errors.{illegal_function}
use modbus_cpp.Actions.{Action, gets, raise, ◌>>=◌, ◌>>◌}
use modbus_cpp.Struc.{Struc}
use modbus_cpp.Adu
use modbus_cpp.Adu.{Adu, header, decode_header}

-- `internal::request::check_response_packet`, for the value of `response_size()`.
abbrev pub check_response_packet : ℕ → Packet → Bool
check_response_packet response_size packet = length packet == response_size

-- `request::illegal`, with no field of its own.
abbrev pub illegal : Adu
illegal = Adu.make Code.min 0x00 0x00

-- `illegal::encode`
abbrev pub encode_illegal : Packet
encode_illegal = []

-- `illegal::decode` always throws.
unfoldable pub decode_illegal : Struc → Packet → Action Adu (Unit {0})
decode_illegal s packet = do
  decode_header s packet
  a ← gets (λ a. a)
  raise (illegal_function a.function (header a))
