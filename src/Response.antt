-- ===== src/Response.antt =====
-- include/modbuscpp/modbuscpp/response.hpp and source/response.cpp: what all responses share, the
-- client's check of a received packet, and the exception response.
pub mod Check
pub mod Decode
pub mod Defined
pub mod Error
use modbus_cpp.Prelude.{
  ℕ, ◌+◌, ◌-◌, Bool, true, false, ◌&&◌, ◌||◌, not, ltb, ◌==◌, u8, u16, if◌then◌else◌, some, none,
  [], ◌∷◌, ◌++◌, length, get_elem?,
}
use modbus_cpp.Constants.{check_function, check_function_enum}
use modbus_cpp.Constants.ExceptionCode as Code
use modbus_cpp.Types.{Header, Packet}
use modbus_cpp.Errors.{
  Exception, specification, internal, out_of_range, std_exception, Result, ok, throw, undefined,
  bad_data, bad_exception, illegal_data_address, server_device_failure, at_result,
}
use modbus_cpp.Actions.{
  Action, pure, raise, lift, gets, read, modify, throw_if, try_catch, focus, ◌>>=◌, ◌>>◌,
}
use modbus_cpp.Struc.{Struc, Format, Args, byte, unpack_at}
use modbus_cpp.Adu
use modbus_cpp.Adu.{
  Adu, header_length, protocol, header_func_format, header, initialize, calc_length,
  calc_adu_length, decode_header, header_packet,
}

-- `internal::stage`
pub data Stage : Type 0 where
  bad : Stage
  error : Stage
  passed : Stage

-- `internal::response`; the table that a response points to is an argument of its methods.
pub record Response : Type 0 where
  pub adu : Adu
  pub req_header : Header

-- `response(function, req_header, data_table)`
abbrev pub make : ℕ → Header → Response
make function req_header = record { adu = Adu.make function 0x00 0x00; req_header = req_header }

abbrev pub with_adu : Adu → Response → Response
with_adu a r = record r { adu = a }

abbrev pub on_adu {ℓ} : {A : Type ℓ} → Action Adu A → Action Response A
on_adu = focus (λ r. r.adu) with_adu

-- The base of a response to the request with this ADU: `response(function, request->header(), …)`
-- and then `initialize({request_->transaction(), request_->unit()})`.
abbrev pub for_request : ℕ → Adu → Response
for_request function adu =
    with_adu (initialize adu.transaction adu.unit (Adu.make function 0x00 0x00))
      (make function (header adu))

-- `ex::illegal_data_address(function(), header())` and `ex::server_device_failure(…)`
abbrev pub bad_address : Response → Exception
bad_address r = illegal_data_address r.adu.function (header r.adu)

abbrev pub failure : Response → Exception
failure r = server_device_failure r.adu.function (header r.adu)

-- `initial_check`
abbrev pub initial_check : Packet → Bool
initial_check packet = ltb header_length (length packet)

-- An exception returned by value as a `std::exception` is cut down to that.
abbrev pub as_std_exception : Exception → Exception
as_std_exception e = std_exception

-- `generate_exception`, whose result type is `std::exception`.
abbrev pub generate_exception : ℕ → ℕ → Header → Exception
generate_exception ec function request_header = as_std_exception (
    if ec == Code.illegal_function
    then specification Code.illegal_function function request_header
    else if ec == Code.illegal_data_address
    then specification Code.illegal_data_address function request_header
    else if ec == Code.illegal_data_value
    then specification Code.illegal_data_value function request_header
    else if ec == Code.server_device_failure
    then specification Code.server_device_failure function request_header
    else if ec == Code.acknowledge
    then specification Code.acknowledge function request_header
    else if ec == Code.server_device_busy
    then specification Code.server_device_busy function request_header
    else if ec == Code.negative_acknowledge
    then specification Code.negative_acknowledge function request_header
    else if ec == Code.memory_parity_error
    then specification Code.memory_parity_error function request_header
    else if ec == Code.gateway_path_unavailable
    then specification Code.gateway_path_unavailable function request_header
    else if ec == Code.gateway_target_device_failed_to_respond
    then specification Code.gateway_target_device_failed_to_respond function request_header
    else bad_exception)

-- Step 2 of `check_stage`: transaction, protocol, unit and length.
abbrev pub header_matches : Header → ℕ → Args header_func_format → Bool
header_matches req size (tr, (pr, (len, (un, _)))) =
    req.transaction == tr && protocol == pr && req.unit == un && len == size - (header_length - 1)

-- Steps 4 to 7 of `check_stage`, on what `decode_header` has stored.
abbrev pub check_code : Adu → Stage
check_code adu =
    if not (check_function_enum adu.function)
    then bad
    else if not (adu.function == adu.function_code) && not (check_function adu.function_code)
    then (if adu.function == u8 (adu.function_code + 256 - 0x80) then error else bad)
    else passed

module _ (s : Struc) where
  -- The steps of `check_stage` after the unpacking.
  abbrev pub check_fields : Packet → Args header_func_format → Response → Result Stage × Response
  check_fields packet a r =
      if not (header_matches r.req_header (length packet) a)
      then (ok bad, r)
      else (do on_adu (decode_header s packet); gets (λ r'. check_code r'.adu)) r

  unfoldable pub check_stage : Packet → Action Response Stage
  check_stage packet r =
      if not (initial_check packet)
      then (ok bad, r)
      else (do a ← lift (unpack_at s header_func_format packet 0); check_fields packet a) r

-- `catch (const std::out_of_range&) { throw ex::bad_data(); }`
abbrev pub range_to_bad_data {ℓ κ} : {S : Type ℓ} {A : Type κ} → Exception → Action S A
range_to_bad_data out_of_range s = (throw bad_data, s)
range_to_bad_data (specification c f h) s = (throw (specification c f h), s)
range_to_bad_data (internal c) s = (throw (internal c), s)
range_to_bad_data std_exception s = (throw std_exception, s)

-- A class derived from `internal::response`: its base and its `decode_passed`.
pub record Derived (R : Type 0) : Type 0 where
  pub base : R → Response
  pub set_base : Response → R → R
  pub decode_passed : Packet → Action R (Unit {0})

module _ {R : Type 0} (s : Struc) (d : Derived R) where
  abbrev pub on_stage : Packet → Stage → Action R (Unit {0})
  on_stage packet bad = raise bad_data
  on_stage packet error = do
    exc ← lift (at_result (get_elem? packet (header_length + 1)))
    r ← gets d.base
    raise (generate_exception exc r.adu.function (header r.adu))
  on_stage packet passed = d.decode_passed packet

  -- `response::decode`
  unfoldable pub decode : Packet → Action R (Unit {0})
  decode packet =
      try_catch (do stage ← focus d.base d.set_base (check_stage s packet); on_stage packet stage)
        range_to_bad_data

-- `response::error`
pub record ErrorResponse : Type 0 where
  pub base : Response
  pub ec : ℕ

-- `error(const T& ec)`, for an exception with this code, function and header.
abbrev pub make_error : ℕ → ℕ → Header → ErrorResponse
make_error code function h = record {
  base = with_adu (initialize h.transaction h.unit (Adu.make function 0x00 0x00)) (make function h);
  ec = code;
}

-- The format "BB"
abbrev pub error_format : Format
error_format = byte ∷ byte ∷ []

-- `vector::pop_back`
abbrev pub pop_back : Packet → Packet
pop_back [] = []
pop_back (x ∷ []) = []
pop_back (x ∷ y ∷ xs) = x ∷ pop_back (y ∷ xs)

-- `error::encode`
unfoldable pub encode_error : Struc → ErrorResponse → Result Packet
encode_error s r =
    let adu = calc_length 1 r.base.adu in
    let packet =
      pop_back (header_packet s adu) ++ s.pack error_format (adu.function + 0x80, (r.ec, tt)) in
    if length packet == calc_adu_length 1 then ok packet else throw bad_data
