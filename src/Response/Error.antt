-- ===== src/Response/Error.antt =====
-- `response::error::decode` of source/response.cpp. Its format is two bytes, so struc::unpack is told
-- to read the function code and the exception code, but the pointer it is handed is behind the
-- function code already.
use modbus_cpp.Prelude.{
  ℕ, ◌+◌, ◌<◌, ◌≡◌, refl, false, not, ◌==◌, if◌then◌else◌, [], ◌∷◌, length, arith,
}
use modbus_cpp.Constants.{check_exception}
use modbus_cpp.Types.{Packet, IsByte}
use modbus_cpp.Errors.{ok, throw, undefined, bad_data, bad_exception}
use modbus_cpp.Actions.{Action, lift, modify, throw_if, focus, ◌>>=◌, ◌>>◌}
use modbus_cpp.Struc.{Struc, Args, IsBigEndian, unpack_at}
use modbus_cpp.Adu.{header_length, calc_adu_length, decode_header}
use modbus_cpp.Adu.Wire.{decode_header_lem}
use modbus_cpp.Frame.{Mbap, IsValid, frame, reply, header_of}
use modbus_cpp.Response.{Response, ErrorResponse, error_format, on_adu, make_error, encode_error}
use modbus_cpp.RequestHandler.Answer.{encode_error_lem}

abbrev pub with_base : Response → ErrorResponse → ErrorResponse
with_base b r = record r { base = b }

abbrev pub store_code : ℕ → ErrorResponse → ErrorResponse
store_code ec r = record r { ec = ec }

-- struc::unpack fills `ec` with the first of the two bytes.
abbrev pub first_arg : Args error_format → ℕ
first_arg (ec, _) = ec

unfoldable pub decode_error : Struc → Packet → Action ErrorResponse (Unit {0})
decode_error s packet = do
  throw_if (λ _. not (length packet == calc_adu_length 1)) (λ _. bad_data)
  focus (λ r. r.base) with_base (on_adu (decode_header s packet))
  a ← lift (unpack_at s error_format packet (header_length + 1))
  throw_if (λ _. not (check_exception (first_arg a))) (λ _. bad_exception)
  modify (store_code (first_arg a))

module _ (s : Struc) (laws : IsBigEndian s) where
  decode_error_lem :
      (q : Packet) (r : ErrorResponse)
      → (decode_error s q r).0 ≡ (if length q == 9 then undefined else throw bad_data)
  unfolding decode_error unpack_at
  decode_error_lem (a ∷ b ∷ c ∷ d ∷ e ∷ f ∷ g ∷ h ∷ i ∷ []) r = rw (decode_header_lem s laws)
  decode_error_lem (a ∷ b ∷ c ∷ d ∷ e ∷ f ∷ g ∷ h ∷ i ∷ j ∷ q) r =
      let longer : (length (a ∷ b ∷ c ∷ d ∷ e ∷ f ∷ g ∷ h ∷ i ∷ j ∷ q) == 9) ≡ false =
        ground arith in
      rw longer
  decode_error_lem q r = refl

  -- `error::decode` never succeeds: it throws bad data for a packet that is not of nine bytes, and
  -- reads past the end of any other, the packet that `error::encode` makes of an exception
  -- included, which is one. Assumed: struc is big-endian, the numbers fit their fields and the
  -- function code is below 128.
  pub decode_error-encode_error :
      (m : Mbap) (code function : ℕ) (r : ErrorResponse) (q : Packet)
      → IsValid m
      → IsByte code
      → function < 128
      → ((decode_error s q r).0 ≡ (if length q == 9 then undefined else throw bad_data))
        × (p : Packet) × (encode_error s (make_error code function (header_of m)) ≡ ok p)
        × ((decode_error s p r).0 ≡ undefined)
  decode_error-encode_error m code function r q v c f = (
    decode_error_lem q r,
    frame (reply m 3) (function + 128) (code ∷ []),
    encode_error_lem s laws m code function v c f,
    decode_error_lem (frame (reply m 3) (function + 128) (code ∷ [])) r,
  )
