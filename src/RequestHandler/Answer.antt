-- ===== src/RequestHandler/Answer.antt =====
-- How `handle` answers a frame: the function it dispatches to, and the packet of an exception.
use modbus_cpp.Prelude.{ℕ, suc, ◌+◌, ◌<◌, ◌≡◌, false, leb, [], ◌∷◌, length, arith}
use modbus_cpp.Types.{Packet, IsByte}
use modbus_cpp.Errors.{ok, specification}
use modbus_cpp.Actions.{handle_with}
use modbus_cpp.Struc.{Struc, IsBigEndian}
use modbus_cpp.Adu.{header_length}
use modbus_cpp.Adu.Wire.{header_packet_lem}
use modbus_cpp.Frame.{Mbap, IsValid, frame, reply, header_of}
use modbus_cpp.Table.{Table}
use modbus_cpp.Response.{make_error, encode_error}
use modbus_cpp.RequestHandler.{handle, dispatch, on_exception}

-- A frame is handed to the function for its code.
pub handle-frame :
    (s : Struc) (m : Mbap) (code : ℕ) (body : Packet) (t : Table)
    → handle s (frame m code body) t
      ≡ handle_with (dispatch s code (frame m code body) t) (on_exception s)
unfolding handle
handle-frame s m code body t = rw (long (length body))
  where
    long : (n : ℕ) → leb (suc (suc (suc (suc (suc (suc (suc (suc n)))))))) header_length ≡ false
    long n = ground arith

module _ (s : Struc) (laws : IsBigEndian s) where
  -- An exception is answered by its code, under the function code with the high bit set.
  pub encode_error_lem :
      (m : Mbap) (code function : ℕ)
      → IsValid m
      → IsByte code
      → function < 128
      → encode_error s (make_error code function (header_of m))
        ≡ ok (frame (reply m 3) (function + 128) (code ∷ []))
  unfolding encode_error
  encode_error_lem m code function v c f =
      rw (header_packet_lem s laws, laws.pack_byte, laws.pack_byte, laws.pack_nil) (ground arith)

  pub on_exception_lem :
      (m : Mbap) (code function : ℕ) (t : Table)
      → IsValid m
      → IsByte code
      → function < 128
      → on_exception s (specification code function (header_of m)) t
        ≡ (ok (frame (reply m 3) (function + 128) (code ∷ [])), t)
  unfolding on_exception
  on_exception_lem m code function t v c f = rw (encode_error_lem m code function v c f)
