-- ===== src/RequestHandler/Refusing.antt =====
-- Packets that name no function of the server, or end too early.
use modbus_cpp.Prelude.{
  ℕ, ◌+◌, ◌<◌, ◌≤◌, ◌≡◌, ◌∙◌, Bool, false, ◌==◌, ◌||◌, if◌then◌else◌, le→leb, [], ◌∷◌, length,
  arith,
}
use modbus_cpp.Constants.{check_function}
use modbus_cpp.Types.{Packet}
use modbus_cpp.Errors.{ok, throw, illegal_function}
use modbus_cpp.Struc.{Struc, IsBigEndian}
use modbus_cpp.Frame
use modbus_cpp.Frame.{Mbap, frame, reply, header_of, decode_header-frame}
use modbus_cpp.Adu.{header_length}
use modbus_cpp.Table.{Table}
use modbus_cpp.Request.{decode_illegal}
use modbus_cpp.RequestHandler.{handle, dispatch, serve_illegal, on_exception}
use modbus_cpp.RequestHandler.Answer.{handle-frame, on_exception_lem}

-- The functions that the server offers.
abbrev pub supported : ℕ → Bool
supported code =
    code == 1
    || code == 2
    || code == 3
    || code == 4
    || code == 5
    || code == 6
    || code == 15
    || code == 16
    || code == 22
    || code == 23

-- The function that an answer is for: a code out of the range of the standard counts as 0.
abbrev pub named : ℕ → ℕ
named code = if check_function code then code else 0

module _ (s : Struc) (laws : IsBigEndian s) where
  dispatch_lem :
      (code : ℕ) (p : Packet) (t : Table)
      → supported code ≡ false
      → dispatch s code p t ≡ serve_illegal s p t
  unfolding dispatch
  dispatch_lem code p t h =
      let e1 : (code == 1) ≡ false = ground arith in
      let e2 : (code == 2) ≡ false = ground arith in
      let e3 : (code == 3) ≡ false = ground arith in
      let e4 : (code == 4) ≡ false = ground arith in
      let e5 : (code == 5) ≡ false = ground arith in
      let e6 : (code == 6) ≡ false = ground arith in
      let e15 : (code == 15) ≡ false = ground arith in
      let e16 : (code == 16) ≡ false = ground arith in
      let e22 : (code == 22) ≡ false = ground arith in
      let e23 : (code == 23) ≡ false = ground arith in
      rw (e1, e2, e3, e4, e5, e6, e15, e16, e22, e23)

  serve_illegal_lem :
      (m : Mbap) (code : ℕ) (body : Packet) (t : Table)
      → serve_illegal s (frame m code body) t
        ≡ (throw (illegal_function (named code) (header_of m)), t)
  unfolding serve_illegal decode_illegal
  serve_illegal_lem m code body t = rw (decode_header-frame s laws)

  named-lt : (code : ℕ) → named code < 128
  named-lt code = ground arith

  -- A frame for any other function is answered with exception 1, illegal function, and changes
  -- nothing. The answer's function code is the request's with the high bit set, or 128 if the code
  -- is out of the range of the standard. Assumed: struc is big-endian and the numbers of the
  -- request fit their types.
  pub handle_unsupported :
      (m : Mbap) (code : ℕ) (body : Packet) (t : Table)
      → Frame.IsValid m
      → supported code ≡ false
      → handle s (frame m code body) t ≡ (ok (frame (reply m 3) (named code + 128) (1 ∷ [])), t)
  handle_unsupported m code body t v h =
      handle-frame s m code body t
      ∙ rw (dispatch_lem code (frame m code body) t h, serve_illegal_lem m code body t)
          (on_exception_lem s laws m 1 (named code) t v (omega arith) (named-lt code))

-- A packet without a function code gets no answer and changes nothing.
pub handle_short :
    (s : Struc) (p : Packet) (t : Table) → length p ≤ header_length → handle s p t ≡ (ok [], t)
unfolding handle on_exception
handle_short s p t h = rw (le→leb _ _ h)
