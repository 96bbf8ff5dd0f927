-- ===== src/Response/Check.antt =====
-- What `check_stage` makes of an answer frame.
use modbus_cpp.Prelude.{
  ℕ, ◌+◌, ◌-◌, ◌<◌, ◌≡◌, ap, ◌∙◌, true, false, ◌==◌, ==_iff, ==-refl, lt→ltb, if◌then◌else◌, u8,
  length, arith,
}
use modbus_cpp.Constants.{check_function, check_function_enum}
use modbus_cpp.Types.{Packet, Header}
use modbus_cpp.Errors.{ok}
use modbus_cpp.Struc.{Struc, IsBigEndian, unpack_at}
use modbus_cpp.Adu.{header_length, header_func_format}
use modbus_cpp.Frame.{Mbap, frame, reply, decoded, word_value, decode_header-frame}
use modbus_cpp.Response.{
  Response, bad, error, passed, check_stage, with_adu, check_code, header_matches, initial_check,
}

-- A response waits for the answer to the request with this transaction and unit.
pub record WaitsFor (m : Mbap) (r : Response) : Type 0 where
  pub transaction : r.req_header.transaction ≡ m.transaction
  pub unit : r.req_header.unit ≡ m.unit

==-same : (a b : ℕ) → a ≡ b → (a == b) ≡ true
==-same a b e = (==_iff a b).1 e

module _ (s : Struc) (laws : IsBigEndian s) where
  unpack_header :
      (m : Mbap) (code : ℕ) (body : Packet)
      → unpack_at s header_func_format (frame m code body) 0
        ≡ ok (m.transaction, (m.protocol, (m.length, (m.unit, (code, tt)))))
  unfolding unpack_at
  unpack_header m code body = rw (
    laws.unpack_short,
    laws.unpack_short,
    laws.unpack_short,
    laws.unpack_byte,
    laws.unpack_byte,
    word_value m.transaction,
    word_value m.protocol,
    word_value m.length,
  )

  matches :
      (h : Header) (m : Mbap) (n code size : ℕ)
      → h.transaction ≡ m.transaction
      → h.unit ≡ m.unit
      → size ≡ n + 6
      → header_matches h size (m.transaction, (0, (n, (m.unit, (code, tt))))) ≡ true
  matches h m n code size e f g =
      rw (==-same _ _ e, ==-same _ _ f) (==-same n (size - 6) (omega arith))

  -- An answer frame for the request, of the right length, passes the header's checks; the stage
  -- depends on its function code only.
  pub check_stage-frame :
      (m : Mbap) (n code : ℕ) (body : Packet) (r : Response)
      → WaitsFor m r
      → n ≡ 2 + length body
      → check_stage s (frame (reply m n) code body) r ≡ (
        ok (check_code (decoded (reply m n) code r.adu)),
        with_adu (decoded (reply m n) code r.adu) r,
      )
  unfolding check_stage
  check_stage-frame m n code body r w e = rw (
    long,
    unpack_header (reply m n) code body,
    matches r.req_header m n code (length (frame (reply m n) code body)) w.transaction w.unit
        (omega arith),
    decode_header-frame s laws,
  )
    where
      long : initial_check (frame (reply m n) code body) ≡ true
      long = lt→ltb header_length (length (frame (reply m n) code body)) (omega arith)

  -- An answer under the function code of the request passes.
  pub check_stage-answer :
      (m : Mbap) (n code : ℕ) (body : Packet) (r : Response)
      → WaitsFor m r
      → n ≡ 2 + length body
      → check_function code ≡ true
      → check_stage s (frame (reply m n) code body) r
        ≡ (ok passed, with_adu (decoded (reply m n) code r.adu) r)
  check_stage-answer m n code body r w e f =
      check_stage-frame m n code body r w e
      ∙ ap (λ stage. (ok stage, with_adu (decoded (reply m n) code r.adu) r)) accepted
    where
      is_function : check_function_enum code ≡ true
      is_function = ground arith

      accepted : check_code (decoded (reply m n) code r.adu) ≡ passed
      accepted = rw (f, is_function, ==-refl code)

  -- An answer under that code with the high bit set is an exception; under any other code with it
  -- set it is bad.
  pub check_stage-exception :
      (m : Mbap) (n code : ℕ) (body : Packet) (r : Response)
      → WaitsFor m r
      → n ≡ 2 + length body
      → check_function r.adu.function ≡ true
      → code < 128
      → check_stage s (frame (reply m n) (code + 128) body) r ≡ (
        ok (if r.adu.function == code then error else bad),
        with_adu (decoded (reply m n) (code + 128) r.adu) r,
      )
  check_stage-exception m n code body r w e f c =
      check_stage-frame m n (code + 128) body r w e
      ∙ ap (λ stage. (ok stage, with_adu (decoded (reply m n) (code + 128) r.adu) r)) refused
    where
      is_function : check_function_enum r.adu.function ≡ true
      is_function = ground arith

      no_function : check_function (code + 128) ≡ false
      no_function = ground arith

      differs : (r.adu.function == code + 128) ≡ false
      differs = ground arith

      low_bits : u8 (code + 128 + 256 - 0x80) ≡ code
      low_bits = omega arith

      refused :
          check_code (decoded (reply m n) (code + 128) r.adu)
          ≡ (if r.adu.function == code then error else bad)
      refused = rw (no_function, is_function, differs, low_bits)
