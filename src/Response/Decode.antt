-- ===== src/Response/Decode.antt =====
-- What `response::decode` does with an answer frame.
use modbus_cpp.Prelude.{ℕ, ◌+◌, ◌≡◌, refl, ap, ◌∙◌, true, ==-refl, [], ◌∷◌, length, arith}
use modbus_cpp.Constants.{check_function}
use modbus_cpp.Types.{Packet}
use modbus_cpp.Errors.{Exception, Result, ok, throw, undefined, bad_data, std_exception}
use modbus_cpp.Actions.{handle_with}
use modbus_cpp.Struc.{Struc, IsBigEndian}
use modbus_cpp.Frame.{Mbap, frame, reply, decoded}
use modbus_cpp.Response.{Derived, decode, with_adu, range_to_bad_data}
use modbus_cpp.Response.Check.{WaitsFor, check_stage-answer, check_stage-exception}

module _ {R : Type 0} (s : Struc) (laws : IsBigEndian s) (d : Derived R) where
  pub decode-answer :
      (m : Mbap) (n code : ℕ) (body : Packet) (r : R)
      → WaitsFor m (d.base r)
      → n ≡ 2 + length body
      → check_function code ≡ true
      → decode s d (frame (reply m n) code body) r
        ≡ handle_with
            (d.decode_passed
              (frame (reply m n) code body)
              (d.set_base (with_adu (decoded (reply m n) code (d.base r).adu) (d.base r)) r))
            range_to_bad_data
  unfolding decode
  decode-answer m n code body r w e f =
      rw (check_stage-answer s laws m n code body (d.base r) w e f)

  kept :
      (x : Result (Unit {0}) × R)
      → x.0 ≡ throw bad_data
      → (handle_with x range_to_bad_data).0 ≡ throw bad_data
  kept (ok _, r) h = absurd (cc)
  kept (throw e, r) h = rethrown e (cc)
    where
      rethrown :
          (f : Exception) → f ≡ bad_data → (range_to_bad_data {A = Unit {0}} f r).0 ≡ throw bad_data
      rethrown f same = rw same
  kept (undefined, r) h = absurd (cc)

  -- An answer that `decode_passed` takes for bad data.
  pub decode-answer_bad :
      (m : Mbap) (n code : ℕ) (body : Packet) (r : R)
      → WaitsFor m (d.base r)
      → n ≡ 2 + length body
      → check_function code ≡ true
      → (d.decode_passed
          (frame (reply m n) code body)
          (d.set_base (with_adu (decoded (reply m n) code (d.base r).adu) (d.base r)) r)).0
        ≡ throw bad_data
      → (decode s d (frame (reply m n) code body) r).0 ≡ throw bad_data
  decode-answer_bad m n code body r w e f h =
      ap (λ x. x.0) (decode-answer m n code body r w e f) ∙ kept _ h

  -- An exception packet for the request makes the client throw a plain `std::exception`, whatever
  -- its code: the code is lost. Assumed: struc is big-endian and the response is for that
  -- transaction, unit and function.
  pub decode-exception :
      (m : Mbap) (code ec : ℕ) (r : R)
      → WaitsFor m (d.base r)
      → check_function code ≡ true
      → (d.base r).adu.function ≡ code
      → (decode s d (frame (reply m 3) (code + 128) (ec ∷ [])) r).0 ≡ throw std_exception
  unfolding decode
  decode-exception m code ec r w f e = rw (
    check_stage-exception s laws m 3 code (ec ∷ []) (d.base r) w refl (rw e f) (ground arith),
    e,
    ==-refl code,
  )
