-- ===== src/RequestHandler/Bounds/Handle.antt =====
-- The answers of `handle`, and the holding registers that it leaves.
use modbus_cpp.Prelude.{
  ℕ, ◌≡◌, refl, Bool, true, false, leb, ltb, ◌&&◌, ◌==◌, if◌then◌else◌, ◌<◌, ◌≤◌, ◌+◌, zero, suc,
  ◌∷◌, drop, subst, [], length, get_elem?, All, arith,
}
use modbus_cpp.Constants.FunctionCode as Code
use modbus_cpp.Types.{Packet, IsByte}
use modbus_cpp.Errors.{
  Exception, specification, internal, out_of_range, std_exception, ok, throw, bad_data,
  bad_data_size, at_result,
}
use modbus_cpp.Actions.{Action, pure, if_then_throw}
use modbus_cpp.Actions.Gives.{
  Returning, Any, Gives, Gives-then, Gives-caught, Gives-result, Gives-thrown,
}
use modbus_cpp.Struc.{Struc, IsBigEndian}
use modbus_cpp.Adu.{header_length, calc_adu_length}
use modbus_cpp.Request.{illegal, decode_illegal}
use modbus_cpp.Response.{ErrorResponse, make_error, encode_error}
use modbus_cpp.BitRead.Request.{read_coils, read_discrete_inputs}
use modbus_cpp.RegisterRead.Request.{read_holding_registers, read_input_registers}
use modbus_cpp.Table.{Table}
use modbus_cpp.RequestHandler.{dispatch, serve_illegal, on_exception, handle}
use modbus_cpp.Adu.{decode_header}
use modbus_cpp.Struc.Numbers.{first_byte}
use modbus_cpp.Device.Meets.{IsSound}
use modbus_cpp.RequestHandler.Bounds.{FitsAdu}
use modbus_cpp.Adu.Reading.{header-Returning}
use modbus_cpp.RequestHandler.Bounds.Reading.{read_bits-Gives, read_registers-Gives}
use modbus_cpp.RequestHandler.Bounds.Coils.{write_coil-Gives, write_coils-Gives}
use modbus_cpp.RequestHandler.Bounds.Registers.{write_register-Gives, write_registers-Gives}
use modbus_cpp.RequestHandler.Bounds.Masking.{mask_write-Gives}
use modbus_cpp.RequestHandler.Bounds.ReadWriting.{read_write-Gives}

abbrev Answers : Type 0 → Table → Action Table Packet → Type 0
Answers U t m = Gives U FitsAdu IsSound (m t)

-- How long a packet has to be for the `decode` of its function code: the header and the fields, with
-- the registers whose number of bytes is among the fields of the functions 16 and 23.
abbrev pub needed : ℕ → Packet → ℕ
needed code p =
    if code == Code.write_multiple_coils
    then 13
    else if code == Code.write_multiple_registers
    then 13 + first_byte (drop 12 p)
    else if code == Code.mask_write_register
    then 14
    else if code == Code.read_write_multiple_registers
    then 17 + first_byte (drop 16 p)
    else if ltb 0 code && ltb code 7
    then 12
    else 8

-- A packet without a function code, or with all that its function needs.
abbrev pub IsComplete : Packet → Type 0
IsComplete p = 8 ≤ length p → needed (first_byte (drop 7 p)) p ≤ length p

either-Answers :
    {U : Type 0} (t : Table) (c : Bool) (m k : Action Table Packet)
    → (c ≡ true → Answers U t m)
    → (c ≡ false → Answers U t k)
    → Answers U t (if c then m else k)
either-Answers t true m k h i = h refl
either-Answers t false m k h i = i refl

sized-FitsAdu :
    (U : Type 0) (p : Packet) (c : Bool)
    → (length p == calc_adu_length 1) ≡ c
    → Returning U FitsAdu (if c then ok p else throw bad_data)
sized-FitsAdu U p true e = ground arith
sized-FitsAdu U p false e = tt

-- The function code, which `at` reads.
at-Returning :
    (U : Type 0) (i : ℕ) (p : Packet)
    → Returning U (λ n. n ≡ first_byte (drop i p)) (at_result (get_elem? p i))
at-Returning U zero [] = tt
at-Returning U zero (b ∷ p) = refl
at-Returning U (suc i) [] = tt
at-Returning U (suc i) (b ∷ p) = at-Returning U i p

error-FitsAdu :
    (U : Type 0) (s : Struc) (r : ErrorResponse) → Returning U FitsAdu (encode_error s r)
unfolding encode_error
error-FitsAdu U s r = sized-FitsAdu U _ _ refl

module _ {U : Type 0} (s : Struc) where
  on_exception-Gives : (e : Exception) (t : Table) → IsSound t → Answers U t (on_exception s e)
  unfolding on_exception
  on_exception-Gives (specification code function h) t k =
      Gives-result FitsAdu IsSound _ t (error-FitsAdu U s (make_error code function h)) k
  on_exception-Gives (internal code) t k = record { value = omega arith; left = k }
  on_exception-Gives out_of_range t k = record { value = omega arith; left = k }
  on_exception-Gives std_exception t k = record { value = omega arith; left = k }

  illegal-Gives :
      IsBigEndian s
      → (p : Packet) (t : Table) → (length p < 8 → U)
      → IsSound t
      → Answers U t (serve_illegal s p)
  unfolding serve_illegal decode_illegal
  illegal-Gives laws p t lacks h =
      Gives-then Any FitsAdu IsSound ((decode_illegal s p illegal).0, t) (λ _. pure [])
        (Gives-result Any IsSound _ t
          (Gives-then Any Any Any (decode_header s p illegal) _
            (record { value = header-Returning s laws U p illegal lacks; left = tt })
            λ _ _ _ _. record { value = tt; left = tt }).value
          h)
        λ _ _ u k. record { value = omega arith; left = k }

module _ {U : Type 0} (s : Struc) (laws : IsBigEndian s) where
  dispatch-Gives :
      (code : ℕ) (p : Packet) (t : Table)
      → All IsByte p
      → (length p < needed code p → U)
      → IsSound t
      → Answers U t (dispatch s code p)
  unfolding dispatch
  dispatch-Gives code p t b lacks h =
      either-Answers t (code == Code.read_coils) _ _
        (λ e. read_bits-Gives s laws read_coils p t b (λ l. lacks (ground arith)) h)
        λ n1.
          either-Answers t (code == Code.read_discrete_inputs) _ _
            (λ e. read_bits-Gives s laws read_discrete_inputs p t b (λ l. lacks (ground arith)) h)
            λ n2.
              either-Answers t (code == Code.read_holding_registers) _ _
                (λ e.
                  read_registers-Gives s laws read_holding_registers p t b
                    (λ l. lacks (ground arith)) h)
                λ n3.
                  either-Answers t (code == Code.read_input_registers) _ _
                    (λ e.
                      read_registers-Gives s laws read_input_registers p t b
                        (λ l. lacks (ground arith)) h)
                    λ n4.
                      either-Answers t (code == Code.write_single_coil) _ _
                        (λ e. write_coil-Gives s laws p t b (λ l. lacks (ground arith)) h)
                        λ n5.
                          either-Answers t (code == Code.write_single_register) _ _
                            (λ e. write_register-Gives s laws p t b (λ l. lacks (ground arith)) h)
                            λ n6.
                              either-Answers t (code == Code.write_multiple_coils) _ _
                                (λ e. write_coils-Gives s laws p t b (λ l. lacks (ground arith)) h)
                                λ n7.
                                  either-Answers t (code == Code.write_multiple_registers) _ _
                                    (λ e.
                                      write_registers-Gives s laws p t b (λ l. lacks (ground arith))
                                        h)
                                    λ n8.
                                      either-Answers t (code == Code.mask_write_register) _ _
                                        (λ e.
                                          mask_write-Gives s laws p t b (λ l. lacks (ground arith))
                                            h)
                                        λ n9.
                                          either-Answers t
                                            (code == Code.read_write_multiple_registers) _ _
                                            (λ e.
                                              read_write-Gives s laws p t b
                                                (λ l. lacks (ground arith)) h)
                                            λ n10.
                                              illegal-Gives s laws p t (λ l. lacks (ground arith)) h

  pub handle-Gives :
      (p : Packet) (t : Table)
      → All IsByte p
      → (8 ≤ length p → length p < needed (first_byte (drop 7 p)) p → U)
      → IsSound t
      → Gives U FitsAdu IsSound (handle s p t)
  unfolding handle
  handle-Gives p t b lacks h =
      Gives-caught FitsAdu IsSound _ (on_exception s)
        (Gives-then _ FitsAdu IsSound (if_then_throw (leb (length p) header_length) bad_data_size t)
          _ (Gives-thrown IsSound _ bad_data_size t h)
          λ _ long u k.
            Gives-then (λ n. n ≡ first_byte (drop 7 p)) FitsAdu IsSound
              (at_result (get_elem? p 7), u) (λ function. dispatch s function p)
              (Gives-result _ IsSound _ u (at-Returning U 7 p) k)
              λ function same v l.
                dispatch-Gives function p v b
                  (λ m. lacks (ground arith) (subst (λ n. length p < needed n p) same m)) l)
        (on_exception-Gives s)
