-- ===== src/RequestHandler/Bounds/Answering.antt =====
-- `handle` on packets of any bytes, and on those that are long enough.
use modbus_cpp.Prelude.{
  ◌+◌, ◌-◌, ◌≡◌, ◌≢◌, refl, ◌==◌, if◌then◌else◌, [], ◌∷◌, ◌++◌, length, length-append, All, arith,
}
use modbus_cpp.Types.{Packet, IsByte}
use modbus_cpp.Errors.{
  Exception, specification, internal, out_of_range, std_exception, Result, ok, throw, undefined,
  bad_data,
}
use modbus_cpp.Actions.{Action, handle_with}
use modbus_cpp.Actions.Gives.{Gives}
use modbus_cpp.Struc.{Struc, IsBigEndian}
use modbus_cpp.Struc.Numbers.{length-pack}
use modbus_cpp.Adu.{calc_adu_length, calc_length, header_func_format, header_packet}
use modbus_cpp.Response.{ErrorResponse, make_error, encode_error, pop_back, error_format}
use modbus_cpp.Device.Meets.{IsSound}
use modbus_cpp.Table.{Table}
use modbus_cpp.RequestHandler.{on_exception, handle}
use modbus_cpp.RequestHandler.Bounds.{FitsAdu}
use modbus_cpp.RequestHandler.Bounds.Handle.{IsComplete, handle-Gives}

-- A call that does not throw.
abbrev Unthrown : {A : Type 0} → Result A → Type 0
Unthrown {A} r = (e : Exception) → r ≢ throw e

sized-Unthrown :
    (p : Packet)
    → length p ≡ calc_adu_length 1
    → Unthrown (if length p == calc_adu_length 1 then ok p else throw bad_data)
sized-Unthrown p h e f = ground arith

length-pop_back : (p : Packet) → length (pop_back p) ≡ length p - 1
length-pop_back [] = refl
length-pop_back (x ∷ []) = refl
length-pop_back (x ∷ y ∷ p) = omega (arith, length-pop_back (y ∷ p))

caught-Unthrown :
    (x : Result Packet × Table) (f : Exception → Action Table Packet)
    → ((e : Exception) (t : Table) → Unthrown (f e t).0)
    → Unthrown (handle_with x f).0
caught-Unthrown (ok p, t) f h e k = cc
caught-Unthrown (throw x, t) f h e k = h x t e k
caught-Unthrown (undefined, t) f h e k = cc

answered :
    (P : Packet → Type 0) (x : Result Packet × Table)
    → Gives ⊥ P IsSound x
    → Unthrown x.0
    → (q : Packet) × (x.0 ≡ ok q) × P q
answered P (ok q, t) g h = (q, refl, g.value)
answered P (throw e, t) g h = absurd (h e refl)
answered P (undefined, t) g h = absurd g.value

module _ (s : Struc) (laws : IsBigEndian s) where
  error-Unthrown : (r : ErrorResponse) → Unthrown (encode_error s r)
  unfolding encode_error
  error-Unthrown r =
      let adu = calc_length 1 r.base.adu in
      sized-Unthrown
        (pop_back (header_packet s adu) ++ s.pack error_format (adu.function + 0x80, (r.ec, tt)))
        (rw
          (
            length-append (pop_back (header_packet s adu))
                (s.pack error_format (adu.function + 0x80, (r.ec, tt))),
            length-pop_back (header_packet s adu),
            length-pack s laws header_func_format _,
            length-pack s laws error_format _,
          )
          (omega arith))

  on_exception-Unthrown : (e : Exception) (t : Table) → Unthrown (on_exception s e t).0
  unfolding on_exception
  on_exception-Unthrown (specification code function h) t e k =
      error-Unthrown (make_error code function h) e k
  on_exception-Unthrown (internal code) t e k = cc
  on_exception-Unthrown out_of_range t e k = cc
  on_exception-Unthrown std_exception t e k = cc

  handle-Unthrown : (p : Packet) (t : Table) → Unthrown (handle s p t).0
  unfolding handle
  handle-Unthrown p t = caught-Unthrown _ (on_exception s) on_exception-Unthrown

  -- Whatever bytes a packet consists of and however `handle` ends, a packet that it returns is at
  -- most 260 bytes long, and each block of the table has a cell for each of its addresses and its
  -- registers are 16-bit numbers, if this was so before. Assumed: struc is big-endian.
  pub handle_kept :
      (p : Packet) (t : Table)
      → All IsByte p
      → IsSound t
      → Gives (Unit {0}) FitsAdu IsSound (handle s p t)
  handle_kept p t b h = handle-Gives s laws p t b (λ _ _. tt) h

  -- On a packet of bytes that has no function code or is as long as its function needs, `handle`
  -- returns a packet, empty or not, of at most 260 bytes: it neither throws nor reads or writes
  -- out of bounds. Assumed: struc is big-endian, each block has a cell for each of its addresses
  -- and the registers fit 16 bits.
  pub handle_answers :
      (p : Packet) (t : Table)
      → All IsByte p
      → IsComplete p
      → IsSound t
      → (q : Packet) × ((handle s p t).0 ≡ ok q) × FitsAdu q
  handle_answers p t b c h =
      answered FitsAdu (handle s p t)
        (handle-Gives s laws p t b (λ k l. let m = c k in absurd (omega arith)) h)
        (handle-Unthrown p t)
