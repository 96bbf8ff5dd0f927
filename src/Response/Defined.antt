-- ===== src/Response/Defined.antt =====
-- `response::decode` on any packet.
use modbus_cpp.Prelude.{◌+◌, ◌≤◌, ◌≡◌, refl, not, length, get_elem?, arith}
use modbus_cpp.Types.{Packet}
use modbus_cpp.Errors.{
  Exception, specification, internal, out_of_range, std_exception, ok, at_result,
}
use modbus_cpp.Actions.{focus, and_then, gets}
use modbus_cpp.Actions.Gives.{
  Returning, Returning-defined, Any, Gives, Gives-then, Gives-caught, Gives-result, Gives-either,
}
use modbus_cpp.Struc.{Struc, IsBigEndian, unpack_at}
use modbus_cpp.Struc.Numbers.{Found, unpack_at-Found}
use modbus_cpp.Adu.{header_length, header_func_format, decode_header}
use modbus_cpp.Response.{
  Stage, bad, error, passed, Response, on_adu, Derived, initial_check, header_matches, check_code,
  check_stage, check_fields, decode, on_stage, range_to_bad_data,
}
use modbus_cpp.Adu.Reading.{header-Returning, at_defined}

module _ (s : Struc) (laws : IsBigEndian s) where
  staged :
      (p : Packet) (r : Response)
      → Gives ⊥ (λ st. st ≡ passed → 8 ≤ length p) Any (check_stage s p r)
  unfolding check_stage
  staged p r =
      Gives-either _ Any (not (initial_check p)) (ok bad, r) _
        (λ e. record { value = λ f. absurd (cc); left = tt })
        λ long.
          Gives-then (Found header_func_format p) _ Any (unpack_at s header_func_format p 0, r)
            (check_fields s p)
            (Gives-result _ Any _ r
              (unpack_at-Found s laws ⊥ header_func_format p 0 (λ l. ground arith)) tt)
            λ a _ u _.
              Gives-either _ Any (not (header_matches u.req_header (length p) a)) (ok bad, u)
                (and_then (on_adu (decode_header s p) u) λ _. gets (λ r'. check_code r'.adu))
                (λ e. record { value = λ f. ground arith; left = tt })
                λ e.
                  Gives-then Any _ Any (on_adu (decode_header s p) u)
                    (λ _. gets (λ r'. check_code r'.adu))
                    (Gives-result Any Any _ _
                      (header-Returning s laws ⊥ p u.adu (λ l. ground arith)) tt)
                    λ _ _ v _. record { value = λ f. ground arith; left = tt }

  ranged :
      {R : Type 0} (e : Exception) (r : R) → Gives ⊥ {A = Unit {0}} Any Any (range_to_bad_data e r)
  ranged out_of_range r = record { value = tt; left = tt }
  ranged (specification c f h) r = record { value = tt; left = tt }
  ranged (internal c) r = record { value = tt; left = tt }
  ranged std_exception r = record { value = tt; left = tt }

  module _ {R : Type 0} (d : Derived R) where
    on_stage-Gives :
        (p : Packet) (st : Stage) (r : R)
        → (st ≡ passed → 8 ≤ length p)
        → ((r : R) → 8 ≤ length p → Returning ⊥ Any (d.decode_passed p r).0)
        → Gives ⊥ Any Any (on_stage s d p st r)
    on_stage-Gives p bad r h k = record { value = tt; left = tt }
    on_stage-Gives p error r h k =
        Gives-then Any Any Any (at_result (get_elem? p (header_length + 1)), r) _
          (Gives-result Any Any _ r (Returning-defined ⊥ _ (at_defined (get_elem? p 8))) tt)
          λ _ _ _ _. record { value = tt; left = tt }
    on_stage-Gives p passed r h k = record { value = k r (h refl); left = tt }

    -- If `decode_passed` has a defined result on packets with a function code, so has `decode` on
    -- all packets.
    pub decode-Returning :
        (p : Packet) (r : R)
        → ((r : R) → 8 ≤ length p → Returning ⊥ Any (d.decode_passed p r).0)
        → Returning ⊥ Any (decode s d p r).0
    unfolding decode
    decode-Returning p r k =
        let caught : Gives ⊥ {A = Unit {0}} Any Any (decode s d p r) =
          Gives-caught Any Any _ range_to_bad_data
            (Gives-then (λ st. st ≡ passed → 8 ≤ length p) Any Any
              (focus d.base d.set_base (check_stage s p) r) (on_stage s d p)
              (record { value = (staged p (d.base r)).value; left = tt })
              λ st h u _. on_stage-Gives p st u h k)
            (λ e u _. ranged e u) in
        caught.value
