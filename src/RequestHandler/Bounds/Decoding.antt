-- ===== src/RequestHandler/Bounds/Decoding.antt =====
-- What the `decode`s of the requests have in common.
use modbus_cpp.Prelude.{
  ℕ, zero, suc, ◌+◌, ◌*◌, ◌<◌, ◌≡◌, refl, sym, ap, ◌∙◌, drop-add, true, false, Bool, get_elem?,
  List, length, drop, All, All-drop, arith,
}
use modbus_cpp.Types.{Packet, IsByte, IsU16}
use modbus_cpp.Errors.{Exception, Result, bad_data, at_result}
use modbus_cpp.Actions.{
  Action, and_then, lift, read, throw_if, if_then_throw, modify, focus, try_catch, rethrow_all,
  ◌>>=◌, ◌>>◌,
}
use modbus_cpp.Actions.Gives.{
  Returning, Returning->>=, Returning-defined, Any, Gives, Gives-then, Gives-caught, Gives-result,
  Gives-thrown, Gives-rethrow_all,
}
use modbus_cpp.Struc.{Struc, IsBigEndian, Format, Args, size, unpack_at}
use modbus_cpp.Struc.Numbers.{first_byte, Found, unpack_at-Found, short-IsU16}
use modbus_cpp.Adu.{Adu, header_length, decode_header}
use modbus_cpp.Adu.Reading.{at_defined, header-Returning}
use modbus_cpp.Registers.{register_format, unpack_registers}

-- The byte behind two fields of 16 bits, and behind four.
pub first_byte-twelve :
    (p : Packet) → first_byte (drop 2 (drop 2 (drop 8 p))) ≡ first_byte (drop 12 p)
first_byte-twelve p = ap first_byte (sym (drop-add 10 2 p ∙ ap (drop 2) (drop-add 8 2 p)))

pub first_byte-sixteen :
    (p : Packet)
    → first_byte (drop 2 (drop 2 (drop 2 (drop 2 (drop 8 p))))) ≡ first_byte (drop 16 p)
first_byte-sixteen p =
    ap (λ q. first_byte (drop 2 (drop 2 q))) (sym (drop-add 10 2 p ∙ ap (drop 2) (drop-add 8 2 p)))
    ∙ ap first_byte (sym (drop-add 14 2 p ∙ ap (drop 2) (drop-add 12 2 p)))

module _ (s : Struc) (laws : IsBigEndian s) where
  pub unpack_registers-IsU16 :
      (U : Type 0) (p : Packet) (offset n : ℕ)
      → All IsByte p
      → (length p < offset + 2 * n → U)
      → Returning U (All IsU16) (unpack_registers s p offset n)
  unfolding unpack_registers
  unpack_registers-IsU16 U p offset zero h lacks = tt
  unpack_registers-IsU16 U p offset (suc n) h lacks =
      Returning->>= U (All IsU16) (Found register_format (drop offset p))
        (unpack_at s register_format p offset) _
        (unpack_at-Found s laws U register_format p offset (λ l. lacks (omega arith)))
        λ a found.
          Returning->>= U (All IsU16) (All IsU16) (unpack_registers s p (offset + 2) n) _
            (unpack_registers-IsU16 U p (offset + 2) n h (λ l. lacks (omega arith)))
            λ buffer k. (short-IsU16 a.0 (drop offset p) found.0 (All-drop IsByte offset p h), k)

module _ {R : Type 0} (s : Struc) (f : Format) (D : R → Type 0) (adu : R → Adu) (put : Adu → R → R)
    (wrong : ℕ → R → Bool) (rest : Args f → Action R (Unit {0})) (e : R → Exception) where
  abbrev pub decode_with : Packet → Action R (Unit {0})
  decode_with p =
      try_catch
        (do
          code ← lift (at_result (get_elem? p header_length))
          throw_if (wrong code) (λ _. bad_data)
          focus adu put (decode_header s p)
          a ← lift (unpack_at s f p (header_length + 1))
          rest a)
        (rethrow_all e)

  pub decode_with-Gives :
      {U : Type 0}
      → IsBigEndian s
      → (p : Packet) → (length p < 8 + size f → U)
      → ((a : Adu) (r : R) → D r → D (put a r))
      → ((a : Args f) → Found f (drop 8 p) a → (r : R) → D r → Gives U Any D (rest a r))
      → (r : R) → D r
      → Gives U Any D (decode_with p r)
  decode_with-Gives {U} laws p lacks keep after r d =
      let c : Result ℕ = at_result (get_elem? p header_length) in
      let found = unpack_at-Found s laws U f p 8 lacks in
      Gives-caught Any D _ (rethrow_all e)
        (Gives-then Any Any D (c, r) _
          (Gives-result Any D c r (Returning-defined U c (at_defined (get_elem? p header_length)))
            d)
          λ code _ u h.
            Gives-then _ Any D _ _ (Gives-thrown D (wrong code u) bad_data u h) λ _ _ v k.
              Gives-then Any Any D (focus adu put (decode_header s p) v) _
                (Gives-result Any D _ _
                  (header-Returning s laws U p (adu v) (λ l. lacks (omega arith))) (keep _ v k))
                λ _ _ w l.
                  Gives-then (Found f (drop 8 p)) Any D (unpack_at s f p 8, w) rest
                    (Gives-result (Found f (drop 8 p)) D (unpack_at s f p 8) w found l) after)
        (λ x u h. Gives-rethrow_all Any D e x u h)

-- The end of a `decode` that reads registers, after a test of their number.
pub values_read-Gives :
    {U R : Type 0} (D : R → Type 0) (wrong : R → Bool) (values : R → Result (List ℕ))
    (store : List ℕ → R → R)
    → ((u : R) → wrong u ≡ false → Returning U (All IsU16) (values u))
    → ((buffer : List ℕ) → All IsU16 buffer → (u : R) → D u → D (store buffer u))
    → (u : R) → D u
    → Gives U Any D
        ((do throw_if wrong (λ _. bad_data); buffer ← read values; modify (store buffer)) u)
values_read-Gives {U} D wrong values store fit keep u d = tested (wrong u) refl
  where
    tested :
        (c : Bool)
        → wrong u ≡ c
        → Gives U Any D (
            and_then
              (if_then_throw c bad_data u)
              (λ _. (do buffer ← read values; modify (store buffer))))
    tested true e = record { value = tt; left = d }
    tested false e =
        Gives-then (All IsU16) Any D (values u, u) (λ buffer. modify (store buffer))
          (Gives-result (All IsU16) D (values u) u (fit u e) d)
          λ buffer k x l. record { value = tt; left = keep buffer k x l }
