-- ===== src/Client/Robust.antt =====
-- What a client does with an answer of any bytes.
pub mod Acknowledged
pub mod Filled
pub mod Decoding
use modbus_cpp.Prelude.{
  ℕ, ◌+◌, ◌≤◌, ◌<◌, ◌≡◌, refl, not, ◌==◌, Bool, true, false, List, length, drop, arith,
}
use modbus_cpp.Types.{Packet}
use modbus_cpp.Errors.{Exception, Result, bad_data}
use modbus_cpp.Actions.{
  Action, and_then, lift, modify, throw_if, if_then_throw, try_catch, rethrow_all, ◌>>=◌, ◌>>◌,
}
use modbus_cpp.Actions.Gives.{
  Returning, Any, Gives, Gives-then, Gives-caught, Gives-result, Gives-rethrow_all,
}
use modbus_cpp.Struc.{Struc, IsBigEndian, Format, Args, size, unpack_at}
use modbus_cpp.Struc.Numbers.{Found, unpack_at-Found}
use modbus_cpp.Adu.{header_length}

-- A call whose behaviour is defined.
abbrev pub Defined : {R : Type 0} → Result (Unit {0}) × R → Type 0
Defined x = Gives ⊥ Any Any x

module _ {R : Type 0} where
  abbrev pub Tame : Action R (Unit {0}) → Type 0
  Tame m = (u : R) → Defined (m u)

  -- A test, and the rest of the call if it does not throw.
  pub tested-Defined :
      (c : Bool) (e : Exception) (u : R) (m : Action R (Unit {0}))
      → (c ≡ false → Defined (m u))
      → Defined (and_then (if_then_throw c e u) (λ _. m))
  tested-Defined true e u m h = record { value = tt; left = tt }
  tested-Defined false e u m h = h refl

  pub test-Tame :
      (test : R → Bool) (m : Action R (Unit {0}))
      → Tame m
      → Tame (do throw_if test (λ _. bad_data); m)
  test-Tame test m h u = tested-Defined (test u) bad_data u m (λ _. h u)

  pub last-Tame : (test : R → Bool) → Tame (throw_if test (λ _. bad_data))
  last-Tame test u = thrown (test u)
    where
      thrown : (c : Bool) → Defined (if_then_throw c bad_data u)
      thrown true = record { value = tt; left = tt }
      thrown false = record { value = tt; left = tt }

  pub modify-Tame : (f : R → R) → Tame (modify f)
  modify-Tame f u = record { value = tt; left = tt }

-- A `decode_passed` that unpacks the fields of a packet of a fixed length.
module _ {R : Type 0} (s : Struc) (f : Format) (response_size : R → ℕ)
    (rest : Args f → Action R (Unit {0})) where
  abbrev pub fields_with : Packet → Action R (Unit {0})
  fields_with p =
      try_catch
        (do
          throw_if (λ r. not (length p == response_size r)) (λ _. bad_data)
          a ← lift (unpack_at s f p (header_length + 1))
          rest a)
        (rethrow_all λ _. bad_data)

  pub fields_with-Defined :
      IsBigEndian s
      → (p : Packet) (r : R) → 8 + size f ≤ response_size r
      → ((a : Args f) → Tame (rest a))
      → Defined (fields_with p r)
  fields_with-Defined laws p r h k =
      Gives-caught Any Any _ (rethrow_all λ _. bad_data)
        (tested-Defined (not (length p == response_size r)) bad_data r
          (do a ← lift (unpack_at s f p (header_length + 1)); rest a)
          λ e.
            Gives-then (Found f (drop 8 p)) Any Any (unpack_at s f p 8, r) rest
              (Gives-result (Found f (drop 8 p)) Any _ r
                (unpack_at-Found s laws ⊥ f p 8 (λ l. ground arith)) tt)
              λ a _ u _. k a u)
        (λ x u h. Gives-rethrow_all Any Any (λ _. bad_data) x u h)
