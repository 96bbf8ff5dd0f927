-- ===== src/RequestHandler/Bounds.antt =====
-- The length of answers, the table that is left, and undefined behaviour, for packets of any bytes.
-- This module has the rules for a request class, and its children apply them. In all of them `U` is
-- what holds if the packet is too short.
pub mod Decoding
pub mod Reading
pub mod Coils
pub mod Registers
pub mod Masking
pub mod ReadWriting
pub mod Handle
pub mod Answering
use modbus_cpp.Prelude.{
  ℕ, ◌≤◌, ◌≡◌, ◌≢◌, refl, Bool, true, false, not, ◌++◌, length, length-append, arith,
}
use modbus_cpp.Constants.{max_adu_length}
use modbus_cpp.Types.{Packet}
use modbus_cpp.Errors.{Exception, Result, ok, throw, undefined, or_throw, ◌>>=◌ as and_then_result}
use modbus_cpp.Actions.{Action}
use modbus_cpp.Actions.Gives.{Returning, Any, Gives, Gives-then, Gives-result}
use modbus_cpp.Struc.{Struc, IsBigEndian, Format, Args, size}
use modbus_cpp.Struc.Numbers.{length-pack}
use modbus_cpp.Adu.{Adu, header_func_format, header_packet}
use modbus_cpp.Block.{Block}
use modbus_cpp.Request.{check_response_packet}
use modbus_cpp.Table.{Table, with_coils, with_holding_registers}
use modbus_cpp.Device.Meets.{IsSound}
use modbus_cpp.Pointing.{Pointing, after_set}
use modbus_cpp.RequestHandler.{serve, reading, writing}

-- A packet that fits the largest ADU.
abbrev pub FitsAdu : Packet → Type 0
FitsAdu p = length p ≤ max_adu_length

-- `P` of the response, and a sound table that it points to.
abbrev pub Pointed : {R : Type 0} → (R → Type 0) → Pointing R → Type 0
Pointed P w = P w.0 × IsSound w.1

module _ {U Q R : Type 0} (D : Q → Type 0) (E : R → Type 0) (decoded : Result (Unit {0}) × Q)
    (execute : Q → Table → Result R) (encode : R → Action Table Packet) where
  pub serve-Gives :
      Gives U Any D decoded
      → ((q : Q) → D q → (t : Table) → IsSound t → Returning U E (execute q t))
      → ((r : R) → E r → (t : Table) → IsSound t → Gives U FitsAdu IsSound (encode r t))
      → (t : Table) → IsSound t
      → Gives U FitsAdu IsSound (serve decoded execute encode t)
  serve-Gives d x e t h =
      Gives-then Any FitsAdu IsSound (decoded.0, t) _
        (Gives-result Any IsSound decoded.0 t d.value h)
        λ _ _ u k.
          Gives-then E FitsAdu IsSound (execute decoded.1 u, u) encode
            (Gives-result E IsSound (execute decoded.1 u) u (x decoded.1 d.left u k) k) e

module _ {U R : Type 0} (P : R → Type 0) where
  pub writing-Gives :
      (encode : Action (Pointing R) Packet)
      → ((w : Pointing R) → Pointed P w → Gives U FitsAdu (Pointed P) (encode w))
      → (r : R) → P r
      → (t : Table) → IsSound t
      → Gives U FitsAdu IsSound (writing encode r t)
  writing-Gives encode h r p t k =
      let g = h (r, t) (p, k) in record { value = g.value; left = g.left.1 }

  pub reading-Gives :
      (encode : Table → Action R Packet)
      → ((t : Table) → IsSound t → (r : R) → P r → Gives U FitsAdu P (encode t r))
      → (r : R) → P r
      → (t : Table) → IsSound t
      → Gives U FitsAdu IsSound (reading encode r t)
  reading-Gives encode h r p t k = record { value = (h t k r p).value; left = k }

  pub set_registers-Gives :
      (r : Result (Block ℕ)) (w : Pointing R)
      → Pointed P w
      → r ≢ undefined
      → ((b : Block ℕ) → r ≡ ok b → IsSound (with_holding_registers b w.1))
      → Gives U Any (Pointed P) (after_set with_holding_registers r w)
  set_registers-Gives (ok b) w h d k = record { value = tt; left = (h.0, k b refl) }
  set_registers-Gives (throw e) w h d k = record { value = tt; left = h }
  set_registers-Gives undefined w h d k = absurd (d refl)

  pub set_coils-Gives :
      (r : Result (Block Bool)) (w : Pointing R)
      → Pointed P w
      → r ≢ undefined
      → ((b : Block Bool) → r ≡ ok b → IsSound (with_coils b w.1))
      → Gives U Any (Pointed P) (after_set with_coils r w)
  set_coils-Gives (ok b) w h d k = record { value = tt; left = (h.0, k b refl) }
  set_coils-Gives (throw e) w h d k = record { value = tt; left = h }
  set_coils-Gives undefined w h d k = absurd (d refl)

-- An answer that passes the check of its length, and a length within the ADU.
pub checked-FitsAdu :
    (n : ℕ) (p : Packet) → not (check_response_packet n p) ≡ false → n ≤ max_adu_length → FitsAdu p
checked-FitsAdu n p e h = ground arith

-- The header of an answer, and the fields behind it.
pub header_packet-FitsAdu :
    (s : Struc)
    → IsBigEndian s
    → (adu : Adu) (f : Format) (a : Args f) → size f ≤ 252
    → FitsAdu (header_packet s adu ++ s.pack f a)
header_packet-FitsAdu s laws adu f a h =
    rw
      (
        length-append (header_packet s adu) (s.pack f a),
        length-pack s laws f a,
        length-pack s laws header_func_format _,
      )
      (omega arith)

-- Two tests before the rest of an `execute`.
pub tested-Returning :
    (U : Type 0) {R : Type 0} (P : R → Type 0) (invalid : Bool) (e : Exception)
    (valid : Result Bool) (f : Exception) (rest : Result R)
    → valid ≢ undefined
    → (valid ≡ ok true → Returning U P rest)
    → Returning U P (or_throw invalid e (and_then_result valid λ v. or_throw (not v) f rest))
tested-Returning U P true e valid f rest d h = tt
tested-Returning U P false e (ok true) f rest d h = h refl
tested-Returning U P false e (ok false) f rest d h = tt
tested-Returning U P false e (throw x) f rest d h = tt
tested-Returning U P false e undefined f rest d h = absurd (d refl)

-- An `execute` that makes the response if two tests allow it.
pub executed-Returning :
    (U : Type 0) {R : Type 0} (P : R → Type 0) (invalid : Bool) (value address : Exception)
    (valid : Result Bool) (r : R)
    → valid ≢ undefined
    → (valid ≡ ok true → P r)
    → Returning U P
        (or_throw invalid value (and_then_result valid λ v. or_throw (not v) address (ok r)))
executed-Returning U P invalid value address valid r d h =
    tested-Returning U P invalid value valid address (ok r) d h
