-- ===== src/Client.antt =====
-- A client and a server of the library: the client encodes a request, the server handles the
-- packet, and the client decodes the answer, as standalone/source/client.cpp does.
pub mod Registers
pub mod Robust
pub mod Refused
pub mod RegistersRefused
pub mod ReadWriting
pub mod Bits
pub mod CoilWriting
pub mod CoilsWriting
pub mod RegistersWriting
pub mod RegisterWriting
pub mod MaskWriting
use modbus_cpp.Types.{Packet}
use modbus_cpp.Errors.{Exception, Result, ok, throw, undefined}
use modbus_cpp.Actions.{Action}
use modbus_cpp.Prelude.{◌≡◌}
use modbus_cpp.Struc.{Struc}
use modbus_cpp.Table.{Table}
use modbus_cpp.Response.{Derived, decode}
use modbus_cpp.RequestHandler.{handle}

module _ {Q R : Type 0} (s : Struc) (d : Derived R) (make : Q → R) where
  abbrev received : Result (Unit {0}) × R → Table → Result R × Table
  received (ok _, r) t = (ok r, t)
  received (throw e, r) t = (throw e, t)
  received (undefined, r) t = (undefined, t)

  received_throw :
      (x : Result (Unit {0}) × R) (e : Exception) (t : Table)
      → x.0 ≡ throw e
      → received x t ≡ (throw e, t)
  received_throw (ok _, r) e t h = absurd (cc)
  received_throw (throw f, r) e t h = let same : f ≡ e = cc in rw same
  received_throw (undefined, r) e t h = absurd (cc)

  abbrev answered : Q → Result Packet × Table → Result R × Table
  answered q (ok answer, t) = received (decode s d answer (make q)) t
  answered q (throw e, t) = (throw e, t)
  answered q (undefined, t) = (undefined, t)

  abbrev sent : Result Packet × Q → Table → Result R × Table
  sent (ok packet, q) t = answered q (handle s packet t)
  sent (throw e, q) t = (throw e, t)
  sent (undefined, q) t = (undefined, t)

  -- The response that the client ends up with, and the server's table.
  unfoldable pub ask : Action Q Packet → Q → Table → Result R × Table
  ask encode q t = sent (encode q) t

  pub ask_lem :
      (encode : Action Q Packet) (q q' : Q) (packet answer : Packet) (r : R) (t t' : Table)
      → encode q ≡ (ok packet, q')
      → handle s packet t ≡ (ok answer, t')
      → decode s d answer (make q') ≡ (ok tt, r)
      → ask encode q t ≡ (ok r, t')
  unfolding ask
  ask_lem encode q q' packet answer r t t' e h k = rw (e, h, k)

  pub ask_throw :
      (encode : Action Q Packet) (q q' : Q) (packet answer : Packet) (e : Exception) (t t' : Table)
      → encode q ≡ (ok packet, q')
      → handle s packet t ≡ (ok answer, t')
      → (decode s d answer (make q')).0 ≡ throw e
      → ask encode q t ≡ (throw e, t')
  unfolding ask
  ask_throw encode q q' packet answer e t t' f h k =
      rw (f, h) (received_throw (decode s d answer (make q')) e t' k)
