-- ===== src/Device/Meets.antt =====
-- When the server's answer to a packet is the one that the specification gives.
use modbus_cpp.Prelude.{
  ℕ, ◌-◌, ◌≡◌, sym, ap, subst, ◌∙◌, true, inl, inr, none, some, List, drop, take_exact, All, arith,
  Bool-cases,
}
use modbus_cpp.Types.{Packet, IsU16}
use modbus_cpp.Errors.{Result, ok}
use modbus_cpp.Frame.{Mbap}
use modbus_cpp.Block.{Block}
use modbus_cpp.Block.Range.{IsValid, InRange}
use modbus_cpp.Table.{Table}
use modbus_cpp.Table.Valid.{AllValid}
use modbus_cpp.Device.{Device, Reply, allowed, fetch}
use modbus_cpp.Device.View.{cells, view, collect-cells, collect-cells_out}
use modbus_cpp.Device.Wire.{reply_packet}

-- A table with a cell for each of its addresses, whose registers are 16-bit numbers.
pub record IsSound (t : Table) : Type 0 where
  pub valid : AllValid t
  pub holding : All IsU16 t.holding_registers.container
  pub input : All IsU16 t.input_registers.container

-- The call has returned the packet of the reply, and left a sound table for the new device.
pub record Meets (x : Result Packet × Table) (m : Mbap) (y : Reply × Device) : Type 0 where
  pub answer : x.0 ≡ ok (reply_packet m y.0)
  pub device : view x.1 ≡ y.1
  pub sound : IsSound x.1

pub Meets-eq :
    (x : Result Packet × Table) (m : Mbap) (y : Reply × Device) (r : Reply) (t : Table)
    → x ≡ (ok (reply_packet m r), t)
    → y ≡ (r, view t)
    → IsSound t
    → Meets x m y
Meets-eq x m y r t e f h = record {
  answer = ap (λ z. z.0) e ∙ ap (λ z. ok (reply_packet m z.0)) (sym f);
  device = ap (λ z. view z.1) e ∙ sym (ap (λ z. z.1) f);
  sound = subst IsSound (sym (ap (λ z. z.1) e)) h;
}

module _ {A : Type 0} (b : Block A) (v : IsValid b) where
  pub fetch_in :
      (limit address count : ℕ) (xs : List A)
      → allowed limit count ≡ true
      → InRange b address count
      → take_exact count (drop (address - b.starting_address) b.container) ≡ some xs
      → fetch limit (cells b) address count ≡ some xs
  fetch_in limit address count xs c r e = rw c (collect-cells b address count r.above ∙ e)

  pub fetch_out :
      (limit address count : ℕ)
      → ¬ (InRange b address count × (allowed limit count ≡ true))
      → fetch limit (cells b) address count ≡ none
  fetch_out limit address count out = elim (Bool-cases (allowed limit count)) [
    | inr e ↦ rw e
    | inl e ↦ rw e (collect-cells_out b address count v (ground arith) (λ r. out (r, e)))
  ]
