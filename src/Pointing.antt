-- ===== src/Pointing.antt =====
-- A response that writes, beside the table that its `data_table_` points to.
use modbus_cpp.Prelude.{ℕ, Bool}
use modbus_cpp.Errors.{Result, ok, throw, undefined}
use modbus_cpp.Actions.{Action, focus}
use modbus_cpp.Block.{Block}
use modbus_cpp.Table.{Table, with_coils, with_holding_registers}

abbrev pub Pointing : Type 0 → Type 0
Pointing R = R × Table

module _ {R : Type 0} where
  abbrev pub on_response {ℓ} : {A : Type ℓ} → Action R A → Action (Pointing R) A
  on_response = focus (λ w. w.0) (λ r w. (r, w.1))

  -- A `set` leaves the block as it was when it throws.
  abbrev pub after_set {ℓ} :
      {B : Type ℓ} → (B → Table → Table) → Result B → Action (Pointing R) (Unit {0})
  after_set put (ok b) (r, t) = (ok tt, (r, put b t))
  after_set put (throw e) w = (throw e, w)
  after_set put undefined w = (undefined, w)

  -- `data_table()->coils().set(…)`
  abbrev pub set_coils : (Pointing R → Result (Block Bool)) → Action (Pointing R) (Unit {0})
  set_coils f w = after_set with_coils (f w) w

  -- `data_table()->holding_registers().set(…)`
  abbrev pub set_holding_registers :
      (Pointing R → Result (Block ℕ)) → Action (Pointing R) (Unit {0})
  set_holding_registers f w = after_set with_holding_registers (f w) w
