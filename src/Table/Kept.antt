-- ===== src/Table/Kept.antt =====
-- What every write through a table keeps: the inputs, and the addresses of the rest.
use modbus_cpp.Prelude.{ℕ, ◌≡◌, refl, ◌∙◌, Bool, true, false}
use modbus_cpp.Errors.{
  Exception, specification, internal, out_of_range, std_exception, Result, ok, throw, undefined,
}
use modbus_cpp.Actions.{Action, and_then, pure, handle_with, if_then_throw, rethrow_range}
use modbus_cpp.Block.{Block}
use modbus_cpp.Block.Kept.{SameShape, SameShape-refl, SameShape-trans}
use modbus_cpp.Table.{Table, with_coils, with_holding_registers}
use modbus_cpp.Pointing.{Pointing, after_set}

pub record SameLayout (t t' : Table) : Type 0 where
  pub coils : SameShape t.coils t'.coils
  pub holding_registers : SameShape t.holding_registers t'.holding_registers
  pub discrete_inputs : t'.discrete_inputs ≡ t.discrete_inputs
  pub input_registers : t'.input_registers ≡ t.input_registers

pub SameLayout-refl : (t : Table) → SameLayout t t
SameLayout-refl t = record {
  coils = SameShape-refl t.coils;
  holding_registers = SameShape-refl t.holding_registers;
  discrete_inputs = refl;
  input_registers = refl;
}

pub SameLayout-trans : (t u v : Table) → SameLayout t u → SameLayout u v → SameLayout t v
SameLayout-trans t u v h k = record {
  coils = SameShape-trans t.coils u.coils v.coils h.coils k.coils;
  holding_registers =
      SameShape-trans t.holding_registers u.holding_registers v.holding_registers
        h.holding_registers k.holding_registers;
  discrete_inputs = k.discrete_inputs ∙ h.discrete_inputs;
  input_registers = k.input_registers ∙ h.input_registers;
}

module _ {R : Type 0} where
  -- A call on a response that began with the table `t` has left it with the same layout.
  pub record Left {A : Type 0} (t : Table) (x : Result A × Pointing R) : Type 0 where
    pub layout : SameLayout t x.1.1

  pub Left-same : {A : Type 0} (r : Result A) (w : Pointing R) → Left w.1 (r, w)
  Left-same r w = record { layout = SameLayout-refl w.1 }

  pub Left-then :
      {A B : Type 0} (t : Table) (x : Result A × Pointing R) (f : A → Action (Pointing R) B)
      → Left t x
      → ((a : A) (w : Pointing R) → Left w.1 (f a w))
      → Left t (and_then x f)
  Left-then t (ok a, w) f h k = record {
    layout = SameLayout-trans t w.1 (f a w).1.1 h.layout (k a w).layout;
  }
  Left-then t (throw e, w) f h k = record { layout = h.layout }
  Left-then t (undefined, w) f h k = record { layout = h.layout }

  pub Left-caught :
      {A : Type 0} (t : Table) (x : Result A × Pointing R) (f : Exception → Action (Pointing R) A)
      → Left t x
      → ((e : Exception) (w : Pointing R) → Left w.1 (f e w))
      → Left t (handle_with x f)
  Left-caught t (ok a, w) f h k = h
  Left-caught t (throw e, w) f h k = record {
    layout = SameLayout-trans t w.1 (f e w).1.1 h.layout (k e w).layout;
  }
  Left-caught t (undefined, w) f h k = h

  pub Left-thrown :
      (failed : Bool) (e : Exception) (w : Pointing R) → Left w.1 (if_then_throw failed e w)
  Left-thrown true e w = Left-same (throw e) w
  Left-thrown false e w = Left-same (ok tt) w

  pub Left-checked :
      {A : Type 0} (failed : Bool) (e : Exception) (a : A) (w : Pointing R)
      → Left w.1 (and_then (if_then_throw failed e w) (λ _. pure a))
  Left-checked true e a w = Left-same (throw e) w
  Left-checked false e a w = Left-same (ok a) w

  pub Left-rethrow :
      (A : Type 0) (a e : Pointing R → Exception) (x : Exception) (w : Pointing R)
      → Left w.1 (rethrow_range {A = A} a e x w)
  Left-rethrow A a e out_of_range w = Left-same (throw (a w)) w
  Left-rethrow A a e (specification c f h) w = Left-same (throw (e w)) w
  Left-rethrow A a e (internal c) w = Left-same (throw (e w)) w
  Left-rethrow A a e std_exception w = Left-same (throw (e w)) w

  pub Left-set_coils :
      (r : Result (Block Bool)) (w : Pointing R)
      → ((b : Block Bool) → r ≡ ok b → SameShape w.1.coils b)
      → Left w.1 (after_set with_coils r w)
  Left-set_coils (ok b) w k = record {
    layout = record {
      coils = k b refl;
      holding_registers = SameShape-refl w.1.holding_registers;
      discrete_inputs = refl;
      input_registers = refl;
    };
  }
  Left-set_coils (throw e) w k = Left-same (throw e) w
  Left-set_coils undefined w k = Left-same undefined w

  pub Left-set_holding_registers :
      (r : Result (Block ℕ)) (w : Pointing R)
      → ((b : Block ℕ) → r ≡ ok b → SameShape w.1.holding_registers b)
      → Left w.1 (after_set with_holding_registers r w)
  Left-set_holding_registers (ok b) w k = record {
    layout = record {
      coils = SameShape-refl w.1.coils;
      holding_registers = k b refl;
      discrete_inputs = refl;
      input_registers = refl;
    };
  }
  Left-set_holding_registers (throw e) w k = Left-same (throw e) w
  Left-set_holding_registers undefined w k = Left-same undefined w
