-- ===== src/Table/Valid.antt =====
-- Tables whose blocks all have a cell for each of their addresses.
use modbus_cpp.Prelude.{ℕ, Bool, false, sym, subst, ◌∙◌}
use modbus_cpp.Types.{IsU16}
use modbus_cpp.Block.{Block}
use modbus_cpp.Block.Range.{IsValid, make-IsValid}
use modbus_cpp.Block.Kept.{SameShape}
use modbus_cpp.Table.{Table, Initializer, make}
use modbus_cpp.Table.Kept.{SameLayout}

pub record AllValid (t : Table) : Type 0 where
  pub coils : IsValid t.coils
  pub discrete_inputs : IsValid t.discrete_inputs
  pub holding_registers : IsValid t.holding_registers
  pub input_registers : IsValid t.input_registers

pub SameShape-IsValid : {A : Type 0} (b b' : Block A) → SameShape b b' → IsValid b → IsValid b'
SameShape-IsValid b b' h v = record {
  start = subst IsU16 (sym h.start) v.start;
  full = h.cells ∙ v.full ∙ sym h.capacity;
}

pub SameLayout-AllValid : (t t' : Table) → SameLayout t t' → AllValid t → AllValid t'
SameLayout-AllValid t t' h v = record {
  coils = SameShape-IsValid t.coils t'.coils h.coils v.coils;
  discrete_inputs = subst (λ b. IsValid b) (sym h.discrete_inputs) v.discrete_inputs;
  holding_registers =
      SameShape-IsValid t.holding_registers t'.holding_registers h.holding_registers
        v.holding_registers;
  input_registers = subst (λ b. IsValid b) (sym h.input_registers) v.input_registers;
}

pub make-AllValid :
    (c d : Initializer Bool) (h i : Initializer ℕ)
    → IsU16 c.starting_address
    → IsU16 d.starting_address
    → IsU16 h.starting_address
    → IsU16 i.starting_address
    → AllValid (make c d h i)
unfolding make
make-AllValid c d h i p q r t = record {
  coils = make-IsValid false c.starting_address c.capacity c.default_value p;
  discrete_inputs = make-IsValid false d.starting_address d.capacity d.default_value q;
  holding_registers = make-IsValid 0 h.starting_address h.capacity h.default_value r;
  input_registers = make-IsValid 0 i.starting_address i.capacity i.default_value t;
}
