-- ===== src/Table.antt =====
-- `modbus::table` of include/modbuscpp/modbuscpp/data-table.hpp and source/data-table.cpp.
pub mod Kept
pub mod Valid
use modbus_cpp.Prelude.{ℕ, Bool, true, false}
use modbus_cpp.Types.{num_bits_validate, num_regs_validate}
use modbus_cpp.Block
use modbus_cpp.Block.{Block}

-- `sequential::initializer_t`
pub record Initializer {ℓ} (A : Type ℓ) : Type ℓ where
  pub starting_address : ℕ
  pub capacity : ℕ
  pub default_value : A

pub record Table : Type 0 where
  pub coils : Block Bool
  pub discrete_inputs : Block Bool
  pub holding_registers : Block ℕ
  pub input_registers : Block ℕ

-- `sequential(initializer)`
unfoldable pub from_initializer : {A : Type 0} → A → Initializer A → Block A
from_initializer zero_value i = Block.make zero_value i.starting_address i.capacity i.default_value

-- `table(initializer)`
unfoldable pub make : Initializer Bool → Initializer Bool → Initializer ℕ → Initializer ℕ → Table
unfolding from_initializer
make c d h i = record {
  coils = from_initializer false c;
  discrete_inputs = from_initializer false d;
  holding_registers = from_initializer 0 h;
  input_registers = from_initializer 0 i;
}

-- The default argument of `table(initializer)`.
abbrev pub default_initializer : {A : Type 0} → A → Initializer A
default_initializer zero_value = record {
  starting_address = 0x00;
  capacity = Block.max_capacity;
  default_value = zero_value;
}

abbrev pub with_coils : Block Bool → Table → Table
with_coils b t = record t { coils = b }

abbrev pub with_holding_registers : Block ℕ → Table → Table
with_holding_registers b t = record t { holding_registers = b }

-- The count types of `block::bits` and `block::registers`.
abbrev pub read_num_bits : ℕ → Bool
read_num_bits = num_bits_validate false

abbrev pub write_num_bits : ℕ → Bool
write_num_bits = num_bits_validate true

abbrev pub read_num_regs : ℕ → Bool
read_num_regs = num_regs_validate false

abbrev pub write_num_regs : ℕ → Bool
write_num_regs = num_regs_validate true
