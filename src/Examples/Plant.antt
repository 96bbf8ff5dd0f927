-- ===== src/Examples/Plant.antt =====
-- A table of a plant, and the header of a packet.
use modbus_cpp.Prelude.{ℕ, Bool, true, false, [], ◌∷◌, arith}
use modbus_cpp.Frame
use modbus_cpp.Frame.{Mbap}
use modbus_cpp.Block.{Block}
use modbus_cpp.Block.Range.{IsValid}
use modbus_cpp.Table.{Table}

abbrev pub valves : Block Bool
valves = record {
  starting_address = 0;
  container = false ∷ true ∷ false ∷ [];
  capacity = 3;
  default_value = false;
}

abbrev pub levels : Block ℕ
levels = record {
  starting_address = 10;
  container = 1 ∷ 500 ∷ 3 ∷ [];
  capacity = 3;
  default_value = 0;
}

abbrev pub plant : Table
plant = record {
  coils = valves;
  discrete_inputs = valves;
  holding_registers = levels;
  input_registers = levels;
}

abbrev pub mbap : Mbap
mbap = record { transaction = 300; protocol = 0; length = 6; unit = 1 }

pub mbap-IsValid : Frame.IsValid mbap
mbap-IsValid = record { transaction = omega arith; unit = omega arith }

pub valves-IsValid : IsValid valves
valves-IsValid = record { start = omega arith; full = omega arith }

pub levels-IsValid : IsValid levels
levels-IsValid = record { start = omega arith; full = omega arith }
