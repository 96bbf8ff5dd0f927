-- ===== src/Examples/Refusing.antt =====
-- Packets that the plant refuses.
use modbus_cpp.Prelude.{false, Bool, ℕ, ◌+◌, ◌≡◌, refl, [], ◌∷◌, arith}
use modbus_cpp.Errors.{ok, undefined}
use modbus_cpp.Struc.BigEndian.{big_endian, big_endian-IsBigEndian}
use modbus_cpp.Frame.{frame, reply}
use modbus_cpp.Table.Kept.{SameLayout, SameLayout-refl}
use modbus_cpp.BitRead.Request as ReadBits
use modbus_cpp.BitRead.Serve as BitRead
use modbus_cpp.RegisterRead.Request as ReadRegisters
use modbus_cpp.RegisterRead.Serve as RegisterRead
use modbus_cpp.RegisterWrite.SingleRegister.Serve as SingleRegister
use modbus_cpp.RegisterWrite.MultipleRegisters.Serve as Multiple
use modbus_cpp.RequestHandler.{handle}
use modbus_cpp.RequestHandler.BitReading.{handle_read_bits_refused}
use modbus_cpp.RequestHandler.RegisterReading.{
  handle_read_registers_refused, handle_read_registers_short,
}
use modbus_cpp.RequestHandler.RegisterWriting.{handle_write_registers_refused}
use modbus_cpp.RequestHandler.Refusing.{handle_unsupported}
use modbus_cpp.RequestHandler.Layout.{handle-SameLayout}
use modbus_cpp.Table.{Initializer}
use modbus_cpp.Server.{run, connect, disconnect, receive, make}
use modbus_cpp.Server.Layout.{run-SameLayout}
use modbus_cpp.Block.Range.{InRange}
use modbus_cpp.Examples.Plant.{plant, valves, levels, mbap, mbap-IsValid}

-- The levels end at address 12, and the valves at 2.
levels_end : (n : ℕ) → ¬ InRange levels 12 (2 + n)
levels_end n r = omega (arith, r.below)

valves_end : (n : ℕ) → ¬ InRange valves 3 (1 + n)
valves_end n r = omega (arith, r.below)

handle_read_registers_refused_example :
    handle big_endian
      (RegisterRead.request_frame ReadRegisters.read_input_registers mbap 12 2 [])
      plant
    ≡ (ok (frame (reply mbap 3) 132 (2 ∷ [])), plant)
handle_read_registers_refused_example =
    handle_read_registers_refused big_endian big_endian-IsBigEndian
      ReadRegisters.read_input_registers mbap 12 2 [] plant mbap-IsValid (omega arith)
      (λ h. levels_end 0 h.0)

handle_read_bits_refused_example :
    handle big_endian (BitRead.request_frame ReadBits.read_discrete_inputs mbap 3 1 []) plant
    ≡ (ok (frame (reply mbap 3) 130 (2 ∷ [])), plant)
handle_read_bits_refused_example =
    handle_read_bits_refused big_endian big_endian-IsBigEndian ReadBits.read_discrete_inputs mbap 3
      1 [] plant mbap-IsValid (omega arith) (λ h. valves_end 0 h.0)

-- Registers 12 and 13, of which the plant has the first.
handle_write_registers_refused_example :
    handle big_endian (Multiple.request_frame mbap 12 (7 ∷ 256 ∷ []) []) plant
    ≡ (ok (frame (reply mbap 3) 144 (2 ∷ [])), plant)
handle_write_registers_refused_example =
    handle_write_registers_refused big_endian big_endian-IsBigEndian mbap 12 (7 ∷ 256 ∷ []) [] plant
      mbap-IsValid (omega arith) (λ h. levels_end 0 h.0)

-- Diagnostics are not offered.
handle_unsupported_example :
    handle big_endian (frame mbap 8 (0 ∷ 0 ∷ [])) plant
    ≡ (ok (frame (reply mbap 3) 136 (1 ∷ [])), plant)
handle_unsupported_example =
    handle_unsupported big_endian big_endian-IsBigEndian mbap 8 (0 ∷ 0 ∷ []) plant mbap-IsValid refl

handle-SameLayout_example :
    SameLayout plant (handle big_endian (SingleRegister.request_frame mbap 12 5 []) plant).1
handle-SameLayout_example =
    handle-SameLayout big_endian (SingleRegister.request_frame mbap 12 5 []) plant

run-SameLayout_example :
    SameLayout plant
      (run big_endian
        (connect ∷ receive (SingleRegister.request_frame mbap 12 5 []) ∷ disconnect ∷ [])
        (make plant)).1.data_table
run-SameLayout_example =
    run-SameLayout big_endian
      (connect ∷ receive (SingleRegister.request_frame mbap 12 5 []) ∷ disconnect ∷ []) (make plant)
      (SameLayout-refl, SameLayout-refl)

handle_read_registers_short_example :
    handle big_endian (frame mbap 3 (0 ∷ 10 ∷ [])) plant ≡ (undefined, plant)
handle_read_registers_short_example =
    handle_read_registers_short big_endian big_endian-IsBigEndian
      ReadRegisters.read_holding_registers mbap (0 ∷ 10 ∷ []) plant (omega arith)

abbrev three_cells : Initializer Bool
three_cells = record { starting_address = 0; capacity = 3; default_value = false }

abbrev four_registers : Initializer ℕ
four_registers = record { starting_address = 10; capacity = 4; default_value = 7 }
