-- ===== src/Examples/Serving.antt =====
-- Requests that the plant serves.
use modbus_cpp.Prelude.{
  ℕ, ◌<◌, ◌≤◌, ◌≡◌, ◌≢◌, ◌⊎◌, refl, Bool, false, [], ◌∷◌, List, some, drop, take_exact, resize,
  arith, u16, bit_and, bit_or,
}
use modbus_cpp.Types.{IsU16}
use modbus_cpp.Errors.{ok}
use modbus_cpp.Struc.BigEndian.{big_endian, big_endian-IsBigEndian}
use modbus_cpp.Frame.{frame, reply, word}
use modbus_cpp.Block
use modbus_cpp.Block.{Block}
use modbus_cpp.Block.Range.{IsValid}
use modbus_cpp.Operation.{unpack_bits}
use modbus_cpp.Table.{
  with_coils, with_holding_registers, read_num_regs, write_num_regs, write_num_bits,
}
use modbus_cpp.BitRead.Request as ReadBits
use modbus_cpp.BitRead.Serve as BitRead
use modbus_cpp.RegisterRead.Request as ReadRegisters
use modbus_cpp.RegisterRead.Serve as RegisterRead
use modbus_cpp.BitWrite.MultipleCoils.Serve as MultipleCoils
use modbus_cpp.RegisterWrite.MultipleRegisters.Serve as MultipleRegisters
use modbus_cpp.RegisterWrite.MaskWrite.Serve as MaskWrite
use modbus_cpp.RegisterWrite.ReadWrite.Serve as ReadWrite
use modbus_cpp.RequestHandler.{handle}
use modbus_cpp.RequestHandler.BitReading.{handle_read_bits}
use modbus_cpp.RequestHandler.RegisterReading.{handle_read_registers}
use modbus_cpp.RequestHandler.CoilWriting.{handle_write_coils}
use modbus_cpp.RequestHandler.RegisterWriting.{handle_write_registers}
use modbus_cpp.RequestHandler.MaskWriting.{handle_mask_write}
use modbus_cpp.RequestHandler.ReadWriting.{handle_read_write}
use modbus_cpp.Examples.Plant.{
  plant, valves, levels, mbap, mbap-IsValid, valves-IsValid, levels-IsValid,
}

handle_read_registers_example :
    (xs : List ℕ) × (take_exact 2 (drop 1 levels.container) ≡ some xs)
    × (handle big_endian
          (RegisterRead.request_frame ReadRegisters.read_holding_registers mbap 11 2 [])
          plant
        ≡ (ok (RegisterRead.answer_frame ReadRegisters.read_holding_registers mbap xs), plant))
handle_read_registers_example =
    handle_read_registers big_endian big_endian-IsBigEndian ReadRegisters.read_holding_registers
      mbap 11 2 [] plant mbap-IsValid (omega arith) levels-IsValid
      (omega arith, (omega arith, (omega arith, tt))) refl
      (record { some_cell = omega arith; above = omega arith; below = omega arith })

handle_read_bits_example :
    (xs : List Bool) × (take_exact 2 (drop 1 valves.container) ≡ some xs)
    × (handle big_endian (BitRead.request_frame ReadBits.read_coils mbap 1 2 []) plant
        ≡ (ok (BitRead.answer_frame ReadBits.read_coils mbap xs), plant))
handle_read_bits_example =
    handle_read_bits big_endian big_endian-IsBigEndian ReadBits.read_coils mbap 1 2 [] plant
      mbap-IsValid (omega arith) valves-IsValid refl
      (record { some_cell = omega arith; above = omega arith; below = omega arith })

handle_write_coils_example :
    (b : Block Bool) × (handle big_endian (MultipleCoils.request_frame mbap 1 2 1 (3 ∷ [])) plant
      ≡ (ok (frame (reply mbap 6) 15 (word 1 (word 2 []))), with_coils b plant))
    × IsValid b
    × (Block.get_slice write_num_bits b 1 2 ≡ ok (resize 2 false (unpack_bits (3 ∷ []))))
    × ((other : ℕ)
        → IsU16 other
        → (other < 1) ⊎ (3 ≤ other)
        → Block.get b other ≡ Block.get valves other)
handle_write_coils_example =
    handle_write_coils big_endian big_endian-IsBigEndian mbap 1 2 1 (3 ∷ []) plant mbap-IsValid
      (omega arith) valves-IsValid refl
      (record { some_cell = omega arith; above = omega arith; below = omega arith })

handle_write_registers_example :
    (b : Block ℕ) × (handle big_endian
        (MultipleRegisters.request_frame mbap 11 (7 ∷ 256 ∷ []) [])
        plant
      ≡ (ok (frame (reply mbap 6) 16 (word 11 (word 2 []))), with_holding_registers b plant))
    × IsValid b
    × (Block.get_slice write_num_regs b 11 2 ≡ ok (7 ∷ 256 ∷ []))
    × ((other : ℕ)
        → IsU16 other
        → (other < 11) ⊎ (13 ≤ other)
        → Block.get b other ≡ Block.get levels other)
handle_write_registers_example =
    handle_write_registers big_endian big_endian-IsBigEndian mbap 11 (7 ∷ 256 ∷ []) [] plant
      mbap-IsValid (omega arith) levels-IsValid refl
      (record { some_cell = omega arith; above = omega arith; below = omega arith })

handle_mask_write_example :
    (old : ℕ) × (b : Block ℕ) × (Block.get levels 11 ≡ ok old)
    × (handle big_endian (MaskWrite.request_frame mbap 11 255 4 []) plant
        ≡ (ok (MaskWrite.request_frame (reply mbap 8) 11 255 4 []), with_holding_registers b plant))
    × IsValid b
    × (Block.get b 11 ≡ ok (u16 (bit_or (bit_and old 255) 4)))
    × ((other : ℕ) → IsU16 other → other ≢ 11 → Block.get b other ≡ Block.get levels other)
handle_mask_write_example =
    handle_mask_write big_endian big_endian-IsBigEndian mbap 11 255 4 [] plant mbap-IsValid
      (omega arith) (omega arith) (omega arith) levels-IsValid
      (record { some_cell = omega arith; above = omega arith; below = omega arith })

handle_read_write_example :
    (xs : List ℕ) × (b : Block ℕ) × (handle big_endian
        (ReadWrite.request_frame mbap 10 3 11 (9 ∷ []) [])
        plant
      ≡ (ok (ReadWrite.answer_frame mbap xs), with_holding_registers b plant))
    × (Block.get_slice read_num_regs b 10 3 ≡ ok xs)
    × IsValid b
    × (Block.get_slice write_num_regs b 11 1 ≡ ok (9 ∷ []))
    × ((other : ℕ)
        → IsU16 other
        → (other < 11) ⊎ (12 ≤ other)
        → Block.get b other ≡ Block.get levels other)
handle_read_write_example =
    handle_read_write big_endian big_endian-IsBigEndian mbap 10 3 11 (9 ∷ []) [] plant mbap-IsValid
      (omega arith) (omega arith) (omega arith, tt) levels-IsValid
      (omega arith, (omega arith, (omega arith, tt))) refl refl
      (record { some_cell = omega arith; above = omega arith; below = omega arith })
      (record { some_cell = omega arith; above = omega arith; below = omega arith })
