-- ===== src/Examples/Asking.antt =====
-- Clients that ask the plant.
use modbus_cpp.Prelude.{
  ℕ, ◌<◌, ◌≤◌, ◌≡◌, ◌≢◌, ◌⊎◌, refl, Bool, true, [], ◌∷◌, some, drop, take_exact, replicate,
  length-replicate, arith, u16, bit_and, bit_or,
}
use modbus_cpp.Types.{IsU16}
use modbus_cpp.Errors.{ok, throw, bad_data, std_exception}
use modbus_cpp.Struc.BigEndian.{big_endian, big_endian-IsBigEndian}
use modbus_cpp.Frame.{frame, reply}
use modbus_cpp.Block
use modbus_cpp.Block.{Block}
use modbus_cpp.Table.{
  with_coils, with_holding_registers, read_num_regs, write_num_regs, write_num_bits,
}
use modbus_cpp.Response as Base
use modbus_cpp.Response.Decode.{decode-exception}
use modbus_cpp.BitRead.Request as ReadBits
use modbus_cpp.BitRead.Response as ReadBitsResponse
use modbus_cpp.RegisterRead.Request as ReadRegisters
use modbus_cpp.RegisterRead.Response as ReadRegistersResponse
use modbus_cpp.RegisterRead.Serve as ReadRegistersServe
use modbus_cpp.BitWrite.SingleCoil.Request as WriteCoil
use modbus_cpp.BitWrite.SingleCoil.Response as WriteCoilResponse
use modbus_cpp.BitWrite.SingleCoil.Serve.{bits_value}
use modbus_cpp.BitWrite.MultipleCoils.Request as WriteCoils
use modbus_cpp.BitWrite.MultipleCoils.Response as WriteCoilsResponse
use modbus_cpp.RegisterWrite.SingleRegister.Request as WriteRegister
use modbus_cpp.RegisterWrite.SingleRegister.Response as WriteRegisterResponse
use modbus_cpp.RegisterWrite.MultipleRegisters.Request as WriteRegisters
use modbus_cpp.RegisterWrite.MultipleRegisters.Response as WriteRegistersResponse
use modbus_cpp.RegisterWrite.MaskWrite.Request as MaskWrite
use modbus_cpp.RegisterWrite.MaskWrite.Response as MaskWriteResponse
use modbus_cpp.RegisterWrite.ReadWrite.Request as ReadWrite
use modbus_cpp.RegisterWrite.ReadWrite.Response as ReadWriteResponse
use modbus_cpp.Client.{ask}
use modbus_cpp.Client.Bits as Bits
use modbus_cpp.Client.Bits.{ask-read_bits}
use modbus_cpp.Client.CoilWriting as CoilWriting
use modbus_cpp.Client.CoilWriting.{ask-write_coil}
use modbus_cpp.Client.CoilsWriting as CoilsWriting
use modbus_cpp.Client.CoilsWriting.{ask-write_coils, encode-write_coils_refused}
use modbus_cpp.Client.Registers as Registers
use modbus_cpp.Client.Registers.{ask-read_registers}
use modbus_cpp.Client.RegisterWriting as RegisterWriting
use modbus_cpp.Client.RegisterWriting.{ask-write_register}
use modbus_cpp.Client.RegistersWriting as RegistersWriting
use modbus_cpp.Client.RegistersWriting.{ask-write_registers}
use modbus_cpp.Client.MaskWriting as MaskWriting
use modbus_cpp.Client.MaskWriting.{ask-mask_write}
use modbus_cpp.Client.ReadWriting as ReadWriting
use modbus_cpp.Client.ReadWriting.{ask-read_write}
use modbus_cpp.Examples.Plant.{
  plant, valves, levels, mbap, mbap-IsValid, valves-IsValid, levels-IsValid,
}

ask-read_registers_example :
    (r : ReadRegistersResponse.ReadRegistersResponse) × (ask big_endian
        (ReadRegistersResponse.derived big_endian true)
        (ReadRegistersResponse.make ReadRegisters.read_input_registers)
        (ReadRegisters.encode big_endian)
        (Registers.asked ReadRegisters.read_input_registers mbap 11 2)
        plant
      ≡ (ok r, plant))
    × (take_exact 2 (drop 1 levels.container) ≡ some r.registers)
    × (r.base.adu.transaction ≡ 300)
    × (r.base.adu.unit ≡ 1)
ask-read_registers_example =
    ask-read_registers big_endian big_endian-IsBigEndian ReadRegisters.read_input_registers true
      mbap 11 2 plant mbap-IsValid (omega arith) levels-IsValid
      (omega arith, (omega arith, (omega arith, tt))) refl
      (record { some_cell = omega arith; above = omega arith; below = omega arith })
      (λ _. omega arith)

ask-read_bits_example :
    ask big_endian
      (ReadBitsResponse.derived true)
      (ReadBitsResponse.make ReadBits.read_coils)
      (ReadBits.encode big_endian)
      (Bits.asked ReadBits.read_coils mbap 1 2)
      plant
    ≡ (throw bad_data, plant)
ask-read_bits_example =
    ask-read_bits big_endian big_endian-IsBigEndian ReadBits.read_coils true mbap 1 2 plant
      mbap-IsValid (omega arith) valves-IsValid refl
      (record { some_cell = omega arith; above = omega arith; below = omega arith })

ask-write_register_example :
    (r : WriteRegisterResponse.WriteRegisterResponse) × (b : Block ℕ) × (ask big_endian
        (WriteRegisterResponse.derived big_endian)
        WriteRegisterResponse.make
        (WriteRegister.encode big_endian)
        (RegisterWriting.asked mbap 12 40000)
        plant
      ≡ (ok r, with_holding_registers b plant))
    × (r.address ≡ 12)
    × (r.value ≡ 40000)
    × (r.base.adu.transaction ≡ 300)
    × (r.base.adu.unit ≡ 1)
    × (Block.get b 12 ≡ ok 40000)
    × ((other : ℕ) → IsU16 other → other ≢ 12 → Block.get b other ≡ Block.get levels other)
ask-write_register_example =
    ask-write_register big_endian big_endian-IsBigEndian mbap 12 40000 plant mbap-IsValid
      (omega arith) (omega arith) levels-IsValid
      (record { some_cell = omega arith; above = omega arith; below = omega arith })

ask-write_registers_example :
    (r : WriteRegistersResponse.WriteRegistersResponse) × (b : Block ℕ) × (ask big_endian
        (WriteRegistersResponse.derived big_endian)
        WriteRegistersResponse.make
        (WriteRegisters.encode big_endian)
        (RegistersWriting.asked mbap 11 (7 ∷ 256 ∷ []))
        plant
      ≡ (ok r, with_holding_registers b plant))
    × (r.address ≡ 11)
    × (r.count ≡ 2)
    × (r.base.adu.transaction ≡ 300)
    × (r.base.adu.unit ≡ 1)
    × (Block.get_slice write_num_regs b 11 2 ≡ ok (7 ∷ 256 ∷ []))
    × ((other : ℕ)
        → IsU16 other
        → (other < 11) ⊎ (13 ≤ other)
        → Block.get b other ≡ Block.get levels other)
ask-write_registers_example =
    ask-write_registers big_endian big_endian-IsBigEndian mbap 11 (7 ∷ 256 ∷ []) plant mbap-IsValid
      (omega arith) (omega arith, (omega arith, tt)) levels-IsValid refl
      (record { some_cell = omega arith; above = omega arith; below = omega arith })

ask-mask_write_example :
    (r : MaskWriteResponse.MaskWriteResponse) × (old : ℕ) × (b : Block ℕ) × (ask big_endian
        (MaskWriteResponse.derived big_endian)
        MaskWriteResponse.make
        (MaskWrite.encode big_endian)
        (MaskWriting.asked mbap 11 255 4)
        plant
      ≡ (ok r, with_holding_registers b plant))
    × (r.address ≡ 11)
    × (r.and_mask ≡ 255)
    × (r.or_mask ≡ 4)
    × (r.base.adu.transaction ≡ 300)
    × (r.base.adu.unit ≡ 1)
    × (Block.get levels 11 ≡ ok old)
    × (Block.get b 11 ≡ ok (u16 (bit_or (bit_and old 255) 4)))
ask-mask_write_example =
    ask-mask_write big_endian big_endian-IsBigEndian mbap 11 255 4 plant mbap-IsValid (omega arith)
      (omega arith) (omega arith) levels-IsValid
      (record { some_cell = omega arith; above = omega arith; below = omega arith })

ask-read_write_example :
    (r : ReadWriteResponse.ReadWriteResponse) × (b : Block ℕ) × (ask big_endian
        (ReadWriteResponse.derived big_endian)
        ReadWriteResponse.make
        (ReadWrite.encode big_endian)
        (ReadWriting.asked mbap 10 3 11 (9 ∷ []))
        plant
      ≡ (ok r, with_holding_registers b plant))
    × (Block.get_slice read_num_regs b 10 3 ≡ ok r.registers)
    × (r.base.adu.transaction ≡ 300)
    × (r.base.adu.unit ≡ 1)
    × (Block.get_slice write_num_regs b 11 1 ≡ ok (9 ∷ []))
    × ((other : ℕ)
        → IsU16 other
        → (other < 11) ⊎ (12 ≤ other)
        → Block.get b other ≡ Block.get levels other)
ask-read_write_example =
    ask-read_write big_endian big_endian-IsBigEndian mbap 10 3 11 (9 ∷ []) plant mbap-IsValid
      (omega arith) (omega arith) (omega arith, tt) levels-IsValid
      (omega arith, (omega arith, (omega arith, tt))) refl refl
      (record { some_cell = omega arith; above = omega arith; below = omega arith })
      (record { some_cell = omega arith; above = omega arith; below = omega arith })

ask-write_coils_example :
    (r : WriteCoilsResponse.WriteCoilsResponse) × (b : Block Bool) × (ask big_endian
        (WriteCoilsResponse.derived big_endian)
        WriteCoilsResponse.make
        (WriteCoils.encode big_endian)
        (CoilsWriting.asked mbap 1 (true ∷ true ∷ []))
        plant
      ≡ (ok r, with_coils b plant))
    × (r.address ≡ 1)
    × (r.count ≡ 2)
    × (r.base.adu.transaction ≡ 300)
    × (r.base.adu.unit ≡ 1)
    × (Block.get_slice write_num_bits b 1 2 ≡ ok (true ∷ true ∷ []))
    × ((other : ℕ)
        → IsU16 other
        → (other < 1) ⊎ (3 ≤ other)
        → Block.get b other ≡ Block.get valves other)
ask-write_coils_example =
    ask-write_coils big_endian big_endian-IsBigEndian mbap 1 (true ∷ true ∷ []) plant mbap-IsValid
      (omega arith) (omega arith) valves-IsValid
      (record { some_cell = omega arith; above = omega arith; below = omega arith })

ask-write_coil_example :
    (old : Bool) × (b : Block Bool) × (Block.get valves 2 ≡ ok old)
    × (old ≡ true
        → (r : WriteCoilResponse.WriteCoilResponse) × (ask big_endian
              (WriteCoilResponse.derived big_endian)
              WriteCoilResponse.make
              (WriteCoil.encode big_endian)
              (CoilWriting.asked mbap 2 true)
              plant
            ≡ (ok r, with_coils b plant))
          × (r.value ≡ bits_value true))
    × (old ≢ true
        → ask big_endian
            (WriteCoilResponse.derived big_endian)
            WriteCoilResponse.make
            (WriteCoil.encode big_endian)
            (CoilWriting.asked mbap 2 true)
            plant
          ≡ (throw bad_data, with_coils b plant))
    × (Block.get b 2 ≡ ok true)
    × ((other : ℕ) → IsU16 other → other ≢ 2 → Block.get b other ≡ Block.get valves other)
ask-write_coil_example =
    ask-write_coil big_endian big_endian-IsBigEndian mbap 2 true plant mbap-IsValid (omega arith)
      valves-IsValid (record { some_cell = omega arith; above = omega arith; below = omega arith })

encode-write_coils_refused_example :
    (WriteCoils.encode big_endian (CoilsWriting.asked mbap 0 (replicate 300 true))).0
    ≡ throw bad_data
encode-write_coils_refused_example =
    encode-write_coils_refused big_endian big_endian-IsBigEndian mbap 0 (replicate 300 true)
      (omega arith) (omega (arith, length-replicate 300 true))
      (omega (arith, length-replicate 300 true))

decode-exception_example :
    (Base.decode big_endian
      (ReadRegistersResponse.derived big_endian true)
      (frame (reply mbap 3) 131 (2 ∷ []))
      (ReadRegistersResponse.make ReadRegisters.read_holding_registers
        (ReadRegistersServe.request ReadRegisters.read_holding_registers mbap 12 2))).0
    ≡ throw std_exception
decode-exception_example =
    decode-exception big_endian big_endian-IsBigEndian
      (ReadRegistersResponse.derived big_endian true) mbap 3 2
      (ReadRegistersResponse.make ReadRegisters.read_holding_registers
        (ReadRegistersServe.request ReadRegisters.read_holding_registers mbap 12 2))
      (record { transaction = refl; unit = refl }) refl refl
