-- ===== src/Examples/Parts.antt =====
-- The blocks and the packing of bits.
use modbus_cpp.Prelude.{
  ℕ, ◌<◌, ◌≤◌, ◌≡◌, ◌⊎◌, refl, Bool, true, false, [], ◌∷◌, ◌++◌, List, length, arith, replicate,
}
use modbus_cpp.Types.{IsU16}
use modbus_cpp.Errors.{ok}
use modbus_cpp.Block
use modbus_cpp.Block.{Block}
use modbus_cpp.Block.Range.{IsValid}
use modbus_cpp.Block.Cells.{get_slice-set_slice}
use modbus_cpp.Operation.{pack_bits, unpack_bits}
use modbus_cpp.Operation.Packing.{padding, unpack_bits-pack_bits}
use modbus_cpp.Table.{read_num_regs}
use modbus_cpp.Examples.Plant.{levels, levels-IsValid}

get_slice-set_slice_example :
    (b : Block ℕ) × (Block.set_slice levels 11 (8 ∷ 9 ∷ []) ≡ ok b)
    × IsValid b
    × (Block.get_slice read_num_regs b 11 2 ≡ ok (8 ∷ 9 ∷ []))
    × ((other : ℕ)
        → IsU16 other
        → (other < 11) ⊎ (13 ≤ other)
        → Block.get b other ≡ Block.get levels other)
get_slice-set_slice_example =
    get_slice-set_slice read_num_regs levels 11 2 (8 ∷ 9 ∷ []) levels-IsValid (omega arith) refl
      refl (record { some_cell = omega arith; above = omega arith; below = omega arith })

abbrev pattern_bits : List Bool
pattern_bits = true ∷ false ∷ true ∷ true ∷ []

unpack_bits-pack_bits_example :
    unpack_bits (pack_bits pattern_bits)
    ≡ pattern_bits ++ replicate (padding (length pattern_bits)) false
unpack_bits-pack_bits_example = unpack_bits-pack_bits pattern_bits
