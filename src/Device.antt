-- ===== src/Device.antt =====
-- What a Modbus server promises, with no packets, bytes, exceptions or vectors: a device holds at
-- most one value at each address of its four address spaces, and every query has a reply. This is
-- the specification that `RequestHandler` and `Server` are shown to meet.
pub mod View
pub mod Wire
pub mod Meets
pub mod Reading
pub mod Stored
pub mod Writing
pub mod Refines
pub mod Serving
use modbus_cpp.Prelude.{
  ℕ, zero, suc, ◌+◌, ◌-◌, Bool, ◌&&◌, ltb, leb, ◌==◌, u16, bit_and, bit_or, if◌then◌else◌, Option,
  none, some, List, [], ◌∷◌, length, get_elem?,
}
use modbus_cpp.Constants.{
  max_num_bits_read, max_num_bits_write, max_num_regs_read, max_num_regs_write,
}
use modbus_cpp.BitRead.Request as ReadBits
use modbus_cpp.RegisterRead.Request as ReadRegisters
use mathlib.Core.Option

-- What stands at each address, if there is such an address.
abbrev pub Space : Type 0 → Type 0
Space A = ℕ → Option A

pub record Device : Type 0 where
  pub coils : Space Bool
  pub discrete_inputs : Space Bool
  pub holding_registers : Space ℕ
  pub input_registers : Space ℕ

module _ {A : Type 0} where
  abbrev pub first_of : Option A → Option (List A) → Option (List A)
  first_of none others = none
  first_of (some x) others = Option.map (λ xs. x ∷ xs) others

  -- The values at `count` addresses from one on; `none` if one of them does not exist.
  unfoldable pub collect : Space A → ℕ → ℕ → Option (List A)
  collect f address zero = some []
  collect f address (suc count) = first_of (f address) (collect f (suc address) count)

  -- The space after values have been stored from an address on.
  unfoldable pub store : ℕ → List A → Space A → Space A
  store address values f x =
      if leb address x && ltb x (address + length values)
      then get_elem? values (x - address)
      else f x

pub data Query : Type 0 where
  read_bits : ReadBits.Kind → ℕ → ℕ → Query
  read_registers : ReadRegisters.Kind → ℕ → ℕ → Query
  write_coil : ℕ → Bool → Query
  write_register : ℕ → ℕ → Query
  write_coils : ℕ → List Bool → Query
  write_registers : ℕ → List ℕ → Query
  mask_write : ℕ → ℕ → ℕ → Query
  read_write : ℕ → ℕ → ℕ → List ℕ → Query

-- `refused` is the answer "illegal data address".
pub data Reply : Type 0 where
  bits : ReadBits.Kind → List Bool → Reply
  registers : ReadRegisters.Kind → List ℕ → Reply
  coil : ℕ → Bool → Reply
  register : ℕ → ℕ → Reply
  coils_written : ℕ → ℕ → Reply
  registers_written : ℕ → ℕ → Reply
  masked : ℕ → ℕ → ℕ → Reply
  registers_after : List ℕ → Reply
  refused : ℕ → Reply

abbrev pub bits_of : ReadBits.Kind → Device → Space Bool
bits_of ReadBits.read_coils d = d.coils
bits_of ReadBits.read_discrete_inputs d = d.discrete_inputs

abbrev pub registers_of : ReadRegisters.Kind → Device → Space ℕ
registers_of ReadRegisters.read_holding_registers d = d.holding_registers
registers_of ReadRegisters.read_input_registers d = d.input_registers

-- A count within the limit of a function.
abbrev pub allowed : ℕ → ℕ → Bool
allowed limit count = ltb 0 count && leb count limit

-- A read of at most `limit` values.
abbrev pub fetch : {A : Type 0} → ℕ → Space A → ℕ → ℕ → Option (List A)
fetch limit f address count = if allowed limit count then collect f address count else none

-- The reply to a successful access, or a refusal.
abbrev pub granted : {A : Type 0} → ℕ → Device → Option A → (A → Reply × Device) → Reply × Device
granted code d none f = (refused code, d)
granted code d (some a) f = f a

abbrev pub set_coils : Space Bool → Device → Device
set_coils f d = record d { coils = f }

abbrev pub set_registers : Space ℕ → Device → Device
set_registers f d = record d { holding_registers = f }

-- The reply to a query, and the device after it. A write of one coil is answered with the value that
-- the coil had before, as the program does.
unfoldable pub serve : Query → Device → Reply × Device
serve (read_bits kind address count) d =
    granted (ReadBits.code kind) d (fetch max_num_bits_read (bits_of kind d) address count)
      (λ xs. (bits kind xs, d))
serve (read_registers kind address count) d =
    granted (ReadRegisters.code kind) d
      (fetch max_num_regs_read (registers_of kind d) address count) (λ xs. (registers kind xs, d))
serve (write_coil address on) d =
    granted 5 d (d.coils address)
      (λ old. (coil address old, set_coils (store address (on ∷ []) d.coils) d))
serve (write_register address value) d = granted 6 d (d.holding_registers address) (λ _.
    (register address value, set_registers (store address (value ∷ []) d.holding_registers) d))
serve (write_coils address values) d =
    granted 15 d (fetch max_num_bits_write d.coils address (length values))
      (λ _. (coils_written address (length values), set_coils (store address values d.coils) d))
serve (write_registers address values) d =
    granted 16 d (fetch max_num_regs_write d.holding_registers address (length values)) (λ _. (
      registers_written address (length values),
      set_registers (store address values d.holding_registers) d,
    ))
serve (mask_write address and_mask or_mask) d = granted 22 d (d.holding_registers address) (λ old. (
  masked address and_mask or_mask,
  set_registers
      (store address (u16 (bit_or (bit_and old and_mask) or_mask) ∷ []) d.holding_registers) d,
))
serve (read_write read_address read_count write_address values) d =
    granted 23 d (fetch max_num_regs_read d.holding_registers read_address read_count) (λ _.
      granted 23 d (fetch max_num_regs_write d.holding_registers write_address (length values))
        (λ _.
          let after = store write_address values d.holding_registers in
          granted 23 d (collect after read_address read_count)
            (λ xs. (registers_after xs, set_registers after d))))
