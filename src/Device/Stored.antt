-- ===== src/Device/Stored.antt =====
-- A write to a block, as the device sees it.
use modbus_cpp.Prelude.{
  ℕ, ◌-◌, ◌≡◌, refl, sym, ◌∙◌, ◌∷◌, true, leb, Bool, Option, some, none, List, [], length, drop,
  take_exact, take_exact_le, length-drop, All, arith,
}
use modbus_cpp.Types.{IsU16}
use modbus_cpp.Errors.{ok}
use modbus_cpp.Block
use modbus_cpp.Block.{Block, set_slice, set_value, validate, with_container}
use modbus_cpp.Block.Range.{IsValid, InRange}
use modbus_cpp.Block.Cells.{set_slice_in}
use modbus_cpp.Block.One.{get_in}
use modbus_cpp.Block.Kept.{
  SameShape-refl, set_slice-SameShape, set_slice-All, set_value-eq-set_slice,
}
use modbus_cpp.Table.{Table, with_coils, with_holding_registers}
use modbus_cpp.Table.Valid.{SameLayout-AllValid}
use modbus_cpp.Device.{first_of, collect, store}
use modbus_cpp.Device.View.{cells, collect-cells_out, cells-store}
use modbus_cpp.Device.Meets.{IsSound}

module _ {A : Type 0} where
  pub stored_in :
      (b : Block A) (address : ℕ) (values : List A)
      → IsValid b
      → IsU16 address
      → InRange b address (length values)
      → (b' : Block A) × (set_slice b address values ≡ ok b')
        × (cells b' ≡ store address values (cells b))
  stored_in b address values v h r =
      let (ys, e, o) = set_slice_in b address values v h r in
      (with_container b ys, e, cells-store b address values ys r.above o)

  -- The cell at an address of the block.
  pub cell_in :
      (b : Block A) (address : ℕ)
      → IsValid b
      → IsU16 address
      → InRange b address 1
      → (x : A) × (Block.get b address ≡ ok x) × (cells b address ≡ some x)
  cell_in b address v h r =
      let (x, e, f) = get_in b address v h r in
      let above : leb b.starting_address address ≡ true = ground arith in (x, e, rw above f)

  only : (x : Option A) → first_of x (some []) ≡ none → x ≡ none
  only none e = refl
  only (some x) e = absurd (cc)

  pub cell_out :
      (b : Block A) (address : ℕ) → IsValid b → ¬ InRange b address 1 → cells b address ≡ none
  unfolding collect
  cell_out b address v out =
      only (cells b address) (collect-cells_out b address 1 v (omega arith) out)

  -- The values in a range of the block.
  pub range_in :
      (b : Block A) (address count : ℕ)
      → IsValid b
      → InRange b address count
      → (xs : List A) × (take_exact count (drop (address - b.starting_address) b.container)
          ≡ some xs)
  range_in b address count v r =
      let (xs, e, _) = take_exact_le count (drop (address - b.starting_address) b.container) (
        omega (
          arith,
          v.full,
          r.above,
          r.below,
          length-drop (address - b.starting_address) b.container,
        )) in
      (xs, e)

pub coils_stored-IsSound :
    (t : Table) (b : Block Bool) (address : ℕ) (values : List Bool)
    → set_slice t.coils address values ≡ ok b
    → IsSound t
    → IsSound (with_coils b t)
coils_stored-IsSound t b address values e h = record {
  valid =
      SameLayout-AllValid t (with_coils b t)
        (record {
          coils = set_slice-SameShape t.coils b address values e;
          holding_registers = SameShape-refl t.holding_registers;
          discrete_inputs = refl;
          input_registers = refl;
        })
        h.valid;
  holding = h.holding;
  input = h.input;
}

pub registers_stored-IsSound :
    (t : Table) (b : Block ℕ) (address : ℕ) (values : List ℕ)
    → set_slice t.holding_registers address values ≡ ok b
    → All IsU16 values
    → IsSound t
    → IsSound (with_holding_registers b t)
registers_stored-IsSound t b address values e u h = record {
  valid =
      SameLayout-AllValid t (with_holding_registers b t)
        (record {
          coils = SameShape-refl t.coils;
          holding_registers = set_slice-SameShape t.holding_registers b address values e;
          discrete_inputs = refl;
          input_registers = refl;
        })
        h.valid;
  holding = set_slice-All IsU16 t.holding_registers b address values e u h.holding;
  input = h.input;
}

pub value_stored-IsSound :
    (t : Table) (b : Block ℕ) (address value : ℕ)
    → set_value t.holding_registers address value ≡ ok b
    → IsU16 value
    → IsSound t
    → IsSound (with_holding_registers b t)
value_stored-IsSound t b address value e u h =
    registers_stored-IsSound t b address (value ∷ [])
      (sym (set_value-eq-set_slice t.holding_registers address value) ∙ e) (u, tt) h

pub coil_stored-IsSound :
    (t : Table) (b : Block Bool) (address : ℕ) (value : Bool)
    → set_value t.coils address value ≡ ok b
    → IsSound t
    → IsSound (with_coils b t)
coil_stored-IsSound t b address value e h =
    coils_stored-IsSound t b address (value ∷ [])
      (sym (set_value-eq-set_slice t.coils address value) ∙ e) h
