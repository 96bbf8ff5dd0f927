-- ===== src/Block.antt =====
-- include/modbuscpp/modbuscpp/data-table.hpp and data-table.inline.hpp: a block of cells that begin
-- at an address. Each call is one step: the source holds the block's mutex for its whole duration.
pub mod Defined
pub mod Range
pub mod Cells
pub mod One
pub mod References
pub mod Kept
use modbus_cpp.Prelude.{
  ℕ, zero, suc, ◌+◌, ◌-◌, ◌^◌, ◌%◌, Bool, false, ltb, leb, ◌&&◌, not, if◌then◌else◌, Option, none,
  some, List, [], ◌∷◌, length, get_elem?, drop, take_exact, replicate, resize,
}
use modbus_cpp.Types.{metadata_sub}
use modbus_cpp.Errors.{Result, ok, throw, undefined, out_of_range, ◌>>=◌, or_throw, index_result}
use mathlib.Core.Option

-- `block::sequential<data_t, …>`
pub record Block {ℓ} (A : Type ℓ) : Type ℓ where
  pub starting_address : ℕ
  pub container : List A
  pub capacity : ℕ
  pub default_value : A

abbrev pub max_capacity : ℕ
max_capacity = 65535

module _ {ℓ} {A : Type ℓ} where
  -- `sequential(starting_address, capacity, default_value)`; `zero_value` is a `data_t` made by
  -- `resize`.
  unfoldable pub make : A → ℕ → ℕ → A → Block A
  make zero_value starting_address capacity default_value = record {
    starting_address = starting_address;
    container = resize capacity zero_value (replicate capacity default_value);
    capacity = capacity;
    default_value = default_value;
  }

  -- `sequential(starting_address, container)`, whose default is 0.
  unfoldable pub from_container : A → ℕ → List A → Block A
  from_container zero_value starting_address container = record {
    starting_address = starting_address;
    container = container;
    capacity = length container;
    default_value = zero_value;
  }

  -- `validate_sz(address, count)` for a sum that does not wrap around: the counts of the count types,
  -- and the sizes of the vectors that are stored.
  unfoldable pub validate_sz : Block A → ℕ → ℕ → Result Bool
  validate_sz b address count =
      if ltb 0 count
      then ok (
          leb b.starting_address address && leb (address + count) (b.starting_address + b.capacity))
      else throw out_of_range

  -- `validate(address)`
  unfoldable pub validate : Block A → ℕ → Result Bool
  validate b address = validate_sz b address 1

  -- `validate(address, count)`, for the `validate` of the count's type.
  unfoldable pub validate_count : (ℕ → Bool) → Block A → ℕ → ℕ → Result Bool
  validate_count count_validate b address count =
      if count_validate count then validate_sz b address count else ok false

  -- `address - starting_address()`
  abbrev pub index : Block A → ℕ → ℕ
  index b address = metadata_sub address b.starting_address

  -- `ref(address)`: the index of the cell that the reference is to.
  unfoldable pub ref : Block A → ℕ → Result ℕ
  ref b address = do
    valid ← validate b address
    or_throw (not valid) out_of_range (ok (index b address))

  -- `validate_sz(address, count)` for any `size_type`: both sums are taken modulo 2 ^ 64.
  unfoldable pub validate_size : Block A → ℕ → ℕ → Result Bool
  validate_size b address count =
      if ltb 0 count
      then ok (
          leb b.starting_address address
          && leb ((address + count) % 2 ^ 64) ((b.starting_address + b.capacity) % 2 ^ 64))
      else throw out_of_range

  -- An iterator into the vector, from the index where another one stands. The number of cells is
  -- converted to `difference_type`, so it is negative from 2 ^ 63 on. An iterator past the end or
  -- before the beginning of the vector is undefined.
  unfoldable pub moved : Block A → ℕ → ℕ → Result ℕ
  moved b i count =
      if ltb count (2 ^ 63)
      then (if leb (i + count) (length b.container) then ok (i + count) else undefined)
      else (if leb (2 ^ 64) (i + count) then ok (i + count - 2 ^ 64) else undefined)

  -- `ref(address, count)`: the indices that the two iterators stand at.
  unfoldable pub ref_slice : Block A → ℕ → ℕ → Result (ℕ × ℕ)
  ref_slice b address count = do
    valid ← validate_size b address count
    or_throw (not valid) out_of_range (do
      first ← moved b 0 (index b address)
      last ← moved b (index b address) count
      ok (first, last))

  -- `get(address)`
  unfoldable pub get : Block A → ℕ → Result A
  get b address = do
    valid ← validate b address
    or_throw (not valid) out_of_range (index_result (get_elem? b.container (index b address)))

  -- `get(address, count)`: the cells between the two iterators.
  unfoldable pub get_slice : (ℕ → Bool) → Block A → ℕ → ℕ → Result (List A)
  get_slice count_validate b address count = do
    valid ← validate_count count_validate b address count
    or_throw (not valid) out_of_range
        (index_result (take_exact count (drop (index b address) b.container)))

  -- `std::transform` onto the cells from an index on; `none` if it would write past the last.
  unfoldable pub overwrite : ℕ → List A → List A → Option (List A)
  overwrite zero [] xs = some xs
  overwrite zero (v ∷ buffer) [] = none
  overwrite zero (v ∷ buffer) (x ∷ xs) = Option.map (λ ys. v ∷ ys) (overwrite zero buffer xs)
  overwrite (suc i) buffer [] = none
  overwrite (suc i) buffer (x ∷ xs) = Option.map (λ ys. x ∷ ys) (overwrite i buffer xs)

  abbrev pub with_container : Block A → List A → Block A
  with_container b xs = record b { container = xs }

  -- `set(address, buffer)`
  unfoldable pub set_slice : Block A → ℕ → List A → Result (Block A)
  set_slice b address buffer = do
    valid ← validate_sz b address (length buffer)
    or_throw (not valid) out_of_range (
        index_result
          (Option.map (with_container b) (overwrite (index b address) buffer b.container)))

  -- `set(address, value)`
  unfoldable pub set_value : Block A → ℕ → A → Result (Block A)
  set_value b address value = do
    valid ← validate b address
    or_throw (not valid) out_of_range (
        index_result
          (Option.map (with_container b) (overwrite (index b address) (value ∷ []) b.container)))

  unfoldable pub reset : Block A → Block A
  reset b = with_container b (replicate (length b.container) b.default_value)
