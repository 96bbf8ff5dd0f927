-- ===== src/Block/References.antt =====
-- The references into a block that `ref` hands out. The number of cells is a `size_type`.
use modbus_cpp.Prelude.{
  ℕ, ◌+◌, ◌-◌, ◌^◌, ◌%◌, ◌<◌, ◌≤◌, ◌≡◌, refl, Bool, true, false, ltb, leb, not, ◌&&◌, length,
  if◌then◌else◌, arith,
}
use modbus_cpp.Types.{IsU16}
use modbus_cpp.Errors.{ok, throw, undefined, out_of_range, or_throw, ◌>>=◌}
use modbus_cpp.Block.{Block, validate_sz, validate_size, moved, ref_slice}
use modbus_cpp.Block.Range.{IsValid, InRange, index_lem, validate_sz_in, validate_sz_out}
use native.Mathlib.Decide.{dec_lt}

-- The second iterator under a test, with the first one.
branch_ok :
    (c : Bool) (i j : ℕ)
    → ◌>>=◌ {B = ℕ × ℕ} (if c then ok j else undefined) (λ last. ok (i, last))
      ≡ (if c then ok (i, j) else undefined)
branch_ok true i j = refl
branch_ok false i j = refl

branch_undefined :
    (c : Bool)
    → or_throw {A = ℕ × ℕ} (not c) out_of_range undefined
      ≡ (if c then undefined else throw out_of_range)
branch_undefined true = refl
branch_undefined false = refl

module _ {ℓ} {A : Type ℓ} where
  -- Sums below 2 ^ 64 are as `validate_sz` has them.
  validate_size_lem :
      (b : Block A) (address count : ℕ)
      → address + count < 2 ^ 64
      → b.starting_address + b.capacity < 2 ^ 64
      → validate_size b address count ≡ validate_sz b address count
  unfolding validate_size validate_sz
  validate_size_lem b address count h k =
      let same : (address + count) % 2 ^ 64 ≡ address + count = omega arith in
      let also : (b.starting_address + b.capacity) % 2 ^ 64 ≡ b.starting_address + b.capacity =
        omega arith in
      rw (same, also)

  validate_sz_none : (b : Block A) (address : ℕ) → validate_sz b address 0 ≡ throw out_of_range
  unfolding validate_sz
  validate_sz_none b address = refl

  -- Where an iterator of a block that is moved comes to stand.
  moved_on :
      (b : Block A) (i count : ℕ)
      → count < 2 ^ 63
      → i + count ≤ length b.container
      → moved b i count ≡ ok (i + count)
  unfolding moved
  moved_on b i count h k = ground arith

  moved_first : (b : Block A) (i : ℕ) → i < 2 ^ 63 → i ≤ length b.container → moved b 0 i ≡ ok i
  unfolding moved
  moved_first b i h k = ground arith

  moved_out :
      (b : Block A) (i count : ℕ)
      → count < 2 ^ 63
      → length b.container < i + count
      → moved b i count ≡ undefined
  unfolding moved
  moved_out b i count h k = ground arith

  moved_back :
      (b : Block A) (i count : ℕ)
      → 2 ^ 63 ≤ count
      → moved b i count ≡ (if leb (2 ^ 64) (i + count) then ok (i + count - 2 ^ 64) else undefined)
  unfolding moved
  moved_back b i count h = let negative : ltb count (2 ^ 63) ≡ false = ground arith in rw negative

  module _ (b : Block A) (address count : ℕ) where
    -- The sum of the address and the count wraps around.
    wrapped :
        2 ^ 64 ≤ address + count
        → address + count < 2 ^ 65
        → 0 < count
        → b.starting_address + b.capacity < 2 ^ 63
        → validate_size b address count
          ≡ ok (
              leb b.starting_address address
              && leb (address + count - 2 ^ 64) (b.starting_address + b.capacity))
    unfolding validate_size
    wrapped h k l m =
        let one : (address + count) % 2 ^ 64 ≡ address + count - 2 ^ 64 = omega arith in
        let two : (b.starting_address + b.capacity) % 2 ^ 64 ≡ b.starting_address + b.capacity =
          omega arith in
        let three : ltb 0 count ≡ true = ground arith in rw (one, two, three)

  -- What `ref` gives for a number of cells of 64 bits.
  pub record Refers (b : Block A) (address count : ℕ) : Type ℓ where
    pub within :
        InRange b address count
        → ref_slice b address count
          ≡ ok (address - b.starting_address, address - b.starting_address + count)
    pub outside :
        ¬ InRange b address count
        → address + count < 2 ^ 64
        → ref_slice b address count ≡ throw out_of_range
    pub below :
        2 ^ 64 ≤ address + count
        → address < b.starting_address
        → ref_slice b address count ≡ throw out_of_range
    pub wraps :
        2 ^ 64 ≤ address + count
        → b.starting_address ≤ address
        → address ≤ b.starting_address + b.capacity
        → ref_slice b address count ≡ (
            if leb (b.starting_address + 2 ^ 64) (address + count)
            then ok (address - b.starting_address, address - b.starting_address + count - 2 ^ 64)
            else undefined)
    pub above :
        2 ^ 64 ≤ address + count
        → b.starting_address + b.capacity < address
        → ref_slice b address count ≡ (
            if leb (address + count - 2 ^ 64) (b.starting_address + b.capacity)
            then undefined
            else throw out_of_range)

  -- `ref(address, count)` for any count of 64 bits. The iterators that it hands out for a range of
  -- the block are at its first cell and behind its last; for any other range, an empty one
  -- included, it throws, if the sum of address and count does not wrap around. If the sum wraps
  -- around, it throws for an address below the block; for an address of the block, or the one
  -- behind it, the end iterator stands before the first one, if it stays in the vector, and is
  -- undefined otherwise; for an address further up the iterators are undefined, or it throws,
  -- depending on the sum. Assumed: the block has a cell for each of its addresses, its addresses
  -- end below 2 ^ 63 and the address fits 16 bits.
  pub ref_slice_lem :
      (b : Block A) (address count : ℕ)
      → IsValid b
      → IsU16 address
      → count < 2 ^ 64
      → b.starting_address + b.capacity < 2 ^ 63
      → Refers b address count
  unfolding ref_slice
  ref_slice_lem b address count v h short small = record {
    within = λ r. rw (
      validate_size_lem b address count (omega (arith, r.below)) (omega arith),
      validate_sz_in b address count r,
      index_lem b address v.start h r.above,
      moved_first b (address - b.starting_address) (omega arith)
          (omega (arith, r.below, r.above, r.some_cell, v.full)),
      moved_on b (address - b.starting_address) count (omega (arith, r.below))
          (omega (arith, r.below, r.above, v.full)),
    );
    outside = λ out fits.
        rw (validate_size_lem b address count fits (omega arith)) (elim (dec_lt 0 count) [
          | yes p ↦ rw (validate_sz_out b address count p out)
          | no p ↦
              let none_asked : count ≡ 0 = omega arith in
              rw (none_asked, validate_sz_none b address)
        ]);
    below = λ w under.
        let test : leb b.starting_address address ≡ false = ground arith in
        rw (wrapped b address count w (omega arith) (omega arith) small, test);
    wraps = λ w over under.
        let test : leb b.starting_address address ≡ true = ground arith in
        let ends : leb (address + count - 2 ^ 64) (b.starting_address + b.capacity) ≡ true =
          ground arith in
        let i = address - b.starting_address in
        let same : leb (2 ^ 64) (i + count) ≡ leb (b.starting_address + 2 ^ 64) (address + count) =
          ground arith in
        rw
          (
            wrapped b address count w (omega arith) (omega arith) small,
            test,
            ends,
            index_lem b address v.start h over,
            moved_first b i (omega arith) (omega (arith, v.full)),
            moved_back b i count (omega arith),
            same,
          )
          (branch_ok (leb (b.starting_address + 2 ^ 64) (address + count)) i _);
    above = λ w over.
        let test : leb b.starting_address address ≡ true = ground arith in
        let i = address - b.starting_address in
        rw
          (
            wrapped b address count w (omega arith) (omega arith) small,
            test,
            index_lem b address v.start h (omega arith),
            moved_out b 0 i (omega arith) (omega (arith, v.full)),
          )
          (branch_undefined (leb (address + count - 2 ^ 64) (b.starting_address + b.capacity)));
  }
