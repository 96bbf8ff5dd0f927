-- ===== src/Block/One.antt =====
-- One cell of a block, read and written.
use modbus_cpp.Prelude.{
  ℕ, ◌+◌, ◌-◌, ◌≤◌, ◌<◌, ◌≡◌, ◌≢◌, ◌⊎◌, some, List, [], ◌∷◌, get_elem?, arith, get_elem?_lt,
  get_elem?_taken,
}
use modbus_cpp.Types.{IsU16}
use modbus_cpp.Errors.{ok}
use modbus_cpp.Block.{Block, get, set_value, with_container}
use modbus_cpp.Block.Range.{IsValid, InRange, index_lem, validate_in}
use modbus_cpp.Block.Cells.{Overwritten, overwrite_fits, get_kept, with_container-IsValid}

module _ {ℓ} {A : Type ℓ} where
  -- A read of a cell of the block.
  pub get_in :
      (b : Block A) (address : ℕ)
      → IsValid b
      → IsU16 address
      → InRange b address 1
      → (a : A) × (get b address ≡ ok a)
        × (get_elem? b.container (address - b.starting_address) ≡ some a)
  unfolding get
  get_in b address v h r =
      let (a, e) = get_elem?_lt b.container (address - b.starting_address) (omega arith) in
      (a, rw (validate_in b address r, index_lem b address v.start h r.above, e), e)

  -- A value that is written to a cell of the block is read back there, and every other cell reads
  -- as before. Assumed: the block has a cell for each of its addresses and the address fits 16
  -- bits.
  pub get-set_value :
      (b : Block A) (address : ℕ) (value : A)
      → IsValid b
      → IsU16 address
      → InRange b address 1
      → (b' : Block A) × (set_value b address value ≡ ok b')
        × IsValid b'
        × (get b' address ≡ ok value)
        × ((other : ℕ) → IsU16 other → other ≢ address → get b' other ≡ get b other)
  unfolding set_value get
  get-set_value b address value v h r =
      let i = address - b.starting_address in
      let (ys, o) = overwrite_fits i (value ∷ []) b.container (omega arith) in
      (
        with_container b ys,
        rw (validate_in b address r, index_lem b address v.start h r.above, o.result),
        with_container-IsValid b ys v o.same_length,
        get_written ys o,
        λ other k ne. get_kept b ys address 1 other v k r.above o.kept (ne_lt other address ne),
      )
    where
      get_written :
          (ys : List A)
          → Overwritten (address - b.starting_address) (value ∷ []) b.container ys
          → get (with_container b ys) address ≡ ok value
      get_written ys o = rw (
        validate_in (with_container b ys) address
            (record { some_cell = r.some_cell; above = r.above; below = r.below }),
        index_lem b address v.start h r.above,
        get_elem?_taken (address - b.starting_address) ys value o.written,
      )

      ne_lt : (a c : ℕ) → a ≢ c → (a < c) ⊎ (c + 1 ≤ a)
      ne_lt a c ne = grind arith
