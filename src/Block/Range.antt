-- ===== src/Block/Range.antt =====
-- The addresses of a block, and the tests on them.
use modbus_cpp.Prelude.{
  ℕ, ◌+◌, ◌-◌, ◌≤◌, ◌<◌, ◌≡◌, refl, ◌∙◌, ◌⊎◌, inl, inr, Bool, true, false, if◌then◌else◌, length,
  replicate, arith, length-resize, Bool-cases,
}
use modbus_cpp.Types.{IsU16}
use modbus_cpp.Errors.{Result, ok}
use modbus_cpp.Block.{Block, make, validate_sz, validate, validate_count, index}
use native.Mathlib.Decide.{dec_le, dec_lt}

counted : (c : Bool) (r : Result Bool) → (if c then r else ok false) ≡ ok true → c ≡ true
counted true r e = refl
counted false r e = absurd (cc)

module _ {ℓ} {A : Type ℓ} where
  -- A block that the constructors make: its addresses fit 16 bits where they begin, and it has a
  -- cell for each of them.
  pub record IsValid (b : Block A) : Type ℓ where
    pub start : IsU16 b.starting_address
    pub full : length b.container ≡ b.capacity

  -- The addresses from `address` on, `count` of them, lie in the block.
  pub record InRange (b : Block A) (address count : ℕ) : Type 0 where
    pub some_cell : 0 < count
    pub above : b.starting_address ≤ address
    pub below : address + count ≤ b.starting_address + b.capacity

  -- Whether a range lies in the block and its count passes a test.
  pub InRange-cases :
      (b : Block A) (address count : ℕ) (allowed : Bool)
      → (InRange b address count × (allowed ≡ true))
        ⊎ ¬ (InRange b address count × (allowed ≡ true))
  InRange-cases b address count false = inr (λ h. cc (h.1))
  InRange-cases b address count true = elim (dec_lt 0 count) [
    | no p ↦ inr (λ h. p h.0.some_cell)
    | yes p ↦ elim (dec_le b.starting_address address) [
      | no q ↦ inr (λ h. q h.0.above)
      | yes q ↦ elim (dec_le (address + count) (b.starting_address + b.capacity)) [
        | no r ↦ inr (λ h. r h.0.below)
        | yes r ↦ inl (record { some_cell = p; above = q; below = r }, refl)
      ]
    ]
  ]

  pub make-IsValid :
      (z : A) (start capacity : ℕ) (d : A) → IsU16 start → IsValid (make z start capacity d)
  unfolding make
  make-IsValid z start capacity d h = record {
    start = h;
    full = length-resize capacity z (replicate capacity d);
  }

  pub index_lem :
      (b : Block A) (address : ℕ)
      → IsU16 b.starting_address
      → IsU16 address
      → b.starting_address ≤ address
      → index b address ≡ address - b.starting_address
  index_lem b address v h k = omega arith

  pub validate_sz_in :
      (b : Block A) (address count : ℕ)
      → InRange b address count
      → validate_sz b address count ≡ ok true
  unfolding validate_sz
  validate_sz_in b address count r = ground arith

  pub validate_sz_out :
      (b : Block A) (address count : ℕ)
      → 0 < count
      → ¬ InRange b address count
      → validate_sz b address count ≡ ok false
  unfolding validate_sz
  validate_sz_out b address count h out = elim (dec_le b.starting_address address) [
    | no p ↦ ground arith
    | yes p ↦ elim (dec_le (address + count) (b.starting_address + b.capacity)) [
      | no q ↦ ground arith
      | yes q ↦ absurd (out (record { some_cell = h; above = p; below = q }))
    ]
  ]

  pub validate_count_in :
      (cv : ℕ → Bool) (b : Block A) (address count : ℕ)
      → cv count ≡ true
      → InRange b address count
      → validate_count cv b address count ≡ ok true
  unfolding validate_count
  validate_count_in cv b address count c r = rw (c, validate_sz_in b address count r)

  pub validate_count_out :
      (cv : ℕ → Bool) (b : Block A) (address count : ℕ)
      → (cv count ≡ true → 0 < count)
      → ¬ (InRange b address count × (cv count ≡ true))
      → validate_count cv b address count ≡ ok false
  unfolding validate_count
  validate_count_out cv b address count pos out = elim (Bool-cases (cv count)) [
    | inl e ↦ rw (e, validate_sz_out b address count (pos e) (λ r. out (r, e)))
    | inr e ↦ rw e
  ]

  -- Only counts that pass their own test are accepted.
  pub validate_count-counted :
      (cv : ℕ → Bool) (b : Block A) (address count : ℕ)
      → validate_count cv b address count ≡ ok true
      → cv count ≡ true
  unfolding validate_count
  validate_count-counted cv b address count = counted (cv count) (validate_sz b address count)

  validate-eq : (b : Block A) (address : ℕ) → validate b address ≡ validate_sz b address 1
  unfolding validate
  validate-eq b address = refl

  pub validate_in : (b : Block A) (address : ℕ) → InRange b address 1 → validate b address ≡ ok true
  validate_in b address r = validate-eq b address ∙ validate_sz_in b address 1 r

  pub validate_out :
      (b : Block A) (address : ℕ) → ¬ InRange b address 1 → validate b address ≡ ok false
  validate_out b address out = validate-eq b address ∙ validate_sz_out b address 1 (omega arith) out
