-- ===== src/Block/Cells.antt =====
-- What the cells of a block hold after each call.
use modbus_cpp.Prelude.{
  ℕ, zero, suc, ◌+◌, ◌-◌, ◌≤◌, ◌<◌, ◌≡◌, refl, ap, ◌∙◌, ◌⊎◌, inl, inr, Bool, true, some, List, [],
  ◌∷◌, length, get_elem?, drop, take_exact, arith, length-drop, take_exact_le,
}
use modbus_cpp.Types.{IsU16}
use modbus_cpp.Errors.{ok}
use modbus_cpp.Block.{
  Block, validate_sz, validate, get, get_slice, overwrite, set_slice, with_container,
}
use modbus_cpp.Block.Range.{IsValid, InRange, index_lem, validate_sz_in, validate_count_in}
use native.Mathlib.Decide.{dec_le}

module _ {ℓ} {A : Type ℓ} where
  -- `ys` differs from `xs` at most in the `n` cells from `i` on.
  abbrev pub SameOutside : ℕ → ℕ → List A → List A → Type ℓ
  SameOutside i n ys xs = (j : ℕ) → (j < i) ⊎ (i + n ≤ j) → get_elem? ys j ≡ get_elem? xs j

  SameOutside-step :
      (i n : ℕ) (x : A) (ys xs : List A)
      → SameOutside i n ys xs
      → SameOutside (suc i) n (x ∷ ys) (x ∷ xs)
  SameOutside-step i n x ys xs same zero side = refl
  SameOutside-step i n x ys xs same (suc j) (inl h) = same j (inl (omega arith))
  SameOutside-step i n x ys xs same (suc j) (inr h) = same j (inr (omega arith))

  SameOutside-new :
      (n : ℕ) (v x : A) (ys xs : List A)
      → SameOutside 0 n ys xs
      → SameOutside 0 (suc n) (v ∷ ys) (x ∷ xs)
  SameOutside-new n v x ys xs same zero (inl h) = absurd (omega arith)
  SameOutside-new n v x ys xs same zero (inr h) = absurd (omega arith)
  SameOutside-new n v x ys xs same (suc j) (inl h) = absurd (omega arith)
  SameOutside-new n v x ys xs same (suc j) (inr h) = same j (inr (omega arith))

  -- What `overwrite` leaves, if the buffer fits.
  pub record Overwritten (i : ℕ) (buffer xs ys : List A) : Type ℓ where
    pub result : overwrite i buffer xs ≡ some ys
    pub same_length : length ys ≡ length xs
    pub written : take_exact (length buffer) (drop i ys) ≡ some buffer
    pub kept : SameOutside i (length buffer) ys xs

  pub overwrite_fits :
      (i : ℕ) (buffer xs : List A)
      → i + length buffer ≤ length xs
      → (ys : List A) × Overwritten i buffer xs ys
  unfolding overwrite
  overwrite_fits zero [] xs h =
      (xs, record { result = refl; same_length = refl; written = refl; kept = λ j _. refl })
  overwrite_fits zero (v ∷ buffer) [] h = absurd (omega arith)
  overwrite_fits zero (v ∷ buffer) (x ∷ xs) h =
      let (ys, o) = overwrite_fits zero buffer xs (omega arith) in
      (
        v ∷ ys,
        record {
          result = rw o.result;
          same_length = ap suc o.same_length;
          written = rw o.written;
          kept = SameOutside-new (length buffer) v x ys xs o.kept;
        },
      )
  overwrite_fits (suc i) buffer [] h = absurd (omega arith)
  overwrite_fits (suc i) buffer (x ∷ xs) h =
      let (ys, o) = overwrite_fits i buffer xs (omega arith) in
      (
        x ∷ ys,
        record {
          result = rw o.result;
          same_length = ap suc o.same_length;
          written = o.written;
          kept = SameOutside-step i (length buffer) x ys xs o.kept;
        },
      )

  -- A write of a buffer that fits.
  pub set_slice_in :
      (b : Block A) (address : ℕ) (buffer : List A)
      → IsValid b
      → IsU16 address
      → InRange b address (length buffer)
      → (ys : List A) × (set_slice b address buffer ≡ ok (with_container b ys))
        × Overwritten (address - b.starting_address) buffer b.container ys
  unfolding set_slice
  set_slice_in b address buffer v h r =
      let (ys, o) =
        overwrite_fits (address - b.starting_address) buffer b.container (omega arith) in
      (
        ys,
        rw (
          validate_sz_in b address (length buffer) r,
          index_lem b address v.start h r.above,
          o.result,
        ),
        o,
      )

  -- A read of cells that lie in the block.
  pub get_slice_in :
      (cv : ℕ → Bool) (b : Block A) (address count : ℕ)
      → IsValid b
      → IsU16 address
      → cv count ≡ true
      → InRange b address count
      → (xs : List A) × (get_slice cv b address count ≡ ok xs)
        × (take_exact count (drop (address - b.starting_address) b.container) ≡ some xs)
        × (length xs ≡ count)
  unfolding get_slice
  get_slice_in cv b address count v h c r =
      let (xs, e, l) =
        take_exact_le count (drop (address - b.starting_address) b.container)
          (omega (arith, length-drop (address - b.starting_address) b.container)) in
      (
        xs,
        rw (validate_count_in cv b address count c r, index_lem b address v.start h r.above, e),
        e,
        l,
      )

  pub with_container-IsValid :
      (b : Block A) (ys : List A)
      → IsValid b
      → length ys ≡ length b.container
      → IsValid (with_container b ys)
  with_container-IsValid b ys v e = record { start = v.start; full = e ∙ v.full }

  -- A cell outside of the written ones reads as before.
  pub get_kept :
      (b : Block A) (ys : List A) (address n other : ℕ)
      → IsValid b
      → IsU16 other
      → b.starting_address ≤ address
      → SameOutside (address - b.starting_address) n ys b.container
      → (other < address) ⊎ (address + n ≤ other)
      → get (with_container b ys) other ≡ get b other
  unfolding get validate validate_sz
  get_kept b ys address n other v h above kept side = elim (dec_le b.starting_address other) [
    | no p ↦ ground arith
    | yes p ↦ rw (index_lem b other v.start h p, kept (other - b.starting_address) (omega arith))
  ]

  -- A buffer that is written at an address in the block is read back there, and every other cell
  -- reads as before. Assumed: the block has a cell for each of its addresses, the address fits 16
  -- bits and the count passes the check of reads.
  pub get_slice-set_slice :
      (cv : ℕ → Bool) (b : Block A) (address count : ℕ) (buffer : List A)
      → IsValid b
      → IsU16 address
      → length buffer ≡ count
      → cv count ≡ true
      → InRange b address count
      → (b' : Block A) × (set_slice b address buffer ≡ ok b')
        × IsValid b'
        × (get_slice cv b' address count ≡ ok buffer)
        × ((other : ℕ)
            → IsU16 other
            → (other < address) ⊎ (address + count ≤ other)
            → get b' other ≡ get b other)
  get_slice-set_slice cv b address count buffer v h l c r =
      let whole : InRange b address (length buffer) = record {
        some_cell = omega arith;
        above = r.above;
        below = omega arith;
      } in
      let (ys, e, o) = set_slice_in b address buffer v h whole in
      let v' : IsValid (with_container b ys) = with_container-IsValid b ys v o.same_length in
      let r' : InRange (with_container b ys) address count = record {
        some_cell = r.some_cell;
        above = r.above;
        below = r.below;
      } in
      let (xs, f, g, _) = get_slice_in cv (with_container b ys) address count v' h c r' in
      (
        with_container b ys,
        e,
        v',
        f ∙ ap ok (cc (o.written, l)),
        λ other k side.
            get_kept b ys address (length buffer) other v k r.above o.kept (omega arith),
      )
