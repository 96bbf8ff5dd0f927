-- ===== src/Block/Defined.antt =====
-- On a block with a cell for each of its addresses, no call reads or writes past the cells.
use modbus_cpp.Prelude.{
  ℕ, ◌<◌, ◌≡◌, ◌≢◌, refl, sym, ◌∙◌, inl, inr, Bool, true, false, if◌then◌else◌, ltb, List, [], ◌∷◌,
  length, arith,
}
use modbus_cpp.Types.{IsU16}
use modbus_cpp.Errors.{Result, ok, throw, undefined, out_of_range}
use modbus_cpp.Block.{
  Block, validate_sz, validate, validate_count, get, get_slice, set_slice, set_value,
}
use modbus_cpp.Block.Range.{
  IsValid, InRange-cases, validate_sz_out, validate_out, validate_count_out,
}
use modbus_cpp.Block.Cells.{get_slice_in, set_slice_in}
use modbus_cpp.Block.One.{get_in}
use modbus_cpp.Block.Kept.{set_value-eq-set_slice}

tested_defined : (c d : Bool) → (if c then ok d else throw out_of_range) ≢ undefined
tested_defined true d e = cc
tested_defined false d e = cc

counted_defined :
    (c : Bool) (r : Result Bool) → r ≢ undefined → (if c then r else ok false) ≢ undefined
counted_defined true r h e = h e
counted_defined false r h e = cc

module _ {ℓ} {A : Type ℓ} where
  validate_sz_defined : (b : Block A) (address count : ℕ) → validate_sz b address count ≢ undefined
  unfolding validate_sz
  validate_sz_defined b address count = tested_defined (ltb 0 count) _

  pub validate_defined : (b : Block A) (address : ℕ) → validate b address ≢ undefined
  unfolding validate
  validate_defined b address = validate_sz_defined b address 1

  pub validate_count_defined :
      (cv : ℕ → Bool) (b : Block A) (address count : ℕ)
      → validate_count cv b address count ≢ undefined
  unfolding validate_count
  validate_count_defined cv b address count =
      counted_defined (cv count) (validate_sz b address count) (validate_sz_defined b address count)

  pub get_defined :
      (b : Block A) (address : ℕ) → IsValid b → IsU16 address → get b address ≢ undefined
  unfolding get
  get_defined b address v h e = elim (InRange-cases b address 1 true) [
    | inl (r, _) ↦ let (a, f, _) = get_in b address v h r in cc
    | inr out ↦ let f = validate_out b address (λ r. out (r, refl)) in cc
  ]

  pub get_slice_defined :
      (cv : ℕ → Bool) (b : Block A) (address count : ℕ)
      → (cv count ≡ true → 0 < count)
      → IsValid b
      → IsU16 address
      → get_slice cv b address count ≢ undefined
  unfolding get_slice
  get_slice_defined cv b address count pos v h e = elim (InRange-cases b address count (cv count)) [
    | inl (r, c) ↦ let (xs, f, _, _) = get_slice_in cv b address count v h c r in cc
    | inr out ↦ let f = validate_count_out cv b address count pos out in cc
  ]

  no_cells_defined : (b : Block A) (address : ℕ) → set_slice b address [] ≢ undefined
  unfolding set_slice validate_sz
  no_cells_defined b address e = cc

  pub set_slice_defined :
      (b : Block A) (address : ℕ) (buffer : List A)
      → IsValid b
      → IsU16 address
      → set_slice b address buffer ≢ undefined
  unfolding set_slice
  set_slice_defined b address [] v h e = no_cells_defined b address e
  set_slice_defined b address (x ∷ buffer) v h e =
      elim (InRange-cases b address (length (x ∷ buffer)) true) [
        | inl (r, _) ↦ let (ys, f, _) = set_slice_in b address (x ∷ buffer) v h r in cc
        | inr out ↦
            let f =
              validate_sz_out b address (length (x ∷ buffer)) (omega arith) (λ r. out (r, refl)) in
            cc
      ]

  pub set_value_defined :
      (b : Block A) (address : ℕ) (value : A)
      → IsValid b
      → IsU16 address
      → set_value b address value ≢ undefined
  set_value_defined b address value v h e =
      set_slice_defined b address (value ∷ []) v h
        (sym (set_value-eq-set_slice b address value) ∙ e)
