-- ===== src/Block/Kept.antt =====
-- What a write to a block keeps, whatever is written and wherever.
use modbus_cpp.Prelude.{
  ℕ, zero, suc, ◌≡◌, refl, sym, ap, subst, ◌∙◌, Bool, true, false, not, Option, some, none, List,
  [], ◌∷◌, length, drop, take_exact, take_exact-length, All,
}
use modbus_cpp.Errors.{Result, ok, throw, undefined, out_of_range, ◌>>=◌, or_throw, index_result}
use modbus_cpp.Block.{
  Block, overwrite, set_slice, set_value, with_container, index, validate, validate_count,
  get_slice, validate_sz,
}
use mathlib.Core.Option

-- A call that returns has passed its test.
tested {ℓ} :
    {A : Type ℓ} (valid : Result Bool) (x : Result A) (a : A)
    → (valid >>= λ v. or_throw (not v) out_of_range x) ≡ ok a
    → x ≡ ok a
tested (ok true) x a e = e
tested (ok false) x a e = absurd (cc)
tested (throw y) x a e = absurd (cc)
tested undefined x a e = absurd (cc)

module _ {ℓ} {A : Type ℓ} where
  -- The same addresses, and cells for as many.
  pub record SameShape (b b' : Block A) : Type ℓ where
    pub start : b'.starting_address ≡ b.starting_address
    pub capacity : b'.capacity ≡ b.capacity
    pub cells : length b'.container ≡ length b.container

  pub SameShape-refl : (b : Block A) → SameShape b b
  SameShape-refl b = record { start = refl; capacity = refl; cells = refl }

  pub SameShape-trans : (a b c : Block A) → SameShape a b → SameShape b c → SameShape a c
  SameShape-trans a b c h k = record {
    start = k.start ∙ h.start;
    capacity = k.capacity ∙ h.capacity;
    cells = k.cells ∙ h.cells;
  }

  pub mapped :
      (x : A) (ys : List A) (o : Option (List A))
      → Option.map (λ zs. x ∷ zs) o ≡ some ys
      → (zs : List A) × (o ≡ some zs) × (x ∷ zs ≡ ys)
  mapped x ys none e = absurd (cc)
  mapped x ys (some zs) e = (zs, refl, cc)

  same_some : (xs ys : List A) → some xs ≡ some ys → xs ≡ ys
  same_some xs ys e = cc

  overwrite_length :
      (i : ℕ) (buffer xs ys : List A) → overwrite i buffer xs ≡ some ys → length ys ≡ length xs
  unfolding overwrite
  overwrite_length zero [] xs ys e = ap length (sym (same_some xs ys e))
  overwrite_length zero (v ∷ buffer) [] ys e = absurd (cc)
  overwrite_length zero (v ∷ buffer) (x ∷ xs) ys e =
      let (zs, f, g) = mapped v ys _ e in
      ap length (sym g) ∙ ap suc (overwrite_length zero buffer xs zs f)
  overwrite_length (suc i) buffer [] ys e = absurd (cc)
  overwrite_length (suc i) buffer (x ∷ xs) ys e =
      let (zs, f, g) = mapped x ys _ e in
      ap length (sym g) ∙ ap suc (overwrite_length i buffer xs zs f)

  stored :
      (b b' : Block A) (o : Option (List A))
      → index_result (Option.map (with_container b) o) ≡ ok b'
      → (ys : List A) × (o ≡ some ys) × (with_container b ys ≡ b')
  stored b b' none h = absurd (cc)
  stored b b' (some ys) h = (ys, refl, cc)

  overwrite-All {κ} :
      (P : A → Type κ) (i : ℕ) (buffer xs ys : List A)
      → overwrite i buffer xs ≡ some ys
      → All P buffer
      → All P xs
      → All P ys
  unfolding overwrite
  overwrite-All P zero [] xs ys e h k = subst (λ zs. All P zs) (same_some xs ys e) k
  overwrite-All P zero (v ∷ buffer) [] ys e h k = absurd (cc)
  overwrite-All P zero (v ∷ buffer) (x ∷ xs) ys e h k =
      let (zs, f, g) = mapped v ys _ e in
      subst (λ vs. All P vs) g (h.0, overwrite-All P zero buffer xs zs f h.1 k.1)
  overwrite-All P (suc i) buffer [] ys e h k = absurd (cc)
  overwrite-All P (suc i) buffer (x ∷ xs) ys e h k =
      let (zs, f, g) = mapped x ys _ e in
      subst (λ vs. All P vs) g (k.0, overwrite-All P i buffer xs zs f h k.1)

  -- What holds of the cells and of the written values holds of the cells after the write.
  stored-All {κ} :
      (P : A → Type κ) (b b' : Block A) (i : ℕ) (buffer : List A)
      → index_result (Option.map (with_container b) (overwrite i buffer b.container)) ≡ ok b'
      → All P buffer
      → All P b.container
      → All P b'.container
  stored-All P b b' i buffer e h k =
      let (ys, f, g) = stored b b' (overwrite i buffer b.container) e in
      subst (λ c. All P c.container) g (overwrite-All P i buffer b.container ys f h k)

  stored-SameShape :
      (b b' : Block A) (i : ℕ) (buffer : List A)
      → index_result (Option.map (with_container b) (overwrite i buffer b.container)) ≡ ok b'
      → SameShape b b'
  stored-SameShape b b' i buffer e =
      let (ys, f, g) = stored b b' (overwrite i buffer b.container) e in
      subst (λ c. SameShape b c) g
        (record {
          start = refl;
          capacity = refl;
          cells = overwrite_length i buffer b.container ys f;
        })

  pub set_slice-SameShape :
      (b b' : Block A) (address : ℕ) (buffer : List A)
      → set_slice b address buffer ≡ ok b'
      → SameShape b b'
  unfolding set_slice
  set_slice-SameShape b b' address buffer e = stored-SameShape b b' (index b address) buffer (
      tested (validate_sz b address (length buffer))
        (index_result
          (Option.map (with_container b) (overwrite (index b address) buffer b.container)))
        b' e)

  pub set_value-SameShape :
      (b b' : Block A) (address : ℕ) (value : A)
      → set_value b address value ≡ ok b'
      → SameShape b b'
  unfolding set_value
  set_value-SameShape b b' address value e = stored-SameShape b b' (index b address) (value ∷ []) (
      tested (validate b address)
        (index_result
          (Option.map (with_container b) (overwrite (index b address) (value ∷ []) b.container)))
        b' e)

  pub set_slice-All {κ} :
      (P : A → Type κ) (b b' : Block A) (address : ℕ) (buffer : List A)
      → set_slice b address buffer ≡ ok b'
      → All P buffer
      → All P b.container
      → All P b'.container
  unfolding set_slice
  set_slice-All P b b' address buffer e = stored-All P b b' (index b address) buffer (
      tested (validate_sz b address (length buffer))
        (index_result
          (Option.map (with_container b) (overwrite (index b address) buffer b.container)))
        b' e)

  -- A single value is written as a buffer of one.
  pub set_value-eq-set_slice :
      (b : Block A) (address : ℕ) (value : A)
      → set_value b address value ≡ set_slice b address (value ∷ [])
  unfolding set_value set_slice validate
  set_value-eq-set_slice b address value = refl

  pub set_value-All {κ} :
      (P : A → Type κ) (b b' : Block A) (address : ℕ) (value : A)
      → set_value b address value ≡ ok b'
      → P value
      → All P b.container
      → All P b'.container
  set_value-All P b b' address value e h k =
      set_slice-All P b b' address (value ∷ []) (sym (set_value-eq-set_slice b address value) ∙ e)
        (h, tt) k

  -- A read gives as many cells as it asks for.
  pub length-get_slice :
      (count_validate : ℕ → Bool) (b : Block A) (address count : ℕ) (xs : List A)
      → get_slice count_validate b address count ≡ ok xs
      → length xs ≡ count
  unfolding get_slice
  length-get_slice count_validate b address count xs e =
      taken (take_exact count (drop (index b address) b.container))
        (tested (validate_count count_validate b address count)
          (index_result (take_exact count (drop (index b address) b.container))) xs e)
        (λ ys. take_exact-length count (drop (index b address) b.container) ys)
    where
      taken :
          (o : Option (List A))
          → index_result o ≡ ok xs
          → ((ys : List A) → o ≡ some ys → length ys ≡ count)
          → length xs ≡ count
      taken none h k = absurd (cc)
      taken (some ys) h k = ap length (same h) ∙ k ys refl
        where
          same : index_result (some ys) ≡ ok xs → xs ≡ ys
          same g = cc
