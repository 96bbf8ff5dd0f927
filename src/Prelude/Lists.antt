-- ===== src/Prelude/Lists.antt =====
-- Lists measured and indexed by native numbers, as `std::vector` is used in the source.
use Prim.Native.Nat.{ℕ, zero, suc, ◌+◌, ◌-◌, ◌≤◌, ◌<◌}
use mathlib.Core.Path.{◌≡◌, refl, ap, subst, sym, ◌∙◌}
use mathlib.Core.Logic.{◌⊎◌, inl, inr}
use mathlib.Core.List.{List, [], ◌∷◌, ◌++◌}
use mathlib.Core.Option.{Option, none, some}
use mathlib.Core.Option
use native.Mathlib.Nat.{zero-add, suc-add, add-zero}
use native.Mathlib.Omega.{arith}

module _ {ℓ} {A : Type ℓ} where
  abbrev pub length : List A → ℕ
  length [] = 0
  length (x ∷ xs) = suc (length xs)

  abbrev pub get_elem? : List A → ℕ → Option A
  get_elem? [] i = none
  get_elem? (x ∷ xs) zero = some x
  get_elem? (x ∷ xs) (suc i) = get_elem? xs i

  abbrev pub drop : ℕ → List A → List A
  drop zero xs = xs
  drop (suc n) [] = []
  drop (suc n) (x ∷ xs) = drop n xs

  abbrev pub replicate : ℕ → A → List A
  replicate zero a = []
  replicate (suc n) a = a ∷ replicate n a

  -- The first `n` items, if there are so many.
  abbrev pub take_exact : ℕ → List A → Option (List A)
  take_exact zero xs = some []
  take_exact (suc n) [] = none
  take_exact (suc n) (x ∷ xs) = Option.map (λ ys. x ∷ ys) (take_exact n xs)

  -- `std::vector::resize(n, d)`
  abbrev pub resize : ℕ → A → List A → List A
  resize zero d xs = []
  resize (suc n) d [] = d ∷ resize n d []
  resize (suc n) d (x ∷ xs) = x ∷ resize n d xs

  abbrev pub All {κ} : (A → Type κ) → List A → Type κ
  All P [] = Unit {κ}
  All P (x ∷ xs) = P x × All P xs

module _ {ℓ} {A : Type ℓ} where
  pub length-append : (xs ys : List A) → length (xs ++ ys) ≡ length xs + length ys
  length-append [] ys = omega arith
  length-append (x ∷ xs) ys = omega (arith, length-append xs ys)

  pub length-drop : (n : ℕ) (xs : List A) → length (drop n xs) ≡ length xs - n
  length-drop zero xs = omega arith
  length-drop (suc n) [] = omega arith
  length-drop (suc n) (x ∷ xs) = omega (arith, length-drop n xs)

  pub length-replicate : (n : ℕ) (a : A) → length (replicate n a) ≡ n
  length-replicate zero a = refl
  length-replicate (suc n) a = ap suc (length-replicate n a)

  pub length-resize : (n : ℕ) (d : A) (xs : List A) → length (resize n d xs) ≡ n
  length-resize zero d xs = refl
  length-resize (suc n) d [] = ap suc (length-resize n d [])
  length-resize (suc n) d (x ∷ xs) = ap suc (length-resize n d xs)

  -- A resize to the present size changes nothing.
  pub resize-length : (d : A) (xs : List A) → resize (length xs) d xs ≡ xs
  resize-length d [] = refl
  resize-length d (x ∷ xs) = ap (λ ys. x ∷ ys) (resize-length d xs)

  -- An index in range has an item.
  pub get_elem?_lt : (xs : List A) (i : ℕ) → i < length xs → (a : A) × (get_elem? xs i ≡ some a)
  get_elem?_lt [] i h = elim h [ ]
  get_elem?_lt (x ∷ xs) zero h = (x, refl)
  get_elem?_lt (x ∷ xs) (suc i) h = get_elem?_lt xs i (omega arith)

  pub take_exact_le :
      (n : ℕ) (xs : List A)
      → n ≤ length xs
      → (ys : List A) × (take_exact n xs ≡ some ys) × (length ys ≡ n)
  take_exact_le zero xs h = ([], refl, refl)
  take_exact_le (suc n) [] h = elim h [ ]
  take_exact_le (suc n) (x ∷ xs) h =
      let (ys, e, l) = take_exact_le n xs (omega arith) in (x ∷ ys, rw e, ap suc l)

  -- Fewer items than asked for: nothing is taken.
  pub take_exact_gt : (n : ℕ) (xs : List A) → length xs < n → take_exact n xs ≡ none
  take_exact_gt zero xs h = elim h [ ]
  take_exact_gt (suc n) [] h = refl
  take_exact_gt (suc n) (x ∷ xs) h = rw (take_exact_gt n xs (omega arith))

  pub All-append {κ} : (P : A → Type κ) (xs ys : List A) → All P xs → All P ys → All P (xs ++ ys)
  All-append P [] ys h k = k
  All-append P (x ∷ xs) ys h k = (h.0, All-append P xs ys h.1 k)

  pub All-drop {κ} : (P : A → Type κ) (n : ℕ) (xs : List A) → All P xs → All P (drop n xs)
  All-drop P zero xs h = h
  All-drop P (suc n) [] h = tt
  All-drop P (suc n) (x ∷ xs) h = All-drop P n xs h.1

  pub All-resize {κ} :
      (P : A → Type κ) (n : ℕ) (d : A) (xs : List A) → P d → All P xs → All P (resize n d xs)
  All-resize P zero d xs h k = tt
  All-resize P (suc n) d [] h k = (h, All-resize P n d [] h k)
  All-resize P (suc n) d (x ∷ xs) h k = (k.0, All-resize P n d xs h k.1)

  All-one_more {κ} :
      (P : A → Type κ) (x : A) (ys : List A) (o : Option (List A))
      → P x
      → ((zs : List A) → o ≡ some zs → All P zs)
      → Option.map (λ zs. x ∷ zs) o ≡ some ys
      → All P ys
  All-one_more P x ys none h ih g = absurd (cc)
  All-one_more P x ys (some zs) h ih g =
      let joined : x ∷ zs ≡ ys = cc in subst (λ vs. All P vs) joined (h, ih zs refl)

  pub All-take_exact {κ} :
      (P : A → Type κ) (n : ℕ) (xs ys : List A) → take_exact n xs ≡ some ys → All P xs → All P ys
  All-take_exact P zero xs ys e h = let nothing : [] ≡ ys = cc in subst (λ zs. All P zs) nothing tt
  All-take_exact P (suc n) [] ys e h = let never : ⊥ = cc in absurd never
  All-take_exact P (suc n) (x ∷ xs) ys e h =
      All-one_more P x ys (take_exact n xs) h.0 (λ zs f. All-take_exact P n xs zs f h.1) e

  pub drop-add : (m n : ℕ) (xs : List A) → drop (m + n) xs ≡ drop n (drop m xs)
  drop-add zero n xs = rw zero-add
  drop-add (suc m) zero [] = rw add-zero
  drop-add (suc m) (suc n) [] = rw suc-add
  drop-add (suc m) n (x ∷ xs) = rw suc-add (drop-add m n xs)

  -- One cell taken is that cell.
  pub get_elem?_taken :
      (i : ℕ) (xs : List A) (v : A)
      → take_exact 1 (drop i xs) ≡ some (v ∷ [])
      → get_elem? xs i ≡ some v
  get_elem?_taken zero [] v e = cc
  get_elem?_taken zero (x ∷ xs) v e = cc
  get_elem?_taken (suc i) [] v e = cc
  get_elem?_taken (suc i) (x ∷ xs) v e = get_elem?_taken i xs v e

  pub take_exact-length : (n : ℕ) (xs ys : List A) → take_exact n xs ≡ some ys → length ys ≡ n
  take_exact-length n xs ys e = elim (split n (length xs)) [
    | inl h ↦ let (zs, f, l) = take_exact_le n xs h in same ys zs (sym e ∙ f) ∙ l
    | inr h ↦ let never : ⊥ = cc (take_exact_gt n xs h) in absurd never
  ]
    where
      split : (a b : ℕ) → (a ≤ b) ⊎ (b < a)
      split a b = grind arith

      same : (us vs : List A) → some us ≡ some vs → length us ≡ length vs
      same us vs f = ap length (cc)
