-- ===== src/Actions/Gives.antt =====
-- What a call gives if it returns, and what holds of the object however it ends.
use modbus_cpp.Prelude.{◌≡◌, ◌≢◌, refl, Bool, true, false, if◌then◌else◌}
use modbus_cpp.Errors.{
  Exception, specification, internal, out_of_range, std_exception, Result, ok, throw, undefined,
  or_throw, ◌>>=◌,
}
use modbus_cpp.Actions.{Action, and_then, handle_with, if_then_throw, rethrow_all, rethrow_range}

-- A call that returns does so with a value for which `P` holds, and `U` holds where the behaviour is
-- undefined: it never is if `U` cannot hold.
abbrev pub Returning {ℓ} : Type 0 → {A : Type ℓ} → (A → Type 0) → Result A → Type 0
Returning U P (ok a) = P a
Returning U P (throw e) = Unit
Returning U P undefined = U

abbrev pub Any {ℓ} : {A : Type ℓ} → A → Type 0
Any a = Unit {0}

module _ (U : Type 0) where
  pub Returning-Any {ℓ} : {A : Type ℓ} (r : Result A) → (r ≡ undefined → U) → Returning U Any r
  Returning-Any (ok a) h = tt
  Returning-Any (throw e) h = tt
  Returning-Any undefined h = h refl

  pub Returning-defined {ℓ} : {A : Type ℓ} (r : Result A) → r ≢ undefined → Returning U Any r
  Returning-defined r h = Returning-Any r (λ e. absurd (h e))

module _ {ℓ} (U : Type 0) {A : Type ℓ} (P : A → Type 0) where
  pub Returning-or_throw :
      (failed : Bool) (e : Exception) (r : Result A)
      → (failed ≡ false → Returning U P r)
      → Returning U P (or_throw failed e r)
  Returning-or_throw true e r h = tt
  Returning-or_throw false e r h = h refl

  pub Returning->>= {μ} :
      {B : Type μ} (Q : B → Type 0) (r : Result B) (f : B → Result A)
      → Returning U Q r
      → ((b : B) → Q b → Returning U P (f b))
      → Returning U P (r >>= f)
  Returning->>= Q (ok b) f h k = k b h
  Returning->>= Q (throw e) f h k = tt
  Returning->>= Q undefined f h k = h

module _ {S : Type 0} where
  -- The value has `P`, and the object that is left has `Q`; where the behaviour is undefined, `U`.
  pub record Gives (U : Type 0) {A : Type 0} (P : A → Type 0) (Q : S → Type 0) (x : Result A × S)
      : Type 0 where
    pub value : Returning U P x.0
    pub left : Q x.1

module _ {U S : Type 0} where
  pub Gives-then :
      {A B : Type 0} (O : A → Type 0) (P : B → Type 0) (Q : S → Type 0) (x : Result A × S)
      (f : A → Action S B)
      → Gives U O Q x
      → ((a : A) → O a → (s : S) → Q s → Gives U P Q (f a s))
      → Gives U P Q (and_then x f)
  Gives-then O P Q (ok a, s) f h k = k a h.value s h.left
  Gives-then O P Q (throw e, s) f h k = record { value = tt; left = h.left }
  Gives-then O P Q (undefined, s) f h k = record { value = h.value; left = h.left }

  pub Gives-caught :
      {A : Type 0} (P : A → Type 0) (Q : S → Type 0) (x : Result A × S) (f : Exception → Action S A)
      → Gives U P Q x
      → ((e : Exception) (s : S) → Q s → Gives U P Q (f e s))
      → Gives U P Q (handle_with x f)
  Gives-caught P Q (ok a, s) f h k = h
  Gives-caught P Q (throw e, s) f h k = k e s h.left
  Gives-caught P Q (undefined, s) f h k = h

  pub Gives-result :
      {A : Type 0} (P : A → Type 0) (Q : S → Type 0) (r : Result A) (s : S)
      → Returning U P r
      → Q s
      → Gives U P Q (r, s)
  Gives-result P Q r s h k = record { value = h; left = k }

  pub Gives-thrown :
      (Q : S → Type 0) (failed : Bool) (e : Exception) (s : S)
      → Q s
      → Gives U (λ _. failed ≡ false) Q (if_then_throw failed e s)
  Gives-thrown Q true e s k = record { value = tt; left = k }
  Gives-thrown Q false e s k = record { value = refl; left = k }

  -- One of two calls, by a test.
  pub Gives-either :
      {A : Type 0} (P : A → Type 0) (Q : S → Type 0) (c : Bool) (x y : Result A × S)
      → (c ≡ true → Gives U P Q x)
      → (c ≡ false → Gives U P Q y)
      → Gives U P Q (if c then x else y)
  Gives-either P Q true x y h k = h refl
  Gives-either P Q false x y h k = k refl

  pub Gives-rethrow_all :
      {A : Type 0} (P : A → Type 0) (Q : S → Type 0) (e : S → Exception) (x : Exception) (s : S)
      → Q s
      → Gives U P Q (rethrow_all e x s)
  Gives-rethrow_all P Q e x s k = record { value = tt; left = k }

  pub Gives-rethrow_range :
      {A : Type 0} (P : A → Type 0) (Q : S → Type 0) (a e : S → Exception) (x : Exception) (s : S)
      → Q s
      → Gives U P Q (rethrow_range a e x s)
  Gives-rethrow_range P Q a e out_of_range s k = record { value = tt; left = k }
  Gives-rethrow_range P Q a e (specification c f h) s k = record { value = tt; left = k }
  Gives-rethrow_range P Q a e (internal c) s k = record { value = tt; left = k }
  Gives-rethrow_range P Q a e std_exception s k = record { value = tt; left = k }
