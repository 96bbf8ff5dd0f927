-- ===== src/Actions/Keeps.antt =====
-- Actions that keep a relation between the object before and after, however they end.
use modbus_cpp.Errors.{Exception, Result, ok, throw, undefined}
use modbus_cpp.Actions.{Action, and_then, handle_with}

abbrev pub Keeps {ℓ κ μ} : {S : Type ℓ} {A : Type κ} → (S → S → Type μ) → Action S A → Type (ℓ ⊔ μ)
Keeps {S} R m = (s : S) → R s (m s).1

module _ {ℓ κ μ} {S : Type ℓ} {A : Type κ} (R : S → S → Type μ)
    (R-trans : (s t u : S) → R s t → R t u → R s u) where
  pub after_step {ν} :
      {B : Type ν} (s : S) (x : Result A × S) (f : A → Action S B)
      → R s x.1
      → ((a : A) → Keeps R (f a))
      → R s (and_then x f).1
  after_step s (ok a, t) f h k = R-trans s t (f a t).1 h (k a t)
  after_step s (throw e, t) f h k = h
  after_step s (undefined, t) f h k = h

  pub after_catch :
      (s : S) (x : Result A × S) (f : Exception → Action S A)
      → R s x.1
      → ((e : Exception) → Keeps R (f e))
      → R s (handle_with x f).1
  after_catch s (ok a, t) f h k = h
  after_catch s (throw e, t) f h k = R-trans s t (f e t).1 h (k e t)
  after_catch s (undefined, t) f h k = h
