-- ===== src/Actions.antt =====
-- Methods of an object with exceptions, as actions on its state.
pub mod Gives
pub mod Keeps
use modbus_cpp.Prelude.{Bool, true, false}
use modbus_cpp.Errors.{Exception, Result, ok, throw, undefined}
use modbus_cpp.Errors.{specification, internal, out_of_range, std_exception}

-- A method: it ends in some way, and leaves the object in some state, also when it throws.
abbrev pub Action {ℓ κ} : Type ℓ → Type κ → Type (ℓ ⊔ κ)
Action S A = S → Result A × S

module _ {ℓ κ} {S : Type ℓ} {A : Type κ} where
  abbrev pub and_then {μ} : {B : Type μ} → Result A × S → (A → Action S B) → Result B × S
  and_then (ok a, s) f = f a s
  and_then (throw e, s) f = (throw e, s)
  and_then (undefined, s) f = (undefined, s)

  infixl 5 ◌>>=◌
  abbrev pub ◌>>=◌ {μ} : {B : Type μ} → Action S A → (A → Action S B) → Action S B
  ◌>>=◌ m f s = and_then (m s) f

  abbrev pub handle_with : Result A × S → (Exception → Action S A) → Result A × S
  handle_with (ok a, s) h = (ok a, s)
  handle_with (throw e, s) h = h e s
  handle_with (undefined, s) h = (undefined, s)

  -- `try { m } catch …`: the handler runs on the object as the exception left it.
  abbrev pub try_catch : Action S A → (Exception → Action S A) → Action S A
  try_catch m h s = handle_with (m s) h

  abbrev pub pure : A → Action S A
  pure a s = (ok a, s)

  abbrev pub raise : Exception → Action S A
  raise e s = (throw e, s)

  abbrev pub lift : Result A → Action S A
  lift r s = (r, s)

  -- A call of a const method, which may throw.
  abbrev pub read : (S → Result A) → Action S A
  read f s = (f s, s)

  abbrev pub gets : (S → A) → Action S A
  gets f s = (ok (f s), s)

module _ {ℓ} {S : Type ℓ} where
  infixl 5 ◌>>◌
  abbrev pub ◌>>◌ {μ} : {B : Type μ} → Action S (Unit {0}) → Action S B → Action S B
  ◌>>◌ m k = m >>= λ _. k

  abbrev pub modify : (S → S) → Action S (Unit {0})
  modify f s = (ok tt, f s)

  abbrev pub if_then_throw : Bool → Exception → Action S (Unit {0})
  if_then_throw true e s = (throw e, s)
  if_then_throw false e s = (ok tt, s)

  -- `if (test) throw e(…);`, both read from the object.
  abbrev pub throw_if : (S → Bool) → (S → Exception) → Action S (Unit {0})
  throw_if test e s = if_then_throw (test s) (e s) s

-- `catch (...) { throw e(…); }`
abbrev pub rethrow_all {ℓ κ} : {S : Type ℓ} {A : Type κ} → (S → Exception) → Exception → Action S A
rethrow_all e _ s = (throw (e s), s)

-- `catch (const std::out_of_range&) { throw a(…); } catch (...) { throw e(…); }`
abbrev pub rethrow_range {ℓ κ} :
    {S : Type ℓ} {A : Type κ} → (S → Exception) → (S → Exception) → Exception → Action S A
rethrow_range a e out_of_range s = (throw (a s), s)
rethrow_range a e (specification c f h) s = (throw (e s), s)
rethrow_range a e (internal c) s = (throw (e s), s)
rethrow_range a e std_exception s = (throw (e s), s)

-- A call of a method of a part of the object.
abbrev pub focus {ℓ κ μ} :
    {S : Type ℓ} {T : Type κ} {A : Type μ} → (S → T) → (T → S → S) → Action T A → Action S A
focus part put m s = ((m (part s)).0, put (m (part s)).1 s)
