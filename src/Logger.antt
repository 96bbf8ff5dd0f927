-- ===== src/Logger.antt =====
-- include/modbuscpp/modbuscpp/logger.hpp and source/logger.cpp: the process-wide logger. Classes that
-- an application derives from `logger` are not modelled; fmt prints the messages.
pub mod Printing
use modbus_cpp.Prelude.{
  ℕ, zero, suc, Bool, true, false, if◌then◌else◌, ◌==◌, Option, none, some, List, [], ◌∷◌, ◌++◌,
  length, get_elem?,
}
use modbus_cpp.Errors.{Result, ok, index_result}
use modbus_cpp.Actions.{Action, pure, modify, gets, read, lift, ◌>>=◌, ◌>>◌}
use modbus_cpp.Utilities.{Text}

-- The loggers that have been made, by the value of `debug_`: a `logger*` is a place in the list.
-- `create` is a template, and each of its instances, which differ in the types of the arguments
-- (none, `bool`, `bool&`, …), has a static logger of its own: `statics` gives it, by the number of
-- the instance. Instance 0 is the one with no argument. `printed` is what has been printed, the
-- oldest message first.
pub record Logging : Type 0 where
  pub instance_of : Option ℕ
  pub loggers : List Bool
  pub statics : ℕ → Option ℕ
  pub printed : List Text

abbrev pub initial : Logging
initial = record { instance_of = none; loggers = []; statics = λ _. none; printed = [] }

abbrev pub put_static : ℕ → ℕ → (ℕ → Option ℕ) → ℕ → Option ℕ
put_static i p statics j = if i == j then some p else statics j

-- A static that is there already is not made again, whatever the arguments.
abbrev pub made : Option ℕ → ℕ → Bool → Logging → Logging
made (some p) i debug g = record g { instance_of = some p }
made none i debug g = record g {
  instance_of = some (length g.loggers);
  loggers = g.loggers ++ debug ∷ [];
  statics = put_static i (length g.loggers) g.statics;
}

abbrev pub unless_there : Option ℕ → (Logging → Logging) → Logging → Logging
unless_there (some p) f g = g
unless_there none f g = f g

-- The instance `i` of `create`, if its arguments make a logger with this flag.
unfoldable pub create_as : ℕ → Bool → Logging → Logging
create_as i debug g = unless_there g.instance_of (made (g.statics i) i debug) g

-- `create()`
abbrev pub create : Logging → Logging
create = create_as 0 false

-- `create(debug)`, for the type of argument that is numbered `i`.
abbrev pub create_with : ℕ → Bool → Logging → Logging
create_with i = create_as (suc i)

-- `set(instance)`; `none` is the null pointer.
abbrev pub set : Option ℕ → Logging → Logging
set instance g = record g { instance_of = instance }

-- `logger(debug)`, a logger of the application: its address.
abbrev pub construct : Bool → Action Logging ℕ
construct debug g = (ok (length g.loggers), record g { loggers = g.loggers ++ debug ∷ [] })

-- `get`
unfoldable pub get : Action Logging ℕ
get = do modify create; read (λ g. index_result g.instance_of)

abbrev pub print : Text → Logging → Logging
print message g = record g { printed = g.printed ++ message ∷ [] }

-- `info_impl`, which does not look at its logger.
abbrev pub info_impl : ℕ → Text → Action Logging (Unit {0})
info_impl this message = modify (print message)

-- `info`
unfoldable pub info : Text → Action Logging (Unit {0})
info message = do this ← get; info_impl this message

-- `error_impl` prints through the current logger.
abbrev pub error_impl : ℕ → Text → Action Logging (Unit {0})
error_impl this message = info message

-- `error`
unfoldable pub error : Text → Action Logging (Unit {0})
error message = do this ← get; error_impl this message

abbrev pub info_if : Bool → Text → Action Logging (Unit {0})
info_if debug message = if debug then info message else pure tt

-- `debug_impl`
unfoldable pub debug_impl : ℕ → Text → Action Logging (Unit {0})
debug_impl this message = do
  debug ← read (λ g. index_result (get_elem? g.loggers this))
  info_if debug message

-- `debug`
unfoldable pub debug : Text → Action Logging (Unit {0})
debug message = do this ← get; debug_impl this message

-- `set_debug` of the logger at an address.
abbrev pub set_at : ℕ → Bool → List Bool → List Bool
set_at i debug [] = []
set_at zero debug (x ∷ xs) = debug ∷ xs
set_at (suc i) debug (x ∷ xs) = x ∷ set_at i debug xs

abbrev pub set_debug : ℕ → Bool → Logging → Logging
set_debug this debug g = record g { loggers = set_at this debug g.loggers }
