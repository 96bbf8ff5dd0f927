-- ===== src/Logger/Printing.antt =====
-- What the logger prints, in any state that a program can bring it to.
use modbus_cpp.Prelude.{
  ℕ, zero, suc, ◌+◌, ◌<◌, ◌≤◌, ◌≡◌, refl, sym, subst, ap, ◌∙◌, Bool, true, false, if◌then◌else◌,
  Option, none, some, List, [], ◌∷◌, ◌++◌, length, length-append, ==-refl, ◌==◌, get_elem?,
  get_elem?_lt, arith,
}
use modbus_cpp.Errors.{ok}
use modbus_cpp.Utilities.{Text}
use modbus_cpp.Logger.{
  Logging, initial, create, create_with, create_as, made, put_static, unless_there, set, construct,
  print, info, error, debug, debug_impl, get, set_at, set_debug,
}

-- A pointer to one of so many loggers, or null.
abbrev pub Known : Option ℕ → ℕ → Type 0
Known none n = Unit {0}
Known (some p) n = p < n

pub record IsValid (g : Logging) : Type 0 where
  pub instance_of : Known g.instance_of (length g.loggers)
  pub statics : (i : ℕ) → Known (g.statics i) (length g.loggers)

-- What a program can do: the application passes `set` and `set_debug` only its own loggers.
pub data Step : Logging → Logging → Type 0 where
  creates : (g : Logging) → Step g (create g)
  creates_with : (g : Logging) (i : ℕ) (debug : Bool) → Step g (create_with i debug g)
  constructs : (g : Logging) (debug : Bool) → Step g (construct debug g).1
  sets : (g : Logging) (p : Option ℕ) → Known p (length g.loggers) → Step g (set p g)
  sets_debug : (g : Logging) (p : ℕ) (debug : Bool) → Step g (set_debug p debug g)
  informs : (g : Logging) (message : Text) → Step g (info message g).1
  reports : (g : Logging) (message : Text) → Step g (error message g).1
  debugs : (g : Logging) (message : Text) → Step g (debug message g).1

pub data Reach (f : Logging) : Logging → Type 0 where
  here : Reach f f
  next : {g h : Logging} → Reach f g → Step g h → Reach f h

Known-le : (p : Option ℕ) (n m : ℕ) → n ≤ m → Known p n → Known p m
Known-le none n m h k = tt
Known-le (some p) n m h k = omega arith

-- A state with one logger more, which `get` would give or which is a static.
grown :
    (g : Logging) (d : Bool) (i : Option ℕ) (statics : ℕ → Option ℕ)
    → Known i (length g.loggers + 1)
    → ((k : ℕ) → Known (statics k) (length g.loggers + 1))
    → IsValid (record g { instance_of = i; loggers = g.loggers ++ d ∷ []; statics = statics })
grown g d i statics h k =
    let one_more : length (g.loggers ++ d ∷ []) ≡ length g.loggers + 1 =
      length-append g.loggers (d ∷ []) in
    record { instance_of = rw one_more h; statics = λ n. rw one_more (k n) }

more : (g : Logging) (p : Option ℕ) → Known p (length g.loggers) → Known p (length g.loggers + 1)
more g p h = Known-le p _ _ (omega arith) h

put-Known :
    (c : Bool) (p n : ℕ) (q : Option ℕ) → p < n → Known q n → Known (if c then some p else q) n
put-Known true p n q h k = h
put-Known false p n q h k = k

put_there : (i p : ℕ) (statics : ℕ → Option ℕ) → put_static i p statics i ≡ some p
put_there i p statics = rw (==-refl i)

made-IsValid :
    (p : Option ℕ) (i : ℕ) (d : Bool) (g : Logging)
    → g.statics i ≡ p
    → IsValid g
    → IsValid (made p i d g)
made-IsValid none i d g e v =
    grown g d (some (length g.loggers)) (put_static i (length g.loggers) g.statics) (omega arith)
      λ k.
        put-Known (i == k) (length g.loggers) _ (g.statics k) (omega arith)
          (more g (g.statics k) (v.statics k))
made-IsValid (some p) i d g e v = record {
  instance_of = subst (λ q. Known q (length g.loggers)) e (v.statics i);
  statics = v.statics;
}

unless_there-IsValid :
    (p : Option ℕ) (f : Logging → Logging) (g : Logging)
    → IsValid g
    → IsValid (f g)
    → IsValid (unless_there p f g)
unless_there-IsValid none f g v w = w
unless_there-IsValid (some p) f g v w = v

create_as-IsValid : (i : ℕ) (d : Bool) (g : Logging) → IsValid g → IsValid (create_as i d g)
unfolding create_as
create_as-IsValid i d g v =
    unless_there-IsValid g.instance_of (made (g.statics i) i d) g v
      (made-IsValid (g.statics i) i d g refl v)

length-set_at : (i : ℕ) (d : Bool) (xs : List Bool) → length (set_at i d xs) ≡ length xs
length-set_at i d [] = refl
length-set_at zero d (x ∷ xs) = refl
length-set_at (suc i) d (x ∷ xs) = ap suc (length-set_at i d xs)

leaves_logger :
    (i p : Option ℕ) (g : Logging)
    → g.instance_of ≡ i
    → (n : ℕ) × ((unless_there i (made p 0 false) g).instance_of ≡ some n)
leaves_logger (some n) p g e = (n, e)
leaves_logger none none g e = (length g.loggers, refl)
leaves_logger none (some n) g e = (n, refl)

-- `create` leaves a logger to print with.
created :
    (g : Logging)
    → IsValid g
    → (p : ℕ) × (d : Bool) × ((create g).instance_of ≡ some p)
      × (get_elem? (create g).loggers p ≡ some d)
created g v =
    let (p, e) : (p : ℕ) × ((create g).instance_of ≡ some p) =
      unfold create_as in leaves_logger g.instance_of (g.statics 0) g refl in
    let known : Known (some p) (length (create g).loggers) =
      subst (λ i. Known i (length (create g).loggers)) e
        (create_as-IsValid 0 false g v).instance_of in
    let (d, f) = get_elem?_lt (create g).loggers p known in (p, d, e, f)

-- A logger that is there is kept, by every instance of `create`.
create_again :
    (i : ℕ) (d : Bool) (g : Logging) (p : ℕ) → g.instance_of ≡ some p → create_as i d g ≡ g
unfolding create_as
create_again i d g p e = rw e

-- If none is there, the static is, if it has been made, and else a new one.
create_missing :
    (i : ℕ) (d : Bool) (g : Logging)
    → g.instance_of ≡ none
    → create_as i d g ≡ made (g.statics i) i d g
unfolding create_as
create_missing i d g e = rw e

module _ (m : Text) (g : Logging) (p : ℕ) where
  -- The current logger is the one that `create` leaves.
  module _ (e : (create g).instance_of ≡ some p) where
    get_lem : get g ≡ (ok p, create g)
    unfolding get
    get_lem = rw e

    info_lem : info m g ≡ (ok tt, print m (create g))
    unfolding info
    info_lem = rw get_lem

  info_current : g.instance_of ≡ some p → info m g ≡ (ok tt, print m g)
  info_current e =
      let same = create_again 0 false g p e in
      info_lem (ap (λ h. h.instance_of) same ∙ e) ∙ ap (λ h. (ok tt, print m h)) same

module _ (m : Text) (g : Logging) (p : ℕ) (e : (create g).instance_of ≡ some p) where
  error_lem : error m g ≡ (ok tt, print m (create g))
  unfolding error
  error_lem = rw (get_lem m g p e) (info_current m (create g) p e)

  debug_lem :
      (d : Bool)
      → get_elem? (create g).loggers p ≡ some d
      → debug m g ≡ (ok tt, if d then print m (create g) else create g)
  unfolding debug debug_impl
  debug_lem true f = rw (get_lem m g p e, f) (info_current m (create g) p e)
  debug_lem false f = rw (get_lem m g p e, f)

last_elem : (xs : List Bool) (d : Bool) → get_elem? (xs ++ d ∷ []) (length xs) ≡ some d
last_elem [] d = refl
last_elem (x ∷ xs) d = last_elem xs d

-- Which logger is there after a call of `create`, with no argument or with one: the one that was
-- there, whatever the call asks for, with nothing changed; if there was none, the static of the
-- instance, with the flag that it was made with; and if that has not been made, a new one with the
-- flag that the call asks for.
pub record Creates (g : Logging) (i : ℕ) (debug : Bool) : Type 0 where
  pub kept : (q : ℕ) → g.instance_of ≡ some q → create_as i debug g ≡ g
  pub old :
      (q : ℕ)
      → g.instance_of ≡ none
      → g.statics i ≡ some q
      → create_as i debug g ≡ record g { instance_of = some q }
  pub new :
      g.instance_of ≡ none
      → g.statics i ≡ none
      → ((create_as i debug g).instance_of ≡ some (length g.loggers))
        × ((create_as i debug g).loggers ≡ g.loggers ++ debug ∷ [])
        × (get_elem? (create_as i debug g).loggers (length g.loggers) ≡ some debug)
        × ((create_as i debug g).statics i ≡ some (length g.loggers))

all-Creates : (g : Logging) (i : ℕ) (debug : Bool) → Creates g i debug
all-Creates g i debug = record {
  kept = λ q e. create_again i debug g q e;
  old = λ q e f. create_missing i debug g e ∙ rw f;
  new = λ e f.
      let same : create_as i debug g ≡ made none i debug g =
        create_missing i debug g e ∙ ap (λ p. made p i debug g) f in
      rw same (refl, refl, last_elem g.loggers debug, put_there i (length g.loggers) g.statics);
}

-- What the three calls do, for the logger `p` with the flag `d`, and which logger that is.
pub record Prints (m : Text) (g : Logging) (p : ℕ) (d : Bool) : Type 0 where
  pub created : Creates g 0 false
  pub created_with : (i : ℕ) (debug : Bool) → Creates g (suc i) debug
  pub current : (create g).instance_of ≡ some p
  pub flag : get_elem? (create g).loggers p ≡ some d
  pub informs : info m g ≡ (ok tt, print m (create g))
  pub reports : error m g ≡ (ok tt, print m (create g))
  pub debugs : debug m g ≡ (ok tt, if d then print m (create g) else create g)

valid-Prints : (m : Text) (g : Logging) → IsValid g → (p : ℕ) × (d : Bool) × Prints m g p d
valid-Prints m g v =
    let (p, d, e, f) = created g v in
    (
      p,
      d,
      record {
        created = all-Creates g 0 false;
        created_with = λ i debug. all-Creates g (suc i) debug;
        current = e;
        flag = f;
        informs = info_lem m g p e;
        reports = error_lem m g p e;
        debugs = debug_lem m g p e d f;
      },
    )

print-IsValid : (m : Text) (g : Logging) → IsValid g → IsValid (print m g)
print-IsValid m g v = record { instance_of = v.instance_of; statics = v.statics }

debug-IsValid :
    (m : Text) (g : Logging) (d : Bool)
    → IsValid (create g)
    → IsValid (if d then print m (create g) else create g)
debug-IsValid m g true v = print-IsValid m (create g) v
debug-IsValid m g false v = v

Step-IsValid : {g h : Logging} → Step g h → IsValid g → IsValid h
Step-IsValid (creates g) v = create_as-IsValid 0 false g v
Step-IsValid (creates_with g i d) v = create_as-IsValid (suc i) d g v
Step-IsValid (constructs g d) v =
    grown g d g.instance_of g.statics (more g g.instance_of v.instance_of)
      (λ k. more g (g.statics k) (v.statics k))
Step-IsValid (sets g p k) v = record { instance_of = k; statics = v.statics }
Step-IsValid (sets_debug g p d) v =
    let same = length-set_at p d g.loggers in
    record {
      instance_of = subst (Known g.instance_of) (sym same) v.instance_of;
      statics = λ k. subst (Known (g.statics k)) (sym same) (v.statics k);
    }
Step-IsValid (informs g m) v =
    let (_, _, calls) = valid-Prints m g v in
    subst IsValid (sym (ap (λ x. x.1) calls.informs))
      (print-IsValid m (create g) (create_as-IsValid 0 false g v))
Step-IsValid (reports g m) v =
    let (_, _, calls) = valid-Prints m g v in
    subst IsValid (sym (ap (λ x. x.1) calls.reports))
      (print-IsValid m (create g) (create_as-IsValid 0 false g v))
Step-IsValid (debugs g m) v =
    let (_, d, calls) = valid-Prints m g v in
    subst IsValid (sym (ap (λ x. x.1) calls.debugs))
      (debug-IsValid m g d (create_as-IsValid 0 false g v))

initial-IsValid : IsValid initial
initial-IsValid = record { instance_of = tt; statics = λ _. tt }

Reach-IsValid : {g : Logging} → Reach initial g → IsValid g
Reach-IsValid here = initial-IsValid
Reach-IsValid (next r st) = Step-IsValid st (Reach-IsValid r)

-- In every state that a program can reach by creating, setting and using loggers: `create`, with
-- an argument or without, changes nothing if there is a logger, whatever flag it asks for; else it
-- takes the static of its instance of the template, if that has been made, and else makes a new
-- logger with the flag that it asks for. There is a current logger after the first call; `info`
-- and `error` print their message, and `debug` prints it exactly if the flag of that logger is
-- set, and nothing else changes but what `create` makes. Programs that set a pointer to no logger
-- are left out.
pub Reach-Prints :
    (m : Text) {g : Logging} → Reach initial g → (p : ℕ) × (d : Bool) × Prints m g p d
Reach-Prints m {g} r = valid-Prints m g (Reach-IsValid r)
