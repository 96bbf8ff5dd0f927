-- ===== src/Types/Numbers.antt =====
-- The number types of include/modbuscpp/modbuscpp/types.hpp as the application uses them:
-- constructors with a check, comparisons and arithmetic of `base_metadata_t<std::uint16_t>`,
-- `num_bits_t` and `num_regs_t`, each by its `value_`.
use modbus_cpp.Prelude.{
  ℕ, ◌+◌, ◌≤◌, ◌≡◌, Bool, true, false, not, ◌&&◌, ltb, leb, ◌==◌, u16, if◌then◌else◌, refl, ◌∙◌,
  inl, inr, Bool-cases, ◌↔◌, arith,
}
use modbus_cpp.Types.{metadata_sub, validate, num_bits_validate, num_regs_validate, IsU16}
use modbus_cpp.Constants.{
  max_num_bits_read, max_num_bits_write, max_num_regs_read, max_num_regs_write,
}
use modbus_cpp.Errors.{Result, ok, throw, out_of_range}

-- `base_metadata_t(value, do_validation)`. Here and below the parameter is a `std::uint16_t`, to which
-- the number that the caller has is converted.
unfoldable pub metadata_make : ℕ → Bool → Result ℕ
metadata_make value do_validation =
    let v = u16 value in if do_validation && not (validate v) then throw out_of_range else ok v

-- `num_bits_t<write>(value, do_validation)`
unfoldable pub num_bits_make : Bool → ℕ → Bool → Result ℕ
num_bits_make write value do_validation =
    let v = u16 value in
    if do_validation && not (num_bits_validate write v) then throw out_of_range else ok v

-- `num_regs_t<write>(value, do_validation)`
unfoldable pub num_regs_make : Bool → ℕ → Bool → Result ℕ
num_regs_make write value do_validation =
    let v = u16 value in
    if do_validation && not (num_regs_validate write v) then throw out_of_range else ok v

-- `operator==`, `<`, `<=`, `>`, `>=` and `!=`
abbrev pub metadata_eq : ℕ → ℕ → Bool
metadata_eq a b = a == b

abbrev pub metadata_lt : ℕ → ℕ → Bool
metadata_lt a b = ltb a b

abbrev pub metadata_le : ℕ → ℕ → Bool
metadata_le a b = leb a b

abbrev pub metadata_gt : ℕ → ℕ → Bool
metadata_gt a b = ltb b a

abbrev pub metadata_ge : ℕ → ℕ → Bool
metadata_ge a b = leb b a

abbrev pub metadata_ne : ℕ → ℕ → Bool
metadata_ne a b = not (a == b)

-- `operator+`, `operator++` and `operator--`: the `std::uint16_t` wraps around.
unfoldable pub metadata_add : ℕ → ℕ → ℕ
metadata_add a b = u16 (a + b)

unfoldable pub increment : ℕ → ℕ
increment a = u16 (a + 1)

unfoldable pub decrement : ℕ → ℕ
decrement a = u16 (a + 65535)

-- The largest count of bits, and of registers, for writes and for reads.
abbrev pub bits_limit : Bool → ℕ
bits_limit write = if write then max_num_bits_write else max_num_bits_read

abbrev pub regs_limit : Bool → ℕ
regs_limit write = if write then max_num_regs_write else max_num_regs_read

-- What a validated constructor does: it takes a value that is in a range as a `std::uint16_t`, and
-- throws on any other.
abbrev pub Accepts : (ℕ → Bool → Result ℕ) → ℕ → ℕ → Type 0
Accepts make lowest highest =
    (n : ℕ)
    → (make n false ≡ ok (u16 n))
      × ((make n true ≡ ok (u16 n)) ↔ ((lowest ≤ u16 n) × (u16 n ≤ highest)))
      × ((make n true ≡ throw out_of_range) ↔ ¬ ((lowest ≤ u16 n) × (u16 n ≤ highest)))

pick : (b : Bool) (n : ℕ) → Result ℕ
pick b n = if not b then throw out_of_range else ok n

Accepts-pick :
    (make : ℕ → Bool → Result ℕ) (test : ℕ → Bool) (lowest highest : ℕ)
    → ((n : ℕ) → make n false ≡ ok (u16 n))
    → ((n : ℕ) → make n true ≡ pick (test (u16 n)) (u16 n))
    → ((n : ℕ) → (test (u16 n) ≡ true) ↔ ((lowest ≤ u16 n) × (u16 n ≤ highest)))
    → Accepts make lowest highest
unfolding pick
Accepts-pick make test lowest highest plain checked exact n = elim (Bool-cases (test (u16 n))) [
  | inl t ↦
      let e : make n true ≡ ok (u16 n) = checked n ∙ rw t in
      (
        plain n,
        (λ _. (exact n).0 t, λ _. e),
        (λ f. let never : ⊥ = cc in absurd never, λ out. absurd (out ((exact n).0 t))),
      )
  | inr t ↦
      let e : make n true ≡ throw out_of_range = checked n ∙ rw t in
      (
        plain n,
        (
          λ f. let never : ⊥ = cc in absurd never,
          λ r. let never : ⊥ = cc ((exact n).1 r) in absurd never,
        ),
        (λ _ r. cc ((exact n).1 r), λ _. e),
      )
]

-- Every value is an address.
metadata_make_lem : (n : ℕ) (do_validation : Bool) → metadata_make n do_validation ≡ ok (u16 n)
unfolding metadata_make
metadata_make_lem n false = refl
metadata_make_lem n true = ground arith

-- An address or a value is made of any number, taken modulo 65536, and never refused, with
-- validation or without. A count of bits or registers that is made with validation is refused
-- exactly if the number, taken modulo 65536, is outside of the range of the protocol, 1 to the
-- limit for reads or writes; without validation it never is. What is kept is the number modulo
-- 65536.
pub make-Accepts :
    ((n : ℕ) (do_validation : Bool) → metadata_make n do_validation ≡ ok (u16 n))
    × ((write : Bool) → Accepts (num_bits_make write) 1 (bits_limit write))
    × ((write : Bool) → Accepts (num_regs_make write) 1 (regs_limit write))
unfolding num_bits_make num_regs_make pick
make-Accepts = (
  metadata_make_lem,
  λ write.
      Accepts-pick (num_bits_make write) (num_bits_validate write) 1 (bits_limit write) (λ n. refl)
        (λ n. refl) (λ n. ground arith),
  λ write.
      Accepts-pick (num_regs_make write) (num_regs_validate write) 1 (regs_limit write) (λ n. refl)
        (λ n. refl) (λ n. ground arith),
)

-- Addition and subtraction undo each other, also where they wrap around.
pub metadata_add-sub :
    (a b : ℕ)
    → IsU16 a
    → IsU16 b
    → (metadata_sub (metadata_add a b) b ≡ a) × (metadata_add (metadata_sub a b) b ≡ a)
unfolding metadata_add
metadata_add-sub a b h k = (omega arith, omega arith)
