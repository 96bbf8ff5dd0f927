-- ===== src/Operation/Packing/Bytes.antt =====
-- One byte and its eight bits. Facts on the bit operations are tables, checked by evaluation.
use modbus_cpp.Prelude.{
  ℕ, zero, suc, ◌+◌, ◌-◌, ◌*◌, ◌^◌, ◌<◌, ◌≤◌, ◌≡◌, refl, sym, ap, ◌∙◌, Bool, true, false, ◌&&◌,
  List, [], ◌∷◌, ◌++◌, arith, length, length-append, replicate, length-replicate, ◌==◌, ==_iff,
}
use native.Mathlib.Nat.{pow-suc}
use modbus_cpp.Operation.{unpack_byte, or_shifted, bit_value}

-- The number that a list of bits stands for, lowest bit first.
abbrev pub value : List Bool → ℕ
value [] = 0
value (b ∷ bits) = bit_value b + 2 * value bits

-- A test passes at every number under a limit; it is run at each of them.
passes_under : (ℕ → Bool) → ℕ → Bool
passes_under test zero = true
passes_under test (suc limit) = passes_under test limit && test limit

passes_under-lt :
    (test : ℕ → Bool) (limit k : ℕ) → k < limit → passes_under test limit ≡ true → test k ≡ true
unfolding passes_under
passes_under-lt test zero k below table = absurd (omega arith)
passes_under-lt test (suc limit) k below table = ground (arith, passes_under-lt test limit k)

or_table :
    (b : Bool)
    → passes_under (λ k. passes_under (λ x. or_shifted x b k == x + bit_value b * 2 ^ k) (2 ^ k)) 8
      ≡ true
unfolding passes_under
or_table true = refl
or_table false = refl

-- A bit above those that are set is added.
pub or_shifted_lem :
    (k x : ℕ) (b : Bool) → k < 8 → x < 2 ^ k → or_shifted x b k ≡ x + bit_value b * 2 ^ k
or_shifted_lem k x b hk hx =
    (==_iff _ _).0 (passes_under-lt _ (2 ^ k) x hx (passes_under-lt _ 8 k hk (or_table b)))

unpack_table : passes_under (λ x. value (unpack_byte 8 0 x) == x) 256 ≡ true
unfolding passes_under unpack_byte
unpack_table = refl

value-unpack_byte : (x : ℕ) → x < 256 → value (unpack_byte 8 0 x) ≡ x
value-unpack_byte x h = (==_iff _ x).0 (passes_under-lt _ 256 x h unpack_table)

pub length-unpack_byte : (n k x : ℕ) → length (unpack_byte n k x) ≡ n
unfolding unpack_byte
length-unpack_byte zero k x = refl
length-unpack_byte (suc n) k x = ap suc (length-unpack_byte n (k + 1) x)

-- Lists of one length that stand for one number are equal.
value-injective : (xs ys : List Bool) → length xs ≡ length ys → value xs ≡ value ys → xs ≡ ys
value-injective [] [] h e = refl
value-injective [] (y ∷ ys) h e = absurd (omega arith)
value-injective (x ∷ xs) [] h e = absurd (omega arith)
value-injective (x ∷ xs) (y ∷ ys) h e = ground (arith, value-injective xs ys)

pub value-append_one :
    (bits : List Bool) (b : Bool)
    → value (bits ++ b ∷ []) ≡ value bits + bit_value b * 2 ^ length bits
value-append_one [] b = omega arith
value-append_one (x ∷ bits) b =
    omega
      (arith, value-append_one bits b, ap (λ (t : ℕ). bit_value b * t) (pow-suc 2 (length bits)))

pub value-lt : (bits : List Bool) → value bits < 2 ^ length bits
value-lt [] = omega arith
value-lt (b ∷ bits) = ground (arith, value-lt bits, pow-suc 2 (length bits))

value-append_zeros : (bits : List Bool) (n : ℕ) → value (bits ++ replicate n false) ≡ value bits
value-append_zeros [] zero = refl
value-append_zeros [] (suc n) = omega (arith, value-append_zeros [] n)
value-append_zeros (b ∷ bits) n = omega (arith, value-append_zeros bits n)

-- A byte made of at most eight bits unpacks to these bits and zeros.
pub unpack_byte_pad :
    (bits : List Bool)
    → length bits ≤ 8
    → unpack_byte 8 0 (value bits) ≡ bits ++ replicate (8 - length bits) false
unpack_byte_pad bits h =
    value-injective (unpack_byte 8 0 (value bits)) padded
      (length-unpack_byte 8 0 (value bits) ∙ sym eight)
      (value-unpack_byte (value bits) small ∙ sym (value-append_zeros bits (8 - length bits)))
  where
    padded : List Bool
    padded = bits ++ replicate (8 - length bits) false

    eight : length padded ≡ 8
    eight = omega (
      arith,
      length-append bits (replicate (8 - length bits) false),
      length-replicate (8 - length bits) false,
    )

    small : value bits < 256
    small = rw eight at (rw (value-append_zeros bits (8 - length bits)) at (value-lt padded))
