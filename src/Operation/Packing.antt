-- ===== src/Operation/Packing.antt =====
-- What packing writes, and that unpacking reads it back.
mod Bytes
use Bytes.{length-unpack_byte, value, or_shifted_lem, unpack_byte_pad, value-lt, value-append_one}
use modbus_cpp.Prelude.{
  ℕ, zero, suc, ◌+◌, ◌-◌, ◌*◌, ◌/◌, ◌%◌, ◌^◌, ◌<◌, ◌≤◌, ◌≡◌, refl, sym, ap, ◌∙◌, Bool, true, false,
  List, [], ◌∷◌, ◌++◌, append_assoc, append-nil, arith, length, length-append, replicate, All,
  All-append, length-replicate, ◌==◌, if◌then◌else◌, Bool-cases, inl, inr, ==_iff, resize,
}
use modbus_cpp.Types.{Packet, IsByte}
use modbus_cpp.Operation.{pack_loop, pack_bits, unpack_byte, unpack_bits, or_shifted}

-- The bits that fill up the last byte.
abbrev pub padding : ℕ → ℕ
padding n = (8 - n % 8) % 8

unpack_bits-append : (p q : Packet) → unpack_bits (p ++ q) ≡ unpack_bits p ++ unpack_bits q
unfolding unpack_bits
unpack_bits-append [] q = refl
unpack_bits-append (b ∷ p) q =
    rw (unpack_bits-append p q)
      (sym (append_assoc (unpack_byte 8 0 b) (unpack_bits p) (unpack_bits q)))

unpack_bits_one :
    (p : Packet) (b : ℕ) → unpack_bits (p ++ b ∷ []) ≡ unpack_bits p ++ unpack_byte 8 0 b
unpack_bits_one p b = unpack_bits-append p (b ∷ []) ∙ (unfold unpack_bits in rw append-nil)

-- `acc` holds the bits of the byte that is begun.
unpack_bits-pack_loop :
    (bits acc : List Bool) (packet : Packet)
    → length acc < 8
    → unpack_bits (pack_loop bits (length acc) (value acc) packet)
      ≡ unpack_bits packet
        ++ (acc ++ (bits ++ replicate (padding (length acc + length bits)) false))
unfolding pack_loop
unpack_bits-pack_loop [] acc packet h = elim (Bool-cases (length acc == 0)) [
  | inl e ↦ rw e (empty acc ((==_iff _ _).0 e))
  | inr e ↦ rw e (
      unpack_bits_one packet (value acc)
      ∙ ap (λ x. unpack_bits packet ++ x)
          (unpack_byte_pad acc (omega arith) ∙ ap (λ n. acc ++ replicate n false) (ground arith)))
]
  where
    empty :
        (xs : List Bool)
        → length xs ≡ 0
        → unpack_bits packet
          ≡ unpack_bits packet ++ (xs ++ replicate (padding (length xs + 0)) false)
    empty [] l = sym (append-nil (unpack_bits packet))
    empty (x ∷ xs) l = absurd (omega arith)
unpack_bits-pack_loop (b ∷ bits) acc packet h = elim (Bool-cases (length acc == 7)) [
  | inl e ↦
      rw (e, extended)
        (unpack_bits-pack_loop bits [] (packet ++ value (acc ++ b ∷ []) ∷ []) (omega arith)
          ∙ rw (unpack_bits_one packet (value (acc ++ b ∷ [])), whole ((==_iff _ _).0 e))
              (simp append_assoc (rw (filled ((==_iff _ _).0 e)))))
  | inr e ↦
      rw (e, extended, ← one_more)
        (unpack_bits-pack_loop bits (acc ++ b ∷ []) packet (ground (arith, one_more))
          ∙ rw one_more (simp append_assoc (rw regroup)))
]
  where
    extended : or_shifted (value acc) b (length acc) ≡ value (acc ++ b ∷ [])
    extended =
        or_shifted_lem (length acc) (value acc) b h (value-lt acc) ∙ sym (value-append_one acc b)

    one_more : length (acc ++ b ∷ []) ≡ length acc + 1
    one_more = length-append acc (b ∷ [])

    eight : length acc ≡ 7 → length (acc ++ b ∷ []) ≡ 8
    eight l = omega (arith, one_more)

    whole : length acc ≡ 7 → unpack_byte 8 0 (value (acc ++ b ∷ [])) ≡ acc ++ b ∷ []
    whole l =
        unpack_byte_pad (acc ++ b ∷ []) (omega (arith, one_more))
        ∙ rw (eight l) (append-nil (acc ++ b ∷ []))

    regroup : length acc + 1 + length bits ≡ length acc + suc (length bits)
    regroup = omega arith

    filled : length acc ≡ 7 → padding (length acc + suc (length bits)) ≡ padding (0 + length bits)
    filled l = omega arith

length-pack_loop :
    (bits : List Bool) (shift one_byte : ℕ) (packet : Packet)
    → shift < 8
    → length (pack_loop bits shift one_byte packet) ≡ length packet + (shift + length bits + 7) / 8
unfolding pack_loop
length-pack_loop [] shift one_byte packet h = ground (arith, length-append packet (one_byte ∷ []))
length-pack_loop (b ∷ bits) shift one_byte packet h = ground (
  arith,
  length-append packet (or_shifted one_byte b shift ∷ []),
  length-pack_loop bits 0 0 (packet ++ or_shifted one_byte b shift ∷ []),
  length-pack_loop bits (shift + 1) (or_shifted one_byte b shift) packet,
)

-- Packing makes a byte for every eight coils, and one for the rest.
pub length-pack_bits : (bits : List Bool) → length (pack_bits bits) ≡ (length bits + 7) / 8
unfolding pack_bits
length-pack_bits bits = omega (arith, length-pack_loop bits 0 0 [])

-- Unpacking gives back the packed coils, followed by the zeros that fill up the last byte.
pub unpack_bits-pack_bits :
    (bits : List Bool)
    → unpack_bits (pack_bits bits) ≡ bits ++ replicate (padding (length bits)) false
unfolding pack_bits
unpack_bits-pack_bits bits =
    unpack_bits-pack_loop bits [] [] (omega arith)
    ∙ (unfold unpack_bits in ap (λ n. bits ++ replicate (padding n) false) (omega arith))

resize-append : (xs ys : List Bool) → resize (length xs) false (xs ++ ys) ≡ xs
resize-append [] ys = refl
resize-append (x ∷ xs) ys = ap (λ zs. x ∷ zs) (resize-append xs ys)

-- A receiver that knows the number of coils and cuts the unpacked bits to it has the packed coils
-- back.
pub resize-unpack_bits :
    (bits : List Bool) → resize (length bits) false (unpack_bits (pack_bits bits)) ≡ bits
resize-unpack_bits bits = rw (unpack_bits-pack_bits bits) (resize-append bits _)

pack_loop-IsByte :
    (bits : List Bool) (shift one_byte : ℕ) (packet : Packet)
    → IsByte one_byte
    → All IsByte packet
    → All IsByte (pack_loop bits shift one_byte packet)
unfolding pack_loop
pack_loop-IsByte [] shift one_byte packet h k =
    ground (arith, All-append IsByte packet (one_byte ∷ []) k (h, tt))
pack_loop-IsByte (b ∷ bits) shift one_byte packet h k =
    let small : IsByte (or_shifted one_byte b shift) = omega arith in
    ground (
      arith,
      pack_loop-IsByte bits 0 0 (packet ++ or_shifted one_byte b shift ∷ []) (omega arith)
          (All-append IsByte packet (or_shifted one_byte b shift ∷ []) k (small, tt)),
      pack_loop-IsByte bits (shift + 1) (or_shifted one_byte b shift) packet small k,
    )

-- Packed bits are bytes.
pub pack_bits-IsByte : (bits : List Bool) → All IsByte (pack_bits bits)
unfolding pack_bits
pack_bits-IsByte bits = pack_loop-IsByte bits 0 0 [] (omega arith) tt

pub length-unpack_bits : (p : Packet) → length (unpack_bits p) ≡ 8 * length p
unfolding unpack_bits
length-unpack_bits [] = refl
length-unpack_bits (b ∷ p) = omega (
  arith,
  length-append (unpack_byte 8 0 b) (unpack_bits p),
  length-unpack_byte 8 0 b,
  length-unpack_bits p,
)
