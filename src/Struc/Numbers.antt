-- ===== src/Struc/Numbers.antt =====
-- The numbers that are read from a packet are those that its bytes make, and packets are as long as
-- their formats.
use modbus_cpp.Prelude.{
  ℕ, ◌+◌, ◌*◌, ◌≤◌, ◌<◌, ◌≡◌, refl, ◌≤◌, some, [], ◌∷◌, length, drop, take_exact, take_exact_gt,
  length-drop, All, All-drop, arith,
}
use modbus_cpp.Types.{Packet, IsByte, IsU16}
use modbus_cpp.Struc.{Struc, Format, Args, short, byte, size, unpack_at, IsBigEndian}
use modbus_cpp.Actions.Gives.{Returning}
use native.Mathlib.Decide.{dec_le}

-- The first byte of a packet, or 0.
abbrev pub first_byte : Packet → ℕ
first_byte [] = 0
first_byte (b ∷ p) = b

-- The arguments are those that stand at the beginning of the packet.
abbrev pub Found : (f : Format) → Packet → Args f → Type 0
Found [] p a = Unit {0}
Found (short ∷ f) p (n, a) = (n ≡ first_byte p * 256 + first_byte (drop 1 p)) × Found f (drop 2 p) a
Found (byte ∷ f) p (n, a) = (n ≡ first_byte p) × Found f (drop 1 p) a

pub first_byte-IsByte : (p : Packet) → All IsByte p → IsByte (first_byte p)
first_byte-IsByte [] h = omega arith
first_byte-IsByte (b ∷ p) h = h.0

-- A 16-bit field of a packet.
pub short-IsU16 :
    (n : ℕ) (p : Packet) → n ≡ first_byte p * 256 + first_byte (drop 1 p) → All IsByte p → IsU16 n
short-IsU16 n p e h =
    let a = first_byte-IsByte p h in
    let b = first_byte-IsByte (drop 1 p) (All-drop IsByte 1 p h) in omega arith

module _ (s : Struc) (laws : IsBigEndian s) where
  taken-Found :
      (f : Format) (p : Packet)
      → size f ≤ length p
      → (q : Packet) × (take_exact (size f) p ≡ some q) × Found f p (s.unpack f q)
  taken-Found [] p h = ([], refl, tt)
  taken-Found (short ∷ f) [] h = absurd (omega arith)
  taken-Found (short ∷ f) (hi ∷ []) h = absurd (omega arith)
  taken-Found (short ∷ f) (hi ∷ lo ∷ p) h =
      let (q, e, k) = taken-Found f p (omega arith) in
      (hi ∷ lo ∷ q, rw e, rw (laws.unpack_short f hi lo q) (refl, k))
  taken-Found (byte ∷ f) [] h = absurd (omega arith)
  taken-Found (byte ∷ f) (b ∷ p) h =
      let (q, e, k) = taken-Found f p (omega arith) in
      (b ∷ q, rw e, rw (laws.unpack_byte f b q) (refl, k))

  pub unpack_at-Found :
      (U : Type 0) (f : Format) (p : Packet) (offset : ℕ)
      → (length p < offset + size f → U)
      → Returning U (Found f (drop offset p)) (unpack_at s f p offset)
  unfolding unpack_at
  unpack_at-Found U f p offset lacks = elim (dec_le (size f) (length (drop offset p))) [
    | yes h ↦ let (q, e, k) = taken-Found f (drop offset p) h in rw e k
    | no h ↦
        rw (take_exact_gt (size f) (drop offset p) (omega arith))
          (lacks (omega (arith, length-drop offset p)))
  ]

  pub length-pack : (f : Format) (a : Args f) → length (s.pack f a) ≡ size f
  length-pack [] a = rw (laws.pack_nil a)
  length-pack (short ∷ f) (n, a) = rw (laws.pack_short f n a) (omega (arith, length-pack f a))
  length-pack (byte ∷ f) (n, a) = rw (laws.pack_byte f n a) (omega (arith, length-pack f a))
