-- ===== src/Struc.antt =====
-- The external library `struc` (a build-time package), which packs numbers into bytes by a format
-- string: a parameter of the model. Only the formats that begin with `>` are used.
use modbus_cpp.Prelude.{
  ℕ, suc, ◌+◌, ◌*◌, ◌/◌, ◌%◌, ◌≡◌, Option, none, some, List, [], ◌∷◌, drop, take_exact,
}
use modbus_cpp.Types.{Packet}
use modbus_cpp.Errors.{Result, ok, undefined}
pub mod BigEndian
pub mod Numbers

-- The letters `H`, an unsigned 16-bit number, and `B`, an unsigned byte.
pub data Letter : Type 0 where
  short : Letter
  byte : Letter

abbrev pub Format : Type 0
Format = List Letter

-- The numbers that a format asks for.
abbrev pub Args : Format → Type 0
Args [] = Unit {0}
Args (c ∷ f) = ℕ × Args f

-- How many bytes a format takes.
abbrev pub size : Format → ℕ
size [] = 0
size (short ∷ f) = suc (suc (size f))
size (byte ∷ f) = suc (size f)

pub record Struc : Type 0 where
  pub pack : (f : Format) → Args f → Packet
  pub unpack : (f : Format) → Packet → Args f

-- What the code relies on: big-endian numbers, one after the other, with no padding.
pub record IsBigEndian (s : Struc) : Type 0 where
  pub pack_nil : (a : Args []) → s.pack [] a ≡ []
  pub pack_short :
      (f : Format) (n : ℕ) (a : Args f)
      → s.pack (short ∷ f) (n, a) ≡ n / 256 % 256 ∷ n % 256 ∷ s.pack f a
  pub pack_byte :
      (f : Format) (n : ℕ) (a : Args f) → s.pack (byte ∷ f) (n, a) ≡ n % 256 ∷ s.pack f a
  pub unpack_short :
      (f : Format) (hi lo : ℕ) (p : Packet)
      → s.unpack (short ∷ f) (hi ∷ lo ∷ p) ≡ (hi * 256 + lo, s.unpack f p)
  pub unpack_byte :
      (f : Format) (b : ℕ) (p : Packet) → s.unpack (byte ∷ f) (b ∷ p) ≡ (b, s.unpack f p)

abbrev pub read_args : (s : Struc) (f : Format) → Option Packet → Result (Args f)
read_args s f none = undefined
read_args s f (some p) = ok (s.unpack f p)

-- `struc::unpack(f, packet.data() + offset, …)`: it is handed a bare pointer, so bytes past the end
-- of the packet would be read.
unfoldable pub unpack_at : (s : Struc) (f : Format) → Packet → ℕ → Result (Args f)
unpack_at s f packet offset = read_args s f (take_exact (size f) (drop offset packet))
