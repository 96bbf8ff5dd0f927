-- ===== src/Struc/BigEndian.antt =====
-- A `Struc` that meets the assumptions.
use modbus_cpp.Prelude.{◌+◌, ◌*◌, ◌/◌, ◌%◌, refl, [], ◌∷◌}
use modbus_cpp.Types.{Packet}
use modbus_cpp.Struc.{Struc, Format, Args, short, byte, IsBigEndian}

abbrev pub pack_bytes : (f : Format) → Args f → Packet
pack_bytes [] a = []
pack_bytes (short ∷ f) (n, a) = n / 256 % 256 ∷ n % 256 ∷ pack_bytes f a
pack_bytes (byte ∷ f) (n, a) = n % 256 ∷ pack_bytes f a

-- Missing bytes read as 0.
abbrev pub unpack_bytes : (f : Format) → Packet → Args f
unpack_bytes [] p = tt
unpack_bytes (short ∷ f) (hi ∷ lo ∷ p) = (hi * 256 + lo, unpack_bytes f p)
unpack_bytes (short ∷ f) (hi ∷ []) = (0, unpack_bytes f [])
unpack_bytes (short ∷ f) [] = (0, unpack_bytes f [])
unpack_bytes (byte ∷ f) (b ∷ p) = (b, unpack_bytes f p)
unpack_bytes (byte ∷ f) [] = (0, unpack_bytes f [])

abbrev pub big_endian : Struc
big_endian = record { pack = pack_bytes; unpack = unpack_bytes }

pub big_endian-IsBigEndian : IsBigEndian big_endian
big_endian-IsBigEndian = record {
  pack_nil = λ a. refl;
  pack_short = λ f n a. refl;
  pack_byte = λ f n a. refl;
  unpack_short = λ f hi lo p. refl;
  unpack_byte = λ f b p. refl;
}
