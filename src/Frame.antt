-- ===== src/Frame.antt =====
-- Packets on the wire, for the statements of the theorems: a header, a function code and a body.
use modbus_cpp.Prelude.{
  ℕ, ◌+◌, ◌*◌, ◌/◌, ◌%◌, ◌≡◌, refl, true, List, [], ◌∷◌, ◌++◌, length, arith, if◌then◌else◌, All,
  drop, drop-add, ◌∙◌,
}
use modbus_cpp.Constants.{check_function}
use modbus_cpp.Types.{Header, Packet, IsByte, IsU16, validate}
use modbus_cpp.Errors.{ok}
use modbus_cpp.Struc.{Struc, IsBigEndian, unpack_at, short, byte}
use modbus_cpp.Adu.{Adu, decode_header}
use modbus_cpp.Adu.Wire.{decode_header_lem}
use modbus_cpp.Registers.{pack_registers, unpack_registers}

-- The seven bytes before the function code.
pub record Mbap : Type 0 where
  pub transaction : ℕ
  pub protocol : ℕ
  pub length : ℕ
  pub unit : ℕ

pub record IsValid (m : Mbap) : Type 0 where
  pub transaction : IsU16 m.transaction
  pub unit : IsByte m.unit

-- A number in two bytes, the higher first, before what follows.
abbrev pub word : ℕ → Packet → Packet
word n rest = n / 256 ∷ n % 256 ∷ rest

abbrev pub words : List ℕ → Packet
words [] = []
words (n ∷ ns) = word n (words ns)

abbrev pub frame : Mbap → ℕ → Packet → Packet
frame m code body = word m.transaction (word m.protocol (word m.length (m.unit ∷ code ∷ body)))

-- The header of an answer with so many bytes after the header: the request's transaction and unit.
abbrev pub reply : Mbap → ℕ → Mbap
reply m length = record {
  transaction = m.transaction;
  protocol = 0;
  length = length;
  unit = m.unit;
}

pub reply-IsValid : (m : Mbap) (n : ℕ) → IsValid m → IsValid (reply m n)
reply-IsValid m n v = record { transaction = v.transaction; unit = v.unit }

-- What `decode_header` stores of a frame.
abbrev pub decoded : Mbap → ℕ → Adu → Adu
decoded m code adu = record {
  function = if check_function code then code else adu.function;
  function_code = code;
  transaction = m.transaction;
  length = m.length;
  unit = m.unit;
}

abbrev pub header_of : Mbap → Header
header_of m = record { transaction = m.transaction; length = m.length; unit = m.unit }

-- Every 16-bit number passes the check that all the number types share.
pub validate_u16 : (n : ℕ) → IsU16 n → validate n ≡ true
validate_u16 n h = ground arith

-- Two bytes make up the number that they were made of.
pub word_value : (n : ℕ) → n / 256 * 256 + n % 256 ≡ n
word_value n = omega arith

module _ (s : Struc) (laws : IsBigEndian s) where
  pub decode_header-frame :
      (m : Mbap) (code : ℕ) (body : Packet) (adu : Adu)
      → decode_header s (frame m code body) adu ≡ (ok tt, decoded m code adu)
  decode_header-frame m code body adu =
      rw (decode_header_lem s laws, word_value m.transaction, word_value m.length)

  pub unpack_two :
      (m : Mbap) (code a b : ℕ) (rest : Packet)
      → unpack_at s (short ∷ short ∷ []) (frame m code (word a (word b rest))) 8 ≡ ok (a, (b, tt))
  unfolding unpack_at
  unpack_two m code a b rest = rw (laws.unpack_short, laws.unpack_short, word_value a, word_value b)

  pub pack_registers-words : (ns : List ℕ) → All IsU16 ns → pack_registers s ns ≡ words ns
  unfolding pack_registers
  pack_registers-words [] h = refl
  pack_registers-words (n ∷ ns) h =
      rw (laws.pack_short, laws.pack_nil, pack_registers-words ns h.1) (high n h.0)
    where
      high : (k : ℕ) → IsU16 k → k / 256 % 256 ∷ k % 256 ∷ words ns ≡ word k (words ns)
      high k b = ground arith

pub length-words : (ns : List ℕ) → length (words ns) ≡ 2 * length ns
length-words [] = refl
length-words (n ∷ ns) = omega (arith, length-words ns)

module _ (s : Struc) (laws : IsBigEndian s) where
  pub unpack_count :
      (m : Mbap) (code a b n : ℕ) (rest : Packet)
      → unpack_at s (short ∷ short ∷ byte ∷ []) (frame m code (word a (word b (n ∷ rest)))) 8
        ≡ ok (a, (b, (n, tt)))
  unfolding unpack_at
  unpack_count m code a b n rest =
      rw (laws.unpack_short, laws.unpack_short, laws.unpack_byte, word_value a, word_value b)

  pub unpack_three :
      (m : Mbap) (code a b c : ℕ) (rest : Packet)
      → unpack_at s (short ∷ short ∷ short ∷ []) (frame m code (word a (word b (word c rest)))) 8
        ≡ ok (a, (b, (c, tt)))
  unfolding unpack_at
  unpack_three m code a b c rest = rw (
    laws.unpack_short,
    laws.unpack_short,
    laws.unpack_short,
    word_value a,
    word_value b,
    word_value c,
  )

  pub unpack_four :
      (m : Mbap) (code a b c d n : ℕ) (rest : Packet)
      → unpack_at s
          (short ∷ short ∷ short ∷ short ∷ byte ∷ [])
          (frame m code (word a (word b (word c (word d (n ∷ rest))))))
          8
        ≡ ok (a, (b, (c, (d, (n, tt)))))
  unfolding unpack_at
  unpack_four m code a b c d n rest = rw (
    laws.unpack_short,
    laws.unpack_short,
    laws.unpack_short,
    laws.unpack_short,
    laws.unpack_byte,
    word_value a,
    word_value b,
    word_value c,
    word_value d,
  )

  -- The loop reads back the words that stand at its offset.
  pub unpack_registers-words :
      (p : Packet) (offset : ℕ) (ns : List ℕ) (rest : Packet)
      → drop offset p ≡ words ns ++ rest
      → unpack_registers s p offset (length ns) ≡ ok ns
  unfolding unpack_registers unpack_at
  unpack_registers-words p offset [] rest e = refl
  unpack_registers-words p offset (n ∷ ns) rest e = rw (
    e,
    laws.unpack_short,
    word_value n,
    unpack_registers-words p (offset + 2) ns rest (drop-add offset 2 p ∙ rw e),
  )
