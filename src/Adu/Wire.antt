-- ===== src/Adu/Wire.antt =====
-- The header on the wire and back.
use modbus_cpp.Prelude.{ℕ, ◌+◌, ◌*◌, ◌/◌, ◌%◌, ◌≡◌, ◌<◌, ◌++◌, [], ◌∷◌, arith, if◌then◌else◌}
use modbus_cpp.Constants.{check_function}
use modbus_cpp.Types.{Header, Packet, IsU16, IsByte}
use modbus_cpp.Errors.{ok}
use modbus_cpp.Struc.{Struc, IsBigEndian, unpack_at}
use modbus_cpp.Adu.{make_code_with_header, Adu, header_packet, decode_header}

module _ (s : Struc) (laws : IsBigEndian s) where
  -- The bytes of a header.
  pub header_packet_lem :
      (adu : Adu)
      → header_packet s adu
        ≡ adu.transaction / 256 % 256
          ∷ adu.transaction % 256
          ∷ 0
          ∷ 0
          ∷ adu.length / 256 % 256
          ∷ adu.length % 256
          ∷ adu.unit % 256
          ∷ adu.function_code % 256
          ∷ []
  header_packet_lem adu = rw (
    laws.pack_short, laws.pack_short, laws.pack_short, laws.pack_byte, laws.pack_byte,
    laws.pack_nil,
  )

  -- What `decode_header` makes of eight bytes and any that follow.
  pub decode_header_lem :
      (t₁ t₀ p₁ p₀ l₁ l₀ u f : ℕ) (rest : Packet) (adu : Adu)
      → decode_header s (t₁ ∷ t₀ ∷ p₁ ∷ p₀ ∷ l₁ ∷ l₀ ∷ u ∷ f ∷ rest) adu ≡ (
        ok tt,
        record {
          function = if check_function f then f else adu.function;
          function_code = f;
          transaction = t₁ * 256 + t₀;
          length = l₁ * 256 + l₀;
          unit = u;
        },
      )
  unfolding decode_header unpack_at
  decode_header_lem t₁ t₀ p₁ p₀ l₁ l₀ u f rest adu =
      rw (
        laws.unpack_short, laws.unpack_short, laws.unpack_short, laws.unpack_byte, laws.unpack_byte,
      )

  -- Decoding the packet of a header, whatever follows it, gives the header and function code that
  -- an ADU was made with; its function is the code if that is in range, and else stays as it was.
  -- Assumed: struc is big-endian and the numbers fit their fields.
  pub decode_header-header_packet :
      (unset before : Adu) (code : ℕ) (h : Header) (rest : Packet)
      → code < 256
      → IsU16 h.transaction
      → IsU16 h.length
      → IsByte h.unit
      → decode_header s (header_packet s (make_code_with_header unset code h) ++ rest) before
        ≡ (ok tt, make_code_with_header before code h)
  decode_header-header_packet unset before code h rest b t l u =
      rw
        (
          header_packet_lem (make_code_with_header unset code h),
          decode_header_lem _ _ _ _ _ _ _ _ rest before,
        )
        (ground arith)
