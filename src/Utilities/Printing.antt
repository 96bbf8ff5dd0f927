-- ===== src/Utilities/Printing.antt =====
-- What `packet_str` prints.
use modbus_cpp.Prelude.{
  ℕ, ◌+◌, ◌≡◌, sym, ap, ◌∙◌, true, false, ltb, List, [], ◌∷◌, ◌++◌, length, append_assoc,
  append-nil, arith,
}
use mathlib.Core.List.{map}
use modbus_cpp.Types.{Packet}
use modbus_cpp.Utilities.{Text, packet_str_loop, packet_str}

-- The items with spaces between them.
abbrev pub joined : List Text → Text
joined [] = []
joined (x ∷ []) = x
joined (x ∷ y ∷ xs) = x ++ (b' ' ∷ joined (y ∷ xs))

module _ (hex : ℕ → Text) where
  loop_lem :
      (size index : ℕ) (s : Text) (p : Packet)
      → size ≡ index + length p
      → packet_str_loop hex size index s p ≡ s ++ joined (map hex p)
  unfolding packet_str_loop
  loop_lem size index s [] e = sym (append-nil s)
  loop_lem size index s (b ∷ []) e =
      let last : ltb (index + 1) size ≡ false = ground arith in rw last
  loop_lem size index s (b ∷ c ∷ p) e =
      let more : ltb (index + 1) size ≡ true = ground arith in
      rw more (
        loop_lem size (index + 1) (s ++ (hex b ++ b' ' ∷ [])) (c ∷ p) (omega arith)
        ∙ append_assoc s (hex b ++ b' ' ∷ []) (joined (map hex (c ∷ p)))
        ∙ ap (λ t. s ++ t) (append_assoc (hex b) (b' ' ∷ []) (joined (map hex (c ∷ p)))))

  -- A packet is printed as its bytes in hexadecimal with one space between neighbours, in
  -- brackets.
  pub packet_str_lem : (p : Packet) → packet_str hex p ≡ b'[' ∷ joined (map hex p) ++ b']' ∷ []
  unfolding packet_str
  packet_str_lem p = rw (loop_lem (length p) 0 (b'[' ∷ []) p (omega arith))
