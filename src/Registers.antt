-- ===== src/Registers.antt =====
-- The loops that write registers to a packet and read them from one, which source/register-read.cpp,
-- register-read.inline.hpp and source/register-write.cpp repeat.
use modbus_cpp.Prelude.{ℕ, zero, suc, ◌+◌, ◌/◌, List, [], ◌∷◌, ◌++◌}
use modbus_cpp.Types.{Packet}
use modbus_cpp.Errors.{Result, ok, ◌>>=◌}
use modbus_cpp.Struc.{Struc, Format, short, unpack_at}

-- The format ">H"
abbrev pub register_format : Format
register_format = short ∷ []

-- How often `for (int idx = 0; idx < bytes; idx += 2)` runs.
abbrev pub rounds : ℕ → ℕ
rounds bytes = (bytes + 1) / 2

module _ (s : Struc) where
  unfoldable pub pack_registers : List ℕ → Packet
  pack_registers [] = []
  pack_registers (v ∷ registers) = s.pack register_format (v, tt) ++ pack_registers registers

  -- The rounds of the loop that are left, from an offset on.
  unfoldable pub unpack_registers : Packet → ℕ → ℕ → Result (List ℕ)
  unpack_registers packet offset zero = ok []
  unpack_registers packet offset (suc n) = do
    (value, _) ← unpack_at s register_format packet offset
    buffer ← unpack_registers packet (offset + 2) n
    ok (value ∷ buffer)
