-- ===== src/Client/Robust/Filled.antt =====
-- The answers to reads, whose length depends on the request.
use modbus_cpp.Prelude.{
  ℕ, ◌*◌, ◌≤◌, ◌<◌, ◌≡◌, refl, not, ◌==◌, Bool, true, false, List, length, get_elem?, get_elem?_lt,
  drop, All, arith, u8,
}
use modbus_cpp.Types.{Packet, IsByte, IsU16, char_to_u16}
use modbus_cpp.Errors.{Result, bad_data, index_result}
use modbus_cpp.Actions.{
  Action, and_then, read, modify, throw_if, if_then_throw, rethrow_all, ◌>>=◌, ◌>>◌,
}
use modbus_cpp.Actions.Gives.{
  Returning, Any, Gives-then, Gives-caught, Gives-result, Gives-rethrow_all,
}
use modbus_cpp.Struc.{Struc, IsBigEndian}
use modbus_cpp.Operation.{unpack_bits}
use modbus_cpp.Registers.{rounds, unpack_registers}
use modbus_cpp.BitRead.Request as ReadBits
use modbus_cpp.BitRead.Response as ReadBitsResponse
use modbus_cpp.BitRead.Response.{ReadBitsResponse}
use modbus_cpp.RegisterRead.Request as ReadRegisters
use modbus_cpp.RegisterRead.Response as ReadRegistersResponse
use modbus_cpp.RegisterRead.Response.{ReadRegistersResponse}
use modbus_cpp.RegisterWrite.ReadWrite.Request as ReadWrite
use modbus_cpp.RegisterWrite.ReadWrite.Response as ReadWriteResponse
use modbus_cpp.RegisterWrite.ReadWrite.Response.{ReadWriteResponse}
use modbus_cpp.RequestHandler.Bounds.Decoding.{unpack_registers-IsU16}
use modbus_cpp.Client.Robust.{Defined, test-Tame, modify-Tame, tested-Defined}

module _ {R : Type 0} where
  indexed-Defined :
      (p : Packet) (i : ℕ) (r : R) (m : ℕ → Action R (Unit {0}))
      → i < length p
      → ((c : ℕ) → Defined (m c r))
      → Defined (and_then (index_result (get_elem? p i), r) m)
  indexed-Defined p i r m h k = let (a, f) = get_elem?_lt p i h in rw f (k a)

  -- A test of a count, and the loop that reads registers, with a test of how many they are.
  registers-Defined :
      (c : Bool) (u : R) (values : R → Result (List ℕ)) (wrong : List ℕ → R → Bool)
      (store : List ℕ → R → R)
      → (c ≡ false → Returning ⊥ (All IsU16) (values u))
      → Defined (
          and_then (if_then_throw c bad_data u) (λ _. (do
            buffer ← read values
            throw_if (wrong buffer) (λ _. bad_data)
            modify (store buffer))))
  registers-Defined true u values wrong store h = record { value = tt; left = tt }
  registers-Defined false u values wrong store h =
      Gives-then (All IsU16) Any Any (values u, u) _ (Gives-result (All IsU16) Any _ u (h refl) tt)
        λ buffer _ v _. test-Tame (wrong buffer) _ (modify-Tame (store buffer)) v

pub read_bits-Defined :
    (char_signed : Bool) (p : Packet) (r : ReadBitsResponse)
    → 8 ≤ length p
    → Defined (ReadBitsResponse.decode_passed char_signed p r)
unfolding ReadBitsResponse.decode_passed
read_bits-Defined char_signed p r h =
    Gives-caught Any Any _ (rethrow_all λ _. bad_data)
      (tested-Defined (not (length p == ReadBits.response_size r.request)) bad_data r _ λ e.
        indexed-Defined p 8 r _ (ground arith) λ c.
          let bits = unpack_bits (drop 9 p) in
          test-Tame (λ q. not (q.count == q.request.count)) _
            (test-Tame (λ q. not (length bits == q.request.count)) _
              (modify-Tame (ReadBitsResponse.store_bits bits)))
            (ReadBitsResponse.store_count (char_to_u16 char_signed c) r))
      (λ x u k. Gives-rethrow_all Any Any (λ _. bad_data) x u k)

module _ (s : Struc) (laws : IsBigEndian s) where
  pub read_registers-Defined :
      (char_signed : Bool) (p : Packet) (r : ReadRegistersResponse)
      → All IsByte p
      → 8 ≤ length p
      → Defined (ReadRegistersResponse.decode_passed s char_signed p r)
  unfolding ReadRegistersResponse.decode_passed
  read_registers-Defined char_signed p r b h =
      Gives-caught Any Any _ (rethrow_all λ _. bad_data)
        (tested-Defined (not (length p == ReadRegisters.response_size r.request)) bad_data r _ λ e.
          indexed-Defined p 8 r _ (ground arith) λ c.
            registers-Defined _ (ReadRegistersResponse.store_count (char_to_u16 char_signed c) r)
              (λ q. unpack_registers s p 9 (rounds (ReadRegisters.byte_count q.request)))
              (λ buffer q. not (length buffer == q.request.count))
              ReadRegistersResponse.store_registers
              λ _.
                unpack_registers-IsU16 s laws ⊥ p 9 (rounds (ReadRegisters.byte_count r.request)) b
                  (λ l. ground arith))
        (λ x u k. Gives-rethrow_all Any Any (λ _. bad_data) x u k)

  pub read_write-Defined :
      (p : Packet) (r : ReadWriteResponse)
      → All IsByte p
      → 8 ≤ length p
      → Defined (ReadWriteResponse.decode_passed s p r)
  unfolding ReadWriteResponse.decode_passed
  read_write-Defined p r b h =
      Gives-caught Any Any _ (rethrow_all λ _. bad_data)
        (tested-Defined (not (length p == ReadWrite.response_size r.request)) bad_data r _ λ e.
          indexed-Defined p 8 r _ (ground arith) λ c.
            registers-Defined (not (u8 c == u8 (r.request.read_count * 2)))
              (ReadWriteResponse.store_count (u8 c) r)
              (λ q. unpack_registers s p 9 (rounds q.count))
              (λ buffer q. not (length buffer == q.request.read_count))
              ReadWriteResponse.store_registers
              λ f. unpack_registers-IsU16 s laws ⊥ p 9 (rounds (u8 c)) b (λ l. ground arith))
        (λ x u k. Gives-rethrow_all Any Any (λ _. bad_data) x u k)
