-- ===== src/Client/Refused.antt =====
-- Clients whose queries the server's device refuses.
use modbus_cpp.Prelude.{ℕ, ◌≡◌, refl, ap, ◌∙◌, true, Option, none, some, length}
use modbus_cpp.Constants.{
  check_function, max_num_bits_read, max_num_bits_write, max_num_regs_read, max_num_regs_write,
}
use modbus_cpp.Types.{Packet}
use modbus_cpp.Errors.{ok, throw, std_exception}
use modbus_cpp.Actions.{Action}
use modbus_cpp.Struc.{Struc, IsBigEndian}
use modbus_cpp.Frame
use modbus_cpp.Frame.{Mbap}
use modbus_cpp.Table.{Table}
use modbus_cpp.Response.{Derived}
use modbus_cpp.Response.Check.{WaitsFor}
use modbus_cpp.Response.Decode.{decode-exception}
use modbus_cpp.RequestHandler.{handle}
use modbus_cpp.BitRead.Request as ReadBits
use modbus_cpp.RegisterRead.Request as ReadRegisters
use modbus_cpp.Device.{
  Device, Query, read_bits, read_registers, write_coil, write_register, write_coils,
  write_registers, mask_write, read_write, Reply, refused, granted, serve, fetch, collect, store,
  bits_of, registers_of,
}
use modbus_cpp.Device.View.{view}
use modbus_cpp.Device.Wire.{Fits, query_packet, reply_packet}
use modbus_cpp.Device.Meets.{IsSound}
use modbus_cpp.Device.Refines.{handle-Meets}
use modbus_cpp.Client.{ask, ask_throw}

granted_refused :
    {A : Type 0} (code c : ℕ) (d : Device) (o : Option A) (f : A → Reply × Device)
    → ((a : A) → (f a).0 ≡ refused c → (f a).1 ≡ d)
    → (granted code d o f).0 ≡ refused c
    → (granted code d o f).1 ≡ d
granted_refused code c d none f h e = refl
granted_refused code c d (some a) f h e = h a e

-- A query that is refused changes nothing.
pub serve_refused : (q : Query) (d : Device) (c : ℕ) → (serve q d).0 ≡ refused c → (serve q d).1 ≡ d
unfolding serve
serve_refused (read_bits kind address count) d c =
    granted_refused (ReadBits.code kind) c d
      (fetch max_num_bits_read (bits_of kind d) address count) _ (λ xs e. refl)
serve_refused (read_registers kind address count) d c =
    granted_refused (ReadRegisters.code kind) c d
      (fetch max_num_regs_read (registers_of kind d) address count) _ (λ xs e. refl)
serve_refused (write_coil address on) d c =
    granted_refused 5 c d (d.coils address) _ (λ x e. absurd (cc))
serve_refused (write_register address value) d c =
    granted_refused 6 c d (d.holding_registers address) _ (λ x e. absurd (cc))
serve_refused (write_coils address values) d c =
    granted_refused 15 c d (fetch max_num_bits_write d.coils address (length values)) _
      (λ x e. absurd (cc))
serve_refused (write_registers address values) d c =
    granted_refused 16 c d (fetch max_num_regs_write d.holding_registers address (length values)) _
      (λ x e. absurd (cc))
serve_refused (mask_write address and_mask or_mask) d c =
    granted_refused 22 c d (d.holding_registers address) _ (λ x e. absurd (cc))
serve_refused (read_write read_address read_count write_address values) d c =
    granted_refused 23 c d (fetch max_num_regs_read d.holding_registers read_address read_count) _
      λ x.
        granted_refused 23 c d
          (fetch max_num_regs_write d.holding_registers write_address (length values)) _
          λ y.
            granted_refused 23 c d
              (collect (store write_address values d.holding_registers) read_address read_count) _
              (λ z e. absurd (cc))

module _ {Q R : Type 0} (s : Struc) (laws : IsBigEndian s) (derived : Derived R)
    (make : Q → R) where
  -- A client whose query the specification `Device.serve` refuses, on the device that the server's
  -- table stands for, ends with a plain `std::exception`, and the table stands for the same device
  -- as before. Assumed: struc is big-endian, the client encodes its request as the packet of the
  -- query and waits for that transaction, unit and function, which is in range, the numbers of the
  -- query fit their fields, each block has a cell for each of its addresses and the registers fit
  -- 16 bits.
  pub ask_refused :
      (encode : Action Q Packet) (q q' : Q) (m : Mbap) (query : Query) (rest : Packet) (code : ℕ)
      (t : Table)
      → encode q ≡ (ok (query_packet m query rest), q')
      → WaitsFor m (derived.base (make q'))
      → (derived.base (make q')).adu.function ≡ code
      → check_function code ≡ true
      → Frame.IsValid m
      → Fits query
      → IsSound t
      → (serve query (view t)).0 ≡ refused code
      → (t' : Table) × (ask s derived make encode q t ≡ (throw std_exception, t'))
        × (view t' ≡ view t)
        × IsSound t'
  ask_refused encode q q' m query rest code t e w f k v h sound refusal =
      let x = handle s (query_packet m query rest) t in
      let met = handle-Meets s laws m query rest t v h sound in
      (
        x.1,
        ask_throw s derived make encode q q' (query_packet m query rest)
            (reply_packet m (refused code)) std_exception t x.1 e
            (pair (met.answer ∙ ap (λ r. ok (reply_packet m r)) refusal))
            (decode-exception s laws derived m code 2 (make q') w k f),
        met.device ∙ serve_refused query (view t) code refusal,
        met.sound,
      )
    where
      pair :
          (handle s (query_packet m query rest) t).0 ≡ ok (reply_packet m (refused code))
          → handle s (query_packet m query rest) t
            ≡ (ok (reply_packet m (refused code)), (handle s (query_packet m query rest) t).1)
      pair g i = (g i, (handle s (query_packet m query rest) t).1)
