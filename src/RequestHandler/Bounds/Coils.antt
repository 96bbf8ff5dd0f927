-- ===== src/RequestHandler/Bounds/Coils.antt =====
-- Requests that write coils.
use modbus_cpp.Prelude.{
  ◌<◌, ◌≡◌, not, ◌==◌, false, [], ◌++◌, if◌then◌else◌, length, drop, All, All-drop, arith,
}
use modbus_cpp.Constants.{bits_on, bits_off, check_bits_value}
use modbus_cpp.Types.{Packet, IsByte, IsU16}
use modbus_cpp.Errors.{bad_data, server_device_failure, illegal_data_value, illegal_data_address}
use modbus_cpp.Actions.{modify, if_then_throw}
use modbus_cpp.Actions.Gives.{
  Returning-defined, Any, Gives, Gives-then, Gives-caught, Gives-result, Gives-thrown,
  Gives-rethrow_range,
}
use modbus_cpp.Struc.{Struc, IsBigEndian}
use modbus_cpp.Struc.Numbers.{short-IsU16}
use modbus_cpp.Adu.{header, calc_length, header_packet}
use modbus_cpp.Request.{check_response_packet}
use modbus_cpp.Block
use modbus_cpp.Block.Defined.{
  validate_defined, validate_count_defined, get_defined, set_value_defined, set_slice_defined,
}
use modbus_cpp.Device.Meets.{IsSound}
use modbus_cpp.Device.Stored.{coil_stored-IsSound, coils_stored-IsSound}
use modbus_cpp.Table.{Table, write_num_bits, with_coils}
use modbus_cpp.Pointing.{Pointing, after_set, on_response}
use modbus_cpp.BitWrite.SingleCoil.Request as WriteCoil
use modbus_cpp.BitWrite.SingleCoil.Request.{WriteCoil}
use modbus_cpp.BitWrite.SingleCoil.Response as WriteCoilResponse
use modbus_cpp.BitWrite.SingleCoil.Response.{WriteCoilResponse}
use modbus_cpp.BitWrite.MultipleCoils.Request as WriteCoils
use modbus_cpp.BitWrite.MultipleCoils.Request.{WriteCoils}
use modbus_cpp.BitWrite.MultipleCoils.Response as WriteCoilsResponse
use modbus_cpp.BitWrite.MultipleCoils.Response.{WriteCoilsResponse}
use modbus_cpp.RequestHandler.{serve_write_coil, serve_write_coils, writing}
use modbus_cpp.RequestHandler.Bounds.{
  FitsAdu, Pointed, serve-Gives, executed-Returning, writing-Gives, checked-FitsAdu,
  set_coils-Gives, header_packet-FitsAdu,
}
use modbus_cpp.RequestHandler.Bounds.Decoding.{decode_with-Gives}

-- The address is a 16-bit number.
abbrev Coil : WriteCoil → Type 0
Coil q = IsU16 q.address

abbrev Coils : WriteCoils → Type 0
Coils q = IsU16 q.address

abbrev OfCoil : WriteCoilResponse → Type 0
OfCoil r = Coil r.request

abbrev OfCoils : WriteCoilsResponse → Type 0
OfCoils r = Coils r.request

module _ {U : Type 0} (s : Struc) (laws : IsBigEndian s) where
  write_coil_steps :
      (w : Pointing WriteCoilResponse)
      → Pointed OfCoil w
      → Gives U FitsAdu (Pointed OfCoil) (WriteCoilResponse.encode_steps s w)
  write_coil_steps w h =
      Gives-then Any FitsAdu (Pointed OfCoil) (Block.get w.1.coils w.0.request.address, w) _
        (Gives-result Any (Pointed OfCoil) _ w
          (Returning-defined U _ (get_defined w.1.coils w.0.request.address h.1.valid.coils h.0)) h)
        λ value _ x l.
          let v : Pointing WriteCoilResponse =
            (on_response
              (WriteCoilResponse.on_adu (modify (calc_length WriteCoilResponse.data_length)))
              (WriteCoilResponse.store_value (if value then bits_on else bits_off) x.0, x.1)).1 in
          let packet : Packet =
            header_packet s v.0.base.adu
            ++ s.pack WriteCoilResponse.format (v.0.request.address, (v.0.value, tt)) in
          Gives-then (λ _. not (check_response_packet 12 packet) ≡ false) FitsAdu (Pointed OfCoil)
            (if_then_throw _ _ v) _ (Gives-thrown (Pointed OfCoil) _ _ v l)
            λ _ okay u k.
              Gives-then Any FitsAdu (Pointed OfCoil)
                (after_set with_coils
                  (Block.set_value u.1.coils u.0.request.address (u.0.request.value == bits_on)) u)
                _
                (set_coils-Gives OfCoil _ u k
                  (set_value_defined u.1.coils u.0.request.address _ k.1.valid.coils k.0)
                  λ b e. coil_stored-IsSound u.1 b _ _ e k.1)
                λ _ _ y m. record { value = checked-FitsAdu 12 packet okay (omega arith); left = m }

  write_coil-encoded :
      (w : Pointing WriteCoilResponse)
      → Pointed OfCoil w
      → Gives U FitsAdu (Pointed OfCoil) (WriteCoilResponse.encode s w)
  unfolding WriteCoilResponse.encode
  write_coil-encoded w h =
      Gives-caught FitsAdu (Pointed OfCoil) (WriteCoilResponse.encode_steps s w) _
        (write_coil_steps w h) (λ e u k. Gives-rethrow_range FitsAdu (Pointed OfCoil) _ _ e u k)

  pub write_coil-Gives :
      (p : Packet) (t : Table)
      → All IsByte p
      → (length p < 12 → U)
      → IsSound t
      → Gives U FitsAdu IsSound (serve_write_coil s p t)
  unfolding serve_write_coil WriteCoilResponse.execute WriteCoil.decode
  write_coil-Gives p t b lacks h =
      serve-Gives Coil OfCoil (WriteCoil.decode s p (WriteCoil.make 0 bits_on))
        WriteCoilResponse.execute (writing (WriteCoilResponse.encode s))
        (decode_with-Gives s WriteCoil.format Coil (λ q. q.adu) WriteCoil.with_adu
          (λ c q. not (c == q.adu.function)) _
          (λ q. server_device_failure q.adu.function (header q.adu)) laws p lacks (λ _ _ d. d)
          (λ a found q d.
            Gives-then (λ _. not (check_bits_value a.1.0) ≡ false) Any Coil
              (if_then_throw (not (check_bits_value a.1.0)) bad_data
                (WriteCoil.store_address a.0 q))
              _
              (Gives-thrown Coil (not (check_bits_value a.1.0)) bad_data
                (WriteCoil.store_address a.0 q)
                (short-IsU16 a.0 (drop 8 p) found.0 (All-drop IsByte 8 p b)))
              λ _ _ u k. record { value = tt; left = k })
          (WriteCoil.make 0 bits_on) (omega arith))
        (λ q d u _.
          executed-Returning U OfCoil (not (check_bits_value q.value))
            (illegal_data_value q.adu.function (header q.adu))
            (illegal_data_address q.adu.function (header q.adu)) (Block.validate u.coils q.address)
            (WriteCoilResponse.make q) (validate_defined u.coils q.address) λ _. d)
        (writing-Gives OfCoil (WriteCoilResponse.encode s) write_coil-encoded) t h

module _ {U : Type 0} (s : Struc) (laws : IsBigEndian s) where
  write_coils-encoded :
      (w : Pointing WriteCoilsResponse)
      → Pointed OfCoils w
      → Gives U FitsAdu (Pointed OfCoils) (WriteCoilsResponse.encode s w)
  unfolding WriteCoilsResponse.encode
  write_coils-encoded w h =
      let v : Pointing WriteCoilsResponse =
        (on_response
          (WriteCoilsResponse.on_adu (modify (calc_length WriteCoilsResponse.data_length))) w).1 in
      Gives-caught FitsAdu (Pointed OfCoils) (WriteCoilsResponse.encode_steps s w) _
        (Gives-then Any FitsAdu (Pointed OfCoils)
          (after_set with_coils (Block.set_slice w.1.coils w.0.request.address w.0.request.values)
            v)
          _
          (set_coils-Gives OfCoils _ v h
            (set_slice_defined w.1.coils w.0.request.address w.0.request.values h.1.valid.coils h.0)
            λ b e. coils_stored-IsSound w.1 b _ _ e h.1)
          λ _ _ u l. record {
            value =
                header_packet-FitsAdu s laws v.0.base.adu WriteCoilsResponse.format
                  (w.0.request.address, (w.0.request.count, tt)) (omega arith);
            left = l;
          })
        (λ e u k. Gives-rethrow_range FitsAdu (Pointed OfCoils) _ _ e u k)

  pub write_coils-Gives :
      (p : Packet) (t : Table)
      → All IsByte p
      → (length p < 13 → U)
      → IsSound t
      → Gives U FitsAdu IsSound (serve_write_coils s p t)
  unfolding serve_write_coils WriteCoilsResponse.execute WriteCoils.decode
  write_coils-Gives p t b lacks h =
      serve-Gives Coils OfCoils (WriteCoils.decode s p (WriteCoils.make 0 1 []))
        WriteCoilsResponse.execute (writing (WriteCoilsResponse.encode s))
        (decode_with-Gives s WriteCoils.format Coils (λ q. q.adu) WriteCoils.with_adu
          (λ c q. not (c == q.adu.function)) _
          (λ q. server_device_failure q.adu.function (header q.adu)) laws p lacks (λ _ _ d. d)
          (λ a found q d. record {
            value = tt;
            left = short-IsU16 a.0 (drop 8 p) found.0 (All-drop IsByte 8 p b);
          })
          (WriteCoils.make 0 1 []) (omega arith))
        (λ q d u _.
          executed-Returning U OfCoils (not (WriteCoils.validate_count q))
            (illegal_data_value q.adu.function (header q.adu))
            (illegal_data_address q.adu.function (header q.adu))
            (Block.validate_count write_num_bits u.coils q.address q.count)
            (WriteCoilsResponse.make q)
            (validate_count_defined write_num_bits u.coils q.address q.count) λ _. d)
        (writing-Gives OfCoils (WriteCoilsResponse.encode s) write_coils-encoded) t h
