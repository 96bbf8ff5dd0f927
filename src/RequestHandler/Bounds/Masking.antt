-- ===== src/RequestHandler/Bounds/Masking.antt =====
-- Requests that change a register through masks.
use modbus_cpp.Prelude.{◌<◌, ◌≡◌, not, ◌==◌, ◌||◌, false, ◌++◌, length, drop, All, All-drop, arith}
use modbus_cpp.Types.{Packet, IsByte, IsU16, validate}
use modbus_cpp.Errors.{server_device_failure, illegal_data_value, illegal_data_address}
use modbus_cpp.Actions.{modify, if_then_throw}
use modbus_cpp.Actions.Gives.{
  Returning-defined, Any, Gives, Gives-then, Gives-caught, Gives-result, Gives-thrown,
  Gives-rethrow_range,
}
use modbus_cpp.Struc.{Struc, IsBigEndian}
use modbus_cpp.Struc.Numbers.{short-IsU16}
use modbus_cpp.Adu.{header, calc_length, header_packet}
use modbus_cpp.Request.{check_response_packet}
use modbus_cpp.Block
use modbus_cpp.Block.Defined.{validate_defined, get_defined, set_value_defined}
use modbus_cpp.Device.Meets.{IsSound}
use modbus_cpp.Device.Stored.{value_stored-IsSound}
use modbus_cpp.Table.{Table, with_holding_registers}
use modbus_cpp.Pointing.{Pointing, after_set, on_response}
use modbus_cpp.RegisterWrite.MaskWrite.Request.{MaskWrite}
use modbus_cpp.RegisterWrite.MaskWrite.Request as MaskWrite
use modbus_cpp.RegisterWrite.MaskWrite.Response as MaskWriteResponse
use modbus_cpp.RegisterWrite.MaskWrite.Response.{MaskWriteResponse}
use modbus_cpp.RequestHandler.{serve_mask_write, writing}
use modbus_cpp.RequestHandler.Bounds.{
  FitsAdu, Pointed, serve-Gives, executed-Returning, writing-Gives, checked-FitsAdu,
  set_registers-Gives,
}
use modbus_cpp.RequestHandler.Bounds.Decoding.{decode_with-Gives}

-- The address is a 16-bit number.
abbrev Masks : MaskWrite → Type 0
Masks q = IsU16 q.address

abbrev Addressed : MaskWriteResponse → Type 0
Addressed r = Masks r.request

module _ {U : Type 0} (s : Struc) where
  mask_write_steps :
      (w : Pointing MaskWriteResponse)
      → Pointed Addressed w
      → Gives U FitsAdu (Pointed Addressed) (MaskWriteResponse.encode_steps s w)
  mask_write_steps w h =
      let v : Pointing MaskWriteResponse =
        (on_response (MaskWriteResponse.on_adu (modify (calc_length MaskWriteResponse.data_length)))
          w).1 in
      let packet : Packet =
        header_packet s v.0.base.adu
        ++ s.pack MaskWriteResponse.format
            (w.0.request.address, (w.0.request.and_mask, (w.0.request.or_mask, tt))) in
      Gives-then (λ _. not (check_response_packet 14 packet) ≡ false) FitsAdu (Pointed Addressed)
        (if_then_throw _ _ v) _ (Gives-thrown (Pointed Addressed) _ _ v h)
        λ _ okay u k.
          Gives-then Any FitsAdu (Pointed Addressed)
            (Block.get u.1.holding_registers u.0.request.address, u) _
            (Gives-result Any (Pointed Addressed) _ u
              (Returning-defined U _ (
                get_defined u.1.holding_registers u.0.request.address k.1.valid.holding_registers
                  k.0))
              k)
            λ current_value _ x l.
              Gives-then Any FitsAdu (Pointed Addressed)
                (after_set with_holding_registers
                  (Block.set_value x.1.holding_registers x.0.request.address
                    (MaskWriteResponse.masked current_value x.0.request))
                  x)
                _
                (set_registers-Gives Addressed _ x l
                  (set_value_defined x.1.holding_registers x.0.request.address _
                    l.1.valid.holding_registers l.0)
                  λ b e. value_stored-IsSound x.1 b _ _ e (omega arith) l.1)
                λ _ _ y m. record { value = checked-FitsAdu 14 packet okay (omega arith); left = m }

  mask_write-encoded :
      (w : Pointing MaskWriteResponse)
      → Pointed Addressed w
      → Gives U FitsAdu (Pointed Addressed) (MaskWriteResponse.encode s w)
  unfolding MaskWriteResponse.encode
  mask_write-encoded w h =
      Gives-caught FitsAdu (Pointed Addressed) (MaskWriteResponse.encode_steps s w) _
        (mask_write_steps w h) (λ e u k. Gives-rethrow_range FitsAdu (Pointed Addressed) _ _ e u k)

  pub mask_write-Gives :
      IsBigEndian s
      → (p : Packet) (t : Table) → All IsByte p
      → (length p < 14 → U)
      → IsSound t
      → Gives U FitsAdu IsSound (serve_mask_write s p t)
  unfolding serve_mask_write MaskWriteResponse.execute MaskWrite.decode
  mask_write-Gives laws p t b lacks h =
      serve-Gives Masks Addressed (MaskWrite.decode s p (MaskWrite.make 0 0 0))
        MaskWriteResponse.execute (writing (MaskWriteResponse.encode s))
        (decode_with-Gives s MaskWrite.format Masks (λ q. q.adu) MaskWrite.with_adu
          (λ c q. not (c == q.adu.function)) (λ a. modify (MaskWrite.store a))
          (λ q. server_device_failure q.adu.function (header q.adu)) laws p lacks (λ _ _ d. d)
          (λ a found q d. record {
            value = tt;
            left = short-IsU16 a.0 (drop 8 p) found.0 (All-drop IsByte 8 p b);
          })
          (MaskWrite.make 0 0 0) (omega arith))
        (λ q d u _.
          executed-Returning U Addressed (not (validate q.and_mask) || not (validate q.or_mask))
            (illegal_data_value q.adu.function (header q.adu))
            (illegal_data_address q.adu.function (header q.adu))
            (Block.validate u.holding_registers q.address) (MaskWriteResponse.make q)
            (validate_defined u.holding_registers q.address) λ _. d)
        (writing-Gives Addressed (MaskWriteResponse.encode s) mask_write-encoded) t h
