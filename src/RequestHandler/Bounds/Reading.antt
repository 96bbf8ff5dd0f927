-- ===== src/RequestHandler/Bounds/Reading.antt =====
-- Requests that only read.
use modbus_cpp.Prelude.{
  ◌+◌, ◌<◌, ◌≤◌, ◌≡◌, true, not, ◌==◌, false, ◌++◌, length, drop, All, All-drop, arith,
}
use modbus_cpp.Constants.{max_adu_length}
use modbus_cpp.Types.{Packet, IsByte, IsU16}
use modbus_cpp.Errors.{server_device_failure, illegal_data_value, illegal_data_address}
use modbus_cpp.Actions.{modify, if_then_throw}
use modbus_cpp.Actions.Gives.{
  Returning-defined, Any, Gives, Gives-then, Gives-caught, Gives-result, Gives-thrown,
  Gives-rethrow_range,
}
use modbus_cpp.Struc.{Struc, IsBigEndian}
use modbus_cpp.Struc.Numbers.{short-IsU16}
use modbus_cpp.Adu.{header, calc_length, header_packet}
use modbus_cpp.Operation.{pack_bits}
use modbus_cpp.Registers.{pack_registers}
use modbus_cpp.Request.{check_response_packet}
use modbus_cpp.Block
use modbus_cpp.Block.Range.{IsValid, validate_count-counted}
use modbus_cpp.Block.Defined.{validate_count_defined, get_slice_defined}
use modbus_cpp.Device.Meets.{IsSound}
use modbus_cpp.Table.{Table, read_num_bits, read_num_regs}
use modbus_cpp.BitRead.Request as ReadBits
use modbus_cpp.BitRead.Request.{ReadBits}
use modbus_cpp.BitRead.Response as ReadBitsResponse
use modbus_cpp.BitRead.Response.{ReadBitsResponse}
use modbus_cpp.RegisterRead.Request as ReadRegisters
use modbus_cpp.RegisterRead.Request.{ReadRegisters}
use modbus_cpp.RegisterRead.Response as ReadRegistersResponse
use modbus_cpp.RegisterRead.Response.{ReadRegistersResponse}
use modbus_cpp.RequestHandler.{serve_read_bits, serve_read_registers, reading}
use modbus_cpp.RequestHandler.Bounds.{
  FitsAdu, serve-Gives, executed-Returning, reading-Gives, checked-FitsAdu,
}
use modbus_cpp.RequestHandler.Bounds.Decoding.{decode_with-Gives}

-- A request with a 16-bit address, and a response whose count has been tested too.
abbrev AddressOfBits : ReadBits → Type 0
AddressOfBits q = IsU16 q.address

abbrev AddressOfRegisters : ReadRegisters → Type 0
AddressOfRegisters q = IsU16 q.address

abbrev BitsCounted : ReadBitsResponse → Type 0
BitsCounted r = IsU16 r.request.address × (read_num_bits r.request.count ≡ true)

abbrev RegistersCounted : ReadRegistersResponse → Type 0
RegistersCounted r = IsU16 r.request.address × (read_num_regs r.request.count ≡ true)

bits_size-fits :
    (r : ReadBits) → read_num_bits r.count ≡ true → ReadBits.response_size r ≤ max_adu_length
bits_size-fits r h = ground arith

registers_size-fits :
    (r : ReadRegisters)
    → read_num_regs r.count ≡ true
    → ReadRegisters.response_size r ≤ max_adu_length
registers_size-fits r h = ground arith

bits_block-IsValid :
    (kind : ReadBits.Kind) (t : Table) → IsSound t → IsValid (ReadBits.block kind t)
bits_block-IsValid ReadBits.read_coils t h = h.valid.coils
bits_block-IsValid ReadBits.read_discrete_inputs t h = h.valid.discrete_inputs

registers_block-IsValid :
    (kind : ReadRegisters.Kind) (t : Table) → IsSound t → IsValid (ReadRegisters.block kind t)
registers_block-IsValid ReadRegisters.read_holding_registers t h = h.valid.holding_registers
registers_block-IsValid ReadRegisters.read_input_registers t h = h.valid.input_registers

module _ {U : Type 0} (s : Struc) where
  read_bits-encoded :
      (kind : ReadBits.Kind) (t : Table)
      → IsSound t
      → (r : ReadBitsResponse) → BitsCounted r
      → Gives U FitsAdu BitsCounted (ReadBitsResponse.encode s kind t r)
  unfolding ReadBitsResponse.encode
  read_bits-encoded kind t sound r h =
      Gives-caught FitsAdu BitsCounted _ _
        (Gives-then Any FitsAdu BitsCounted
          (
            Block.get_slice read_num_bits (ReadBits.block kind t) r.request.address r.request.count,
            r,
          )
          _
          (Gives-result Any BitsCounted _ r
            (Returning-defined U _ (
              get_slice_defined read_num_bits (ReadBits.block kind t) r.request.address
                r.request.count (λ e. ground arith) (bits_block-IsValid kind t sound) h.0))
            h)
          λ bits _ u k.
            let v : ReadBitsResponse =
              (ReadBitsResponse.on_adu (modify (calc_length (ReadBits.byte_count u.request + 1)))
                (ReadBitsResponse.store_bits bits u)).1 in
            let packet : Packet =
              header_packet s v.base.adu
              ++ s.pack ReadBitsResponse.format (ReadBits.byte_count u.request, tt)
              ++ pack_bits bits in
            Gives-then
              (λ _. not (check_response_packet (ReadBits.response_size v.request) packet) ≡ false)
              FitsAdu BitsCounted (if_then_throw _ _ v) _ (Gives-thrown BitsCounted _ _ v k)
              λ _ okay x l. record {
                value =
                    checked-FitsAdu (ReadBits.response_size v.request) packet okay
                      (bits_size-fits v.request k.1);
                left = l;
              })
        (λ e u k. Gives-rethrow_range FitsAdu BitsCounted _ _ e u k)

  pub read_bits-Gives :
      IsBigEndian s
      → (kind : ReadBits.Kind) (p : Packet) (t : Table) → All IsByte p
      → (length p < 12 → U)
      → IsSound t
      → Gives U FitsAdu IsSound (serve_read_bits s kind p t)
  unfolding serve_read_bits ReadBitsResponse.execute ReadBits.decode
  read_bits-Gives laws kind p t b lacks h =
      serve-Gives AddressOfBits BitsCounted (ReadBits.decode s kind p (ReadBits.make kind 0 1))
        (ReadBitsResponse.execute kind) (reading (ReadBitsResponse.encode s kind))
        (decode_with-Gives s ReadBits.format AddressOfBits (λ q. q.adu) ReadBits.with_adu
          (λ c _. not (c == ReadBits.code kind)) (λ a. modify (ReadBits.store a))
          (λ q. server_device_failure q.adu.function (header q.adu)) laws p lacks (λ _ _ d. d)
          (λ a found q d. record {
            value = tt;
            left = short-IsU16 a.0 (drop 8 p) found.0 (All-drop IsByte 8 p b);
          })
          (ReadBits.make kind 0 1) (omega arith))
        (λ q d u _.
          executed-Returning U BitsCounted (not (ReadBits.validate_count q))
            (illegal_data_value q.adu.function (header q.adu))
            (illegal_data_address q.adu.function (header q.adu))
            (Block.validate_count read_num_bits (ReadBits.block kind u) q.address q.count)
            (ReadBitsResponse.make kind q)
            (validate_count_defined read_num_bits (ReadBits.block kind u) q.address q.count)
            λ e.
              (d, validate_count-counted read_num_bits (ReadBits.block kind u) q.address q.count e))
        (reading-Gives BitsCounted (ReadBitsResponse.encode s kind) (read_bits-encoded kind)) t h

  read_registers-encoded :
      (kind : ReadRegisters.Kind) (t : Table)
      → IsSound t
      → (r : ReadRegistersResponse) → RegistersCounted r
      → Gives U FitsAdu RegistersCounted (ReadRegistersResponse.encode s kind t r)
  unfolding ReadRegistersResponse.encode
  read_registers-encoded kind t sound r h =
      Gives-caught FitsAdu RegistersCounted _ _
        (Gives-then Any FitsAdu RegistersCounted
          (
            Block.get_slice read_num_regs (ReadRegisters.block kind t) r.request.address
                r.request.count,
            r,
          )
          _
          (Gives-result Any RegistersCounted _ r
            (Returning-defined U _ (
              get_slice_defined read_num_regs (ReadRegisters.block kind t) r.request.address
                r.request.count (λ e. ground arith) (registers_block-IsValid kind t sound) h.0))
            h)
          λ registers _ u k.
            let v : ReadRegistersResponse =
              (ReadRegistersResponse.on_adu
                (modify (calc_length (ReadRegisters.byte_count u.request + 1)))
                (ReadRegistersResponse.store_registers registers u)).1 in
            let packet : Packet =
              header_packet s v.base.adu
              ++ s.pack ReadRegistersResponse.format (ReadRegisters.byte_count u.request, tt)
              ++ pack_registers s registers in
            Gives-then
              (λ _.
                not (check_response_packet (ReadRegisters.response_size v.request) packet) ≡ false)
              FitsAdu RegistersCounted (if_then_throw _ _ v) _
              (Gives-thrown RegistersCounted _ _ v k)
              λ _ okay x l. record {
                value =
                    checked-FitsAdu (ReadRegisters.response_size v.request) packet okay
                      (registers_size-fits v.request k.1);
                left = l;
              })
        (λ e u k. Gives-rethrow_range FitsAdu RegistersCounted _ _ e u k)

  pub read_registers-Gives :
      IsBigEndian s
      → (kind : ReadRegisters.Kind) (p : Packet) (t : Table) → All IsByte p
      → (length p < 12 → U)
      → IsSound t
      → Gives U FitsAdu IsSound (serve_read_registers s kind p t)
  unfolding serve_read_registers ReadRegistersResponse.execute ReadRegisters.decode
  read_registers-Gives laws kind p t b lacks h =
      serve-Gives AddressOfRegisters RegistersCounted
        (ReadRegisters.decode s kind p (ReadRegisters.make kind 0 1))
        (ReadRegistersResponse.execute kind) (reading (ReadRegistersResponse.encode s kind))
        (decode_with-Gives s ReadRegisters.format AddressOfRegisters (λ q. q.adu)
          ReadRegisters.with_adu (λ c _. not (c == ReadRegisters.code kind))
          (λ a. modify (ReadRegisters.store a))
          (λ q. server_device_failure q.adu.function (header q.adu)) laws p lacks (λ _ _ d. d)
          (λ a found q d. record {
            value = tt;
            left = short-IsU16 a.0 (drop 8 p) found.0 (All-drop IsByte 8 p b);
          })
          (ReadRegisters.make kind 0 1) (omega arith))
        (λ q d u _.
          executed-Returning U RegistersCounted (not (ReadRegisters.validate_count q))
            (illegal_data_value q.adu.function (header q.adu))
            (illegal_data_address q.adu.function (header q.adu))
            (Block.validate_count read_num_regs (ReadRegisters.block kind u) q.address q.count)
            (ReadRegistersResponse.make kind q)
            (validate_count_defined read_num_regs (ReadRegisters.block kind u) q.address q.count)
            λ e. (
              d,
              validate_count-counted read_num_regs (ReadRegisters.block kind u) q.address q.count e,
            ))
        (reading-Gives RegistersCounted (ReadRegistersResponse.encode s kind)
          (read_registers-encoded kind))
        t h
