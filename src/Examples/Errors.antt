-- ===== src/Examples/Errors.antt =====
-- Exception packets, and a client whose write is refused.
use modbus_cpp.Prelude.{ℕ, ◌≡◌, refl, if◌then◌else◌, ◌==◌, length, [], ◌∷◌, arith}
use modbus_cpp.Types.{Packet}
use modbus_cpp.Errors.{ok, throw, undefined, bad_data, std_exception}
use modbus_cpp.Struc.BigEndian.{big_endian, big_endian-IsBigEndian}
use modbus_cpp.Frame.{reply, header_of}
use modbus_cpp.Table.{Table}
use modbus_cpp.Response.{ErrorResponse, make_error, encode_error}
use modbus_cpp.Response.Error.{decode_error, decode_error-encode_error}
use modbus_cpp.RegisterWrite.MultipleRegisters.Request as WriteRegisters
use modbus_cpp.RegisterWrite.MultipleRegisters.Response as WriteRegistersResponse
use modbus_cpp.Device.{write_registers, refused, serve, collect}
use modbus_cpp.Device.View.{view}
use modbus_cpp.Device.Meets.{IsSound}
use modbus_cpp.Client.{ask}
use modbus_cpp.Prelude.{true}
use modbus_cpp.Client.Robust.Decoding.{AllStayInside, decode-AllStayInside}
use modbus_cpp.Client.Refused.{ask_refused}
use modbus_cpp.Client.RegistersWriting
use modbus_cpp.Examples.Plant.{plant, mbap, mbap-IsValid}
use modbus_cpp.Examples.Story.{plant-IsSound}

abbrev blank : ErrorResponse
blank = make_error 1 1 (header_of mbap)

decode_error-encode_error_example :
    ((decode_error big_endian (1 ∷ 44 ∷ []) blank).0
      ≡ (if length {A = ℕ} (1 ∷ 44 ∷ []) == 9 then undefined else throw bad_data))
    × (p : Packet) × (encode_error big_endian (make_error 2 3 (header_of mbap)) ≡ ok p)
    × ((decode_error big_endian p blank).0 ≡ undefined)
decode_error-encode_error_example =
    decode_error-encode_error big_endian big_endian-IsBigEndian mbap 2 3 blank (1 ∷ 44 ∷ [])
      mbap-IsValid (omega arith) (omega arith)

unanswered : (serve (write_registers 12 (7 ∷ 256 ∷ [])) (view plant)).0 ≡ refused 16
unfolding serve collect
unanswered = refl

-- Registers 12 and 13, of which the plant has the first.
ask_refused_example :
    (t' : Table) × (ask big_endian
        (WriteRegistersResponse.derived big_endian)
        WriteRegistersResponse.make
        (WriteRegisters.encode big_endian)
        (RegistersWriting.asked mbap 12 (7 ∷ 256 ∷ []))
        plant
      ≡ (throw std_exception, t'))
    × (view t' ≡ view plant)
    × IsSound t'
ask_refused_example =
    ask_refused big_endian big_endian-IsBigEndian (WriteRegistersResponse.derived big_endian)
      WriteRegistersResponse.make (WriteRegisters.encode big_endian)
      (RegistersWriting.asked mbap 12 (7 ∷ 256 ∷ [])) _ (reply mbap 11)
      (write_registers 12 (7 ∷ 256 ∷ [])) [] 16 plant
      (RegistersWriting.encode_lem big_endian big_endian-IsBigEndian mbap 12 (7 ∷ 256 ∷ [])
        mbap-IsValid (omega arith) (omega arith) (omega arith))
      (record { transaction = refl; unit = refl }) refl refl
      (record { transaction = omega arith; unit = omega arith }) (omega arith) plant-IsSound
      unanswered

-- An answer to a read of one register that ends after its byte count.
decode-AllStayInside_example :
    AllStayInside big_endian true (1 ∷ 44 ∷ 0 ∷ 0 ∷ 0 ∷ 3 ∷ 1 ∷ 3 ∷ 2 ∷ [])
decode-AllStayInside_example =
    decode-AllStayInside big_endian big_endian-IsBigEndian true
      (1 ∷ 44 ∷ 0 ∷ 0 ∷ 0 ∷ 3 ∷ 1 ∷ 3 ∷ 2 ∷ []) (omega arith)
