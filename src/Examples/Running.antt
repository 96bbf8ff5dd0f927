-- ===== src/Examples/Running.antt =====
-- A server that is sent packets of any bytes.
use modbus_cpp.Prelude.{◌≡◌, [], ◌∷◌, List, arith}
use modbus_cpp.Errors.{ok}
use modbus_cpp.Types.{Packet}
use modbus_cpp.Actions.Gives.{Gives}
use modbus_cpp.Struc.BigEndian.{big_endian, big_endian-IsBigEndian}
use modbus_cpp.RequestHandler.{handle}
use modbus_cpp.RequestHandler.Bounds.{FitsAdu}
use modbus_cpp.Device.Meets.{IsSound}
use modbus_cpp.RequestHandler.Bounds.Answering.{handle_kept, handle_answers}
use modbus_cpp.Server.{Event, connect, disconnect, receive, make, run}
use modbus_cpp.Server.Sound.{IsRunning, run-IsRunning, run_returns}
use modbus_cpp.Examples.Plant.{plant}
use modbus_cpp.Examples.Story.{plant-IsSound}

-- A request to write 65535 to register 11, with a protocol identifier that is not 0.
abbrev odd : Packet
odd = 0 ∷ 1 ∷ 9 ∷ 9 ∷ 0 ∷ 6 ∷ 17 ∷ 6 ∷ 0 ∷ 11 ∷ 255 ∷ 255 ∷ []

-- Too short for a header.
abbrev stub : Packet
stub = 0 ∷ 1 ∷ 2 ∷ []

abbrev visit : List Event
visit = connect ∷ receive odd ∷ receive stub ∷ disconnect ∷ []

handle_kept_example : Gives (Unit {0}) FitsAdu IsSound (handle big_endian stub plant)
handle_kept_example =
    handle_kept big_endian big_endian-IsBigEndian stub plant (omega arith) plant-IsSound

handle_answers_example : (q : Packet) × ((handle big_endian odd plant).0 ≡ ok q) × FitsAdu q
handle_answers_example =
    handle_answers big_endian big_endian-IsBigEndian odd plant (omega arith) (λ _. omega arith)
      plant-IsSound

plant-IsRunning : IsRunning (make plant)
plant-IsRunning = record {
  table = plant-IsSound;
  sent = tt;
  connected = λ t h. h;
  disconnected = λ t h. h;
}

run-IsRunning_example : IsRunning (run big_endian visit (make plant)).1
run-IsRunning_example =
    run-IsRunning big_endian big_endian-IsBigEndian visit (make plant) (omega arith) plant-IsRunning

run_returns_example : (run big_endian visit (make plant)).0 ≡ ok tt
run_returns_example =
    run_returns big_endian big_endian-IsBigEndian visit (make plant) (omega arith)
      (tt, (λ _. omega arith, (λ h. absurd (omega arith), (tt, tt)))) plant-IsRunning
