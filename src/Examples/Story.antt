-- ===== src/Examples/Story.antt =====
-- A few queries to the plant, and what the specification answers.
use modbus_cpp.Prelude.{◌≡◌, refl, [], ◌∷◌, List, arith}
use modbus_cpp.Struc.BigEndian.{big_endian, big_endian-IsBigEndian}
use modbus_cpp.BitRead.Request as ReadBits
use modbus_cpp.RequestHandler.{handle}
use modbus_cpp.Server.{make, run}
use modbus_cpp.Device.{
  read_bits, write_registers, read_write, registers_written, registers_after, refused, serve,
  collect, store,
}
use modbus_cpp.Device.View.{view}
use modbus_cpp.Device.Wire.{query_packet, reply_packet}
use modbus_cpp.Device.Meets.{IsSound, Meets}
use modbus_cpp.Device.Refines.{handle-Meets}
use modbus_cpp.Device.Serving.{Input, join, leave, ask, events, answers, RunMeets, run-RunMeets}
use modbus_cpp.Examples.Plant.{plant, mbap, mbap-IsValid, valves-IsValid, levels-IsValid}

pub plant-IsSound : IsSound plant
plant-IsSound = record {
  valid = record {
    coils = valves-IsValid;
    discrete_inputs = valves-IsValid;
    holding_registers = levels-IsValid;
    input_registers = levels-IsValid;
  };
  holding = omega arith;
  input = omega arith;
}

abbrev story : List Input
story =
    join
    ∷ ask mbap (write_registers 10 (7 ∷ 8 ∷ [])) []
    ∷ ask mbap (read_write 10 3 11 (9 ∷ [])) []
    ∷ ask mbap (read_bits ReadBits.read_coils 2 2) []
    ∷ leave
    ∷ []

handle-Meets_example :
    Meets
      (handle big_endian (query_packet mbap (read_write 10 3 11 (9 ∷ [])) []) plant)
      mbap
      (serve (read_write 10 3 11 (9 ∷ [])) (view plant))
handle-Meets_example =
    handle-Meets big_endian big_endian-IsBigEndian mbap (read_write 10 3 11 (9 ∷ [])) [] plant
      mbap-IsValid (omega arith) plant-IsSound

run-RunMeets_example :
    RunMeets (make plant) (run big_endian (events story) (make plant)) (answers story (view plant))
run-RunMeets_example =
    run-RunMeets big_endian big_endian-IsBigEndian story (make plant)
      (
        tt,
        (
          (mbap-IsValid, omega arith),
          ((mbap-IsValid, omega arith), ((mbap-IsValid, omega arith), (tt, tt))),
        ),
      )
      (λ t. refl, λ t. refl) plant-IsSound

-- The last query asks for a coil past the end.
answers-story :
    (answers story (view plant)).0
    ≡ reply_packet mbap (registers_written 10 2)
      ∷ reply_packet mbap (registers_after (7 ∷ 9 ∷ 3 ∷ []))
      ∷ reply_packet mbap (refused 1)
      ∷ []
unfolding serve collect store
answers-story = refl
