-- ===== src/Device/Serving.antt =====
-- A whole run of the server against the specification.
use modbus_cpp.Prelude.{◌≡◌, refl, sym, ap, ◌∙◌, List, [], ◌∷◌, ◌++◌, append_assoc, append-nil, All}
use modbus_cpp.Types.{Packet}
use modbus_cpp.Errors.{Result, ok}
use modbus_cpp.Actions.{and_then, modify}
use modbus_cpp.Struc.{Struc, IsBigEndian}
use modbus_cpp.Frame
use modbus_cpp.Frame.{Mbap}
use modbus_cpp.Table.{Table}
use modbus_cpp.RequestHandler.{handle}
use modbus_cpp.Server.{
  Server, Event, connect, disconnect, receive, step, on_receive, run, send, with_data_table,
}
use modbus_cpp.Device.{
  Device, Query, Reply, bits, registers, coil, register, coils_written, registers_written, masked,
  registers_after, refused, serve,
}
use modbus_cpp.Device.View.{view}
use modbus_cpp.Device.Wire.{Fits, query_packet, reply_packet}
use modbus_cpp.Device.Meets.{IsSound}
use modbus_cpp.Device.Refines.{handle-Meets}

-- What happens at the server: clients come and go, and send queries.
pub data Input : Type 0 where
  join : Input
  leave : Input
  ask : Mbap → Query → Packet → Input

abbrev pub event : Input → Event
event join = connect
event leave = disconnect
event (ask m q rest) = receive (query_packet m q rest)

abbrev pub events : List Input → List Event
events [] = []
events (i ∷ is) = event i ∷ events is

abbrev pub FitsInput : Input → Type 0
FitsInput join = Unit {0}
FitsInput leave = Unit {0}
FitsInput (ask m q rest) = Frame.IsValid m × Fits q

-- The packets that the specification answers with, and the device in the end.
abbrev pub answers : List Input → Device → List Packet × Device
answers [] d = ([], d)
answers (join ∷ is) d = answers is d
answers (leave ∷ is) d = answers is d
answers (ask m q rest ∷ is) d =
    let (packets, d') = answers is (serve q d).1 in (reply_packet m (serve q d).0 ∷ packets, d')

-- The application's callbacks leave the table alone, as they do until some are bound.
abbrev pub Idle : Server → Type 0
Idle v = ((t : Table) → v.on_connect_cb t ≡ t) × ((t : Table) → v.on_disconnect_cb t ≡ t)

-- The run has returned, with these packets sent after those of before.
pub record RunMeets (v : Server) (x : Result (Unit {0}) × Server) (y : List Packet × Device)
    : Type 0 where
  pub returned : x.0 ≡ ok tt
  pub sent : x.1.sent ≡ v.sent ++ y.0
  pub device : view x.1.data_table ≡ y.1
  pub sound : IsSound x.1.data_table

-- No reply is an empty packet, which the server would not send.
send-reply :
    (m : Mbap) (r : Reply) (v : Server)
    → send (reply_packet m r) v ≡ record v { sent = v.sent ++ reply_packet m r ∷ [] }
send-reply m (bits kind xs) v = refl
send-reply m (registers kind xs) v = refl
send-reply m (coil address on) v = refl
send-reply m (register address value) v = refl
send-reply m (coils_written address count) v = refl
send-reply m (registers_written address count) v = refl
send-reply m (masked address and_mask or_mask) v = refl
send-reply m (registers_after xs) v = refl
send-reply m (refused code) v = refl

module _ (s : Struc) (laws : IsBigEndian s) where
  received :
      (x : Result Packet × Table) (m : Mbap) (r : Reply) (v : Server)
      → x.0 ≡ ok (reply_packet m r)
      → and_then (x.0, with_data_table x.1 v) (λ response. modify (send response))
        ≡ (ok tt, record v { data_table = x.1; sent = v.sent ++ reply_packet m r ∷ [] })
  received x m r v e = rw (e, send-reply m r (with_data_table x.1 v))

  on_receive_lem :
      (m : Mbap) (q : Query) (rest : Packet) (r : Reply) (v : Server)
      → (handle s (query_packet m q rest) v.data_table).0 ≡ ok (reply_packet m r)
      → on_receive s (query_packet m q rest) v ≡ (
        ok tt,
        record v {
          data_table = (handle s (query_packet m q rest) v.data_table).1;
          sent = v.sent ++ reply_packet m r ∷ [];
        },
      )
  unfolding on_receive
  on_receive_lem m q rest r v e = received (handle s (query_packet m q rest) v.data_table) m r v e

  -- A server with idle callbacks that is asked any sequence of queries, by clients that come and
  -- go, returns from each and sends exactly the packets of the replies that the specification
  -- `Device.serve` gives, one for each query and in their order. In the end its table stands for
  -- the device that the specification has then. Assumed: struc is big-endian, the numbers of the
  -- queries fit their fields, each block has a cell for each of its addresses and the registers
  -- fit 16 bits.
  pub run-RunMeets :
      (is : List Input) (v : Server)
      → All FitsInput is
      → Idle v
      → IsSound v.data_table
      → RunMeets v (run s (events is) v) (answers is (view v.data_table))
  unfolding run step
  run-RunMeets [] v h idle sound = record {
    returned = refl;
    sent = sym (append-nil v.sent);
    device = refl;
    sound = sound;
  }
  run-RunMeets (join ∷ is) v h idle sound =
      rw (idle.0 v.data_table) (run-RunMeets is v h.1 idle sound)
  run-RunMeets (leave ∷ is) v h idle sound =
      rw (idle.1 v.data_table) (run-RunMeets is v h.1 idle sound)
  run-RunMeets (ask m q rest ∷ is) v h idle sound =
      let met = handle-Meets s laws m q rest v.data_table h.0.0 h.0.1 sound in
      let (r, d) = serve q (view v.data_table) in
      let v' : Server = record v {
        data_table = (handle s (query_packet m q rest) v.data_table).1;
        sent = v.sent ++ reply_packet m r ∷ [];
      } in
      let rest_of_run = run-RunMeets is v' h.1 idle met.sound in
      rw (on_receive_lem m q rest r v met.answer) (record {
        returned = rest_of_run.returned;
        sent =
            rest_of_run.sent
            ∙ append_assoc v.sent (reply_packet m r ∷ []) (answers is (view v'.data_table)).0
            ∙ ap (λ e. v.sent ++ reply_packet m r ∷ (answers is e).0) met.device;
        device = rest_of_run.device ∙ ap (λ e. (answers is e).1) met.device;
        sound = rest_of_run.sound;
      })
