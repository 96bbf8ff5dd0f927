-- ===== src/Server.antt =====
-- include/modbuscpp/modbuscpp/server.hpp and source/server.cpp: the events of the TCP server. The
-- network library delivers them and sends what the server hands it; it is not modelled, nor is
-- logging. The application's callbacks are arguments.
pub mod Layout
pub mod Sound
use modbus_cpp.Prelude.{List, [], ◌∷◌, ◌++◌}
use modbus_cpp.Types.{Packet}
use modbus_cpp.Actions.{Action, pure, modify, focus, ◌>>=◌, ◌>>◌}
use modbus_cpp.Struc.{Struc}
use modbus_cpp.Table.{Table}
use modbus_cpp.RequestHandler.{handle}

-- `server`, with the packets that it has handed to `send`, the oldest first.
pub record Server : Type 0 where
  pub data_table : Table
  pub on_connect_cb : Table → Table
  pub on_disconnect_cb : Table → Table
  pub sent : List Packet

-- `server(data_table)`; the callbacks do nothing until they are bound.
abbrev pub make : Table → Server
make data_table = record {
  data_table = data_table;
  on_connect_cb = λ t. t;
  on_disconnect_cb = λ t. t;
  sent = [];
}

abbrev pub bind_connect : (Table → Table) → Server → Server
bind_connect f server = record server { on_connect_cb = f }

abbrev pub bind_disconnect : (Table → Table) → Server → Server
bind_disconnect f server = record server { on_disconnect_cb = f }

abbrev pub with_data_table : Table → Server → Server
with_data_table t server = record server { data_table = t }

-- `if (!response.empty()) session_ptr->send(response, …);`
abbrev pub send : Packet → Server → Server
send [] server = server
send (b ∷ response) server = record server { sent = server.sent ++ (b ∷ response) ∷ [] }

pub data Event : Type 0 where
  connect : Event
  disconnect : Event
  receive : Packet → Event

module _ (s : Struc) where
  unfoldable pub on_receive : Packet → Action Server (Unit {0})
  on_receive raw_packet = do
    response ← focus (λ v. v.data_table) with_data_table (handle s raw_packet)
    modify (send response)

  unfoldable pub step : Event → Action Server (Unit {0})
  step connect = modify (λ v. with_data_table (v.on_connect_cb v.data_table) v)
  step disconnect = modify (λ v. with_data_table (v.on_disconnect_cb v.data_table) v)
  step (receive packet) = on_receive packet

  -- A run of events, up to the first that does not return.
  unfoldable pub run : List Event → Action Server (Unit {0})
  run [] = pure tt
  run (e ∷ events) = do step e; run events
