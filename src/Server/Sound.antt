-- ===== src/Server/Sound.antt =====
-- What holds of the server at every moment, whatever bytes its clients send.
use modbus_cpp.Prelude.{◌<◌, List, [], ◌∷◌, length, All, All-append, ◌≡◌, refl, arith}
use modbus_cpp.Types.{Packet, IsByte}
use modbus_cpp.Actions.{focus, modify}
use modbus_cpp.Actions.Gives.{Any, Gives, Gives-then}
use modbus_cpp.Struc.{Struc, IsBigEndian}
use modbus_cpp.Table.{Table}
use modbus_cpp.Device.Meets.{IsSound}
use modbus_cpp.RequestHandler.{handle}
use modbus_cpp.RequestHandler.Bounds.{FitsAdu}
use modbus_cpp.RequestHandler.Bounds.Handle.{IsComplete}
use modbus_cpp.RequestHandler.Bounds.Answering.{handle_kept, handle_answers}
use modbus_cpp.Errors.{Result, ok, throw, undefined}
use modbus_cpp.Actions.{Action, and_then}
use modbus_cpp.Server.{
  Server, Event, connect, disconnect, receive, step, on_receive, run, send, with_data_table,
}

-- A packet that is not empty and fits the largest ADU.
abbrev pub IsSendable : Packet → Type 0
IsSendable p = (0 < length p) × FitsAdu p

-- A sound table, packets in `sent` that may be sent, and callbacks that keep tables sound.
pub record IsRunning (v : Server) : Type 0 where
  pub table : IsSound v.data_table
  pub sent : All IsSendable v.sent
  pub connected : (t : Table) → IsSound t → IsSound (v.on_connect_cb t)
  pub disconnected : (t : Table) → IsSound t → IsSound (v.on_disconnect_cb t)

-- A packet consists of bytes.
abbrev pub HasBytes : Event → Type 0
HasBytes connect = Unit {0}
HasBytes disconnect = Unit {0}
HasBytes (receive packet) = All IsByte packet

-- A packet is long enough for its function.
abbrev pub IsLong : Event → Type 0
IsLong connect = Unit {0}
IsLong disconnect = Unit {0}
IsLong (receive packet) = IsComplete packet

send-IsRunning : (p : Packet) (v : Server) → FitsAdu p → IsRunning v → IsRunning (send p v)
send-IsRunning [] v h k = k
send-IsRunning (b ∷ p) v h k = record {
  table = k.table;
  sent = All-append IsSendable v.sent ((b ∷ p) ∷ []) k.sent ((omega arith, h), tt);
  connected = k.connected;
  disconnected = k.disconnected;
}

placed-IsRunning :
    (t : Table) (v : Server) → IsSound t → IsRunning v → IsRunning (with_data_table t v)
placed-IsRunning t v h k = record {
  table = h;
  sent = k.sent;
  connected = k.connected;
  disconnected = k.disconnected;
}

then_returns :
    (x : Result (Unit {0}) × Server) (m : Action Server (Unit {0}))
    → x.0 ≡ ok tt
    → (m x.1).0 ≡ ok tt
    → (and_then x (λ _. m)).0 ≡ ok tt
then_returns (ok _, v) m h k = k
then_returns (throw e, v) m h k = absurd (cc)
then_returns (undefined, v) m h k = absurd (cc)

module _ (s : Struc) (laws : IsBigEndian s) where
  step-IsRunning :
      (e : Event) (v : Server)
      → HasBytes e
      → IsRunning v
      → Gives (Unit {0}) Any IsRunning (step s e v)
  unfolding step on_receive
  step-IsRunning connect v b h = record {
    value = tt;
    left = placed-IsRunning _ v (h.connected v.data_table h.table) h;
  }
  step-IsRunning disconnect v b h = record {
    value = tt;
    left = placed-IsRunning _ v (h.disconnected v.data_table h.table) h;
  }
  step-IsRunning (receive packet) v b h =
      Gives-then FitsAdu Any IsRunning
        (focus (λ v. v.data_table) with_data_table (handle s packet) v)
        (λ response. modify (send response))
        (record {
          value = (handle_kept s laws packet v.data_table b h.table).value;
          left =
              placed-IsRunning (handle s packet v.data_table).1 v
                (handle_kept s laws packet v.data_table b h.table).left h;
        })
        λ response fits u k. record { value = tt; left = send-IsRunning response u fits k }

  runs :
      (events : List Event) (v : Server)
      → All HasBytes events
      → IsRunning v
      → Gives (Unit {0}) Any IsRunning (run s events v)
  unfolding run
  runs [] v b h = record { value = tt; left = h }
  runs (e ∷ events) v b h =
      Gives-then Any Any IsRunning (step s e v) (λ _. run s events) (step-IsRunning e v b.0 h)
        λ _ _ u k. runs events u b.1 k

  -- After any sequence of events, in which clients send packets of any bytes, and however the run
  -- ends, each block of the table has a cell for each of its addresses and its registers are
  -- 16-bit numbers, each packet that was handed to `send` is not empty and at most 260 bytes long,
  -- and the callbacks keep this of tables, if all this is so at the start. Assumed: struc is big-
  -- endian.
  pub run-IsRunning :
      (events : List Event) (v : Server)
      → All HasBytes events
      → IsRunning v
      → IsRunning (run s events v).1
  run-IsRunning events v b h = (runs events v b h).left

  step_returns :
      (e : Event) (v : Server) → HasBytes e → IsLong e → IsRunning v → (step s e v).0 ≡ ok tt
  unfolding step on_receive
  step_returns connect v b c h = refl
  step_returns disconnect v b c h = refl
  step_returns (receive packet) v b c h =
      let (q, e, _) = handle_answers s laws packet v.data_table b c h.table in rw e

  -- Every run of events returns, if each packet is made of bytes, and has no function code or is
  -- as long as its function needs: 12 bytes for the functions 1 to 6, 13 and 14 for the functions
  -- 15 and 22, and 13 or 17 bytes and as many as it declares for the functions 16 and 23. No
  -- exception escapes and nothing is read or written out of bounds. Assumed: struc is big-endian,
  -- the table and the packets sent are as `IsRunning` says at the start, and the callbacks keep
  -- tables sound.
  pub run_returns :
      (events : List Event) (v : Server)
      → All HasBytes events
      → All IsLong events
      → IsRunning v
      → (run s events v).0 ≡ ok tt
  unfolding run
  run_returns [] v b c h = refl
  run_returns (e ∷ events) v b c h =
      then_returns (step s e v) (run s events) (step_returns e v b.0 c.0 h)
        (run_returns events (step s e v).1 b.1 c.1 (step-IsRunning e v b.0 h).left)
