-- ===== src/Server/Layout.antt =====
-- No run of events changes the inputs, nor which addresses the table has.
use modbus_cpp.Prelude.{ℕ, Bool, List, [], ◌∷◌}
use modbus_cpp.Types.{Packet, IsU16}
use modbus_cpp.Errors.{Result, ok, throw, undefined}
use modbus_cpp.Actions.{and_then, modify}
use modbus_cpp.Actions.Keeps.{Keeps, after_step}
use modbus_cpp.Struc.{Struc}
use modbus_cpp.Table
use modbus_cpp.Table.{Table, Initializer}
use modbus_cpp.Table.Valid.{AllValid, SameLayout-AllValid, make-AllValid}
use modbus_cpp.Table.Kept.{SameLayout, SameLayout-refl, SameLayout-trans}
use modbus_cpp.RequestHandler.{handle}
use modbus_cpp.RequestHandler.Layout.{handle-SameLayout}
use modbus_cpp.Server.{
  make, bind_connect, bind_disconnect, Server, Event, connect, disconnect, receive, on_receive,
  step, run, send, with_data_table,
}

-- The application's callbacks may write to the table, but keep its layout.
abbrev pub CallbacksKeep : Server → Type 0
CallbacksKeep v =
    ((t : Table) → SameLayout t (v.on_connect_cb t))
    × ((t : Table) → SameLayout t (v.on_disconnect_cb t))

abbrev SameServer : Server → Server → Type 0
SameServer v v' = CallbacksKeep v → SameLayout v.data_table v'.data_table × CallbacksKeep v'

SameServer-trans : (u v w : Server) → SameServer u v → SameServer v w → SameServer u w
SameServer-trans u v w h k c =
    let (l, d) = h c in
    let (m, e) = k d in (SameLayout-trans u.data_table v.data_table w.data_table l m, e)

sent-SameServer :
    (packet : Packet) (v v' : Server) → SameServer v v' → SameServer v (send packet v')
sent-SameServer [] v v' h = h
sent-SameServer (b ∷ packet) v v' h = h

module _ (s : Struc) where
  received-SameServer :
      (x : Result Packet × Table) (v : Server)
      → SameLayout v.data_table x.1
      → SameServer v (and_then (x.0, with_data_table x.1 v) (λ r. modify (send r))).1
  received-SameServer (ok response, t) v h c =
      sent-SameServer response v (with_data_table t v) (λ d. (h, d)) c
  received-SameServer (throw e, t) v h c = (h, c)
  received-SameServer (undefined, t) v h c = (h, c)

  step-SameServer : (e : Event) → Keeps SameServer (step s e)
  unfolding step on_receive
  step-SameServer connect v c = (c.0 v.data_table, c)
  step-SameServer disconnect v c = (c.1 v.data_table, c)
  step-SameServer (receive packet) v c =
      received-SameServer (handle s packet v.data_table) v (handle-SameLayout s packet v.data_table)
        c

  run-SameServer : (events : List Event) → Keeps SameServer (run s events)
  unfolding run
  run-SameServer [] v c = (SameLayout-refl v.data_table, c)
  run-SameServer (e ∷ events) v c =
      after_step SameServer SameServer-trans v (step s e v) (λ _. run s events)
        (step-SameServer e v) (λ _. run-SameServer events) c

  -- Whatever clients connect, send and disconnect, in any order, a server whose callbacks keep the
  -- layout of the table has at the end the discrete inputs and input registers of the start, and
  -- coils and holding registers at the same addresses.
  pub run-SameLayout :
      (events : List Event) (v : Server)
      → CallbacksKeep v
      → SameLayout v.data_table (run s events v).1.data_table
  run-SameLayout events v c = (run-SameServer events v c).0

  -- A server that starts from an initialised table whose starting addresses fit 16 bits, with
  -- callbacks that keep the layout of tables, has in each of the four blocks a cell for each
  -- address of the block after any run of events.
  pub run-AllValid :
      (events : List Event) (c d : Initializer Bool) (h i : Initializer ℕ) (f g : Table → Table)
      → IsU16 c.starting_address
      → IsU16 d.starting_address
      → IsU16 h.starting_address
      → IsU16 i.starting_address
      → ((t : Table) → SameLayout t (f t))
      → ((t : Table) → SameLayout t (g t))
      → AllValid
          (run s events
            (bind_connect f (bind_disconnect g (make (Table.make c d h i))))).1.data_table
  run-AllValid events c d h i f g p q r u k l =
      let v = bind_connect f (bind_disconnect g (make (Table.make c d h i))) in
      SameLayout-AllValid v.data_table (run s events v).1.data_table
        (run-SameLayout events v (k, l)) (make-AllValid c d h i p q r u)
