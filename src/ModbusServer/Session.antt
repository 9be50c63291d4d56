-- ===== src/ModbusServer/Session.antt =====
-- The connection loop of internal/modbusserver/server.go: chunks of bytes come in, complete MBAP
-- frames are answered, the rest waits. Writes to the connection succeed; a failing one ends the loop.
pub mod Loop
pub mod Chunks
pub mod Client
pub mod Coils
pub mod Crash
use tentacle_next.Prelude.{
  ℕ, zero, suc, ◌+◌, ◌-◌, ◌%◌, Bool, true, false, not, ◌&&◌, List, [], ◌∷◌, ◌++◌, ltb, ◌==◌,
  if◌then◌else◌, length, take, drop,
}
use tentacle_next.Prelude.Bytes.{Bytes, put_uint16, uint16}
use tentacle_next.ModbusServer.Store.{RegisterStore}
use tentacle_next.ModbusServer.Pdu.{Reply, WriteEvent, handle_pdu}

-- What stands at the head of the buffer: nothing complete, a frame that crashes the server, or a
-- request and the bytes behind it.
pub data Next : Type 0 where
  wait crash : Next
  request : ℕ → ℕ → Bytes → Bytes → Next

-- `size` is the length field; `rest` starts behind the unit id. make([]byte, totalLen-7) panics where
-- that length is negative.
frame_at : ℕ → ℕ → ℕ → Bytes → Next
frame_at txn size unit rest =
    let total_len = 6 + size in
    if ltb (7 + length rest) total_len
    then wait
    else if ltb total_len 7
    then crash
    else request txn unit (take (total_len - 7) rest) (drop (total_len - 7) rest)

unfoldable pub next_frame : Bytes → Next
unfolding frame_at
next_frame (t1 ∷ t0 ∷ p1 ∷ p0 ∷ l1 ∷ l0 ∷ unit ∷ rest) =
    frame_at (uint16 t1 t0) (uint16 l1 l0) unit rest
next_frame _ = wait

pub record Session : Type 0 where
  pub unit_id : ℕ
  pub pending : Bytes
  pub store : RegisterStore
  pub sent : Bytes
  pub events : List WriteEvent
  pub crashed : Bool

-- The response frame. Its length field wraps.
unfoldable pub response_frame : ℕ → ℕ → Bytes → Bytes
response_frame txn unit response =
    put_uint16 txn
    ++ (put_uint16 0 ++ (put_uint16 ((1 + length response) % 65536) ++ (unit ∷ response)))

-- Requests to other units are skipped; 0 is the broadcast unit.
unfoldable pub serve : ℕ → ℕ → Bytes → Session → Session
unfolding response_frame
serve txn unit pdu s =
    let reply = handle_pdu pdu s.store in
    if not (unit == s.unit_id) && not (unit == 0) then s else record s {
      store = reply.store;
      sent = s.sent ++ response_frame txn unit reply.response;
      events = s.events ++ reply.events;
    }

-- The loop over complete frames. Each takes seven bytes at least, so the buffer's length is fuel
-- enough.
unfoldable pub process : ℕ → Bytes → Session → Session
process zero buf s = record s { pending = buf }
process (suc fuel) buf s = elim (next_frame buf) [
  | wait ↦ record s { pending = buf }
  | crash ↦ record s { pending = []; crashed = true }
  | request txn unit pdu rest ↦ process fuel rest (serve txn unit pdu s)
]

-- One conn.Read of the connection, with what follows it.
unfoldable pub receive : Bytes → Session → Session
receive chunk s =
    let buf = s.pending ++ chunk in if s.crashed then s else process (length buf) buf s

unfoldable pub accept : ℕ → RegisterStore → Session
accept unit_id store = record {
  unit_id = unit_id;
  pending = [];
  store = store;
  sent = [];
  events = [];
  crashed = false;
}
