-- ===== src/ModbusServer/Session/Crash.antt =====
-- Frames whose length field is zero, behind requests that are in order.
use tentacle_next.Prelude.{
  ℕ, ◌+◌, ◌<◌, true, false, List, [], ◌∷◌, ◌++◌, ◌≡◌, refl, sym, ap, ◌∙◌, arith, length, append-nil,
  append_assoc,
}
use tentacle_next.Prelude.Bytes.{Bytes}
use tentacle_next.Modbus.Protocol.{encode_mbap_request}
use tentacle_next.ModbusServer.Session.{
  Session, request, crash, next_frame, receive, serve, process,
}
use tentacle_next.ModbusServer.Session.Loop.{run, run-crash, run-request, next_frame-append}
use tentacle_next.ModbusServer.Session.Chunks.{
  receive_alive, receive_all, receive_all-concat, concat,
}
use tentacle_next.ModbusServer.Session.Client.{next_frame-encode}

next_frame_zero :
    (t1 t0 p1 p0 unit : ℕ) (rest : Bytes)
    → next_frame (t1 ∷ t0 ∷ p1 ∷ p0 ∷ 0 ∷ 0 ∷ unit ∷ rest) ≡ crash
unfolding next_frame
next_frame_zero t1 t0 p1 p0 unit rest = ground arith

-- A request of a client, to any unit.
pub record Request : Type 0 where
  pub txn : ℕ
  pub unit : ℕ
  pub pdu : Bytes

pub record FitsRequest (r : Request) : Type 0 where
  pub transaction : r.txn < 65536
  pub not_empty : 0 < length r.pdu
  pub size : length r.pdu + 1 < 65536

abbrev pub AllFit : List Request → Type 0
AllFit [] = Unit {0}
AllFit (r ∷ rs) = FitsRequest r × AllFit rs

-- The bytes of requests, as the client of internal/modbus frames them.
abbrev pub frames : List Request → Bytes
frames [] = []
frames (r ∷ rs) = encode_mbap_request r.txn r.unit r.pdu ++ frames rs

served : List Request → Session → Session
served [] s = s
served (r ∷ rs) s = served rs (serve r.txn r.unit r.pdu s)

run-frames :
    (rs : List Request) (behind : Bytes) (s : Session)
    → AllFit rs
    → run (frames rs ++ behind) s ≡ run behind (served rs s)
unfolding served
run-frames [] behind s fit = refl
run-frames (r ∷ rs) behind s (f, fs) =
    let head = encode_mbap_request r.txn r.unit r.pdu in
    let found : next_frame (head ++ (frames rs ++ behind))
        ≡ request r.txn r.unit r.pdu (frames rs ++ behind) =
      rw (next_frame-encode r.txn r.unit r.pdu f.transaction f.not_empty f.size) at
        (next_frame-append head (frames rs ++ behind)) in
    ap (λ (b : Bytes). run b s) (append_assoc head (frames rs) behind)
    ∙ run-request r.txn r.unit r.pdu (frames rs ++ behind) _ s found
    ∙ run-frames rs behind (serve r.txn r.unit r.pdu s) fs

serve-crashed :
    (txn unit : ℕ) (pdu : Bytes) (s : Session) → (serve txn unit pdu s).crashed ≡ s.crashed
unfolding serve
serve-crashed txn unit pdu s = ground arith

served-crashed : (rs : List Request) (s : Session) → (served rs s).crashed ≡ s.crashed
unfolding served
served-crashed [] s = refl
served-crashed (r ∷ rs) s =
    served-crashed rs (serve r.txn r.unit r.pdu s) ∙ serve-crashed r.txn r.unit r.pdu s

-- Requests alone, in one read.
receive-frames :
    (rs : List Request) (s : Session)
    → AllFit rs
    → s.crashed ≡ false
    → s.pending ≡ []
    → receive (frames rs) s ≡ record (served rs s) { pending = [] }
receive-frames rs s fit alive empty =
    receive_alive (frames rs) s alive
    ∙ ap (λ (p : Bytes). run (p ++ frames rs) s) empty
    ∙ ap (λ (b : Bytes). run b s) (sym (append-nil (frames rs)))
    ∙ run-frames rs [] s fit
    ∙ (unfold process in refl)

-- A session that has not crashed and has nothing pending gets a stream of requests, to any units, whose
-- transactions and lengths fit their fields, and then a frame whose length field is zero, with anything behind
-- it, cut into reads in any way. The requests alone are served without a crash; with that frame behind
-- them the session is the one that they leave, with the same responses sent and the same registers, but
-- crashed and with nothing pending: neither that frame nor what follows it is answered.
pub receive_zero_length :
    (rs : List Request) (t1 t0 p1 p0 unit : ℕ) (behind c : Bytes) (cs : List Bytes) (s : Session)
    → AllFit rs
    → s.crashed ≡ false
    → s.pending ≡ []
    → concat (c ∷ cs) ≡ frames rs ++ t1 ∷ t0 ∷ p1 ∷ p0 ∷ 0 ∷ 0 ∷ unit ∷ behind
    → ((receive (frames rs) s).crashed ≡ false)
      × (receive_all (c ∷ cs) s ≡ record (receive (frames rs) s) { pending = []; crashed = true })
receive_zero_length rs t1 t0 p1 p0 unit behind c cs s fit alive empty stream =
    let frame = t1 ∷ t0 ∷ p1 ∷ p0 ∷ 0 ∷ 0 ∷ unit ∷ behind in
    let alone = receive-frames rs s fit alive empty in
    (
      ap (λ (t : Session). t.crashed) alone ∙ served-crashed rs s ∙ alive,
      receive_all-concat c cs s
          ∙ ap (λ (b : Bytes). receive b s) stream
          ∙ receive_alive (frames rs ++ frame) s alive
          ∙ ap (λ (p : Bytes). run (p ++ (frames rs ++ frame)) s) empty
          ∙ run-frames rs frame s fit
          ∙ run-crash frame (served rs s) (next_frame_zero t1 t0 p1 p0 unit behind)
          ∙ ap (λ (t : Session). record t { pending = []; crashed = true }) (sym alone),
    )
