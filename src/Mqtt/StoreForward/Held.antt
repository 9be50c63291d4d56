-- ===== src/Mqtt/StoreForward/Held.antt =====
-- The buffer's records and statistics against what the rest of the bridge has put in and taken out.
use tentacle_next.Prelude.{
  some_inj, ℕ, zero, suc, ◌+◌, ◌≤◌, String, Bool, subst, length-take, Option, some, List, [], ◌∷◌,
  ◌++◌, ◌≡◌, refl, sym, ap, ◌∙◌, arith, length, take, drop, length-append, length-map, append-nil,
  append_assoc, drop-append_le,
}
use tentacle_next.Prelude.Int.{ℤ}
use tentacle_next.Mqtt.StoreForward.{
  BufferedRecord, Payload, Buffer, new, record_timeline, set_online, set_offline, buffer, drain,
  mark, record_publish, reconcile,
}
use tentacle_next.Mqtt.StoreForward.Status.{status}
use tentacle_next.Mqtt.StoreForward.Safety.{
  Call, set_online_call, set_offline_call, reconcile_call, buffer_call, drain_call,
  record_publish_call, status_call, call, calls, evicted_by, buffer_lem, IsBounded, calls-IsBounded,
  call-Steps, Steps, new-IsBounded,
}
use tentacle_next.Mqtt.StoreForward.Queue.{incoming, outgoing, all_incoming, all_outgoing}

-- The buffer after these records have come in and this number of records was handed out: its counters
-- say so, and it holds the records that are left when as many of the oldest are taken away as were
-- handed out or evicted.
pub record IsHeld (came : List BufferedRecord) (sent : ℕ) (sf : Buffer) : Type 0 where
  counted : sf.total_buffered ≡ length came
  drained : sf.total_drained ≡ sent
  held : sf.records ≡ drop (sf.total_drained + sf.total_evicted) came

drop_none : (n : ℕ) → drop {A = BufferedRecord} n [] ≡ []
drop_none zero = refl
drop_none (suc n) = refl

drop_more : (n k : ℕ) (rs : List BufferedRecord) → drop n (drop k rs) ≡ drop (k + n) rs
drop_more n zero rs = ap (λ (j : ℕ). drop j rs) (omega arith)
drop_more n (suc k) [] = drop_none n ∙ sym (drop_none (suc k + n))
drop_more n (suc k) (r ∷ rs) =
    let next : suc (k + n) ≡ suc k + n = omega arith in
    drop_more n k rs ∙ ap (λ (j : ℕ). drop j (r ∷ rs)) next

-- `t` is what is left of `sf` when its n oldest records have been handed out.
record IsTaken (n : ℕ) (sf t : Buffer) : Type 0 where
  buffered_same : t.total_buffered ≡ sf.total_buffered
  drained_more : t.total_drained ≡ sf.total_drained + n
  evicted_same : t.total_evicted ≡ sf.total_evicted
  records_left : t.records ≡ drop n sf.records

IsTaken-IsHeld :
    (came : List BufferedRecord) (sent n : ℕ) (sf t sf' : Buffer)
    → IsHeld came sent sf
    → IsTaken n sf t
    → some t ≡ some sf'
    → IsHeld (came ++ []) (sent + n) sf'
IsTaken-IsHeld came sent n sf t sf' h k e = rw (append-nil came) (
    subst (IsHeld came (sent + n)) (some_inj e) (record {
      counted = k.buffered_same ∙ h.counted;
      drained = k.drained_more ∙ ap (λ (j : ℕ). j + n) h.drained;
      held =
          k.records_left
          ∙ ap (drop n) h.held
          ∙ drop_more n (sf.total_drained + sf.total_evicted) came
          ∙ ap (λ (j : ℕ). drop j came) (omega (arith, k.drained_more, k.evicted_same));
    }))

set_online-IsTaken : (now : ℕ) (sf : Buffer) → IsTaken 0 sf (set_online now sf)
unfolding set_online record_timeline
set_online-IsTaken now sf = ground arith

set_offline-IsTaken : (now : ℕ) (sf : Buffer) → IsTaken 0 sf (set_offline now sf)
unfolding set_offline record_timeline
set_offline-IsTaken now sf = ground arith

reconcile-IsTaken : (b o : Bool) (now : ℕ) (sf : Buffer) → IsTaken 0 sf (reconcile b o now sf)
unfolding reconcile
reconcile-IsTaken b o now sf = ground (arith, set_online-IsTaken now sf, set_offline-IsTaken now sf)

drain-IsTaken : (now : ℕ) (sf : Buffer) → IsTaken (length (drain now sf).1) sf (drain now sf).0
unfolding drain record_timeline
drain-IsTaken now sf = ground (
  arith,
  length-map (take sf.drain_rate sf.records) mark,
  length-map (take (length sf.records) sf.records) mark,
  length-take sf.drain_rate sf.records,
  length-take (length sf.records) sf.records,
)

buffer-IsHeld :
    (device : String) (payload : Option Payload) (now : ℕ) (came : List BufferedRecord) (sent : ℕ)
    (sf sf' : Buffer)
    → IsBounded sf
    → IsHeld came sent sf
    → buffer device payload now sf ≡ some sf'
    → IsHeld
        (came ++ record { device_id = device; payload = payload; timestamp = now } ∷ [])
        sent
        sf'
buffer-IsHeld device payload now came sent sf sf' w h e =
    let f = some_inj (sym (buffer_lem device payload now sf w.capacity_pos) ∙ e) in
    let rec : BufferedRecord = record { device_id = device; payload = payload; timestamp = now } in
    let gone = sf.total_drained + sf.total_evicted in
    let kept : gone + evicted_by sf ≤ length came = omega (arith, w.conserved, h.counted) in
    record {
      counted =
          sym (ap (λ (b : Buffer). b.total_buffered) f)
          ∙ omega (arith, h.counted, length-append came (rec ∷ []));
      drained = sym (ap (λ (b : Buffer). b.total_drained) f) ∙ h.drained;
      held =
          sym (ap (λ (b : Buffer). b.records) f)
          ∙ ap (λ (rs : List BufferedRecord). drop (evicted_by sf) rs ++ rec ∷ []) h.held
          ∙ ap (λ (rs : List BufferedRecord). rs ++ rec ∷ []) (drop_more (evicted_by sf) gone came)
          ∙ sym (drop-append_le (gone + evicted_by sf) came (rec ∷ []) kept)
          ∙ ap (λ (k : ℕ). drop k (came ++ rec ∷ []))
              (omega (
                arith,
                ap (λ (b : Buffer). b.total_drained) f,
                ap (λ (b : Buffer). b.total_evicted) f,
              ));
    }

-- What one call adds.
call-IsHeld :
    (c : Call) (came : List BufferedRecord) (sent : ℕ) (sf sf' : Buffer)
    → IsBounded sf
    → IsHeld came sent sf
    → call c sf ≡ some sf'
    → IsHeld (came ++ incoming c) (sent + length (outgoing c sf)) sf'
unfolding call outgoing
call-IsHeld (set_online_call now) came sent sf sf' w h e =
    IsTaken-IsHeld came sent 0 sf _ sf' h (set_online-IsTaken now sf) e
call-IsHeld (set_offline_call now) came sent sf sf' w h e =
    IsTaken-IsHeld came sent 0 sf _ sf' h (set_offline-IsTaken now sf) e
call-IsHeld (reconcile_call b o now) came sent sf sf' w h e =
    IsTaken-IsHeld came sent 0 sf _ sf' h (reconcile-IsTaken b o now sf) e
call-IsHeld (record_publish_call n now) came sent sf sf' w h e =
    IsTaken-IsHeld came sent 0 sf (record_publish n now sf) sf' h
      (unfold record_publish in ground arith) e
call-IsHeld (status_call now) came sent sf sf' w h e =
    IsTaken-IsHeld came sent 0 sf (status now sf).0 sf' h (unfold status in ground arith) e
call-IsHeld (drain_call now) came sent sf sf' w h e =
    IsTaken-IsHeld came sent (length (drain now sf).1) sf _ sf' h (drain-IsTaken now sf) e
call-IsHeld (buffer_call d p now) came sent sf sf' w h e =
    subst (λ (k : ℕ). IsHeld (came ++ incoming (buffer_call d p now)) k sf') (omega arith)
      (buffer-IsHeld d p now came sent sf sf' w h e)

calls-IsHeld_from :
    (cs : List Call) (came : List BufferedRecord) (sent : ℕ) (sf sf' : Buffer)
    → IsBounded sf
    → IsHeld came sent sf
    → calls cs sf ≡ some sf'
    → IsHeld (came ++ all_incoming cs) (sent + length (all_outgoing cs sf)) sf'
unfolding calls all_outgoing Steps
calls-IsHeld_from [] came sent sf sf' w h e =
    IsTaken-IsHeld came sent 0 sf sf sf' h (ground arith) e
calls-IsHeld_from (c ∷ cs) came sent sf sf' w h e =
    let (t, made, w') = call-Steps c sf w in
    let first = call-IsHeld c came sent sf t w h made in
    let later =
      calls-IsHeld_from cs (came ++ incoming c) _ t sf' w' first (rw (made, calls) at e) in
    let same =
      subst
        (λ (l : List BufferedRecord).
          IsHeld l (sent + length (outgoing c sf) + length (all_outgoing cs t)) sf')
        (append_assoc came (incoming c) (all_incoming cs)) later in
    rw (made, length-append (outgoing c sf) (all_outgoing cs t))
      (subst (λ (k : ℕ). IsHeld (came ++ (incoming c ++ all_incoming cs)) k sf') (omega arith) same)

-- From any limits, no sequence of calls panics, and afterwards the buffer holds at most `max_count`
-- records; it has counted every record that came in and every record that was handed out to be
-- published; and what it holds are the newest of the records that came in, in order, all but as many as were
-- handed out or evicted.
pub calls-IsHeld :
    (cs : List Call) (max_records max_bytes drain_rate : ℤ) (now : ℕ)
    → let start = new max_records max_bytes drain_rate now in
      (sf : Buffer) × (calls cs start ≡ some sf)
      × IsBounded sf
      × IsHeld (all_incoming cs) (length (all_outgoing cs start)) sf
calls-IsHeld cs m b d now =
    let (sf, runs, w) = calls-IsBounded cs m b d now in
    let empty : IsHeld [] 0 (new m b d now) =
      unfold new in record { counted = refl; drained = refl; held = refl } in
    (
      sf,
      runs,
      w,
      subst (λ (k : ℕ). IsHeld (all_incoming cs) k sf) (omega arith)
          (calls-IsHeld_from cs [] 0 (new m b d now) sf (new-IsBounded m b d now) empty runs),
    )
