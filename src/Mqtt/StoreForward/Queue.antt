-- ===== src/Mqtt/StoreForward/Queue.antt =====
-- The buffer as a bounded queue: what Buffer keeps, and the order in which Drain delivers.
use tentacle_next.Prelude.{
  Option-cases, some_inj, none_ne_some, inl, inr, length-map, ℕ, zero, ◌+◌, ◌-◌, ◌≤◌, ◌<◌, String,
  Bool, Option, none, some, List, [], ◌∷◌, ◌++◌, map, ◌≡◌, refl, sym, ap, ◌∙◌, arith, length, take,
  drop, length-append, map-append, append-nil, append_assoc, take-append-drop, drop-append_le,
}
use tentacle_next.Mqtt.StoreForward.{
  BufferedRecord, Payload, Buffer, record_timeline, set_online, set_offline, buffer, drain, mark,
  record_publish, reconcile,
}
use tentacle_next.Mqtt.StoreForward.Status.{status}
use tentacle_next.Mqtt.StoreForward.Safety.{
  Call, set_online_call, set_offline_call, reconcile_call, buffer_call, drain_call,
  record_publish_call, status_call, call, calls, evicted_by, buffer_lem,
}

-- Buffer keeps the newest `max_count` records, the new one last, and counts what it evicts; state,
-- limits and the number of drained records stay.
records-buffer :
    (device : String) (payload : Option Payload) (now : ℕ) (sf : Buffer)
    → 0 < sf.max_count
    → buffer device payload now sf
      ≡ some (record sf {
        records =
            (let all =
                sf.records
                ++ record { device_id = device; payload = payload; timestamp = now } ∷ [] in
              drop (length all - sf.max_count) all);
        total_buffered = sf.total_buffered + 1;
        total_evicted = sf.total_evicted + (length sf.records + 1 - sf.max_count);
      })
records-buffer device payload now sf h =
    let n : length sf.records + 1 - sf.max_count ≡ evicted_by sf = omega arith in
    rw (buffer_lem device payload now sf h, length-append, n)
      (rw (drop-append_le (evicted_by sf) sf.records _ (omega arith)))

-- What a call adds to the stream of records that have come in.
abbrev pub incoming : Call → List BufferedRecord
incoming (buffer_call device payload now) =
    record { device_id = device; payload = payload; timestamp = now } ∷ []
incoming _ = []

-- What a call takes out to be published.
unfoldable pub outgoing : Call → Buffer → List BufferedRecord
outgoing (drain_call now) sf = (drain now sf).1
outgoing _ sf = []

abbrev pub all_incoming : List Call → List BufferedRecord
all_incoming [] = []
all_incoming (c ∷ cs) = incoming c ++ all_incoming cs

-- What a run of calls publishes, in order.
unfoldable pub all_outgoing : List Call → Buffer → List BufferedRecord
all_outgoing [] sf = []
all_outgoing (c ∷ cs) sf =
    outgoing c sf ++ elim (call c sf) [ none ↦ [] | some sf' ↦ all_outgoing cs sf' ]

split_batch :
    (n : ℕ) (rs : List BufferedRecord) → map mark (take n rs) ++ map mark (drop n rs) ≡ map mark rs
split_batch n rs =
    sym (map-append mark (take n rs) (drop n rs)) ∙ ap (map mark) (take-append-drop n rs)

pub drain-records :
    (now : ℕ) (sf : Buffer)
    → (drain now sf).1 ++ map mark (drain now sf).0.records ≡ map mark sf.records
unfolding drain record_timeline
drain-records now sf =
    ground (arith, split_batch sf.drain_rate sf.records, split_batch (length sf.records) sf.records)

set_online-records : (now : ℕ) (sf : Buffer) → (set_online now sf).records ≡ sf.records
unfolding set_online record_timeline
set_online-records now sf = ground arith

set_offline-records : (now : ℕ) (sf : Buffer) → (set_offline now sf).records ≡ sf.records
unfolding set_offline record_timeline
set_offline-records now sf = ground arith

reconcile-records :
    (b o : Bool) (now : ℕ) (sf : Buffer) → (reconcile b o now sf).records ≡ sf.records
unfolding reconcile
reconcile-records b o now sf = ground (arith, set_online-records now sf, set_offline-records now sf)

call-max_count :
    (c : Call) (sf : Buffer) {sf' : Buffer} → call c sf ≡ some sf' → sf'.max_count ≡ sf.max_count
unfolding call
call-max_count (set_online_call now) sf e = unfold set_online record_timeline in ground arith
call-max_count (set_offline_call now) sf e = unfold set_offline record_timeline in ground arith
call-max_count (reconcile_call b o now) sf e =
    unfold reconcile set_online set_offline record_timeline in ground arith
call-max_count (buffer_call d p now) sf e = unfold buffer in ground arith
call-max_count (drain_call now) sf e = unfold drain record_timeline in ground arith
call-max_count (record_publish_call n now) sf e = unfold record_publish in ground arith
call-max_count (status_call now) sf e = unfold status in ground arith

record_publish-records : (n now : ℕ) (sf : Buffer) → (record_publish n now sf).records ≡ sf.records
unfolding record_publish
record_publish-records n now sf = refl

status-records : (now : ℕ) (sf : Buffer) → (status now sf).0.records ≡ sf.records
unfolding status
status-records now sf = refl

keeps_queue :
    (sf t sf' : Buffer)
    → some t ≡ some sf'
    → t.records ≡ sf.records
    → map mark sf'.records ≡ map mark (sf.records ++ [])
keeps_queue sf t sf' e same = rw append-nil (cc)

call-fifo :
    (c : Call) (sf sf' : Buffer)
    → call c sf ≡ some sf'
    → length sf.records + length (incoming c) ≤ sf.max_count
    → outgoing c sf ++ map mark sf'.records ≡ map mark (sf.records ++ incoming c)
unfolding call outgoing
call-fifo (set_online_call now) sf sf' e h = keeps_queue sf _ sf' e (set_online-records now sf)
call-fifo (set_offline_call now) sf sf' e h = keeps_queue sf _ sf' e (set_offline-records now sf)
call-fifo (reconcile_call b o now) sf sf' e h =
    keeps_queue sf _ sf' e (reconcile-records b o now sf)
call-fifo (record_publish_call n now) sf sf' e h =
    keeps_queue sf _ sf' e (record_publish-records n now sf)
call-fifo (status_call now) sf sf' e h = keeps_queue sf _ sf' e (status-records now sf)
call-fifo (drain_call now) sf sf' e h = rw append-nil (cc (drain-records now sf))
call-fifo (buffer_call d p now) sf sf' e h =
    let n : evicted_by sf ≡ zero = omega arith in
    let f = some_inj (sym (buffer_lem d p now sf (omega arith)) ∙ e) in
    ap (map mark) (rw n at (sym (ap (λ (b : Buffer). b.records) f)))

room_first : (a b c m : ℕ) → a + (b + c) ≤ m → a + b ≤ m
room_first a b c m h = omega arith

room_later :
    (out in' rs ts all : List BufferedRecord) (m : ℕ)
    → out ++ map mark ts ≡ map mark (rs ++ in')
    → length rs + length (in' ++ all) ≤ m
    → length ts + length all ≤ m
room_later out in' rs ts all m e h =
    let l = ap length e in
    let a = simp (length-append, length-map) at l in let b = rw length-append at h in omega arith

join :
    (out in' outs ins rs ts us : List BufferedRecord)
    → out ++ map mark ts ≡ map mark (rs ++ in')
    → outs ++ map mark us ≡ map mark (ts ++ ins)
    → (out ++ outs) ++ map mark us ≡ map mark (rs ++ (in' ++ ins))
join out in' outs ins rs ts us e f =
    append_assoc out outs (map mark us)
    ∙ ap (◌++◌ out) (f ∙ map-append mark ts ins)
    ∙ sym (append_assoc out (map mark ts) (map mark ins))
    ∙ ap (λ l. l ++ map mark ins) e
    ∙ sym (map-append mark (rs ++ in') ins)
    ∙ ap (map mark) (append_assoc rs in' ins)

-- In a run whose records all fit, what Drain publishes and then what is still buffered (marked
-- historical) is exactly what was buffered before and what came in, in that order.
pub calls-fifo :
    (cs : List Call) (sf sf' : Buffer)
    → calls cs sf ≡ some sf'
    → length sf.records + length (all_incoming cs) ≤ sf.max_count
    → all_outgoing cs sf ++ map mark sf'.records ≡ map mark (sf.records ++ all_incoming cs)
unfolding calls all_outgoing
calls-fifo [] sf sf' e h = rw append-nil (cc)
calls-fifo (c ∷ cs) sf sf' e h = elim (Option-cases (call c sf)) [
  | inl panics ↦ absurd (none_ne_some (rw (panics, calls) at e))
  | inr (t, made) ↦
      let room = rw length-append at h in
      let first =
        call-fifo c sf t made (
          room_first (length sf.records) (length (incoming c)) (length (all_incoming cs)) _ room) in
      let fits : length t.records + length (all_incoming cs) ≤ t.max_count =
        rw (call-max_count c sf made)
          (room_later _ (incoming c) sf.records t.records (all_incoming cs) sf.max_count first h) in
      let later = calls-fifo cs t sf' (rw (made, calls) at e) fits in
      rw (made, all_outgoing) (join _ (incoming c) _ (all_incoming cs) sf.records _ _ first later)
]
