-- ===== src/Mqtt/StoreForward/Safety.antt =====
-- What every sequence of calls on the store-and-forward buffer keeps.
use tentacle_next.Prelude.{
  ℕ, zero, suc, ◌+◌, ◌-◌, ◌≤◌, ◌<◌, String, Bool, Option, none, some, List, [], ◌∷◌, ◌++◌, ◌≡◌,
  refl, arith, leb, length, drop, length-append, length-drop, Bool-cases, inl, inr,
}
use tentacle_next.Prelude.Int.{ℤ}
use tentacle_next.Mqtt.StoreForward.{
  BufferedRecord, Payload, Buffer, new, record_timeline, set_online, set_offline, evict, buffer,
  drain, record_publish, reconcile,
}
use tentacle_next.Mqtt.StoreForward.Status.{status}

-- A call that other parts of the bridge make, with the time at which it reads the clock.
pub data Call : Type 0 where
  set_online_call : ℕ → Call
  set_offline_call : ℕ → Call
  reconcile_call : Bool → Bool → ℕ → Call
  buffer_call : String → Option Payload → ℕ → Call
  drain_call : ℕ → Call
  record_publish_call : ℕ → ℕ → Call
  status_call : ℕ → Call

-- `none` is a panic.
unfoldable pub call : Call → Buffer → Option Buffer
call (set_online_call now) sf = some (set_online now sf)
call (set_offline_call now) sf = some (set_offline now sf)
call (reconcile_call born host now) sf = some (reconcile born host now sf)
call (buffer_call device payload now) sf = buffer device payload now sf
call (drain_call now) sf = some (drain now sf).0
call (record_publish_call n now) sf = some (record_publish n now sf)
call (status_call now) sf = some (status now sf).0

unfoldable pub calls : List Call → Buffer → Option Buffer
calls [] sf = some sf
calls (c ∷ cs) sf = elim (call c sf) [ none ↦ none | some sf' ↦ calls cs sf' ]

pub record IsBounded (sf : Buffer) : Type 0 where
  pub capacity_pos : 0 < sf.max_count
  pub rate_pos : 0 < sf.drain_rate
  pub within : length sf.records ≤ sf.max_count
  -- The counters and the number of records add up.
  pub conserved : sf.total_buffered ≡ sf.total_drained + sf.total_evicted + length sf.records

-- The loop keeps a suffix that leaves room for one more, and counts what it drops.
pub evict-drop :
    (max_count : ℕ) (rs : List BufferedRecord) (evicted : ℕ)
    → 0 < max_count
    → evict max_count rs evicted
      ≡ some (drop (length rs - (max_count - 1)) rs, evicted + (length rs - (max_count - 1)))
unfolding evict
evict-drop m [] e h = ground arith
evict-drop m (r ∷ rs) e h = elim (Bool-cases (leb m (length (r ∷ rs)))) [
  | inl full ↦
      let n : length (r ∷ rs) - (m - 1) ≡ suc (length rs - (m - 1)) = ground arith in
      rw (full, n) (rw (evict-drop m rs (e + 1) h) (ground arith))
  | inr room ↦
      let n : length (r ∷ rs) - (m - 1) ≡ zero = ground arith in rw (room, n) (ground arith)
]

pub new-IsBounded :
    (max_records max_bytes drain_rate : ℤ) (now : ℕ)
    → IsBounded (new max_records max_bytes drain_rate now)
unfolding new
new-IsBounded m b d now = ground arith

set_online-IsBounded : (now : ℕ) (sf : Buffer) → IsBounded sf → IsBounded (set_online now sf)
unfolding set_online record_timeline
set_online-IsBounded now sf h = ground arith

set_offline-IsBounded : (now : ℕ) (sf : Buffer) → IsBounded sf → IsBounded (set_offline now sf)
unfolding set_offline record_timeline
set_offline-IsBounded now sf h = ground arith

reconcile-IsBounded :
    (born host : Bool) (now : ℕ) (sf : Buffer)
    → IsBounded sf
    → IsBounded (reconcile born host now sf)
unfolding reconcile
reconcile-IsBounded born host now sf h =
    ground (arith, set_online-IsBounded now sf, set_offline-IsBounded now sf)

drain-IsBounded : (now : ℕ) (sf : Buffer) → IsBounded sf → IsBounded (drain now sf).0
unfolding drain record_timeline
drain-IsBounded now sf h =
    ground (arith, length-drop sf.drain_rate sf.records, length-drop (length sf.records) sf.records)

-- The buffer after a record has come in, with the number of records that it evicts.
abbrev pub evicted_by : Buffer → ℕ
evicted_by sf = length sf.records - (sf.max_count - 1)

pub buffer_lem :
    (device : String) (payload : Option Payload) (now : ℕ) (sf : Buffer)
    → 0 < sf.max_count
    → buffer device payload now sf
      ≡ some (record sf {
        records =
            drop (evicted_by sf) sf.records
            ++ record { device_id = device; payload = payload; timestamp = now } ∷ [];
        total_buffered = sf.total_buffered + 1;
        total_evicted = sf.total_evicted + evicted_by sf;
      })
unfolding buffer
buffer_lem device payload now sf h =
    rw (evict-drop sf.max_count sf.records sf.total_evicted h, buffer)

-- A step from a bounded buffer succeeds, in a bounded buffer.
unfoldable pub Steps : Option Buffer → Type 0
Steps r = (sf : Buffer) × (r ≡ some sf) × IsBounded sf

length-keep :
    (n : ℕ) (rs : List BufferedRecord) (r : BufferedRecord)
    → length (drop n rs ++ r ∷ []) ≡ length rs - n + 1
length-keep n rs r = rw (length-append, length-drop) (omega arith)

buffer-Steps :
    (device : String) (payload : Option Payload) (now : ℕ) (sf : Buffer)
    → IsBounded sf
    → Steps (buffer device payload now sf)
unfolding Steps
buffer-Steps device payload now sf h = (
  _,
  buffer_lem device payload now sf h.capacity_pos,
  record {
    capacity_pos = h.capacity_pos;
    rate_pos = h.rate_pos;
    within = rw length-keep (omega arith);
    conserved = rw length-keep (omega arith);
  },
)

pub call-Steps : (c : Call) (sf : Buffer) → IsBounded sf → Steps (call c sf)
unfolding call Steps
call-Steps (set_online_call now) sf h = (_, refl, set_online-IsBounded now sf h)
call-Steps (set_offline_call now) sf h = (_, refl, set_offline-IsBounded now sf h)
call-Steps (reconcile_call b o now) sf h = (_, refl, reconcile-IsBounded b o now sf h)
call-Steps (buffer_call d p now) sf h = buffer-Steps d p now sf h
call-Steps (drain_call now) sf h = (_, refl, drain-IsBounded now sf h)
call-Steps (record_publish_call n now) sf h = (_, refl, unfold record_publish in ground arith)
call-Steps (status_call now) sf h = (_, refl, unfold status in ground arith)

calls-Steps : (cs : List Call) (sf : Buffer) → IsBounded sf → Steps (calls cs sf)
unfolding calls Steps
calls-Steps [] sf h = (sf, refl, h)
calls-Steps (c ∷ cs) sf h =
    let (sf', e, h') = call-Steps c sf h in rw (e, calls) (calls-Steps cs sf' h')

-- From any limits, no sequence of calls panics, and afterwards the buffer holds at most `max_count`
-- records and its counters add up: what it has counted as drained and evicted and what it holds make what
-- it has counted as buffered.
pub calls-IsBounded :
    (cs : List Call) (max_records max_bytes drain_rate : ℤ) (now : ℕ)
    → (sf : Buffer) × (calls cs (new max_records max_bytes drain_rate now) ≡ some sf) × IsBounded sf
unfolding Steps
calls-IsBounded cs m b d now = calls-Steps cs _ (new-IsBounded m b d now)
