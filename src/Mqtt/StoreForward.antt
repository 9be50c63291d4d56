-- ===== src/Mqtt/StoreForward.antt =====
-- The store-and-forward buffer of internal/mqtt/storeforward.go, and the two places of
-- internal/mqtt/bridge.go that drive it. Times are nanoseconds; each `time.Now()` is an argument.
-- A payload is a value: the buffer holds the only pointer to it. The int64 statistics are numbers
-- without a wrap, which they would meet after 2 ^ 63 records.
pub mod Status
pub mod Safety
pub mod Queue
pub mod Drain
pub mod Timeline
pub mod Held
mod Examples
use tentacle_next.Prelude.{
  ℕ, ◌+◌, ◌-◌, ◌*◌, String, Bool, true, false, ◌&&◌, not, Option, none, some, List, [], ◌∷◌, ◌++◌,
  map, ltb, leb, if◌then◌else◌, length, take, drop, replicate,
}
use tentacle_next.Prelude.Int.{ℤ, pos, leb_ℤ, pos_part}

-- The dynamic types of a metric's value; floats are bit patterns, and a template is the address of
-- one.
pub data Value : Type 0 where
  bool_value : Bool → Value
  int64_value : ℤ → Value
  uint64_value : ℕ → Value
  float32_value : ℕ → Value
  float64_value : ℕ → Value
  string_value : String → Value
  bytes_value : List ℕ → Value
  template_value : ℕ → Value

pub record Metric : Type 0 where
  pub name : String
  pub alias : ℕ
  pub timestamp : ℕ
  pub datatype : ℕ
  pub is_historical : Bool
  pub is_transient : Bool
  pub is_null : Bool
  pub value : Option Value

pub record Payload : Type 0 where
  pub timestamp : ℕ
  pub seq : ℕ
  pub omit_seq : Bool
  pub metrics : List Metric

pub data State : Type 0 where
  online offline draining : State

pub record BufferedRecord : Type 0 where
  pub device_id : String
  pub payload : Option Payload
  pub timestamp : ℕ

pub record TimelineEntry : Type 0 where
  pub timestamp : ℕ
  pub state : State
  pub state_str : String

pub record Buffer : Type 0 where
  pub state : State
  pub records : List BufferedRecord
  pub max_count : ℕ
  pub max_bytes : ℤ
  pub drain_rate : ℕ
  pub total_buffered : ℕ
  pub total_drained : ℕ
  pub total_evicted : ℕ
  pub publish_times : List ℕ
  pub timeline : List TimelineEntry

-- A limit that is not positive is replaced.
unfoldable pub positive_or : ℤ → ℕ → ℕ
positive_or n default = if leb_ℤ n (pos 0) then default else pos_part n

unfoldable pub new : ℤ → ℤ → ℤ → ℕ → Buffer
unfolding positive_or
new max_records max_bytes drain_rate now = record {
  state = offline;
  records = [];
  max_count = positive_or max_records 10000;
  max_bytes = max_bytes;
  drain_rate = positive_or drain_rate 100;
  total_buffered = 0;
  total_drained = 0;
  total_evicted = 0;
  publish_times = [];
  timeline = record { timestamp = now; state = offline; state_str = "buffering" } ∷ [];
}

abbrev pub second : ℕ
second = 1_000_000_000

abbrev pub hour : ℕ
hour = 3600 * second

-- t.Before(now.Add(-window))
abbrev pub is_before : ℕ → ℕ → ℕ → Bool
is_before now window t = ltb (t + window) now

-- The trimming loop keeps the last entry before the cutoff.
unfoldable pub trim_timeline : ℕ → List TimelineEntry → List TimelineEntry
trim_timeline now [] = []
trim_timeline now (a ∷ []) = a ∷ []
trim_timeline now (a ∷ b ∷ []) = a ∷ b ∷ []
trim_timeline now (a ∷ b ∷ c ∷ rest) =
    let later = trim_timeline now (b ∷ c ∷ rest) in
    if is_before now hour a.timestamp && is_before now hour b.timestamp
    then later
    else a ∷ b ∷ c ∷ rest

unfoldable pub record_timeline : State → String → ℕ → Buffer → Buffer
record_timeline state str now sf = record sf {
  timeline =
      trim_timeline now
        (sf.timeline ++ record { timestamp = now; state = state; state_str = str } ∷ []);
}

abbrev is_empty : List BufferedRecord → Bool
is_empty [] = true
is_empty (r ∷ rs) = false

-- The transition of SetOnline when the buffer is not online.
go_online : Bool → ℕ → Buffer → Buffer
go_online true now sf = record_timeline online "online" now (record sf { state = online })
go_online false now sf = record_timeline draining "draining" now (record sf { state = draining })

set_online_from : State → ℕ → Buffer → Buffer
set_online_from online now sf = sf
set_online_from _ now sf = go_online (is_empty sf.records) now sf

unfoldable pub set_online : ℕ → Buffer → Buffer
unfolding set_online_from go_online
set_online now sf = set_online_from sf.state now sf

set_offline_from : State → ℕ → Buffer → Buffer
set_offline_from offline now sf = sf
set_offline_from _ now sf = record_timeline offline "buffering" now (record sf { state = offline })

unfoldable pub set_offline : ℕ → Buffer → Buffer
unfolding set_offline_from
set_offline now sf = set_offline_from sf.state now sf

-- The eviction loop of Buffer: `none` is the panic of `records[1:]` on an empty slice.
unfoldable pub evict : ℕ → List BufferedRecord → ℕ → Option (List BufferedRecord × ℕ)
evict max_count [] evicted = if leb max_count 0 then none else some ([], evicted)
evict max_count (r ∷ rs) evicted =
    if leb max_count (length (r ∷ rs))
    then evict max_count rs (evicted + 1)
    else some (r ∷ rs, evicted)

store : BufferedRecord → Buffer → List BufferedRecord × ℕ → Buffer
store rec sf (kept, evicted) = record sf {
  records = kept ++ rec ∷ [];
  total_buffered = sf.total_buffered + 1;
  total_evicted = evicted;
}

unfoldable pub buffer : String → Option Payload → ℕ → Buffer → Option Buffer
unfolding store
buffer device_id payload now sf =
    let rec : BufferedRecord = record {
      device_id = device_id;
      payload = payload;
      timestamp = now;
    } in
    elim (evict sf.max_count sf.records sf.total_evicted) [
      | none ↦ none
      | some kept ↦ some (store rec sf kept)
    ]

mark_metric : Metric → Metric
mark_metric m = record m { is_historical = true }

mark_payload : Payload → Payload
mark_payload p = record p { metrics = map mark_metric p.metrics }

-- What Drain does to each record of its batch.
unfoldable pub mark : BufferedRecord → BufferedRecord
unfolding mark_payload mark_metric
mark r = record r { payload = elim r.payload [ none ↦ none | some p ↦ some (mark_payload p) ] }

take_batch : ℕ → ℕ → Buffer → Buffer × List BufferedRecord
take_batch count now sf = (
  record sf { records = drop count sf.records; total_drained = sf.total_drained + count },
  map mark (take count sf.records),
)

drain_records : Bool → ℕ → Buffer → Buffer × List BufferedRecord
drain_records true now sf = (record_timeline online "online" now (record sf { state = online }), [])
drain_records false now sf =
    let count =
      if ltb (length sf.records) sf.drain_rate then length sf.records else sf.drain_rate in
    take_batch count now sf

drain_from : State → ℕ → Buffer → Buffer × List BufferedRecord
drain_from draining now sf = drain_records (is_empty sf.records) now sf
drain_from _ now sf = (sf, [])

unfoldable pub drain : ℕ → Buffer → Buffer × List BufferedRecord
unfolding drain_from drain_records take_batch
drain now sf = drain_from sf.state now sf

-- The loop that drops publish times older than ten seconds.
unfoldable pub trim_publishes : ℕ → List ℕ → List ℕ
trim_publishes now [] = []
trim_publishes now (t ∷ ts) =
    let rest = trim_publishes now ts in if is_before now (10 * second) t then rest else t ∷ ts

unfoldable pub record_publish : ℕ → ℕ → Buffer → Buffer
record_publish metric_count now sf = record sf {
  publish_times = trim_publishes now (sf.publish_times ++ replicate metric_count now);
}

-- PublishRate: the number of publishes that it divides by 10.0.
unfoldable pub publish_rate : ℕ → Buffer → Buffer × ℕ
publish_rate now sf =
    let times = trim_publishes now sf.publish_times in
    (record sf { publish_times = times }, length times)

-- reconcileSFState of the bridge: whether the node is born and the host online.
unfoldable pub reconcile : Bool → Bool → ℕ → Buffer → Buffer
reconcile node_born host_online now sf =
    if node_born && host_online then set_online now sf else set_offline now sf
