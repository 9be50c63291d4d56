-- ===== src/Mqtt/StoreForward/Status.antt =====
-- Status of internal/mqtt/storeforward.go: the snapshot that the API shows.
use tentacle_next.Prelude.{
  ℕ, ◌-◌, ◌*◌, String, Bool, true, false, ◌&&◌, not, Option, none, some, List, [], ◌∷◌, ltb,
  if◌then◌else◌, length,
}
use tentacle_next.Mqtt.StoreForward.{
  State, online, offline, draining, TimelineEntry, Buffer, is_before, hour, publish_rate,
}

-- The points of the status timeline: entries of the last hour, behind the state that held when it
-- began. `before` is the last entry passed that is older than the window.
unfoldable pub collect_points :
    ℕ → Option TimelineEntry → List TimelineEntry → Option TimelineEntry × List (ℕ × String)
collect_points now before [] = (before, [])
collect_points now before (e ∷ es) =
    let older = collect_points now (some e) es in
    let newer = collect_points now before es in
    if is_before now hour e.timestamp
    then older
    else (newer.0, (e.timestamp, e.state_str) ∷ newer.1)

last_entry : TimelineEntry → List TimelineEntry → TimelineEntry
last_entry e [] = e
last_entry e (f ∷ es) = last_entry f es

-- The clamped entry stands at the left edge of the window.
left_edge : ℕ → Option TimelineEntry → List (ℕ × String) → List (ℕ × String)
left_edge now none points = points
left_edge now (some e) points = (now - hour, e.state_str) ∷ points

or_latest : List TimelineEntry → List (ℕ × String) → List (ℕ × String)
or_latest (e ∷ es) [] = let l = last_entry e es in (l.timestamp, l.state_str) ∷ []
or_latest [] points = points
or_latest (e ∷ es) (p ∷ ps) = p ∷ ps

-- The timeline of Status, with times in place of their RFC 3339 texts.
unfoldable pub timeline_points : ℕ → List TimelineEntry → List (ℕ × String)
unfolding collect_points left_edge or_latest last_entry
timeline_points now timeline =
    let (before, points) = collect_points now none timeline in
    or_latest timeline (left_edge now before points)

unfoldable pub state_name : State → String
state_name online = "online"
state_name offline = "offline"
state_name draining = "draining"

-- The snapshot of Status. A float is the fraction that is rounded to it, numerator first.
pub record Status : Type 0 where
  pub state : String
  pub primary_host_online : Bool
  pub buffered_count : ℕ
  pub max_records : ℕ
  pub usage_percent : ℕ × ℕ
  pub draining : Bool
  pub drain_eta : ℕ × ℕ
  pub total_buffered : ℕ
  pub total_drained : ℕ
  pub total_evicted : ℕ
  pub publish_rate : ℕ × ℕ
  pub timeline : List (ℕ × String)

is_offline : State → Bool
is_offline offline = true
is_offline _ = false

is_draining : State → Bool
is_draining draining = true
is_draining _ = false

unfoldable pub status : ℕ → Buffer → Buffer × Status
unfolding publish_rate timeline_points state_name is_offline is_draining
status now sf =
    let (sf', rate) = publish_rate now sf in
    (
      sf',
      record {
        state = state_name sf.state;
        primary_host_online = not (is_offline sf.state);
        buffered_count = length sf.records;
        max_records = sf.max_count;
        usage_percent =
            if ltb 0 sf.max_count then (length sf.records * 100, sf.max_count) else (0, 1);
        draining = is_draining sf.state;
        drain_eta =
            if is_draining sf.state && ltb 0 sf.drain_rate
            then (length sf.records, sf.drain_rate)
            else (0, 1);
        total_buffered = sf.total_buffered;
        total_drained = sf.total_drained;
        total_evicted = sf.total_evicted;
        publish_rate = (rate, 10);
        timeline = timeline_points now sf.timeline;
      },
    )
