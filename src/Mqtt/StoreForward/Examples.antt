-- ===== src/Mqtt/StoreForward/Examples.antt =====
-- Runs of the store-and-forward buffer, and the theorems at concrete inputs.
use tentacle_next.Prelude.{length, none, some, List, [], ◌∷◌, ◌++◌, map, ◌≡◌, refl, arith}
use tentacle_next.Prelude.Int.{pos, negsuc}
use tentacle_next.Mqtt.StoreForward.{
  offline, draining, BufferedRecord, Buffer, new, buffer, set_online, drain, evict, record_timeline,
  trim_timeline, mark,
}
use tentacle_next.Mqtt.StoreForward.Safety.{
  Call, set_online_call, buffer_call, drain_call, call, calls, IsBounded,
}
use tentacle_next.Mqtt.StoreForward.Queue.{calls-fifo, all_outgoing, all_incoming}
use tentacle_next.Mqtt.StoreForward.Held.{IsHeld, calls-IsHeld}
use tentacle_next.Mqtt.StoreForward.Drain.{ticks, IsDrained, ticks-IsDrained}
use tentacle_next.Mqtt.StoreForward.Timeline.{IsTracked, new-calls-IsTracked}

abbrev empty : Buffer
empty = new (pos 2) (pos 0) (pos 1) 5

abbrev script : List Call
script = buffer_call "d1" none 6 ∷ buffer_call "d2" none 7 ∷ set_online_call 8 ∷ drain_call 9 ∷ []

-- Three records for a buffer of two, and one of them is handed out.
abbrev overfull : List Call
overfull = buffer_call "d0" none 4 ∷ script

abbrev rec : BufferedRecord
rec = record { device_id = "d1"; payload = none; timestamp = 6 }

abbrev full : Buffer
full = record {
  state = draining;
  records = rec ∷ rec ∷ [];
  max_count = 2;
  max_bytes = pos 0;
  drain_rate = 1;
  total_buffered = 2;
  total_drained = 0;
  total_evicted = 0;
  publish_times = [];
  timeline = [];
}

limits_are_replaced : (new (negsuc 0) (pos 0) (pos 0) 1).max_count ≡ 10000
unfolding new
limits_are_replaced = refl

calls-IsHeld_example :
    let start = new (pos 2) (pos 0) (pos 1) 5 in
    (sf : Buffer) × (calls overfull start ≡ some sf)
    × IsBounded sf
    × IsHeld (all_incoming overfull) (length (all_outgoing overfull start)) sf
calls-IsHeld_example = calls-IsHeld overfull (pos 2) (pos 0) (pos 1) 5

abbrev after_script : Buffer
after_script = record empty {
  state = draining;
  records = record { device_id = "d2"; payload = none; timestamp = 7 } ∷ [];
  total_buffered = 2;
  total_drained = 1;
  timeline =
      record { timestamp = 5; state = offline; state_str = "buffering" }
      ∷ record { timestamp = 8; state = draining; state_str = "draining" }
      ∷ [];
}

script_runs : calls script empty ≡ some after_script
unfolding calls call new buffer evict set_online drain record_timeline trim_timeline
script_runs = refl

calls-fifo_example :
    all_outgoing script empty ++ map mark after_script.records
    ≡ map mark (empty.records ++ all_incoming script)
unfolding new
calls-fifo_example = calls-fifo script empty after_script script_runs (omega arith)

ticks-IsDrained_example :
    IsDrained full (ticks (1 ∷ 2 ∷ 3 ∷ []) full).0 (ticks (1 ∷ 2 ∷ 3 ∷ []) full).1
ticks-IsDrained_example = ticks-IsDrained 1 (2 ∷ 3 ∷ []) full refl (omega arith)

new-calls-IsTracked_example : IsTracked after_script
new-calls-IsTracked_example =
    new-calls-IsTracked script (pos 2) (pos 0) (pos 1) 5 after_script script_runs
