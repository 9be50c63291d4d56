-- ===== src/Mqtt/StoreForward/Drain.antt =====
-- The end of draining, over ticks of the drain loop.
use native.Mathlib.Nat.{suc-mul}
use tentacle_next.Prelude.{
  ℕ, suc, ◌-◌, ◌*◌, ◌≤◌, List, [], ◌∷◌, ◌++◌, map, ◌≡◌, refl, ap, arith, length, length-drop,
}
use tentacle_next.Mqtt.StoreForward.Queue.{drain-records}
use tentacle_next.Mqtt.StoreForward.{
  online, draining, BufferedRecord, Buffer, record_timeline, drain, mark,
}

-- Ticks of drainLoop at these times, with nothing else in between: the buffer behind them, and the
-- records that were handed to the node, in order.
unfoldable pub ticks : List ℕ → Buffer → Buffer × List BufferedRecord
ticks [] sf = (sf, [])
ticks (now ∷ nows) sf =
    let (sf', batch) = drain now sf in let (last, rest) = ticks nows sf' in (last, batch ++ rest)

drain_last :
    (now : ℕ) (sf : Buffer)
    → sf.state ≡ draining
    → sf.records ≡ []
    → ((drain now sf).0.state ≡ online) × ((drain now sf).0.records ≡ []) × ((drain now sf).1 ≡ [])
unfolding drain record_timeline
drain_last now sf s e = ground arith

-- A tick on a buffer that is draining and not empty sends the oldest `drain_rate` records.
drain_batch :
    (now : ℕ) (sf : Buffer) (r : BufferedRecord) (rs : List BufferedRecord)
    → sf.state ≡ draining
    → sf.records ≡ r ∷ rs
    → ((drain now sf).0.state ≡ draining)
      × (length (drain now sf).0.records ≡ length sf.records - sf.drain_rate)
      × ((drain now sf).0.drain_rate ≡ sf.drain_rate)
unfolding drain
drain_batch now sf r rs s e =
    ground (arith, length-drop sf.drain_rate (r ∷ rs), length-drop (length (r ∷ rs)) (r ∷ rs))

drain_online : (now : ℕ) (sf : Buffer) → sf.state ≡ online → drain now sf ≡ (sf, [])
unfolding drain
drain_online now sf s = rw (s, drain)

ticks_online : (nows : List ℕ) (sf : Buffer) → sf.state ≡ online → ticks nows sf ≡ (sf, [])
unfolding ticks
ticks_online [] sf s = refl
ticks_online (now ∷ nows) sf s = rw (drain_online now sf s, ticks) (rw (ticks_online nows sf s))

-- What a completed drain looks like.
pub record IsDrained (before after : Buffer) (sent : List BufferedRecord) : Type 0 where
  pub is_online : after.state ≡ online
  pub is_empty : after.records ≡ []
  pub sent_all : sent ≡ map mark before.records

one_less : (n m k r : ℕ) → n ≤ suc m * r → k ≡ n - r → k ≤ m * r
one_less n m k r h e = omega (arith, suc-mul m r)

ticks_empty :
    (now : ℕ) (nows : List ℕ) (sf : Buffer)
    → sf.state ≡ draining
    → sf.records ≡ []
    → IsDrained sf (ticks (now ∷ nows) sf).0 (ticks (now ∷ nows) sf).1
unfolding ticks
ticks_empty now nows sf s e =
    let (on, none_left, none_sent) = drain_last now sf s e in
    rw (ticks_online nows (drain now sf).0 on)
      (record { is_online = on; is_empty = none_left; sent_all = rw (none_sent, e) })

IsDrained-cons :
    (now : ℕ) (nows : List ℕ) (sf : Buffer)
    → IsDrained (drain now sf).0 (ticks nows (drain now sf).0).0 (ticks nows (drain now sf).0).1
    → IsDrained sf (ticks (now ∷ nows) sf).0 (ticks (now ∷ nows) sf).1
unfolding ticks
IsDrained-cons now nows sf d = record {
  is_online = d.is_online;
  is_empty = d.is_empty;
  sent_all = rw d.sent_all (drain-records now sf);
}

ticks_from :
    (nows : List ℕ) (now : ℕ) (rs : List BufferedRecord) (sf : Buffer)
    → sf.records ≡ rs
    → sf.state ≡ draining
    → length sf.records ≤ length nows * sf.drain_rate
    → IsDrained sf (ticks (now ∷ nows) sf).0 (ticks (now ∷ nows) sf).1
ticks_from nows now [] sf e s h = ticks_empty now nows sf s e
ticks_from [] now (r ∷ rs) sf e s h = absurd (omega (arith, ap length e))
ticks_from (now' ∷ nows) now (r ∷ rs) sf e s h =
    let (s', fewer, same) = drain_batch now sf r rs s e in
    IsDrained-cons now (now' ∷ nows) sf (
      ticks_from nows now' (drain now sf).0.records (drain now sf).0 refl s'
        (rw same (one_less (length sf.records) (length nows) _ sf.drain_rate h fewer)))

-- A draining buffer with at most `n * drain_rate` records is online and empty after n + 1 ticks of
-- the drain loop, or more, and its records went out in order, each once and marked historical.
pub ticks-IsDrained :
    (now : ℕ) (nows : List ℕ) (sf : Buffer)
    → sf.state ≡ draining
    → length sf.records ≤ length nows * sf.drain_rate
    → IsDrained sf (ticks (now ∷ nows) sf).0 (ticks (now ∷ nows) sf).1
ticks-IsDrained now nows sf s h = ticks_from nows now sf.records sf refl s h
