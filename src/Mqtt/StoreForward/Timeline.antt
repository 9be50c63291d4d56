-- ===== src/Mqtt/StoreForward/Timeline.antt =====
-- The state timeline that Status reports.
use tentacle_next.Prelude.Int.{ℤ}
use tentacle_next.Prelude.{
  ℕ, String, Bool, true, false, Option, none, some, List, [], ◌∷◌, ◌++◌, ◌↔◌, ◌&&◌, ◌≡◌, refl, sym,
  ap, ◌∙◌, arith, inl, inr, subst, some_inj, none_ne_some, Option-cases,
}
use tentacle_next.Mqtt.StoreForward.Safety.{
  Call, set_online_call, set_offline_call, reconcile_call, buffer_call, drain_call,
  record_publish_call, status_call, call, calls,
}
use tentacle_next.Mqtt.StoreForward.{
  State, online, offline, draining, TimelineEntry, Buffer, trim_timeline, record_timeline,
  set_online, set_offline, drain, reconcile, buffer, go_online, set_online_from, set_offline_from,
  drain_records, take_batch, drain_from, record_publish, Payload, new,
}
use tentacle_next.Mqtt.StoreForward.Status.{status}

-- The latest entry of a timeline.
abbrev pub last : List TimelineEntry → Option TimelineEntry
last [] = none
last (e ∷ []) = some e
last (e ∷ f ∷ es) = last (f ∷ es)

-- Trimming keeps the latest entry.
last-trim_timeline : (now : ℕ) (es : List TimelineEntry) → last (trim_timeline now es) ≡ last es
unfolding trim_timeline
last-trim_timeline now [] = refl
last-trim_timeline now (a ∷ []) = refl
last-trim_timeline now (a ∷ b ∷ []) = refl
last-trim_timeline now (a ∷ b ∷ c ∷ rest) = ground (arith, last-trim_timeline now (b ∷ c ∷ rest))

last-append : (es : List TimelineEntry) (e : TimelineEntry) → last (es ++ e ∷ []) ≡ some e
last-append [] e = refl
last-append (a ∷ []) e = refl
last-append (a ∷ b ∷ es) e = last-append (b ∷ es) e

-- The text under which the timeline shows a state.
abbrev pub label : State → String
label online = "online"
label offline = "buffering"
label draining = "draining"

-- The latest entry shows the state that the buffer is in.
pub record IsTracked (sf : Buffer) : Type 0 where
  pub latest : TimelineEntry
  pub at_end : last sf.timeline ≡ some latest
  pub shows : latest.state ≡ sf.state
  pub labelled : latest.state_str ≡ label sf.state

record_timeline-IsTracked :
    (s : State) (now : ℕ) (sf : Buffer)
    → sf.state ≡ s
    → IsTracked (record_timeline s (label s) now sf)
unfolding record_timeline
record_timeline-IsTracked s now sf e = record {
  latest = record { timestamp = now; state = s; state_str = label s };
  at_end = last-trim_timeline now _ ∙ last-append sf.timeline _;
  shows = sym e;
  labelled = ap label (sym e);
}

go_online-IsTracked : (b : Bool) (now : ℕ) (sf : Buffer) → IsTracked (go_online b now sf)
unfolding go_online
go_online-IsTracked true now sf = record_timeline-IsTracked online now _ refl
go_online-IsTracked false now sf = record_timeline-IsTracked draining now _ refl

set_online_from-IsTracked :
    (s : State) (now : ℕ) (sf : Buffer) → IsTracked sf → IsTracked (set_online_from s now sf)
unfolding set_online_from
set_online_from-IsTracked online now sf h = h
set_online_from-IsTracked _ now sf h = go_online-IsTracked _ now sf

set_online-IsTracked : (now : ℕ) (sf : Buffer) → IsTracked sf → IsTracked (set_online now sf)
unfolding set_online
set_online-IsTracked now sf h = set_online_from-IsTracked sf.state now sf h

set_offline_from-IsTracked :
    (s : State) (now : ℕ) (sf : Buffer) → IsTracked sf → IsTracked (set_offline_from s now sf)
unfolding set_offline_from
set_offline_from-IsTracked offline now sf h = h
set_offline_from-IsTracked _ now sf h = record_timeline-IsTracked offline now _ refl

set_offline-IsTracked : (now : ℕ) (sf : Buffer) → IsTracked sf → IsTracked (set_offline now sf)
unfolding set_offline
set_offline-IsTracked now sf h = set_offline_from-IsTracked sf.state now sf h

reconcile-IsTracked :
    (b o : Bool) (now : ℕ) (sf : Buffer) → IsTracked sf → IsTracked (reconcile b o now sf)
unfolding reconcile
reconcile-IsTracked true true now sf h = set_online-IsTracked now sf h
reconcile-IsTracked true false now sf h = set_offline-IsTracked now sf h
reconcile-IsTracked false o now sf h = set_offline-IsTracked now sf h

drain_records-IsTracked :
    (b : Bool) (now : ℕ) (sf : Buffer) → IsTracked sf → IsTracked (drain_records b now sf).0
unfolding drain_records take_batch
drain_records-IsTracked true now sf h = record_timeline-IsTracked online now _ refl
drain_records-IsTracked false now sf h = record {
  latest = h.latest;
  at_end = h.at_end;
  shows = h.shows;
  labelled = h.labelled;
}

drain_from-IsTracked :
    (s : State) (now : ℕ) (sf : Buffer) → IsTracked sf → IsTracked (drain_from s now sf).0
unfolding drain_from
drain_from-IsTracked draining now sf h = drain_records-IsTracked _ now sf h
drain_from-IsTracked _ now sf h = h

drain-IsTracked : (now : ℕ) (sf : Buffer) → IsTracked sf → IsTracked (drain now sf).0
unfolding drain
drain-IsTracked now sf h = drain_from-IsTracked sf.state now sf h

buffer-IsTracked :
    (d : String) (p : Option Payload) (now : ℕ) (sf sf' : Buffer)
    → buffer d p now sf ≡ some sf'
    → IsTracked sf
    → IsTracked sf'
unfolding buffer
buffer-IsTracked d p now sf sf' e h = record {
  latest = h.latest;
  at_end = ground (arith, h.at_end);
  shows = ground (arith, h.shows);
  labelled = ground (arith, h.labelled);
}

call-IsTracked : (c : Call) (sf sf' : Buffer) → call c sf ≡ some sf' → IsTracked sf → IsTracked sf'
unfolding call
call-IsTracked (set_online_call now) sf sf' e h =
    subst IsTracked (some_inj e) (set_online-IsTracked now sf h)
call-IsTracked (set_offline_call now) sf sf' e h =
    subst IsTracked (some_inj e) (set_offline-IsTracked now sf h)
call-IsTracked (reconcile_call b o now) sf sf' e h =
    subst IsTracked (some_inj e) (reconcile-IsTracked b o now sf h)
call-IsTracked (buffer_call d p now) sf sf' e h = buffer-IsTracked d p now sf sf' e h
call-IsTracked (drain_call now) sf sf' e h = subst IsTracked (some_inj e) (drain-IsTracked now sf h)
call-IsTracked (record_publish_call n now) sf sf' e h = subst IsTracked (some_inj e) (
    unfold record_publish in
    record { latest = h.latest; at_end = h.at_end; shows = h.shows; labelled = h.labelled })
call-IsTracked (status_call now) sf sf' e h = subst IsTracked (some_inj e) (
    unfold status in
    record { latest = h.latest; at_end = h.at_end; shows = h.shows; labelled = h.labelled })

calls-IsTracked :
    (cs : List Call) (sf sf' : Buffer) → calls cs sf ≡ some sf' → IsTracked sf → IsTracked sf'
unfolding calls
calls-IsTracked [] sf sf' e h = subst IsTracked (some_inj e) h
calls-IsTracked (c ∷ cs) sf sf' e h = elim (Option-cases (call c sf)) [
  | inl panics ↦ absurd (none_ne_some (rw (panics, calls) at e))
  | inr (t, made) ↦ calls-IsTracked cs t sf' (rw (made, calls) at e) (call-IsTracked c sf t made h)
]

-- A buffer that was made by `new` keeps a timeline whose latest entry shows the state that the buffer
-- is in, under that state's label, after every sequence of calls that does not panic.
pub new-calls-IsTracked :
    (cs : List Call) (max_records max_bytes drain_rate : ℤ) (now : ℕ) (sf : Buffer)
    → calls cs (new max_records max_bytes drain_rate now) ≡ some sf
    → IsTracked sf
unfolding new
new-calls-IsTracked cs m b d now sf e =
    calls-IsTracked cs (new m b d now) sf e
      (record { latest = _; at_end = refl; shows = refl; labelled = refl })

-- After reconcileSFState the buffer is offline exactly when the node is not born or the host is not
-- online, whatever state it was in.
state-reconcile :
    (born host : Bool) (now : ℕ) (sf : Buffer)
    → ((reconcile born host now sf).state ≡ offline) ↔ ((born && host) ≡ false)
unfolding reconcile set_online set_offline record_timeline
state-reconcile born host now sf = ground arith
