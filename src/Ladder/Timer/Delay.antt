-- ===== src/Ladder/Timer/Delay.antt =====
-- The done bits of timers over successive scans.
use tentacle_next.Prelude.{
  ℕ, ◌-◌, ◌≤◌, Bool, true, false, not, List, [], ◌∷◌, ◌≡◌, refl, ap, ◌∙◌, arith, leb, Bool-cases,
  inl, inr,
}
use tentacle_next.Ladder.Timer.{TimerState, ton, tof}

-- Times at which a timer is scanned do not go back.
abbrev pub Ascends : ℕ → List ℕ → Type 0
Ascends t [] = Unit {0}
Ascends t (u ∷ us) = (t ≤ u) × Ascends u us

abbrev pub last : ℕ → List ℕ → ℕ
last t [] = t
last t (u ∷ us) = last u us

-- Scans with the rung held on, at these times.
pub held_on : List ℕ → TimerState → TimerState
held_on [] t = t
held_on (now ∷ nows) t = held_on nows (ton now true t)

-- An on-delay timer that was started at `since`, as of the scan at `now`.
record IsTiming (since now : ℕ) (t : TimerState) : Type 0 where
  done : t.dn ≡ leb t.preset (now - since)
  running : t.dn ≡ false → t.tt ≡ true
  elapsed : t.dn ≡ false → t.acc ≡ now - since
  ticked : t.last_tick ≡ now
  before : since ≤ now

ton-IsTiming :
    (since now now' : ℕ) (t : TimerState)
    → now ≤ now'
    → IsTiming since now t
    → IsTiming since now' (ton now' true t)
unfolding ton
ton-IsTiming since now now' t h i = elim (Bool-cases t.dn) [
  | inl d ↦ ground (arith, i.done, i.ticked, i.before)
  | inr d ↦ ground (arith, i.done, i.ticked, i.before, i.running d, i.elapsed d)
]

ton_start-IsTiming :
    (now : ℕ) (t : TimerState)
    → t.dn ≡ false
    → t.tt ≡ false
    → t.acc ≡ 0
    → IsTiming now now (ton now true t)
unfolding ton
ton_start-IsTiming now t d r a = ground arith

preset-ton : (now : ℕ) (r : Bool) (t : TimerState) → (ton now r t).preset ≡ t.preset
unfolding ton
preset-ton now true t = ground arith
preset-ton now false t = refl

held_on-IsTiming :
    (nows : List ℕ) (since now : ℕ) (t : TimerState)
    → Ascends now nows
    → IsTiming since now t
    → IsTiming since (last now nows) (held_on nows t) × ((held_on nows t).preset ≡ t.preset)
unfolding held_on
held_on-IsTiming [] since now t h i = (i, refl)
held_on-IsTiming (u ∷ us) since now t h i =
    let (j, e) =
      held_on-IsTiming us since u (ton u true t) h.1 (ton-IsTiming since now u t h.0 i) in
    (j, e ∙ preset-ton u true t)

-- An on-delay timer that is idle when the rung comes on, and is scanned at ascending times while the
-- rung stays on, is done exactly when its preset has passed since the first of these scans.
pub dn-held_on :
    (now : ℕ) (nows : List ℕ) (t : TimerState)
    → t.dn ≡ false
    → t.tt ≡ false
    → t.acc ≡ 0
    → Ascends now nows
    → (held_on (now ∷ nows) t).dn ≡ leb t.preset (last now nows - now)
unfolding held_on
dn-held_on now nows t d r a h =
    let (i, e) =
      held_on-IsTiming nows now now (ton now true t) h (ton_start-IsTiming now t d r a) in
    i.done ∙ ap (λ (p : ℕ). leb p (last now nows - now)) (e ∙ preset-ton now true t)

-- A scan with the rung off leaves an on-delay timer idle, whatever its state was: it is neither done
-- nor timing, and has accumulated nothing.
pub ton_off :
    (now : ℕ) (t : TimerState)
    → ((ton now false t).dn ≡ false) × ((ton now false t).tt ≡ false) × ((ton now false t).acc ≡ 0)
unfolding ton
ton_off now t = (refl, refl, refl)

-- Scans with the rung held off, at these times.
pub held_off : List ℕ → TimerState → TimerState
held_off [] t = t
held_off (now ∷ nows) t = held_off nows (tof now false t)

record IsDelaying (since now : ℕ) (t : TimerState) : Type 0 where
  done : t.dn ≡ not (leb t.preset (now - since))
  running : t.tt ≡ t.dn
  elapsed : t.dn ≡ true → t.acc ≡ now - since
  ticked : t.dn ≡ true → t.last_tick ≡ now
  edge : t.prev_en ≡ false
  before : since ≤ now

tof-IsDelaying :
    (since now now' : ℕ) (t : TimerState)
    → now ≤ now'
    → IsDelaying since now t
    → IsDelaying since now' (tof now' false t)
unfolding tof
tof-IsDelaying since now now' t h i = elim (Bool-cases t.dn) [
  | inl d ↦ ground (arith, i.done, i.running, i.edge, i.before, i.elapsed d, i.ticked d)
  | inr d ↦ ground (arith, i.done, i.running, i.edge, i.before)
]

tof_edge-IsDelaying :
    (now : ℕ) (t : TimerState)
    → t.dn ≡ true
    → t.acc ≡ 0
    → t.prev_en ≡ true
    → IsDelaying now now (tof now false t)
unfolding tof
tof_edge-IsDelaying now t d a p = ground arith

preset-tof : (now : ℕ) (t : TimerState) → (tof now false t).preset ≡ t.preset
unfolding tof
preset-tof now t = ground arith

held_off-IsDelaying :
    (nows : List ℕ) (since now : ℕ) (t : TimerState)
    → Ascends now nows
    → IsDelaying since now t
    → IsDelaying since (last now nows) (held_off nows t) × ((held_off nows t).preset ≡ t.preset)
unfolding held_off
held_off-IsDelaying [] since now t h i = (i, refl)
held_off-IsDelaying (u ∷ us) since now t h i =
    let (j, e) =
      held_off-IsDelaying us since u (tof u false t) h.1 (tof-IsDelaying since now u t h.0 i) in
    (j, e ∙ preset-tof u t)

preset-tof_on : (now : ℕ) (t : TimerState) → (tof now true t).preset ≡ t.preset
unfolding tof
preset-tof_on now t = refl

begun : (on now : ℕ) (t : TimerState) → IsDelaying now now (tof now false (tof on true t))
begun on now t =
    tof_edge-IsDelaying now (tof on true t) (unfold tof in refl) (unfold tof in refl)
      (unfold tof in refl)

-- After a scan with the rung on, an off-delay timer stays done while the rung is off until its preset
-- has passed since the first scan that found the rung off, and is done no more from then on.
dn-held_off :
    (on now : ℕ) (nows : List ℕ) (t : TimerState)
    → Ascends now nows
    → (held_off (now ∷ nows) (tof on true t)).dn ≡ not (leb t.preset (last now nows - now))
unfolding held_off
dn-held_off on now nows t h =
    let s = tof on true t in
    let (i, e) = held_off-IsDelaying nows now now (tof now false s) h (begun on now t) in
    i.done
    ∙ ap (λ (p : ℕ). not (leb p (last now nows - now))) (e ∙ preset-tof now s ∙ preset-tof_on on t)
