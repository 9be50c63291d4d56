-- ===== src/Ladder/Counter/Edges.antt =====
-- What the counters count.
use native.Mathlib.Nat.{add_comm}
use tentacle_next.Prelude.{
  ℕ, ◌+◌, Bool, true, false, List, [], ◌∷◌, ◌≡◌, refl, subst, arith, if◌then◌else◌,
}
use tentacle_next.Prelude.Int.{ℤ, pos, ◌+ℤ◌, ◌-ℤ◌, leb_ℤ}
use tentacle_next.Ladder.Counter.{CounterState, new_counter, rises, ctu, ctd}

-- The rising edges of a rung's states, after a state.
abbrev pub rising_edges : Bool → List Bool → ℕ
rising_edges before [] = 0
rising_edges before (r ∷ rs) = (if rises before r then 1 else 0) + rising_edges r rs

-- A count-up counter over the states of its rung in successive scans.
pub count_up : List Bool → CounterState → CounterState
count_up [] c = c
count_up (r ∷ rs) c = count_up rs (ctu r c)

-- As `ctu`, with the counter's own fields as numbers.
record Counts (preset : ℤ) (n : ℕ) (before : Bool) (c : CounterState) : Type 0 where
  presets : c.preset ≡ preset
  counted : c.acc ≡ pos n
  remembers : c.prev_en ≡ before
  done : c.dn ≡ leb_ℤ preset (pos n)

pos_suc : (n : ℕ) → pos n +ℤ pos 1 ≡ pos (n + 1)
unfolding ◌+ℤ◌
pos_suc n = ground arith

ctu-Counts :
    (preset : ℤ) (n : ℕ) (before r : Bool) (c : CounterState)
    → Counts preset n before c
    → Counts preset ((if rises before r then 1 else 0) + n) r (ctu r c)
unfolding ctu
ctu-Counts preset n before r c h = ground (arith, pos_suc n)

ctu_first-Counts :
    (preset : ℤ) (r : Bool)
    → Counts preset (if rises false r then 1 else 0) r (ctu r (new_counter preset))
unfolding ctu
ctu_first-Counts preset r = ground (arith, pos_suc 0)

count_up-Counts :
    (rs : List Bool) (preset : ℤ) (n : ℕ) (before : Bool) (c : CounterState)
    → Counts preset n before c
    → (before' : Bool) × Counts preset (rising_edges before rs + n) before' (count_up rs c)
unfolding count_up
count_up-Counts [] preset n before c h =
    (before, subst (λ m. Counts preset m before c) (omega arith) h)
count_up-Counts (r ∷ rs) preset n before c h =
    let (last, i) = count_up-Counts rs preset _ r (ctu r c) (ctu-Counts preset n before r c h) in
    (last, subst (λ m. Counts preset m last (count_up rs (ctu r c))) (omega arith) i)

-- A fresh count-up counter that is scanned with these rung states, one at least, has counted their
-- rising edges (the rung counts as off before the first), and is done exactly when that number has
-- reached the preset.
pub count_up-counts :
    (preset : ℤ) (r : Bool) (rs : List Bool)
    → (let c = count_up (r ∷ rs) (new_counter preset) in
        let n = rising_edges false (r ∷ rs) in (c.acc ≡ pos n) × (c.dn ≡ leb_ℤ preset (pos n)))
unfolding count_up
count_up-counts preset r rs =
    let (last, i) = count_up-Counts rs preset _ r _ (ctu_first-Counts preset r) in
    let j =
      subst (λ m. Counts preset m last (count_up rs (ctu r (new_counter preset))))
        (add_comm (rising_edges r rs) (if rises false r then 1 else 0)) i in
    (j.counted, j.done)

-- A count-down counter.
pub count_down : List Bool → CounterState → CounterState
count_down [] c = c
count_down (r ∷ rs) c = count_down rs (ctd r c)

abbrev IsSpent : CounterState → Type 0
IsSpent c = (leb_ℤ c.acc (pos 0) ≡ true) × (c.dn ≡ true)

ctd-IsSpent : (r : Bool) (c : CounterState) → leb_ℤ c.acc (pos 0) ≡ true → IsSpent (ctd r c)
unfolding ctd ◌-ℤ◌
ctd-IsSpent r c h = ground arith

count_down-IsSpent : (rs : List Bool) (c : CounterState) → IsSpent c → IsSpent (count_down rs c)
unfolding count_down
count_down-IsSpent [] c h = h
count_down-IsSpent (r ∷ rs) c h = count_down-IsSpent rs (ctd r c) (ctd-IsSpent r c h.0)

-- A count-down counter never starts at its preset: a fresh one is done from its first scan on,
-- whatever its preset and whether or not its rung is ever on.
count_down-done :
    (preset : ℤ) (r : Bool) (rs : List Bool) → (count_down (r ∷ rs) (new_counter preset)).dn ≡ true
unfolding count_down
count_down-done preset r rs = (count_down-IsSpent rs _ (ctd-IsSpent r (new_counter preset) refl)).1
