-- ===== src/Ladder/Element.antt =====
-- plc/ladder/ladder.go: the elements of a rung and their evaluation, and a program's scan.
pub mod Contacts
pub mod Effects
use tentacle_next.Prelude.{
  ℕ, suc, ◌+◌, String, Bool, true, false, not, ◌&&◌, ◌||◌, Option, none, some, List, [], ◌∷◌,
  if◌then◌else◌, Assoc, lookup, insert,
}
use tentacle_next.Prelude.Int.{ℤ, pos}
use tentacle_next.Ladder.Timer.{TimerState, ton, tof}
use tentacle_next.Ladder.Counter.{CounterState, ctu, ctd}
use tentacle_next.Ladder.State.{State, get_tag, set_tag, get_timer, get_counter}

mutual
  pub data Element : Type 0 where
    no_contact nc_contact ote otl otu res : String → Element
    ton_timer tof_timer : String → ℕ → Element
    ctu_counter ctd_counter : String → ℤ → Element
    branch : Paths → Element
    series : Elements → Element

  pub data Elements : Type 0 where
    nil : Elements
    cons : Element → Elements → Elements

  pub data Paths : Type 0 where
    end : Paths
    path : Elements → Paths → Paths

-- A timer step reads the clock once and stores the timer back.
step_timer : (ℕ → TimerState → TimerState) → String → ℕ → State → Bool × State
step_timer step tag preset s =
    let t = step (s.clock s.reads) (get_timer tag preset s) in
    (t.dn, record s { timers = insert s.timers tag t; reads = s.reads + 1 })

step_counter : (CounterState → CounterState) → String → ℤ → State → Bool × State
step_counter step tag preset s =
    let c = step (get_counter tag preset s) in
    (c.dn, record s { counters = insert s.counters tag c })

clear_counter : String → State → State
clear_counter tag s = elim (lookup s.counters tag) [
  | none ↦ s
  | some c ↦ record s { counters = insert s.counters tag (record c { acc = pos 0; dn = false }) }
]

clear_timer : String → State → State
clear_timer tag s = elim (lookup s.timers tag) [
  | none ↦ s
  | some t ↦ record s {
    timers = insert s.timers tag (record t { acc = 0; dn = false; en = false; tt = false });
  }
]

unfoldable pub reset : String → Bool → State → State
unfolding clear_counter clear_timer
reset tag rung_in s = if rung_in then clear_timer tag (clear_counter tag s) else s

unfoldable mutual
  unfolding get_tag set_tag step_timer step_counter reset

  pub evaluate : Element → Bool → State → Bool × State
  evaluate (no_contact tag) rung_in s = (rung_in && get_tag tag s, s)
  evaluate (nc_contact tag) rung_in s = (rung_in && not (get_tag tag s), s)
  evaluate (ote tag) rung_in s = (rung_in, set_tag tag rung_in s)
  evaluate (otl tag) rung_in s = (rung_in, if rung_in then set_tag tag true s else s)
  evaluate (otu tag) rung_in s = (rung_in, if rung_in then set_tag tag false s else s)
  evaluate (res tag) rung_in s = (rung_in, reset tag rung_in s)
  evaluate (ton_timer tag preset) rung_in s = step_timer (λ now. ton now rung_in) tag preset s
  evaluate (tof_timer tag preset) rung_in s = step_timer (λ now. tof now rung_in) tag preset s
  evaluate (ctu_counter tag preset) rung_in s = step_counter (ctu rung_in) tag preset s
  evaluate (ctd_counter tag preset) rung_in s = step_counter (ctd rung_in) tag preset s
  evaluate (branch paths) rung_in s = evaluate_paths paths rung_in false s
  evaluate (series elements) rung_in s = evaluate_all elements rung_in s

  -- Each element takes the result of the one before it.
  pub evaluate_all : Elements → Bool → State → Bool × State
  evaluate_all nil rung_in s = (rung_in, s)
  evaluate_all (cons e es) rung_in s =
      let (rung_out, s') = evaluate e rung_in s in evaluate_all es rung_out s'

  -- Each path starts from the branch's own rung state.
  pub evaluate_paths : Paths → Bool → Bool → State → Bool × State
  evaluate_paths end rung_in result s = (result, s)
  evaluate_paths (path es ps) rung_in result s =
      let (path_result, s') = evaluate_all es rung_in s in
      evaluate_paths ps rung_in (path_result || result) s'

-- A rung starts energized.
unfoldable pub evaluate_rungs : List Elements → State → State
evaluate_rungs [] s = s
evaluate_rungs (rung ∷ rungs) s = evaluate_rungs rungs (evaluate_all rung true s).1

sync_in : List (String × Bool) → State → State
sync_in [] s = s
sync_in ((id, v) ∷ vars) s = sync_in vars (set_tag id v s)

sync_out : List (String × Bool) → State → List (String × Bool)
sync_out [] s = []
sync_out ((id, v) ∷ vars) s = elim (lookup s.tags id) [
  | none ↦ sync_out vars s
  | some val ↦ (id, val) ∷ sync_out vars s
]

-- One scan of the program that CreateProgram returns: the variables come with their Boolean values,
-- in the order in which the map is read, and the calls of `update` are returned.
unfoldable pub scan : List Elements → List (String × Bool) → State → List (String × Bool) × State
unfolding sync_in sync_out evaluate_rungs
scan rungs vars s = let s' = evaluate_rungs rungs (sync_in vars s) in (sync_out vars s', s')
