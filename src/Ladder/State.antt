-- ===== src/Ladder/State.antt =====
-- plc/ladder/state.go: tags, timers and counters by name.
use Prim.Native.Char.{code}
use tentacle_next.Prelude.{
  ℕ, String, Bool, false, Option, none, some, [], ◌==◌, str_eq, if◌then◌else◌, Assoc, lookup,
  insert,
}
use tentacle_next.Prelude.Int.{ℤ}
use tentacle_next.Ladder.Timer.{TimerState, new_timer}
use tentacle_next.Ladder.Counter.{CounterState, new_counter}

-- `clock` gives the readings of time.Now(), of which `reads` have been made.
pub record State : Type 0 where
  pub tags : Assoc Bool
  pub timers : Assoc TimerState
  pub counters : Assoc CounterState
  pub clock : ℕ → ℕ
  pub reads : ℕ

abbrev pub new_state : (ℕ → ℕ) → State
new_state clock = record { tags = []; timers = []; counters = []; clock = clock; reads = 0 }

-- strings.SplitN(tag, ".", 2), where that has two parts.
unfoldable pub split_dot : String → Option (String × String)
split_dot String.[] = none
split_dot (String.◌∷◌ c s) =
    let rest = split_dot s in
    if code c == b'.'
    then some (String.[], s)
    else elim rest [ none ↦ none | some parts ↦ some (String.◌∷◌ c parts.0, parts.1) ]

timer_bit : String → TimerState → Option Bool
timer_bit name t =
    if str_eq name "DN"
    then some t.dn
    else if str_eq name "EN"
    then some t.en
    else if str_eq name "TT"
    then some t.tt
    else none

counter_bit : String → CounterState → Bool
counter_bit name c = if str_eq name "DN" then c.dn else false

-- A bit of the timer of that name, then of the counter, else false.
sub_tag : String → String → State → Bool
sub_tag name bit s =
    let of_counter : Bool = elim (lookup s.counters name) [
      | none ↦ false
      | some c ↦ counter_bit bit c
    ] in
    elim (lookup s.timers name) [
      | none ↦ of_counter
      | some t ↦ elim (timer_bit bit t) [ none ↦ of_counter | some b ↦ b ]
    ]

unfoldable pub get_tag : String → State → Bool
unfolding sub_tag timer_bit counter_bit
get_tag tag s = elim (lookup s.tags tag) [
  | some v ↦ v
  | none ↦ elim (split_dot tag) [ none ↦ false | some parts ↦ sub_tag parts.0 parts.1 s ]
]

unfoldable pub set_tag : String → Bool → State → State
set_tag tag v s = record s { tags = insert s.tags tag v }

-- The preset counts only where the timer is new.
unfoldable pub get_timer : String → ℕ → State → TimerState
get_timer tag preset s = elim (lookup s.timers tag) [ none ↦ new_timer preset | some t ↦ t ]

unfoldable pub get_counter : String → ℤ → State → CounterState
get_counter tag preset s = elim (lookup s.counters tag) [ none ↦ new_counter preset | some c ↦ c ]
