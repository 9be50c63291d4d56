-- ===== src/Ladder/Examples.antt =====
-- Runs of ladder rungs, and the theorems at concrete inputs.
use tentacle_next.Prelude.{
  ℕ, ◌-◌, true, false, ◌&&◌, [], ◌∷◌, ◌≡◌, refl, leb, lookup, insert, arith,
}
use tentacle_next.Prelude.Int.{pos}
use tentacle_next.Ladder.Timer.{new_timer, ton}
use tentacle_next.Ladder.Counter.{new_counter}
use tentacle_next.Ladder.State.{State, new_state, split_dot, set_tag, get_tag}
use tentacle_next.Ladder.Element.{
  Elements, no_contact, nc_contact, ote, branch, nil, cons, end, path, evaluate_all, evaluate_rungs,
  scan,
}
use tentacle_next.Ladder.Timer.Delay.{last, held_on, dn-held_on, ton_off}
use tentacle_next.Ladder.Counter.Edges.{count_up, count_up-counts}
use tentacle_next.Ladder.Element.Contacts.{all_only_contacts, conjunction, evaluate_all-conjunction}
use tentacle_next.Ladder.Element.Effects.{ends_in, all_drive, rungs_drive, lookup-evaluate_rungs}

-- Start or running, and no stop.
abbrev seal : Elements
seal =
    cons (branch (path (cons (no_contact "start") nil) (path (cons (no_contact "run") nil) end)))
      (cons (nc_contact "stop") nil)

abbrev clock : ℕ → ℕ
clock n = n

abbrev pressed : State
pressed = set_tag "start" true (new_state clock)

run_seals :
    (scan
      (ends_in seal (ote "run") ∷ [])
      (("start", true) ∷ ("run", false) ∷ [])
      (new_state clock)).0
    ≡ ("start", true) ∷ ("run", true) ∷ []
unfolding scan lookup insert evaluate_all split_dot
run_seals = refl

dn-held_on_example :
    (held_on (100 ∷ 104 ∷ 109 ∷ []) (new_timer 8)).dn ≡ leb 8 (last 100 (104 ∷ 109 ∷ []) - 100)
dn-held_on_example =
    dn-held_on 100 (104 ∷ 109 ∷ []) (new_timer 8) refl refl refl (omega arith, (omega arith, tt))

ton_off_example :
    ((ton 109 false (ton 104 true (new_timer 8))).dn ≡ false)
    × ((ton 109 false (ton 104 true (new_timer 8))).tt ≡ false)
    × ((ton 109 false (ton 104 true (new_timer 8))).acc ≡ 0)
ton_off_example = ton_off 109 (ton 104 true (new_timer 8))

count_up-counts_example :
    ((count_up (true ∷ true ∷ false ∷ true ∷ []) (new_counter (pos 2))).acc ≡ pos 2)
    × ((count_up (true ∷ true ∷ false ∷ true ∷ []) (new_counter (pos 2))).dn ≡ true)
count_up-counts_example = count_up-counts (pos 2) true (true ∷ false ∷ true ∷ [])

evaluate_all-conjunction_example :
    evaluate_all seal true pressed ≡ (true && conjunction seal (λ t. get_tag t pressed), pressed)
unfolding all_only_contacts
evaluate_all-conjunction_example = evaluate_all-conjunction seal true pressed refl

lookup-evaluate_rungs_example :
    lookup (evaluate_rungs (ends_in seal (ote "run") ∷ []) pressed).tags "start"
    ≡ lookup pressed.tags "start"
unfolding rungs_drive all_drive
lookup-evaluate_rungs_example =
    lookup-evaluate_rungs "start" (ends_in seal (ote "run") ∷ []) pressed refl
