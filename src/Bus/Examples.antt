-- ===== src/Bus/Examples.antt =====
-- Runs of the bus, and the theorems at concrete inputs.
use tentacle_next.Prelude.{
  ℕ, ◌+◌, String, true, false, ◌&&◌, ◌||◌, ◌==◌, leb, Option, none, some, List, [], ◌∷◌, ◌++◌,
  str_eq, if◌then◌else◌, lookup, insert, ◌≡◌, ◌↔◌, refl, IsMap,
}
use tentacle_next.Bus.Subject.{split, match_subject, match_parts}
use tentacle_next.Bus.Subject.Matching.{is_pattern, Matches, match_subject-Matches}
use tentacle_next.Bus.Pubsub.{
  Sub, Subs, matched, publish, subscribe, request, first, collect, firsts, only_active, append_to,
}
use tentacle_next.Bus.Pubsub.Groups.{of_queue}
use tentacle_next.Bus.Pubsub.Delivery.{receivers, of_queue-publish}
use tentacle_next.Bus.Kv.{
  Bucket, create, get, put_entry, delete_entry, expired_keys, is_expired, watch, save, Event,
}
use tentacle_next.Bus.Kv.Reads.{
  Call, put_call, delete_call, calls, IsRevised, get-put_entry, get-delete_entry,
}
use tentacle_next.Bus.Kv.Views.{see_all, values}
use tentacle_next.Bus.Kv.Watching.{no_values, see_all-watch}
use tentacle_next.Bus.Kv.Restart.{read_value, get-create}
use tentacle_next.Bus.Kv.Store.{Store, kv_get, kv_put, no_key, found, kv_get-kv_put}

star_takes_one_token :
    (match_subject "plc.*.data" "plc.line1.data" ≡ true)
    × (match_subject "plc.*.data" "plc.line1.a.data" ≡ false)
    × (match_subject "plc.>" "plc.line1.a" ≡ true)
    × (match_subject "plc.>" "plc" ≡ false)
unfolding match_subject split match_parts
star_takes_one_token = (refl, refl, refl, refl)

abbrev two_workers : Subs ℕ
two_workers =
    (subscribe "u3" "work.>" "" 3
      (subscribe "u2" "work.>" "workers" 2 (subscribe "u1" "work.*" "workers" 1 []).0).0).0

abbrev handlers : List (Sub ℕ) → List ℕ
handlers [] = []
handlers (s ∷ subs) = s.handler ∷ handlers subs

abbrev found_handlers : Option (List (Sub ℕ)) → Option (List ℕ)
found_handlers none = none
found_handlers (some subs) = some (handlers subs)

-- A request starts every member of a queue group, where a message starts one.
one_of_two :
    (handlers (publish two_workers "work.a") ≡ 3 ∷ 1 ∷ [])
    × (found_handlers (request "_INBOX.1" two_workers "work.a") ≡ some (1 ∷ 2 ∷ 3 ∷ []))
unfolding publish request subscribe append_to insert lookup collect firsts matched only_active
    match_subject match_parts split
one_of_two = (refl, refl)

match_subject-Matches_example :
    (match_subject "plc.*.data" "plc.line1.data" ≡ true)
    ↔ Matches (split "plc.*.data") (split "plc.line1.data")
unfolding split is_pattern
match_subject-Matches_example = match_subject-Matches "plc.*.data" "plc.line1.data" refl

of_queue-publish_example : of_queue "workers" (publish two_workers "work.a") ≡ (
    if str_eq "workers" ""
    then receivers two_workers "work.a" "workers"
    else first (receivers two_workers "work.a" "workers"))
of_queue-publish_example = of_queue-publish two_workers "work.a" "workers"

abbrev lasting : Bucket
lasting = create false [] "tags" 0

abbrev brief : Bucket
brief = create false [] "heartbeats" 100

get-put_entry_example : get 90 "a" (put_entry 10 "a" (1 ∷ []) brief).0 ≡ (
    if str_eq "a" "a"
    then if brief.ttl == 0 || leb 90 (10 + brief.ttl)
      then some (1 ∷ [], brief.revision + 1)
      else none
    else get 90 "a" brief)
get-put_entry_example = get-put_entry 10 90 "a" "a" (1 ∷ []) brief

get-delete_entry_example :
    get 90 "b" (delete_entry "a" brief).0 ≡ (if str_eq "b" "a" then none else get 90 "b" brief)
get-delete_entry_example = get-delete_entry 90 "a" "b" brief

abbrev written_once : Bucket
written_once = (put_entry 10 "a" (1 ∷ []) lasting).0

abbrev more : List Call
more = put_call 20 "b" (2 ∷ []) ∷ delete_call "a" ∷ []

lasting-IsRevised : IsRevised lasting
unfolding create lookup
lasting-IsRevised key e h = cc

see_all-watch_example :
    see_all 7
      ((watch 15 "" 7 written_once).1 ++ (calls more (watch 15 "" 7 written_once).0).1)
      no_values
    ≡ values (calls more (watch 15 "" 7 written_once).0).0.entries
unfolding create put_entry insert IsMap lookup expired_keys is_expired
see_all-watch_example = see_all-watch 15 7 more written_once ((refl, tt)) refl refl

get-create_example :
    read_value (
      get 90 "b" (
        create true
          (insert [] "tags" (save 80 (calls more (create true [] "tags" 0)).0.entries))
          "tags"
          0))
    ≡ read_value (get 70 "b" (calls more (create true [] "tags" 0)).0)
get-create_example = get-create more [] "tags" "b" 80 70 90

abbrev bus : Store
bus = record { kv = ("tags", lasting) ∷ []; disk = []; has_dir = false }

kv_get-kv_put_example :
    (after : Store) × (events : List Event) × (kv_put 10 "tags" "a" (1 ∷ []) bus
      ≡ some (after, events, lasting.revision + 1))
    × ((other_name other : String)
        → kv_get 20 other_name other after ≡ (
            if str_eq other_name "tags" && str_eq other "a"
            then if lasting.ttl == 0 || leb 20 (10 + lasting.ttl)
              then found (1 ∷ []) (lasting.revision + 1)
              else no_key
            else kv_get 20 other_name other bus))
unfolding lookup
kv_get-kv_put_example = kv_get-kv_put 10 20 "tags" "a" (1 ∷ []) bus lasting refl
