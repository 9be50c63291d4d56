-- ===== src/Bus/Pubsub.antt =====
-- Publishing, subscribing and requests of internal/bus/channel.go. Handlers are values of any type:
-- an operation returns the subscriptions whose handlers it starts.
pub mod Groups
pub mod Delivery
pub mod Lifetime
use tentacle_next.Prelude.{
  String, Bool, true, false, not, Option, none, some, List, [], ◌∷◌, ◌++◌, str_eq, if◌then◌else◌,
  Assoc, lookup, insert,
}
use tentacle_next.Bus.Subject.{match_subject}

-- channelSub: `queue` is empty for a subscription without a queue.
pub record Sub {ℓ} (H : Type ℓ) : Type ℓ where
  pub id : String
  pub pattern : String
  pub queue : String
  pub handler : H
  pub active : Bool

abbrev pub Subs {ℓ} : Type ℓ → Type ℓ
Subs H = Assoc (List (Sub H))

module _ {ℓ} {H : Type ℓ} where
  unfoldable pub only_active : List (Sub H) → List (Sub H)
  only_active [] = []
  only_active (s ∷ subs) = let others = only_active subs in if s.active then s ∷ others else others

  -- The active subscriptions of every pattern that matches, in the order in which the map is read.
  unfoldable pub matched : Subs H → String → List (Sub H)
  matched [] subject = []
  matched ((pattern, subs) ∷ others) subject =
      let rest = matched others subject in
      if match_subject pattern subject then only_active subs ++ rest else rest

  -- m[key], the nil slice where the key is missing
  abbrev pub group_of : Subs H → String → List (Sub H)
  group_of groups key = elim (lookup groups key) [ none ↦ [] | some group ↦ group ]

  -- m[key] = append(m[key], s)
  unfoldable pub append_to : Subs H → String → Sub H → Subs H
  append_to groups key s = insert groups key (group_of groups key ++ s ∷ [])

  -- The groups and the direct subscriptions that the loop of Publish collects.
  unfoldable pub collect : List (Sub H) → Subs H × List (Sub H) → Subs H × List (Sub H)
  collect [] found = found
  collect (s ∷ subs) (groups, direct) =
      if str_eq s.queue ""
      then collect subs (groups, direct ++ s ∷ [])
      else collect subs (append_to groups s.queue s, direct)

  abbrev pub first : List (Sub H) → List (Sub H)
  first [] = []
  first (s ∷ subs) = s ∷ []

  -- group[0] of every group that is not empty.
  unfoldable pub firsts : Subs H → List (Sub H)
  firsts [] = []
  firsts ((queue, group) ∷ groups) = first group ++ firsts groups

  unfoldable pub publish : Subs H → String → List (Sub H)
  publish subs subject =
      let (groups, direct) = collect (matched subs subject) ([], []) in direct ++ firsts groups

  -- `id` is the fresh UUID.
  unfoldable pub subscribe : String → String → String → H → Subs H → Subs H × Sub H
  subscribe id subject queue handler subs =
      let s : Sub H = record {
        id = id;
        pattern = subject;
        queue = queue;
        handler = handler;
        active = true;
      } in
      (append_to subs subject s, s)

  -- The first subscription with that id is cut out.
  unfoldable pub cut : String → List (Sub H) → List (Sub H)
  cut id [] = []
  cut id (s ∷ subs) = let others = cut id subs in if str_eq s.id id then subs else s ∷ others

  unfoldable pub remove_sub : Sub H → Subs H → Subs H
  remove_sub sub subs = elim (lookup subs sub.pattern) [
    | none ↦ subs
    | some old ↦ insert subs sub.pattern (cut sub.id old)
  ]

  -- Every pattern but the one of the reply inbox.
  abbrev pub except : String → Subs H → Subs H
  except pattern [] = []
  except pattern ((p, subs) ∷ others) =
      let rest = except pattern others in if str_eq p pattern then rest else (p, subs) ∷ rest

  -- The handlers that Request starts, with the reply function: `none` is the error for no responders.
  -- `reply_subject` is the fresh inbox, whose own pattern is skipped.
  unfoldable pub request : String → Subs H → String → Option (List (Sub H))
  request reply_subject subs subject = elim (matched (except reply_subject subs) subject) [
    | [] ↦ none
    | s ∷ others ↦ some (s ∷ others)
  ]
