-- ===== src/Bus/Pubsub/Delivery.antt =====
-- Who receives a message.
use tentacle_next.Prelude.{
  String, Bool, ◌&&◌, true, false, none, some, List, [], ◌∷◌, ◌++◌, str_eq, eq_iff, if◌then◌else◌,
  lookup, ◌≡◌, refl, sym, ap, ◌∙◌, arith, append-nil, append_assoc, Bool-cases, inl, inr, subst,
}
use tentacle_next.Bus.Subject.{match_subject}
use tentacle_next.Bus.Pubsub.{
  only_active, Sub, Subs, matched, collect, first, firsts, publish, group_of, append_to,
}
use tentacle_next.Bus.Pubsub.Groups.{
  of_queue, of_queue-append, of_queue_twice, of_queue_other, IsGrouped, firsts-group_of,
  append_to-IsGrouped, group_of-append_to, lookup-empty_name,
}

module _ {ℓ} {H : Type ℓ} where
  -- What the loop of Publish has collected.
  record IsCollected (subs : List (Sub H)) (groups : Subs H) (direct : List (Sub H))
      (found : Subs H × List (Sub H)) : Type ℓ where
    grouped : IsGrouped found.0
    in_groups :
        (q : String)
        → str_eq q "" ≡ false
        → group_of found.0 q ≡ group_of groups q ++ of_queue q subs
    directly : found.1 ≡ direct ++ of_queue "" subs

  of_queue-own :
      (q : String) (s : Sub H) (subs : List (Sub H))
      → str_eq s.queue q ≡ true
      → of_queue q (s ∷ subs) ≡ s ∷ of_queue q subs
  unfolding of_queue
  of_queue-own q s subs e = rw e refl

  of_queue-other :
      (q : String) (s : Sub H) (subs : List (Sub H))
      → str_eq s.queue q ≡ false
      → of_queue q (s ∷ subs) ≡ of_queue q subs
  unfolding of_queue
  of_queue-other q s subs e = rw e refl

  direct-IsCollected :
      (s : Sub H) (subs : List (Sub H)) (groups : Subs H) (direct : List (Sub H))
      (found : Subs H × List (Sub H))
      → str_eq s.queue "" ≡ true
      → IsCollected subs groups (direct ++ s ∷ []) found
      → IsCollected (s ∷ subs) groups direct found
  direct-IsCollected s subs groups direct found e r = record {
    grouped = r.grouped;
    in_groups = λ q n.
        r.in_groups q n
        ∙ ap (λ l. group_of groups q ++ l)
            (sym (
              of_queue-other q s subs
                (ground (arith, eq_iff s.queue "", eq_iff s.queue q, eq_iff q ""))));
    directly =
        r.directly
        ∙ append_assoc direct (s ∷ []) (of_queue "" subs)
        ∙ ap (λ l. direct ++ l) (sym (of_queue-own "" s subs e));
  }

  grouped-IsCollected :
      (s : Sub H) (subs : List (Sub H)) (groups : Subs H) (direct : List (Sub H))
      (found : Subs H × List (Sub H))
      → str_eq s.queue "" ≡ false
      → IsCollected subs (append_to groups s.queue s) direct found
      → IsCollected (s ∷ subs) groups direct found
  grouped-IsCollected s subs groups direct found e r = record {
    grouped = r.grouped;
    in_groups = λ q n.
        r.in_groups q n
        ∙ ap (λ l. l ++ of_queue q subs) (group_of-append_to s groups q)
        ∙ append_assoc (group_of groups q) (of_queue q (s ∷ [])) (of_queue q subs)
        ∙ ap (λ l. group_of groups q ++ l) (sym (of_queue-append q (s ∷ []) subs));
    directly = r.directly ∙ ap (λ l. direct ++ l) (sym (of_queue-other "" s subs e));
  }

  collect-IsCollected :
      (subs : List (Sub H)) (groups : Subs H) (direct : List (Sub H))
      → IsGrouped groups
      → IsCollected subs groups direct (collect subs (groups, direct))
  unfolding collect of_queue
  collect-IsCollected [] groups direct w = record {
    grouped = w;
    in_groups = λ q n. sym (append-nil _);
    directly = sym (append-nil direct);
  }
  collect-IsCollected (s ∷ subs) groups direct w = elim (Bool-cases (str_eq s.queue "")) [
    | inl e ↦ rw e (
        direct-IsCollected s subs groups direct _ e
          (collect-IsCollected subs groups (direct ++ s ∷ []) w))
    | inr e ↦ rw e (
        grouped-IsCollected s subs groups direct _ e (
          collect-IsCollected subs (append_to groups s.queue s) direct
            (append_to-IsGrouped s groups e w)))
  ]

  abbrev started : Subs H × List (Sub H) → List (Sub H)
  started found = found.1 ++ firsts found.0

  direct_alone :
      (subs : List (Sub H)) (groups : Subs H)
      → IsGrouped groups
      → of_queue "" (of_queue "" subs) ++ first (group_of groups "") ≡ of_queue "" subs
  direct_alone subs groups w =
      ap (λ o. of_queue "" (of_queue "" subs) ++ first (elim o [ none ↦ [] | some g ↦ g ]))
        (lookup-empty_name groups w)
      ∙ append-nil _
      ∙ of_queue_twice "" subs

  of_queue-collected :
      (queue : String) (subs : List (Sub H)) (found : Subs H × List (Sub H))
      → IsCollected subs [] [] found
      → of_queue queue (started found)
        ≡ (if str_eq queue "" then of_queue queue subs else first (of_queue queue subs))
  unfolding lookup
  of_queue-collected queue subs found r =
      of_queue-append queue found.1 (firsts found.0)
      ∙ ap (λ l. of_queue queue l ++ of_queue queue (firsts found.0)) r.directly
      ∙ ap (λ l. of_queue queue (of_queue "" subs) ++ l) (firsts-group_of queue found.0 r.grouped)
      ∙ elim (Bool-cases (str_eq queue "")) [
        | inl e ↦
            subst
              (λ q.
                of_queue q (of_queue "" subs) ++ first (group_of found.0 q)
                ≡ (if str_eq q "" then of_queue q subs else first (of_queue q subs)))
              (sym ((eq_iff queue "").0 e)) (direct_alone subs found.0 r.grouped)
        | inr e ↦ rw e (rw (of_queue_other queue "" subs e) (ap first (r.in_groups queue e)))
      ]

  -- The subscriptions that pass a test.
  unfoldable pub select : (Sub H → Bool) → List (Sub H) → List (Sub H)
  select test [] = []
  select test (s ∷ subs) = let others = select test subs in if test s then s ∷ others else others

  -- A subscription that is active, under a pattern that matches, and of this queue.
  abbrev pub receives : String → String → String → Sub H → Bool
  receives pattern subject queue s =
      s.active && (match_subject pattern subject && str_eq s.queue queue)

  -- All of them, pattern by pattern, in the order in which they have subscribed.
  unfoldable pub receivers : Subs H → String → String → List (Sub H)
  receivers [] subject queue = []
  receivers ((pattern, subs) ∷ others) subject queue =
      select (receives pattern subject queue) subs ++ receivers others subject queue

  of_queue-only_active :
      (pattern subject queue : String) (subs : List (Sub H))
      → match_subject pattern subject ≡ true
      → of_queue queue (only_active subs) ≡ select (receives pattern subject queue) subs
  unfolding of_queue only_active select
  of_queue-only_active pattern subject queue [] m = refl
  of_queue-only_active pattern subject queue (s ∷ subs) m =
      ground (arith, of_queue-only_active pattern subject queue subs m)

  select_none :
      (pattern subject queue : String) (subs : List (Sub H))
      → match_subject pattern subject ≡ false
      → select (receives pattern subject queue) subs ≡ []
  unfolding select
  select_none pattern subject queue [] m = refl
  select_none pattern subject queue (s ∷ subs) m =
      ground (arith, select_none pattern subject queue subs m)

  of_queue-matched :
      (subs : Subs H) (subject queue : String)
      → of_queue queue (matched subs subject) ≡ receivers subs subject queue
  unfolding matched receivers of_queue
  of_queue-matched [] subject queue = refl
  of_queue-matched ((pattern, subs) ∷ others) subject queue =
      elim (Bool-cases (match_subject pattern subject)) [
        | inl m ↦ rw m (
            of_queue-append queue (only_active subs) (matched others subject)
            ∙ ap (λ l. l ++ of_queue queue (matched others subject))
                (of_queue-only_active pattern subject queue subs m)
            ∙ ap (◌++◌ (select (receives pattern subject queue) subs))
                (of_queue-matched others subject queue))
        | inr m ↦
            rw (m, select_none pattern subject queue subs m) (of_queue-matched others subject queue)
      ]

  -- Of the subscriptions that a published message starts, a queue group, if the name is not empty, has
  -- the first of its members that are active and whose patterns match, and no other; and the direct
  -- subscriptions, which have the empty queue name, are all that are active and whose patterns match,
  -- in order.
  pub of_queue-publish :
      (subs : Subs H) (subject queue : String)
      → of_queue queue (publish subs subject) ≡ (
          let members = receivers subs subject queue in
          if str_eq queue "" then members else first members)
  unfolding publish
  of_queue-publish subs subject queue =
      of_queue-collected queue (matched subs subject) _
        (collect-IsCollected (matched subs subject) [] [] (unfold IsGrouped in tt))
      ∙ ap (λ members. if str_eq queue "" then members else first members)
          (of_queue-matched subs subject queue)
