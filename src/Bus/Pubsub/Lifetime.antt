-- ===== src/Bus/Pubsub/Lifetime.antt =====
-- Subscribing and unsubscribing, and the inbox of a request.
use tentacle_next.Prelude.{
  String, Bool, true, false, Option, none, some, List, [], ◌∷◌, ◌++◌, ◌||◌, str_eq, eq_iff, lookup,
  insert, insert_here, insert_there, lookup_here, lookup_there, lookup-insert, ◌≡◌, refl, ap, ◌∙◌,
  arith, Bool-cases, inl, inr,
}
use tentacle_next.Bus.Pubsub.{
  Sub, Subs, only_active, matched, group_of, append_to, subscribe, cut, remove_sub, except, request,
}

module _ {ℓ} {H : Type ℓ} where
  abbrev pub has_id : String → List (Sub H) → Bool
  has_id id [] = false
  has_id id (s ∷ subs) = str_eq s.id id || has_id id subs

  cut-append :
      (s : Sub H) (subs : List (Sub H))
      → has_id s.id subs ≡ false
      → cut s.id (subs ++ s ∷ []) ≡ subs
  unfolding cut
  cut-append s [] h = ground (arith, eq_iff s.id s.id)
  cut-append s (t ∷ subs) h = ground (arith, cut-append s subs)

  insert_twice :
      (subs : Subs H) (key : String) (a b : List (Sub H))
      → insert (insert subs key a) key b ≡ insert subs key b
  unfolding insert
  insert_twice [] key a b = ground (arith, eq_iff key key)
  insert_twice (entry ∷ subs) key a b = ground (arith, eq_iff key key, insert_twice subs key a b)

  matched_tail :
      (pattern subject : String) (subs : List (Sub H)) (a b : Subs H)
      → matched a subject ≡ matched b subject
      → matched ((pattern, subs) ∷ a) subject ≡ matched ((pattern, subs) ∷ b) subject
  unfolding matched
  matched_tail pattern subject subs a b h = rw h refl

  matched-insert_same :
      (subs : Subs H) (key subject : String)
      → matched (insert subs key (group_of subs key)) subject ≡ matched subs subject
  unfolding matched insert only_active lookup
  matched-insert_same [] key subject = ground arith
  matched-insert_same (entry ∷ others) key subject = elim (Bool-cases (str_eq key entry.0)) [
    | inl e ↦
        ap (λ m. matched m subject)
          (insert_here entry others key _ e
            ∙ ap
                (λ (o : Option (List (Sub H))).
                  (key, elim o [ none ↦ [] | some group ↦ group ]) ∷ others)
                (lookup_here entry others key e)
            ∙ ap (λ k. (k, entry.1) ∷ others) ((eq_iff key entry.0).0 e))
    | inr e ↦
        ap (λ m. matched m subject) (insert_there entry others key _ e)
        ∙ matched_tail entry.0 subject entry.1 _ others (
            ap
              (λ (o : Option (List (Sub H))).
                matched (insert others key (elim o [ none ↦ [] | some group ↦ group ])) subject)
              (lookup_there entry others key e)
            ∙ matched-insert_same others key subject)
  ]

  lookup-append_to :
      (subs : Subs H) (pattern : String) (s : Sub H)
      → lookup (append_to subs pattern s) pattern ≡ some (group_of subs pattern ++ s ∷ [])
  unfolding append_to
  lookup-append_to subs pattern s = ground (
    arith,
    lookup-insert subs pattern pattern (group_of subs pattern ++ s ∷ []),
    eq_iff pattern pattern,
  )

  insert-append_to :
      (subs : Subs H) (key : String) (s : Sub H) (l : List (Sub H))
      → insert (append_to subs key s) key l ≡ insert subs key l
  unfolding append_to
  insert-append_to subs key s l = insert_twice subs key _ l

  remove_sub-lookup :
      (s : Sub H) (subs : Subs H) (l : List (Sub H))
      → lookup subs s.pattern ≡ some l
      → remove_sub s subs ≡ insert subs s.pattern (cut s.id l)
  unfolding remove_sub
  remove_sub-lookup s subs l e =
      ap
        (λ (o : Option (List (Sub H))). elim o [
          | none ↦ subs
          | some old ↦ insert subs s.pattern (cut s.id old)
        ])
        e

  -- To unsubscribe from a new subscription undoes it: with an id that no subscription of its pattern
  -- had, the active subscriptions that match a subject are afterwards what they were before it was
  -- made, in the same order.
  matched-remove_sub :
      (id pattern queue : String) (handler : H) (subs : Subs H) (subject : String)
      → has_id id (group_of subs pattern) ≡ false
      → (let (with_sub, sub) = subscribe id pattern queue handler subs in
          matched (remove_sub sub with_sub) subject ≡ matched subs subject)
  unfolding subscribe
  matched-remove_sub id pattern queue handler subs subject h =
      let s : Sub H = record {
        id = id;
        pattern = pattern;
        queue = queue;
        handler = handler;
        active = true;
      } in
      ap (λ m. matched m subject)
        (remove_sub-lookup s (append_to subs pattern s) _ (lookup-append_to subs pattern s)
          ∙ ap (λ l. insert (append_to subs pattern s) pattern l)
              (cut-append s (group_of subs pattern) h)
          ∙ insert-append_to subs pattern s _)
      ∙ matched-insert_same subs pattern subject

  except-insert :
      (subs : Subs H) (pattern : String) (l : List (Sub H))
      → lookup subs pattern ≡ none
      → except pattern (insert subs pattern l) ≡ subs
  unfolding lookup insert
  except-insert [] pattern l h = ground (arith, eq_iff pattern pattern)
  except-insert (entry ∷ subs) pattern l h =
      ground (arith, except-insert subs pattern l, eq_iff pattern entry.0, eq_iff entry.0 pattern)

  except-append_to :
      (subs : Subs H) (pattern : String) (s : Sub H)
      → lookup subs pattern ≡ none
      → except pattern (append_to subs pattern s) ≡ subs
  unfolding append_to
  except-append_to subs pattern s h = except-insert subs pattern _ h

  -- A request whose inbox is a pattern that nobody had subscribed starts every active subscription that
  -- matched its subject before the inbox was subscribed, all members of a queue group among them, and
  -- fails for want of a responder exactly where there is none.
  request-subscribe :
      (id inbox subject : String) (handler : H) (subs : Subs H)
      → lookup subs inbox ≡ none
      → request inbox (subscribe id inbox "" handler subs).0 subject
        ≡ (elim (matched subs subject) [ [] ↦ none | s ∷ others ↦ some (s ∷ others) ])
  unfolding request subscribe
  request-subscribe id inbox subject handler subs h =
      ap (λ m. elim (matched m subject) [ [] ↦ none | s ∷ others ↦ some (s ∷ others) ])
        (except-append_to subs inbox _ h)
