-- ===== src/Bus/Pubsub/Groups.antt =====
-- The groups of queue subscriptions that a publication collects.
use tentacle_next.Prelude.{
  String, Bool, true, false, Option, none, some, List, [], ◌∷◌, ◌++◌, str_eq, eq_iff, ◌&&◌,
  if◌then◌else◌, lookup, insert, lookup-insert, ◌≡◌, refl, sym, ap, ◌∙◌, arith, append-nil,
  Bool-cases, inl, inr, subst,
}
use tentacle_next.Bus.Pubsub.{Sub, Subs, first, firsts, group_of, append_to}

module _ {ℓ} {H : Type ℓ} where
  -- The subscriptions of one queue, or the direct ones for the empty name.
  unfoldable pub of_queue : String → List (Sub H) → List (Sub H)
  of_queue q [] = []
  of_queue q (s ∷ subs) =
      let others = of_queue q subs in if str_eq s.queue q then s ∷ others else others

  pub of_queue-append :
      (q : String) (a b : List (Sub H)) → of_queue q (a ++ b) ≡ of_queue q a ++ of_queue q b
  unfolding of_queue
  of_queue-append q [] b = refl
  of_queue-append q (s ∷ a) b = ground (arith, of_queue-append q a b)

  pub of_queue_twice : (q : String) (l : List (Sub H)) → of_queue q (of_queue q l) ≡ of_queue q l
  unfolding of_queue
  of_queue_twice q [] = refl
  of_queue_twice q (s ∷ l) = ground (arith, of_queue_twice q l)

  pub of_queue_other :
      (q r : String) (l : List (Sub H)) → str_eq q r ≡ false → of_queue q (of_queue r l) ≡ []
  unfolding of_queue
  of_queue_other q r [] h = refl
  of_queue_other q r (s ∷ l) h =
      ground (arith, of_queue_other q r l h, eq_iff s.queue q, eq_iff s.queue r, eq_iff q r)

  abbrev all_in : String → List (Sub H) → Bool
  all_in q [] = true
  all_in q (s ∷ subs) = str_eq s.queue q && all_in q subs

  -- Every group lists subscriptions of its own queue, which has a name, and no queue has two groups.
  unfoldable pub IsGrouped : Subs H → Type ℓ
  IsGrouped [] = Unit {ℓ}
  IsGrouped ((q, group) ∷ groups) =
      (all_in q group ≡ true) × (lookup groups q ≡ none) × (str_eq q "" ≡ false) × IsGrouped groups

  insert-IsGrouped :
      (groups : Subs H) (q : String) (group : List (Sub H))
      → all_in q group ≡ true
      → str_eq q "" ≡ false
      → IsGrouped groups
      → IsGrouped (insert groups q group)
  unfolding insert IsGrouped lookup
  insert-IsGrouped [] q group h n w = (h, refl, n, tt)
  insert-IsGrouped ((r, old) ∷ groups) q group h n (own, fresh, named, w) =
      let others = insert-IsGrouped groups q group h n w in
      elim (Bool-cases (str_eq q r)) [
        | inl e ↦
            let same = (eq_iff q r).0 e in
            rw e (h, subst (λ k. lookup groups k ≡ none) (sym same) fresh, n, w)
        | inr e ↦ rw e (
          own,
          ground (arith, lookup-insert groups q r group, eq_iff r q, eq_iff q r),
          named,
          others,
        )
      ]

  pub first_if_own :
      (q r : String) (group firsts_of : List (Sub H)) (o : Option (List (Sub H)))
      → all_in r group ≡ true
      → (str_eq q r ≡ true → o ≡ none)
      → firsts_of ≡ first (elim o [ none ↦ [] | some g ↦ g ])
      → (of_queue q (first group) ++ firsts_of)
        ≡ first (elim (if str_eq q r then some group else o) [ none ↦ [] | some g ↦ g ])
  unfolding of_queue
  first_if_own q r [] f o own fresh h = elim (Bool-cases (str_eq q r)) [
    | inl e ↦ rw e (h ∙ ap (λ p. first (elim p [ none ↦ [] | some g ↦ g ])) (fresh e))
    | inr e ↦ rw e h
  ]
  first_if_own q r (s ∷ group) f o own fresh h = elim (Bool-cases (str_eq q r)) [
    | inl e ↦ rw e (ground (arith, h, fresh e, own, eq_iff s.queue q, eq_iff s.queue r, eq_iff q r))
    | inr e ↦ rw e (ground (arith, h, own, eq_iff s.queue q, eq_iff s.queue r, eq_iff q r))
  ]

  pub firsts-group_of :
      (q : String) (groups : Subs H)
      → IsGrouped groups
      → of_queue q (firsts groups) ≡ first (group_of groups q)
  unfolding firsts IsGrouped lookup of_queue
  firsts-group_of q [] w = refl
  firsts-group_of q ((r, group) ∷ groups) (own, fresh, named, w) =
      of_queue-append q (first group) (firsts groups)
      ∙ first_if_own q r group _ (lookup groups q) own
          (λ e. subst (λ k. lookup groups k ≡ none) (sym ((eq_iff q r).0 e)) fresh)
          (firsts-group_of q groups w)

  all_in-append :
      (q : String) (s : Sub H) (group : List (Sub H))
      → all_in q group ≡ true
      → str_eq s.queue q ≡ true
      → all_in q (group ++ s ∷ []) ≡ true
  all_in-append q s [] h e = rw e refl
  all_in-append q s (t ∷ group) h e = ground (arith, all_in-append q s group)

  all_in-if :
      (b : Bool) (q : String) (group : List (Sub H)) (o : Option (List (Sub H)))
      → (b ≡ true → all_in q group ≡ true)
      → all_in q (elim o [ none ↦ [] | some g ↦ g ]) ≡ true
      → all_in q (elim (if b then some group else o) [ none ↦ [] | some g ↦ g ]) ≡ true
  all_in-if true q group o own h = own refl
  all_in-if false q group o own h = h

  all_in-group_of :
      (q : String) (groups : Subs H) → IsGrouped groups → all_in q (group_of groups q) ≡ true
  unfolding lookup IsGrouped
  all_in-group_of q [] w = refl
  all_in-group_of q ((r, group) ∷ groups) (own, fresh, named, w) =
      all_in-if (str_eq q r) q group (lookup groups q)
        (λ e. subst (λ k. all_in k group ≡ true) (sym ((eq_iff q r).0 e)) own)
        (all_in-group_of q groups w)

  pub lookup-empty_name : (groups : Subs H) → IsGrouped groups → lookup groups "" ≡ none
  unfolding lookup IsGrouped
  lookup-empty_name [] w = refl
  lookup-empty_name ((r, group) ∷ groups) (own, fresh, named, w) =
      ground (arith, lookup-empty_name groups w, eq_iff "" r, eq_iff r "")

  pub append_to-IsGrouped :
      (s : Sub H) (groups : Subs H)
      → str_eq s.queue "" ≡ false
      → IsGrouped groups
      → IsGrouped (append_to groups s.queue s)
  unfolding append_to
  append_to-IsGrouped s groups n w =
      insert-IsGrouped groups s.queue _
        (all_in-append s.queue s _ (all_in-group_of s.queue groups w)
          (ground (arith, eq_iff s.queue s.queue)))
        n w

  pub group_of-append_to :
      (s : Sub H) (groups : Subs H) (q : String)
      → group_of (append_to groups s.queue s) q ≡ group_of groups q ++ of_queue q (s ∷ [])
  unfolding of_queue append_to
  group_of-append_to s groups q = elim (Bool-cases (str_eq q s.queue)) [
    | inl e ↦ ground (
      arith,
      lookup-insert groups s.queue q (group_of groups s.queue ++ s ∷ []),
      eq_iff q s.queue,
      eq_iff s.queue q,
    )
    | inr e ↦ ground (
      arith,
      lookup-insert groups s.queue q (group_of groups s.queue ++ s ∷ []),
      eq_iff q s.queue,
      eq_iff s.queue q,
      append-nil (group_of groups q),
    )
  ]
