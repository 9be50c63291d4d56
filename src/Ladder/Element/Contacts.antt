-- ===== src/Ladder/Element/Contacts.antt =====
-- Networks of contacts, and the Boolean formulas that they draw.
use tentacle_next.Prelude.{String, Bool, true, false, not, ◌&&◌, ◌||◌, ◌≡◌, refl, ap, ◌∙◌, arith}
use tentacle_next.Ladder.State.{State, get_tag}
use tentacle_next.Ladder.Element.{
  Element, Elements, Paths, no_contact, nc_contact, ote, otl, otu, res, ton_timer, tof_timer,
  ctu_counter, ctd_counter, branch, series, nil, cons, end, path, evaluate, evaluate_all,
  evaluate_paths,
}

-- Whether an element is built of contacts alone.
unfoldable mutual
  pub only_contacts : Element → Bool
  only_contacts (no_contact tag) = true
  only_contacts (nc_contact tag) = true
  only_contacts (branch ps) = paths_only_contacts ps
  only_contacts (series es) = all_only_contacts es
  only_contacts _ = false

  pub all_only_contacts : Elements → Bool
  all_only_contacts nil = true
  all_only_contacts (cons e es) = only_contacts e && all_only_contacts es

  pub paths_only_contacts : Paths → Bool
  paths_only_contacts end = true
  paths_only_contacts (path es ps) = all_only_contacts es && paths_only_contacts ps

-- The Boolean formula that a network of contacts draws.
unfoldable mutual
  pub formula : Element → (String → Bool) → Bool
  formula (no_contact tag) v = v tag
  formula (nc_contact tag) v = not (v tag)
  formula (branch ps) v = some_path ps v
  formula (series es) v = conjunction es v
  formula _ v = false

  pub conjunction : Elements → (String → Bool) → Bool
  conjunction nil v = true
  conjunction (cons e es) v = formula e v && conjunction es v

  pub some_path : Paths → (String → Bool) → Bool
  some_path end v = false
  some_path (path es ps) v = conjunction es v || some_path ps v

both : (a b : Bool) → (a && b) ≡ true → (a ≡ true) × (b ≡ true)
both a b h = ground arith

or_false : (a : Bool) → (a || false) ≡ a
or_false a = ground arith

and_assoc : (r a b : Bool) → ((r && a) && b) ≡ (r && (a && b))
and_assoc r a b = ground arith

distribute : (r a b x : Bool) → ((r && b) || ((r && a) || x)) ≡ ((r && (a || b)) || x)
distribute r a b x = ground arith

mutual
  unfolding evaluate evaluate_all evaluate_paths only_contacts all_only_contacts paths_only_contacts
      formula conjunction some_path

  network :
      (e : Element) (r : Bool) (s : State)
      → only_contacts e ≡ true
      → evaluate e r s ≡ (r && formula e (λ t. get_tag t s), s)
  network (no_contact tag) r s h = refl
  network (nc_contact tag) r s h = refl
  network (branch ps) r s h = network_paths ps r false s h ∙ ap (λ (b : Bool). (b, s)) (or_false _)
  network (series es) r s h = network_all es r s h
  network (ote tag) r s h = cc
  network (otl tag) r s h = cc
  network (otu tag) r s h = cc
  network (res tag) r s h = cc
  network (ton_timer tag p) r s h = cc
  network (tof_timer tag p) r s h = cc
  network (ctu_counter tag p) r s h = cc
  network (ctd_counter tag p) r s h = cc

  network_all :
      (es : Elements) (r : Bool) (s : State)
      → all_only_contacts es ≡ true
      → evaluate_all es r s ≡ (r && conjunction es (λ t. get_tag t s), s)
  network_all nil r s h = ground arith
  network_all (cons e es) r s h =
      let (one, others) = both _ _ h in
      rw (network e r s one)
        (network_all es _ s others ∙ ap (λ (b : Bool). (b, s)) (and_assoc r _ _))

  network_paths :
      (ps : Paths) (r result : Bool) (s : State)
      → paths_only_contacts ps ≡ true
      → evaluate_paths ps r result s ≡ ((r && some_path ps (λ t. get_tag t s)) || result, s)
  network_paths end r result s h = ground arith
  network_paths (path es ps) r result s h =
      let (one, others) = both _ _ h in
      rw (network_all es r s one)
        (network_paths ps r _ s others ∙ ap (λ (b : Bool). (b, s)) (distribute r _ _ result))

-- A rung of contacts, branches and series that are built of contacts alone changes nothing of the
-- state, reads the clock never, and passes on its input exactly where the Boolean formula it draws
-- holds of the tags: a series is a conjunction, a branch a disjunction of its paths, and a normally
-- closed contact a negation. The tags read are plain ones, or the bits of timers and counters.
pub evaluate_all-conjunction :
    (es : Elements) (r : Bool) (s : State)
    → all_only_contacts es ≡ true
    → evaluate_all es r s ≡ (r && conjunction es (λ t. get_tag t s), s)
evaluate_all-conjunction es r s h = network_all es r s h
