-- ===== src/Ladder/Element/Effects.antt =====
-- What a rung writes.
use text.Mathlib.Text.{◌==◌ as str_eq}
use text.Mathlib.TextEquality.{eq_iff}
use tentacle_next.Prelude.{
  String, Bool, true, false, not, ◌&&◌, ◌||◌, some, List, [], ◌∷◌, ◌≡◌, refl, ap, ◌∙◌, arith,
  lookup, lookup-insert, if◌then◌else◌,
}
use tentacle_next.Ladder.State.{State, get_tag, set_tag}
use tentacle_next.Ladder.Element.{
  Element, Elements, Paths, no_contact, nc_contact, ote, otl, otu, res, ton_timer, tof_timer,
  ctu_counter, ctd_counter, branch, series, nil, cons, end, path, reset, evaluate, evaluate_all,
  evaluate_paths, evaluate_rungs, clear_counter, clear_timer, step_timer, step_counter,
}
use tentacle_next.Ladder.Element.Contacts.{all_only_contacts, conjunction, evaluate_all-conjunction}

-- Whether a coil of that tag occurs.
unfoldable mutual
  pub drives : String → Element → Bool
  drives tag (ote t) = str_eq tag t
  drives tag (otl t) = str_eq tag t
  drives tag (otu t) = str_eq tag t
  drives tag (branch ps) = paths_drive tag ps
  drives tag (series es) = all_drive tag es
  drives tag _ = false

  pub all_drive : String → Elements → Bool
  all_drive tag nil = false
  all_drive tag (cons e es) = drives tag e || all_drive tag es

  pub paths_drive : String → Paths → Bool
  paths_drive tag end = false
  paths_drive tag (path es ps) = all_drive tag es || paths_drive tag ps

unfoldable pub rungs_drive : String → List Elements → Bool
rungs_drive tag [] = false
rungs_drive tag (es ∷ rungs) = all_drive tag es || rungs_drive tag rungs

neither : (a b : Bool) → (a || b) ≡ false → (a ≡ false) × (b ≡ false)
neither a b h = ground arith

lookup-set_tag :
    (tag other : String) (v : Bool) (s : State)
    → lookup (set_tag tag v s).tags other
      ≡ (if str_eq other tag then some v else lookup s.tags other)
unfolding set_tag
lookup-set_tag tag other v s = lookup-insert s.tags tag other v

tags-reset : (tag : String) (r : Bool) (s : State) → (reset tag r s).tags ≡ s.tags
unfolding reset clear_counter clear_timer
tags-reset tag false s = refl
tags-reset tag true s = ground arith

set_other :
    (tag t : String) (v : Bool) (s : State)
    → str_eq tag t ≡ false
    → lookup (set_tag t v s).tags tag ≡ lookup s.tags tag
set_other tag t v s h = ground (arith, lookup-set_tag t tag v s)

mutual
  unfolding evaluate evaluate_all evaluate_paths drives all_drive paths_drive step_timer
      step_counter

  keeps :
      (tag : String) (e : Element) (r : Bool) (s : State)
      → drives tag e ≡ false
      → lookup (evaluate e r s).1.tags tag ≡ lookup s.tags tag
  keeps tag (no_contact t) r s h = refl
  keeps tag (nc_contact t) r s h = refl
  keeps tag (branch ps) r s h = keeps_paths tag ps r false s h
  keeps tag (series es) r s h = keeps_all tag es r s h
  keeps tag (ote t) r s h = set_other tag t r s h
  keeps tag (otl t) true s h = set_other tag t true s h
  keeps tag (otl t) false s h = refl
  keeps tag (otu t) true s h = set_other tag t false s h
  keeps tag (otu t) false s h = refl
  keeps tag (res t) r s h = ap (λ ts. lookup ts tag) (tags-reset t r s)
  keeps tag (ton_timer t p) r s h = refl
  keeps tag (tof_timer t p) r s h = refl
  keeps tag (ctu_counter t p) r s h = refl
  keeps tag (ctd_counter t p) r s h = refl

  keeps_all :
      (tag : String) (es : Elements) (r : Bool) (s : State)
      → all_drive tag es ≡ false
      → lookup (evaluate_all es r s).1.tags tag ≡ lookup s.tags tag
  keeps_all tag nil r s h = refl
  keeps_all tag (cons e es) r s h =
      let (one, others) = neither _ _ h in
      keeps_all tag es _ (evaluate e r s).1 others ∙ keeps tag e r s one

  keeps_paths :
      (tag : String) (ps : Paths) (r result : Bool) (s : State)
      → paths_drive tag ps ≡ false
      → lookup (evaluate_paths ps r result s).1.tags tag ≡ lookup s.tags tag
  keeps_paths tag end r result s h = refl
  keeps_paths tag (path es ps) r result s h =
      let (one, others) = neither _ _ h in
      keeps_paths tag ps r _ (evaluate_all es r s).1 others ∙ keeps_all tag es r s one

-- A scan's rungs change no tag but those of their coils: a tag of which no rung has a coil, in any
-- branch or series, is afterwards what it was, or is absent as it was.
pub lookup-evaluate_rungs :
    (tag : String) (rungs : List Elements) (s : State)
    → rungs_drive tag rungs ≡ false
    → lookup (evaluate_rungs rungs s).tags tag ≡ lookup s.tags tag
unfolding evaluate_rungs rungs_drive
lookup-evaluate_rungs tag [] s h = refl
lookup-evaluate_rungs tag (es ∷ rungs) s h =
    let (one, others) = neither _ _ h in
    lookup-evaluate_rungs tag rungs (evaluate_all es true s).1 others ∙ keeps_all tag es true s one

-- The elements of a rung, with one more at its end.
abbrev pub ends_in : Elements → Element → Elements
ends_in nil e = cons e nil
ends_in (cons d es) e = cons d (ends_in es e)

evaluate_all-ends_in :
    (es : Elements) (e : Element) (r : Bool) (s : State)
    → evaluate_all (ends_in es e) r s ≡ evaluate e (evaluate_all es r s).0 (evaluate_all es r s).1
unfolding evaluate_all
evaluate_all-ends_in nil e r s = refl
evaluate_all-ends_in (cons d es) e r s = evaluate_all-ends_in es e _ (evaluate d r s).1

get_set_tag : (tag : String) (v : Bool) (s : State) → get_tag tag (set_tag tag v s) ≡ v
unfolding get_tag
get_set_tag tag v s = ground (arith, lookup-set_tag tag tag v s, eq_iff tag tag)

rung_with_last :
    (es : Elements) (e : Element) (s : State)
    → all_only_contacts es ≡ true
    → evaluate_all (ends_in es e) true s ≡ evaluate e (conjunction es (λ t. get_tag t s)) s
rung_with_last es e s h =
    evaluate_all-ends_in es e true s
    ∙ ap (λ p. evaluate e p.0 p.1) (evaluate_all-conjunction es true s h)

output : (tag : String) (on : Bool) (s : State) → get_tag tag (evaluate (ote tag) on s).1 ≡ on
unfolding evaluate
output tag on s = get_set_tag tag on s

latch :
    (tag : String) (on : Bool) (s : State)
    → get_tag tag (evaluate (otl tag) on s).1 ≡ (get_tag tag s || on)
unfolding evaluate
latch tag true s = get_set_tag tag true s ∙ ground arith
latch tag false s = ground arith

unlatch :
    (tag : String) (on : Bool) (s : State)
    → get_tag tag (evaluate (otu tag) on s).1 ≡ (get_tag tag s && not on)
unfolding evaluate
unlatch tag true s = get_set_tag tag false s ∙ ground arith
unlatch tag false s = ground arith

-- Rungs whose other elements are contacts, branches and series of contacts, for the Boolean formula
-- that these draw of the tags before the rung: after one that ends in an output coil, the coil's tag
-- reads as the formula; after one that ends in a latch, as true where it read true before or the
-- formula holds; after one that ends in an unlatch, as true where it read true before and the formula
-- does not hold.
get_tag-coils :
    (es : Elements) (tag : String) (s : State)
    → all_only_contacts es ≡ true
    → (let on = conjunction es (λ t. get_tag t s) in
        (get_tag tag (evaluate_all (ends_in es (ote tag)) true s).1 ≡ on)
        × (get_tag tag (evaluate_all (ends_in es (otl tag)) true s).1 ≡ (get_tag tag s || on))
        × (get_tag tag (evaluate_all (ends_in es (otu tag)) true s).1 ≡ (get_tag tag s && not on)))
get_tag-coils es tag s h = (
  ap (λ p. get_tag tag p.1) (rung_with_last es (ote tag) s h) ∙ output tag _ s,
  ap (λ p. get_tag tag p.1) (rung_with_last es (otl tag) s h) ∙ latch tag _ s,
  ap (λ p. get_tag tag p.1) (rung_with_last es (otu tag) s h) ∙ unlatch tag _ s,
)
