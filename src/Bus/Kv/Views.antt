-- ===== src/Bus/Kv/Views.antt =====
-- A view of a bucket that a watcher of all keys builds from its events.
use tentacle_next.Prelude.{
  ℕ, String, Bool, true, false, ◌&&◌, ◌||◌, Option, none, some, List, [], ◌∷◌, ◌++◌, str_eq, ◌==◌,
  if◌then◌else◌, Assoc, lookup, ◌≡◌, refl, fun_ext, ap, ◌∙◌, arith, Bool-cases, inl, inr,
}
use tentacle_next.Bus.Kv.{Entry, Event, Op, put, delete, Watcher, watches, notify}

-- Values by key, as a watcher keeps them.
abbrev pub View : Type 0
View = String → Option (List ℕ)

abbrev pub written : Op → Option (List ℕ)
written (put value) = some value
written delete = none

-- A watcher's own event sets the key's value or forgets it; another's does nothing.
abbrev pub see : ℕ → Event → View → View
see handler e v key = if e.handler == handler && str_eq key e.key then written e.op else v key

unfoldable pub see_all : ℕ → List Event → View → View
see_all handler [] v = v
see_all handler (e ∷ es) v = see_all handler es (see handler e v)

abbrev pub values : Assoc Entry → View
values entries key = elim (lookup entries key) [ none ↦ none | some e ↦ some e.value ]

-- Whether a watcher of all keys has that handler.
abbrev pub sees_all : ℕ → List Watcher → Bool
sees_all handler [] = false
sees_all handler (w ∷ ws) =
    (w.active && str_eq w.key "" && (w.handler == handler)) || sees_all handler ws

pub see_all-cons :
    (handler : ℕ) (e : Event) (es : List Event) (v : View)
    → see_all handler (e ∷ es) v ≡ see_all handler es (see handler e v)
unfolding see_all
see_all-cons handler e es v = refl

pub see_all-append :
    (handler : ℕ) (es fs : List Event) (v : View)
    → see_all handler (es ++ fs) v ≡ see_all handler fs (see_all handler es v)
unfolding see_all
see_all-append handler [] fs v = refl
see_all-append handler (e ∷ es) fs v = see_all-append handler es fs (see handler e v)

abbrev pub write : String → Op → View → View
write key op v other = if str_eq other key then written op else v other

abbrev event : Watcher → String → Op → Event
event w key op = record { handler = w.handler; key = key; op = op }

notify-shut :
    (w : Watcher) (ws : List Watcher) (key : String) (op : Op)
    → watches w key ≡ false
    → notify (w ∷ ws) key op ≡ notify ws key op
unfolding notify
notify-shut w ws key op h = rw h refl

notify-open :
    (w : Watcher) (ws : List Watcher) (key : String) (op : Op)
    → watches w key ≡ true
    → notify (w ∷ ws) key op ≡ event w key op ∷ notify ws key op
unfolding notify
notify-open w ws key op h = rw h refl

see-own :
    (handler : ℕ) (w : Watcher) (key : String) (op : Op) (v : View)
    → (w.handler == handler) ≡ true
    → see handler (event w key op) v ≡ write key op v
see-own handler w key op v h = fun_ext (λ other. rw h refl)

see-other :
    (handler : ℕ) (w : Watcher) (key : String) (op : Op) (v : View)
    → (w.handler == handler) ≡ false
    → see handler (event w key op) v ≡ v
see-other handler w key op v h = fun_ext (λ other. rw h refl)

write_twice : (key : String) (op : Op) (v : View) → write key op (write key op v) ≡ write key op v
write_twice key op v = fun_ext (λ other. ground arith)

-- Once a view has taken a write, further events of it leave the view as it is.
see_all-notify_again :
    (handler : ℕ) (ws : List Watcher) (key : String) (op : Op) (v : View)
    → see_all handler (notify ws key op) (write key op v) ≡ write key op v
see_all-notify_again handler [] key op v = (unfold see_all notify in refl)
see_all-notify_again handler (w ∷ ws) key op v = elim (Bool-cases (watches w key)) [
  | inr shut ↦
      ap (λ es. see_all handler es (write key op v)) (notify-shut w ws key op shut)
      ∙ see_all-notify_again handler ws key op v
  | inl opened ↦
      ap (λ es. see_all handler es (write key op v)) (notify-open w ws key op opened)
      ∙ see_all-cons handler (event w key op) (notify ws key op) (write key op v)
      ∙ ap (λ u. see_all handler (notify ws key op) u)
          (elim (Bool-cases (w.handler == handler)) [
            | inl own ↦ see-own handler w key op (write key op v) own ∙ write_twice key op v
            | inr other ↦ see-other handler w key op (write key op v) other
          ])
      ∙ see_all-notify_again handler ws key op v
]

pub others_see_all :
    (handler : ℕ) (w : Watcher) (ws : List Watcher)
    → (w.active && str_eq w.key "" && (w.handler == handler)) ≡ false
    → sees_all handler (w ∷ ws) ≡ true
    → sees_all handler ws ≡ true
others_see_all handler w ws h s = ground arith

pub see_all-notify :
    (handler : ℕ) (ws : List Watcher) (key : String) (op : Op) (v : View)
    → sees_all handler ws ≡ true
    → see_all handler (notify ws key op) v ≡ write key op v
see_all-notify handler [] key op v h = cc
see_all-notify handler (w ∷ ws) key op v h = elim (Bool-cases (watches w key)) [
  | inr shut ↦
      ap (λ es. see_all handler es v) (notify-shut w ws key op shut)
      ∙ see_all-notify handler ws key op v (others_see_all handler w ws (ground arith) h)
  | inl opened ↦
      ap (λ es. see_all handler es v) (notify-open w ws key op opened)
      ∙ see_all-cons handler (event w key op) (notify ws key op) v
      ∙ elim (Bool-cases (w.handler == handler)) [
        | inl own ↦
            ap (λ u. see_all handler (notify ws key op) u) (see-own handler w key op v own)
            ∙ see_all-notify_again handler ws key op v
        | inr other ↦
            ap (λ u. see_all handler (notify ws key op) u) (see-other handler w key op v other)
            ∙ see_all-notify handler ws key op v (others_see_all handler w ws (ground arith) h)
      ]
]
