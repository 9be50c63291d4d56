-- ===== src/Bus/Kv/Watching.antt =====
-- What a watcher of all keys knows of a bucket.
use tentacle_next.Prelude.{
  ℕ, String, true, false, none, some, List, [], ◌∷◌, ◌++◌, eq_iff, ==_iff, Assoc, lookup, ◌≡◌, refl,
  fun_ext, ap, ◌∙◌, arith, Bool-cases, inl, inr, IsMap,
}
use tentacle_next.Bus.Kv.{Entry, Bucket, put, Watcher, expired_keys, is_expired, watch, replay}
use tentacle_next.Bus.Kv.Reads.{Call, calls}
use tentacle_next.Bus.Kv.Views.{
  View, write, see, see_all, values, sees_all, see_all-append, see_all-cons,
}
use tentacle_next.Bus.Kv.Following.{leaves, calls-Follows}

abbrev pub no_values : View
no_values key = none

-- The entries' values, over a view for the keys that they do not have.
abbrev over : Assoc Entry → View → View
over entries v key = elim (lookup entries key) [ none ↦ v key | some f ↦ some f.value ]

over-cons :
    (entries : Assoc Entry) (k : String) (e : Entry) (v : View)
    → lookup entries k ≡ none
    → over entries (write k (put e.value) v) ≡ over ((k, e) ∷ entries) v
unfolding lookup
over-cons entries k e v h = fun_ext (λ key. ground (arith, eq_iff key k))

fresh_entry :
    (now : ℕ) (k : String) (e : Entry) (entries : Assoc Entry)
    → expired_keys now ((k, e) ∷ entries) ≡ []
    → (is_expired now e ≡ false) × (expired_keys now entries ≡ [])
unfolding expired_keys
fresh_entry now k e entries h = elim (Bool-cases (is_expired now e)) [
  | inl x ↦ ground arith
  | inr x ↦ (x, ground arith)
]

replay-fresh :
    (now handler : ℕ) (k : String) (e : Entry) (entries : Assoc Entry)
    → is_expired now e ≡ false
    → replay now "" handler ((k, e) ∷ entries)
      ≡ record { handler = handler; key = k; op = put e.value } ∷ replay now "" handler entries
unfolding replay
replay-fresh now handler k e entries h = rw h refl

see-put :
    (handler : ℕ) (k : String) (value : List ℕ) (v : View)
    → see handler (record { handler = handler; key = k; op = put value }) v ≡ write k (put value) v
see-put handler k value v = fun_ext (λ key. ground (arith, ==_iff handler handler))

see_all-replay :
    (now handler : ℕ) (entries : Assoc Entry) (v : View)
    → IsMap entries
    → expired_keys now entries ≡ []
    → see_all handler (replay now "" handler entries) v ≡ over entries v
unfolding IsMap
see_all-replay now handler [] v w h = unfold lookup see_all replay in refl
see_all-replay now handler ((k, e) ∷ entries) v (fresh, w) h =
    let (one, others) = fresh_entry now k e entries h in
    ap (λ es. see_all handler es v) (replay-fresh now handler k e entries one)
    ∙ see_all-cons handler _ (replay now "" handler entries) v
    ∙ ap (λ u. see_all handler (replay now "" handler entries) u) (see-put handler k e.value v)
    ∙ see_all-replay now handler entries (write k (put e.value) v) w others
    ∙ over-cons entries k e v fresh

last_sees_all :
    (handler : ℕ) (ws : List Watcher)
    → sees_all handler (ws ++ record { key = ""; handler = handler; active = true } ∷ []) ≡ true
last_sees_all handler [] = ground (arith, ==_iff handler handler)
last_sees_all handler (w ∷ ws) = ground (arith, last_sees_all handler ws)

-- A watcher of all keys that starts on a bucket without expired entries knows the bucket: after any
-- calls that do not end the watch nor start another with its handler, its own callbacks, played in
-- the order in which they were started onto an empty view, give for every key the value of the
-- bucket's entry, and nothing exactly where there is no entry.
pub see_all-watch :
    (now handler : ℕ) (cs : List Call) (b : Bucket)
    → IsMap b.entries
    → expired_keys now b.entries ≡ []
    → leaves handler cs ≡ true
    → (let (watched, replayed) = watch now "" handler b in
        let (after, events) = calls cs watched in
        see_all handler (replayed ++ events) no_values ≡ values after.entries)
unfolding watch
see_all-watch now handler cs b w fresh l =
    let watched = (watch now "" handler b).0 in
    let later = calls-Follows handler cs watched (last_sees_all handler b.watchers) l in
    see_all-append handler (replay now "" handler b.entries) (calls cs watched).1 no_values
    ∙ ap (λ v. see_all handler (calls cs watched).1 v)
        (see_all-replay now handler b.entries no_values w fresh)
    ∙ later.seen
