-- ===== src/Bus/Kv/Following.antt =====
-- What each call on a bucket shows a watcher of all keys.
use tentacle_next.Prelude.{
  ℕ, String, Bool, true, false, not, ◌&&◌, ◌||◌, List, [], ◌∷◌, ◌++◌, str_eq, ◌==◌, if◌then◌else◌,
  Assoc, insert, erase, lookup-insert, lookup-erase, ◌≡◌, refl, fun_ext, sym, ap, ◌∙◌, arith,
}
use tentacle_next.Bus.Kv.{
  Entry, Bucket, Event, put, delete, Watcher, notify, put_entry, delete_entry, expire, erase_all,
  is_expired, watch, unwatch, replay, notify_deletes, cut_watcher,
}
use tentacle_next.Bus.Kv.Reads.{
  Call, put_call, delete_call, expire_call, watch_call, unwatch_call, call, calls,
}
use tentacle_next.Bus.Kv.Views.{
  View, write, see, see_all, values, sees_all, see_all-append, see_all-cons, see_all-notify,
}

pub values-insert :
    (entries : Assoc Entry) (key : String) (e : Entry)
    → values (insert entries key e) ≡ write key (put e.value) (values entries)
values-insert entries key e = fun_ext (λ other. ground (arith, lookup-insert entries key other e))

values-erase :
    (entries : Assoc Entry) (key : String)
    → values (erase entries key) ≡ write key delete (values entries)
values-erase entries key = fun_ext (λ other. ground (arith, lookup-erase entries key other))

see_all-notify_deletes :
    (handler : ℕ) (ws : List Watcher) (ks : List String) (entries : Assoc Entry)
    → sees_all handler ws ≡ true
    → see_all handler (notify_deletes ws ks) (values entries) ≡ values (erase_all ks entries)
unfolding notify_deletes erase_all see_all
see_all-notify_deletes handler ws [] entries h = refl
see_all-notify_deletes handler ws (k ∷ ks) entries h =
    see_all-append handler (notify ws k delete) (notify_deletes ws ks) (values entries)
    ∙ ap (λ v. see_all handler (notify_deletes ws ks) v)
        (see_all-notify handler ws k delete (values entries) h ∙ sym (values-erase entries k))
    ∙ see_all-notify_deletes handler ws ks (erase entries k) h

see-another :
    (handler : ℕ) (e : Event) (v : View) → (e.handler == handler) ≡ false → see handler e v ≡ v
see-another handler e v h = fun_ext (λ key. rw h refl)

see_all-if :
    (b c : Bool) (handler : ℕ) (e : Event) (es : List Event) (v : View)
    → see handler e v ≡ v
    → see_all handler es v ≡ v
    → see_all handler (if b then es else if c then e ∷ es else es) v ≡ v
see_all-if true c handler e es v one others = others
see_all-if false true handler e es v one others =
    see_all-cons handler e es v ∙ ap (λ u. see_all handler es u) one ∙ others
see_all-if false false handler e es v one others = others

see_all-replay_another :
    (now : ℕ) (key : String) (handler other : ℕ) (entries : Assoc Entry) (v : View)
    → (other == handler) ≡ false
    → see_all handler (replay now key other entries) v ≡ v
unfolding replay see_all
see_all-replay_another now key handler other [] v h = refl
see_all-replay_another now key handler other ((k, entry) ∷ entries) v h =
    see_all-if (is_expired now entry) (str_eq key "" || str_eq key k) handler
      (record { handler = other; key = k; op = put entry.value }) _ v
      (see-another handler (record { handler = other; key = k; op = put entry.value }) v h)
      (see_all-replay_another now key handler other entries v h)

sees_all-append :
    (handler : ℕ) (ws : List Watcher) (w : Watcher)
    → sees_all handler ws ≡ true
    → sees_all handler (ws ++ w ∷ []) ≡ true
sees_all-append handler [] w h = cc
sees_all-append handler (u ∷ ws) w h = ground (arith, sees_all-append handler ws w)

sees_all-cut_watcher :
    (handler other : ℕ) (ws : List Watcher)
    → (other == handler) ≡ false
    → sees_all handler ws ≡ true
    → sees_all handler (cut_watcher other ws) ≡ true
unfolding cut_watcher
sees_all-cut_watcher handler other [] n h = cc
sees_all-cut_watcher handler other (u ∷ ws) n h =
    ground (arith, sees_all-cut_watcher handler other ws n)

-- Whether the calls leave the watcher of that handler alone, and start no other of its handler.
abbrev pub leaves : ℕ → List Call → Bool
leaves handler [] = true
leaves handler (watch_call now key h ∷ cs) = not (h == handler) && leaves handler cs
leaves handler (unwatch_call h ∷ cs) = not (h == handler) && leaves handler cs
leaves handler (put_call now key value ∷ cs) = leaves handler cs
leaves handler (delete_call key ∷ cs) = leaves handler cs
leaves handler (expire_call now ∷ cs) = leaves handler cs

-- One call shows a watcher of all keys what it makes of the entries, and leaves it watching.
pub record Follows (handler : ℕ) (b : Bucket) (after : Bucket × List Event) : Type 0 where
  pub seen : see_all handler after.1 (values b.entries) ≡ values after.0.entries
  pub watching : sees_all handler after.0.watchers ≡ true

false-of_not : (b : Bool) → not b ≡ true → b ≡ false
false-of_not b h = ground arith

both : (a b : Bool) → (a && b) ≡ true → (a ≡ true) × (b ≡ true)
both a b h = ground arith

call-Follows :
    (handler : ℕ) (c : Call) (cs : List Call) (b : Bucket)
    → sees_all handler b.watchers ≡ true
    → leaves handler (c ∷ cs) ≡ true
    → Follows handler b (call c b) × (leaves handler cs ≡ true)
unfolding call put_entry delete_entry expire watch unwatch see_all
call-Follows handler (put_call now key value) cs b h l = (
  record {
    seen =
        see_all-notify handler b.watchers key (put value) (values b.entries) h
        ∙ sym (values-insert b.entries key _);
    watching = h;
  },
  l,
)
call-Follows handler (delete_call key) cs b h l = (
  record {
    seen =
        see_all-notify handler b.watchers key delete (values b.entries) h
        ∙ sym (values-erase b.entries key);
    watching = h;
  },
  l,
)
call-Follows handler (expire_call now) cs b h l =
    (record { seen = see_all-notify_deletes handler b.watchers _ b.entries h; watching = h }, l)
call-Follows handler (watch_call now key other) cs b h l =
    let (another, others) = both _ _ l in
    (
      record {
        seen = see_all-replay_another now key handler other b.entries _ (false-of_not _ another);
        watching = sees_all-append handler b.watchers _ h;
      },
      others,
    )
call-Follows handler (unwatch_call other) cs b h l =
    let (another, others) = both _ _ l in
    (
      record {
        seen = refl;
        watching = sees_all-cut_watcher handler other b.watchers (false-of_not _ another) h;
      },
      others,
    )

pub calls-Follows :
    (handler : ℕ) (cs : List Call) (b : Bucket)
    → sees_all handler b.watchers ≡ true
    → leaves handler cs ≡ true
    → Follows handler b (calls cs b)
unfolding calls see_all
calls-Follows handler [] b h l = record { seen = refl; watching = h }
calls-Follows handler (c ∷ cs) b h l =
    let (one, left) = call-Follows handler c cs b h l in
    let others = calls-Follows handler cs (call c b).0 one.watching left in
    record {
      seen =
          see_all-append handler (call c b).1 (calls cs (call c b).0).1 (values b.entries)
          ∙ ap (λ v. see_all handler (calls cs (call c b).0).1 v) one.seen
          ∙ others.seen;
      watching = others.watching;
    }
