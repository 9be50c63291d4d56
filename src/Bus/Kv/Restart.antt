-- ===== src/Bus/Kv/Restart.antt =====
-- Persistence: a bucket, its snapshot and the bucket that is made from it.
use tentacle_next.Prelude.{
  ℕ, String, Bool, true, ◌&&◌, Option, none, some, List, [], ◌∷◌, eq_iff, Assoc, lookup, insert,
  lookup-insert_same, ◌≡◌, refl, fun_ext, sym, ap, ◌∙◌, arith, Option-cases, subst, inl, inr, IsMap,
}
use tentacle_next.Bus.Kv.{
  Entry, Bucket, is_expired, save, load_entries, load, load_found, create, get, read_entry, Disk,
  put,
}
use tentacle_next.Bus.Kv.Reads.{Call, calls}
use tentacle_next.Bus.Kv.Views.{View, values, write}
use tentacle_next.Bus.Kv.Following.{values-insert}
use tentacle_next.Bus.Kv.Lasting.{
  is_lasting, all_lasting, IsLasting, calls-IsLasting, load_entries-IsLasting,
}

-- A snapshot's values, over a view for the keys that it does not have.
abbrev restored : Assoc (List ℕ) → View → View
restored snap v key = elim (lookup snap key) [ none ↦ v key | some value ↦ some value ]

restored-cons :
    (snap : Assoc (List ℕ)) (k : String) (value : List ℕ) (v : View)
    → lookup snap k ≡ none
    → restored snap (write k (put value) v) ≡ restored ((k, value) ∷ snap) v
unfolding lookup
restored-cons snap k value v h = fun_ext (λ key. ground (arith, eq_iff key k))

values-load_entries :
    (snap : Assoc (List ℕ)) (b : Bucket)
    → IsMap snap
    → values (load_entries snap b).entries ≡ restored snap (values b.entries)
unfolding load_entries IsMap
values-load_entries [] b w = unfold lookup in refl
values-load_entries ((k, value) ∷ snap) b (fresh, w) =
    values-load_entries snap _ w
    ∙ ap (restored snap) (values-insert b.entries k _)
    ∙ restored-cons snap k value (values b.entries) fresh

lasting-none : (e : Entry) → is_lasting e ≡ true → e.expires_at ≡ none
lasting-none e h = elim (Option-cases e.expires_at) [ inl n ↦ n | inr (at, x) ↦ ground (arith, x) ]

save-kept :
    (now : ℕ) (k : String) (e : Entry) (entries : Assoc Entry)
    → is_lasting e ≡ true
    → save now ((k, e) ∷ entries) ≡ (k, e.value) ∷ save now entries
unfolding save
save-kept now k e entries h = rw (lasting-none e h) refl

both : (a b : Bool) → (a && b) ≡ true → (a ≡ true) × (b ≡ true)
both a b h = ground arith

lookup-save :
    (now : ℕ) (entries : Assoc Entry) (key : String)
    → all_lasting entries ≡ true
    → lookup (save now entries) key ≡ values entries key
unfolding lookup
lookup-save now [] key l = unfold save in refl
lookup-save now ((k, e) ∷ entries) key l =
    let (one, others) = both _ _ l in
    ap (λ es. lookup es key) (save-kept now k e entries one)
    ∙ ground (arith, lookup-save now entries key others)

save-IsMap :
    (now : ℕ) (entries : Assoc Entry)
    → all_lasting entries ≡ true
    → IsMap entries
    → IsMap (save now entries)
unfolding IsMap
save-IsMap now [] l w = unfold save in tt
save-IsMap now ((k, e) ∷ entries) l (fresh, w) =
    let (one, others) = both _ _ l in
    subst IsMap (sym (save-kept now k e entries one)) (
      lookup-save now entries k others
          ∙ ap (λ (o : Option Entry). elim o [ none ↦ none | some f ↦ some f.value ]) fresh,
      save-IsMap now entries others w,
    )

-- The value that a read returns, if it returns one.
abbrev pub read_value : Option (List ℕ × ℕ) → Option (List ℕ)
read_value none = none
read_value (some found) = some found.0

read_lasting :
    (now : ℕ) (entries : Assoc Entry) (key : String)
    → all_lasting entries ≡ true
    → read_value (read_entry now (lookup entries key)) ≡ values entries key
unfolding lookup read_entry is_expired
read_lasting now [] key l = refl
read_lasting now ((k, e) ∷ entries) key l =
    let (one, others) = both _ _ l in
    let never = lasting-none e one in ground (arith, read_lasting now entries key others)

values-get :
    (now : ℕ) (key : String) (b : Bucket)
    → IsLasting b
    → read_value (get now key b) ≡ values b.entries key
unfolding get
values-get now key b h = read_lasting now b.entries key h.lasting

abbrev fresh_bucket : String → Bucket
fresh_bucket name = record {
  name = name;
  ttl = 0;
  entries = [];
  revision = 0;
  watchers = [];
  persist = true;
}

fresh-IsLasting : (name : String) → IsLasting (fresh_bucket name)
fresh-IsLasting name = record { endless = refl; is_map = unfold IsMap in tt; lasting = refl }

load_found-IsLasting :
    (found : Option (Assoc (List ℕ))) (b : Bucket) → IsLasting b → IsLasting (load_found found b)
unfolding load_found
load_found-IsLasting none b h = h
load_found-IsLasting (some snap) b h = load_entries-IsLasting snap b h

create-IsLasting : (disk : Disk) (name : String) → IsLasting (create true disk name 0)
unfolding create load
create-IsLasting disk name = load_found-IsLasting _ (fresh_bucket name) (fresh-IsLasting name)

create-saved :
    (disk : Disk) (name : String) (snap : Assoc (List ℕ))
    → create true (insert disk name snap) name 0 ≡ load_entries snap (fresh_bucket name)
unfolding create load load_found
create-saved disk name snap =
    ap (λ found. load_found found (fresh_bucket name)) (lookup-insert_same disk name snap)

self_or_none : (o : Option (List ℕ)) → (elim o [ none ↦ none | some value ↦ some value ]) ≡ o
self_or_none none = refl
self_or_none (some value) = refl

restored_alone :
    (snap : Assoc (List ℕ)) (name key : String)
    → restored snap (values (fresh_bucket name).entries) key ≡ lookup snap key
unfolding lookup
restored_alone snap name key = self_or_none (lookup snap key)

-- A bucket without a lifetime survives a restart: take the bucket as KVCreate makes it from the
-- snapshots on disk, after any calls on it; once its snapshot has been saved over the old one,
-- KVCreate on a new bus gives a bucket in which every key reads as the same value, or as the same
-- absence, at whatever times the reads and the saving are.
pub get-create :
    (cs : List Call) (disk : Disk) (name key : String) (saved_at before after : ℕ)
    → (let b = (calls cs (create true disk name 0)).0 in
        read_value (get after key (create true (insert disk name (save saved_at b.entries)) name 0))
        ≡ read_value (get before key b))
get-create cs disk name key saved_at before after =
    let b = (calls cs (create true disk name 0)).0 in
    let h = calls-IsLasting cs _ (create-IsLasting disk name) in
    let snap = save saved_at b.entries in
    values-get after key _ (create-IsLasting (insert disk name snap) name)
    ∙ ap (λ (c : Bucket). values c.entries key) (create-saved disk name snap)
    ∙ ap (λ (v : View). v key)
        (values-load_entries snap (fresh_bucket name)
          (save-IsMap saved_at b.entries h.lasting h.is_map))
    ∙ restored_alone snap name key
    ∙ lookup-save saved_at b.entries key h.lasting
    ∙ sym (values-get before key b h)
