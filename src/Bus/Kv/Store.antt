-- ===== src/Bus/Kv/Store.antt =====
-- The bus's key-value operations of internal/bus/channel.go, over its buckets and its directory.
use tentacle_next.Prelude.{
  ℕ, ◌+◌, leb, ◌||◌, ◌&&◌, Bool-cases, String, Bool, true, false, Option, none, some, List, [], ◌∷◌,
  ◌++◌, ◌==◌, str_eq, if◌then◌else◌, Assoc, lookup, insert, lookup-insert, ◌≡◌, refl, ap, ◌∙◌, sym,
  eq_iff, inl, inr,
}
use tentacle_next.Bus.Kv.Reads.{get-put_entry}
use tentacle_next.Bus.Kv.{
  Bucket, Event, Disk, create, get, put_entry, delete_entry, keys, watch, expire, save,
}

-- `has_dir` is whether the bus was made with a data directory.
pub record Store : Type 0 where
  pub kv : Assoc Bucket
  pub disk : Disk
  pub has_dir : Bool

-- The error of getBucket is none.
abbrev pub get_bucket : String → Store → Option Bucket
get_bucket name s = lookup s.kv name

unfoldable pub kv_create : String → ℕ → Store → Store
kv_create name ttl s = elim (lookup s.kv name) [
  | some b ↦ s
  | none ↦ record s { kv = insert s.kv name (create s.has_dir s.disk name ttl) }
]

-- The bucket is shared, so its new state is seen by all; a persistent one is saved.
unfoldable pub store_bucket : ℕ → String → Bucket → Store → Store
store_bucket now name b s =
    let disk = if b.persist then insert s.disk b.name (save now b.entries) else s.disk in
    record s { kv = insert s.kv name b; disk = disk }

-- The errors of a read.
pub data Read : Type 0 where
  no_bucket no_key : Read
  found : List ℕ → ℕ → Read

abbrev read_of : Option (List ℕ × ℕ) → Read
read_of none = no_key
read_of (some r) = found r.0 r.1

unfoldable pub kv_get : ℕ → String → String → Store → Read
kv_get now name key s = elim (get_bucket name s) [
  | none ↦ no_bucket
  | some b ↦ read_of (get now key b)
]

unfoldable pub kv_put : ℕ → String → String → List ℕ → Store → Option (Store × List Event × ℕ)
kv_put now name key value s = elim (get_bucket name s) [
  | none ↦ none
  | some b ↦
      let (b', events, rev) = put_entry now key value b in
      some (store_bucket now name b' s, events, rev)
]

unfoldable pub kv_delete : ℕ → String → String → Store → Option (Store × List Event)
kv_delete now name key s = elim (get_bucket name s) [
  | none ↦ none
  | some b ↦ let (b', events) = delete_entry key b in some (store_bucket now name b' s, events)
]

unfoldable pub kv_keys : ℕ → String → Store → Option (List String)
kv_keys now name s = elim (get_bucket name s) [ none ↦ none | some b ↦ some (keys now b) ]

unfoldable pub kv_watch : ℕ → String → String → ℕ → Store → Option (Store × List Event)
kv_watch now name key handler s = elim (get_bucket name s) [
  | none ↦ none
  | some b ↦
      let (b', events) = watch now key handler b in
      some (record s { kv = insert s.kv name b' }, events)
]

-- expireTTL: the buckets that have a lifetime, one after the other.
unfoldable pub expire_buckets : ℕ → Assoc Bucket → Assoc Bucket × List Event
expire_buckets now [] = ([], [])
expire_buckets now ((name, b) ∷ others) =
    let (rest, later) = expire_buckets now others in
    let (b', events) = expire now b in
    if b.ttl == 0 then ((name, b) ∷ rest, later) else ((name, b') ∷ rest, events ++ later)

unfoldable pub expire_ttl : ℕ → Store → Store × List Event
expire_ttl now s = let (kv, events) = expire_buckets now s.kv in (record s { kv = kv }, events)

kv_get-some :
    (now : ℕ) (name key : String) (s : Store) (b : Bucket)
    → lookup s.kv name ≡ some b
    → kv_get now name key s ≡ read_of (get now key b)
unfolding kv_get
kv_get-some now name key s b h =
    ap (λ (o : Option Bucket). elim o [ none ↦ no_bucket | some c ↦ read_of (get now key c) ]) h

kv_get-lookup :
    (now : ℕ) (name key : String) (s t : Store)
    → lookup s.kv name ≡ lookup t.kv name
    → kv_get now name key s ≡ kv_get now name key t
unfolding kv_get
kv_get-lookup now name key s t h =
    ap (λ (o : Option Bucket). elim o [ none ↦ no_bucket | some c ↦ read_of (get now key c) ]) h

kv_put-some :
    (now : ℕ) (name key : String) (value : List ℕ) (s : Store) (b : Bucket)
    → lookup s.kv name ≡ some b
    → kv_put now name key value s ≡ (
        let (b', events, rev) = put_entry now key value b in
        some (store_bucket now name b' s, events, rev))
unfolding kv_put
kv_put-some now name key value s b h =
    ap
      (λ (o : Option Bucket). elim o [
        | none ↦ none
        | some c ↦
            let (b', events, rev) = put_entry now key value c in
            some (store_bucket now name b' s, events, rev)
      ])
      h

kv-store_bucket :
    (now : ℕ) (name other : String) (b : Bucket) (s : Store)
    → lookup (store_bucket now name b s).kv other
      ≡ (if str_eq other name then some b else lookup s.kv other)
unfolding store_bucket
kv-store_bucket now name other b s = lookup-insert s.kv name other b

read_of-if :
    (k c : Bool) (value : List ℕ) (rev : ℕ) (old : Option (List ℕ × ℕ))
    → read_of (if k then if c then some (value, rev) else none else old)
      ≡ (if k then if c then found value rev else no_key else read_of old)
read_of-if true true value rev old = refl
read_of-if true false value rev old = refl
read_of-if false c value rev old = refl

if_both : (a b : Bool) (x y : Read) → a ≡ true → (if b then x else y) ≡ (if a && b then x else y)
if_both a b x y h = rw h refl

kv_get-put :
    (put_at now : ℕ) (name other_name key other : String) (value : List ℕ) (s : Store) (b : Bucket)
    → lookup s.kv name ≡ some b
    → kv_get now other_name other (store_bucket put_at name (put_entry put_at key value b).0 s) ≡ (
        if str_eq other_name name && str_eq other key
        then if b.ttl == 0 || leb now (put_at + b.ttl) then found value (b.revision + 1) else no_key
        else kv_get now other_name other s)
kv_get-put put_at now name other_name key other value s b h =
    let b' = (put_entry put_at key value b).0 in
    let s' = store_bucket put_at name b' s in
    elim (Bool-cases (str_eq other_name name)) [
      | inl e ↦
          let there : lookup s.kv other_name ≡ some b =
            ap (lookup s.kv) ((eq_iff other_name name).0 e) ∙ h in
          kv_get-some now other_name other s' b'
            (kv-store_bucket put_at name other_name b' s ∙ rw e refl)
          ∙ ap read_of (get-put_entry put_at now key other value b)
          ∙ read_of-if (str_eq other key) _ value (b.revision + 1) (get now other b)
          ∙ ap
              (λ (r : Read).
                if str_eq other key
                then if b.ttl == 0 || leb now (put_at + b.ttl)
                  then found value (b.revision + 1)
                  else no_key
                else r)
              (sym (kv_get-some now other_name other s b there))
          ∙ if_both (str_eq other_name name) (str_eq other key) _ _ e
      | inr e ↦
          kv_get-lookup now other_name other s' s
            (kv-store_bucket put_at name other_name b' s ∙ rw e refl)
          ∙ rw e refl
    ]

-- A put into a bucket that exists succeeds with the revision after the bucket's last. Afterwards the
-- key reads as the value with that revision until the bucket's lifetime, if it has one, has passed
-- since the put, and as not found from then on; every other key of the bucket, and every key of every
-- other bucket, reads as before the put.
pub kv_get-kv_put :
    (put_at now : ℕ) (name key : String) (value : List ℕ) (s : Store) (b : Bucket)
    → lookup s.kv name ≡ some b
    → (after : Store) × (events : List Event) × (kv_put put_at name key value s
        ≡ some (after, events, b.revision + 1))
      × ((other_name other : String)
          → kv_get now other_name other after ≡ (
              if str_eq other_name name && str_eq other key
              then if b.ttl == 0 || leb now (put_at + b.ttl)
                then found value (b.revision + 1)
                else no_key
              else kv_get now other_name other s))
kv_get-kv_put put_at now name key value s b h = (
  store_bucket put_at name (put_entry put_at key value b).0 s,
  (put_entry put_at key value b).1,
  kv_put-some put_at name key value s b h ∙ (unfold put_entry in refl),
  λ other_name other. kv_get-put put_at now name other_name key other value s b h,
)
