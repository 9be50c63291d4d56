-- ===== src/Bus/Kv.antt =====
-- The key-value buckets of internal/bus/channel.go. Times and lifetimes are nanoseconds; a callback
-- that an operation starts is an event in its result. The directory of snapshots is a map from a
-- bucket's name to the entries of its file, where a missing file and one that does not parse are both
-- absent: the JSON encoding and the file system are not modelled.
pub mod Reads
pub mod Views
pub mod Following
pub mod Watching
pub mod Lasting
pub mod Restart
pub mod Store
use tentacle_next.Prelude.{
  ℕ, suc, ◌+◌, String, Bool, true, false, not, ◌&&◌, ◌||◌, Option, none, some, List, [], ◌∷◌, ◌++◌,
  str_eq, ltb, ◌==◌, if◌then◌else◌, Assoc, lookup, insert, erase,
}

-- `expires_at` is none for the zero time.
pub record Entry : Type 0 where
  pub value : List ℕ
  pub revision : ℕ
  pub expires_at : Option ℕ

-- kvWatcher: an empty key watches all, and the handler is known by its number.
pub record Watcher : Type 0 where
  pub key : String
  pub handler : ℕ
  pub active : Bool

-- kvBucket; a lifetime of 0 is none.
pub record Bucket : Type 0 where
  pub name : String
  pub ttl : ℕ
  pub entries : Assoc Entry
  pub revision : ℕ
  pub watchers : List Watcher
  pub persist : Bool

pub data Op : Type 0 where
  put : List ℕ → Op
  delete : Op

-- A call of a watcher's handler.
pub record Event : Type 0 where
  pub handler : ℕ
  pub key : String
  pub op : Op

-- now.After(entry.expiresAt), where that time is set
unfoldable pub is_expired : ℕ → Entry → Bool
is_expired now entry = elim entry.expires_at [ none ↦ false | some at ↦ ltb at now ]

abbrev pub watches : Watcher → String → Bool
watches w key = w.active && (str_eq w.key "" || str_eq w.key key)

-- The watchers of a key are called one after the other.
unfoldable pub notify : List Watcher → String → Op → List Event
notify [] key op = []
notify (w ∷ ws) key op =
    let others = notify ws key op in
    if watches w key then record { handler = w.handler; key = key; op = op } ∷ others else others

-- What a read makes of an entry or its absence.
unfoldable pub read_entry : ℕ → Option Entry → Option (List ℕ × ℕ)
read_entry now none = none
read_entry now (some entry) =
    if is_expired now entry then none else some (entry.value, entry.revision)

-- KVGet on the bucket: the value and its revision, or the error that the key is not found.
unfoldable pub get : ℕ → String → Bucket → Option (List ℕ × ℕ)
get now key b = read_entry now (lookup b.entries key)

-- KVPut on the bucket: the bucket, the callbacks and the revision.
unfoldable pub put_entry : ℕ → String → List ℕ → Bucket → Bucket × List Event × ℕ
put_entry now key value b =
    let rev = b.revision + 1 in
    let expires_at = if b.ttl == 0 then none else some (now + b.ttl) in
    let entry : Entry = record { value = value; revision = rev; expires_at = expires_at } in
    (
      record b { entries = insert b.entries key entry; revision = rev },
      notify b.watchers key (put value),
      rev,
    )

-- KVDelete on the bucket.
unfoldable pub delete_entry : String → Bucket → Bucket × List Event
delete_entry key b = (record b { entries = erase b.entries key }, notify b.watchers key delete)

unfoldable pub live_keys : ℕ → Assoc Entry → List String
live_keys now [] = []
live_keys now ((k, entry) ∷ entries) =
    let others = live_keys now entries in if is_expired now entry then others else k ∷ others

-- KVKeys on the bucket.
abbrev pub keys : ℕ → Bucket → List String
keys now b = live_keys now b.entries

unfoldable pub replay : ℕ → String → ℕ → Assoc Entry → List Event
replay now key handler [] = []
replay now key handler ((k, entry) ∷ entries) =
    let others = replay now key handler entries in
    if is_expired now entry
    then others
    else if str_eq key "" || str_eq key k
    then record { handler = handler; key = k; op = put entry.value } ∷ others
    else others

-- KVWatch on the bucket: existing entries are replayed to the new watcher.
unfoldable pub watch : ℕ → String → ℕ → Bucket → Bucket × List Event
watch now key handler b =
    let w : Watcher = record { key = key; handler = handler; active = true } in
    (record b { watchers = b.watchers ++ w ∷ [] }, replay now key handler b.entries)

unfoldable pub cut_watcher : ℕ → List Watcher → List Watcher
cut_watcher handler [] = []
cut_watcher handler (w ∷ ws) =
    let others = cut_watcher handler ws in if w.handler == handler then ws else w ∷ others

-- Unsubscribe of a watch; a handler's number stands for the watcher's address.
unfoldable pub unwatch : ℕ → Bucket → Bucket
unwatch handler b = record b { watchers = cut_watcher handler b.watchers }

unfoldable pub expired_keys : ℕ → Assoc Entry → List String
expired_keys now [] = []
expired_keys now ((k, entry) ∷ entries) =
    let others = expired_keys now entries in if is_expired now entry then k ∷ others else others

unfoldable pub erase_all : List String → Assoc Entry → Assoc Entry
erase_all [] entries = entries
erase_all (k ∷ ks) entries = erase_all ks (erase entries k)

unfoldable pub notify_deletes : List Watcher → List String → List Event
notify_deletes ws [] = []
notify_deletes ws (k ∷ ks) = notify ws k delete ++ notify_deletes ws ks

-- expireTTL on one bucket, which the caller has chosen for its lifetime.
unfoldable pub expire : ℕ → Bucket → Bucket × List Event
expire now b =
    let expired = expired_keys now b.entries in
    (record b { entries = erase_all expired b.entries }, notify_deletes b.watchers expired)

-- The snapshot that save writes: values of entries that have not expired.
unfoldable pub save : ℕ → Assoc Entry → Assoc (List ℕ)
save now [] = []
save now ((k, entry) ∷ entries) =
    let others = save now entries in
    let kept : Bool = elim entry.expires_at [ none ↦ true | some at ↦ ltb now at ] in
    if kept then (k, entry.value) ∷ others else others

-- The loop of load over the snapshot's entries.
unfoldable pub load_entries : Assoc (List ℕ) → Bucket → Bucket
load_entries [] b = b
load_entries ((k, v) ∷ entries) b =
    let rev = b.revision + 1 in
    let entry : Entry = record { value = v; revision = rev; expires_at = none } in
    load_entries entries (record b { revision = rev; entries = insert b.entries k entry })

abbrev Disk : Type 0
Disk = Assoc (Assoc (List ℕ))

unfoldable pub load_found : Option (Assoc (List ℕ)) → Bucket → Bucket
load_found none b = b
load_found (some snap) b = load_entries snap b

unfoldable pub load : Disk → Bucket → Bucket
load disk b = load_found (lookup disk b.name) b

-- The bucket that KVCreate makes where there is none of that name; `has_dir` is whether the bus has a
-- data directory.
unfoldable pub create : Bool → Disk → String → ℕ → Bucket
create has_dir disk name ttl =
    let should_persist = has_dir && (ttl == 0) in
    let b : Bucket = record {
      name = name;
      ttl = ttl;
      entries = [];
      revision = 0;
      watchers = [];
      persist = should_persist;
    } in
    if should_persist then load disk b else b
