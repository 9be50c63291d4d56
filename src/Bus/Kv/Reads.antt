-- ===== src/Bus/Kv/Reads.antt =====
-- What a bucket's reads return after writes, and the order of revisions.
use tentacle_next.Prelude.{
  ℕ, ◌+◌, ◌≤◌, ◌<◌, String, Bool, true, false, ◌||◌, Option, none, some, List, [], ◌∷◌, ◌++◌,
  str_eq, leb, ◌==◌, if◌then◌else◌, Assoc, lookup, erase, lookup-insert, lookup-erase, ◌≡◌, refl,
  sym, ap, ◌∙◌, arith, Bool-cases, some_inj, inl, inr,
}
use tentacle_next.Bus.Kv.{
  Entry, Bucket, Event, get, put_entry, delete_entry, expire, erase_all, is_expired, read_entry,
  watch, unwatch,
}

read_fresh :
    (now put_at rev ttl : ℕ) (value : List ℕ)
    → read_entry now (
        some (record {
          value = value;
          revision = rev;
          expires_at = if ttl == 0 then none else some (put_at + ttl);
        }))
      ≡ (if ttl == 0 || leb now (put_at + ttl) then some (value, rev) else none)
unfolding read_entry is_expired
read_fresh now put_at rev ttl value = elim (Bool-cases (ttl == 0)) [
  | inl e ↦ rw e refl
  | inr e ↦ rw e (ground arith)
]

read-if :
    (b : Bool) (now : ℕ) (e old : Option Entry)
    → read_entry now (if b then e else old) ≡ (if b then read_entry now e else read_entry now old)
read-if true now e old = refl
read-if false now e old = refl

if_then :
    {A : Type 0} (b : Bool) {x y : A} (z : A) → x ≡ y → (if b then x else z) ≡ (if b then y else z)
if_then true z h = h
if_then false z h = refl

-- After a put, a read of the key gives the value and the revision that the put returned, one more than
-- the bucket's last, until the bucket's lifetime has passed since the put and the error from then on,
-- or for ever where the bucket has no lifetime; a read of another key gives what it gave before.
pub get-put_entry :
    (put_at now : ℕ) (key other : String) (value : List ℕ) (b : Bucket)
    → get now other (put_entry put_at key value b).0 ≡ (
        if str_eq other key
        then if b.ttl == 0 || leb now (put_at + b.ttl) then some (value, b.revision + 1) else none
        else get now other b)
unfolding get put_entry
get-put_entry put_at now key other value b =
    let e : Entry = record {
      value = value;
      revision = b.revision + 1;
      expires_at = if b.ttl == 0 then none else some (put_at + b.ttl);
    } in
    ap (read_entry now) (lookup-insert b.entries key other e)
    ∙ read-if (str_eq other key) now (some e) (lookup b.entries other)
    ∙ if_then (str_eq other key) _ (read_fresh now put_at (b.revision + 1) b.ttl value)

-- After a delete, a read of the key gives the error and a read of another key what it gave before.
pub get-delete_entry :
    (now : ℕ) (key other : String) (b : Bucket)
    → get now other (delete_entry key b).0 ≡ (if str_eq other key then none else get now other b)
unfolding get delete_entry read_entry
get-delete_entry now key other b =
    ap (read_entry now) (lookup-erase b.entries key other)
    ∙ read-if (str_eq other key) now none (lookup b.entries other)

-- The calls that change a bucket.
pub data Call : Type 0 where
  put_call : ℕ → String → List ℕ → Call
  delete_call : String → Call
  expire_call : ℕ → Call
  watch_call : ℕ → String → ℕ → Call
  unwatch_call : ℕ → Call

unfoldable pub call : Call → Bucket → Bucket × List Event
call (put_call now key value) b = let (b', events, rev) = put_entry now key value b in (b', events)
call (delete_call key) b = delete_entry key b
call (expire_call now) b = expire now b
call (watch_call now key handler) b = watch now key handler b
call (unwatch_call handler) b = (unwatch handler b, [])

unfoldable pub calls : List Call → Bucket → Bucket × List Event
calls [] b = (b, [])
calls (c ∷ cs) b =
    let (b', events) = call c b in let (b'', later) = calls cs b' in (b'', events ++ later)

-- No entry has a revision that the bucket has not given out.
abbrev pub IsRevised : Bucket → Type 0
IsRevised b = (key : String) (e : Entry) → lookup b.entries key ≡ some e → e.revision ≤ b.revision

lookup-erase_all :
    (ks : List String) (entries : Assoc Entry) (key : String) (e : Entry)
    → lookup (erase_all ks entries) key ≡ some e
    → lookup entries key ≡ some e
unfolding erase_all
lookup-erase_all [] entries key e h = h
lookup-erase_all (k ∷ ks) entries key e h =
    let later = lookup-erase_all ks (erase entries k) key e h in
    ground (arith, lookup-erase entries k key)

revised_if :
    (b : Bool) (new e : Entry) (old : Option Entry) (revision : ℕ)
    → new.revision ≡ revision + 1
    → (old ≡ some e → e.revision ≤ revision)
    → (if b then some new else old) ≡ some e
    → e.revision ≤ revision + 1
revised_if true new e old revision n h found =
    let same = ap (λ (o : Entry). o.revision) (some_inj found) in omega arith
revised_if false new e old revision n h found = let bound = h found in omega arith

pub put_entry-IsRevised :
    (now : ℕ) (key : String) (value : List ℕ) (b : Bucket)
    → IsRevised b
    → IsRevised (put_entry now key value b).0
unfolding put_entry
put_entry-IsRevised now key value b h other e found =
    revised_if (str_eq other key) _ e (lookup b.entries other) b.revision refl (h other e)
      (sym (lookup-insert b.entries key other _) ∙ found)

delete_entry-IsRevised :
    (key : String) (b : Bucket) → IsRevised b → IsRevised (delete_entry key b).0
unfolding delete_entry
delete_entry-IsRevised key b h other e found =
    h other e (ground (arith, lookup-erase b.entries key other))

call-IsRevised : (c : Call) (b : Bucket) → IsRevised b → IsRevised (call c b).0
unfolding call expire watch unwatch
call-IsRevised (put_call now key value) b h = put_entry-IsRevised now key value b h
call-IsRevised (delete_call key) b h = delete_entry-IsRevised key b h
call-IsRevised (expire_call now) b h =
    λ key e found. h key e (lookup-erase_all _ b.entries key e found)
call-IsRevised (watch_call now key handler) b h = h
call-IsRevised (unwatch_call handler) b h = h

revision-call : (c : Call) (b : Bucket) → b.revision ≤ (call c b).0.revision
unfolding call expire watch unwatch put_entry delete_entry
revision-call (put_call now key value) b = omega arith
revision-call (delete_call key) b = omega arith
revision-call (expire_call now) b = omega arith
revision-call (watch_call now key handler) b = omega arith
revision-call (unwatch_call handler) b = omega arith

revision-calls : (cs : List Call) (b : Bucket) → b.revision ≤ (calls cs b).0.revision
unfolding calls
revision-calls [] b = omega arith
revision-calls (c ∷ cs) b =
    let one = revision-call c b in let others = revision-calls cs (call c b).0 in omega arith

calls-IsRevised : (cs : List Call) (b : Bucket) → IsRevised b → IsRevised (calls cs b).0
unfolding calls
calls-IsRevised [] b h = h
calls-IsRevised (c ∷ cs) b h = calls-IsRevised cs (call c b).0 (call-IsRevised c b h)

read_entry-revision :
    (now : ℕ) (o : Option Entry) (seen : List ℕ) (rev : ℕ)
    → read_entry now o ≡ some (seen, rev)
    → (e : Entry) × (o ≡ some e) × (e.revision ≡ rev)
unfolding read_entry
read_entry-revision now none seen rev h = cc
read_entry-revision now (some e) seen rev h = elim (Bool-cases (is_expired now e)) [
  | inl x ↦ ground arith
  | inr x ↦
      let shown : (if is_expired now e then none else some (e.value, e.revision))
          ≡ some (e.value, e.revision) =
        rw x refl in
      (e, refl, ap (λ (p : List ℕ × ℕ). p.1) (some_inj (sym shown ∙ h)))
]

-- Revisions order the writes of a bucket: the revision that a put returns, after any calls on the
-- bucket, is greater than every revision that a read gave before those calls, of any key.
get-put_entry_revision :
    (b : Bucket) (earlier now : ℕ) (key other : String) (seen value : List ℕ) (rev : ℕ)
    (cs : List Call)
    → IsRevised b
    → get earlier other b ≡ some (seen, rev)
    → rev < (put_entry now key value (calls cs b).0).2
unfolding put_entry get
get-put_entry_revision b earlier now key other seen value rev cs h read =
    let (e, found, same) = read_entry-revision earlier (lookup b.entries other) seen rev read in
    let bound = h other e found in let grown = revision-calls cs b in omega arith
