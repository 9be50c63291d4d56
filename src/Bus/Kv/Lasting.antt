-- ===== src/Bus/Kv/Lasting.antt =====
-- Buckets without a lifetime, under the calls of Reads and under loading.
use tentacle_next.Prelude.{
  ℕ, String, Bool, true, false, ◌&&◌, none, some, List, [], ◌∷◌, ◌==◌, Assoc, insert, erase, ◌≡◌,
  refl, arith, IsMap, insert-IsMap, erase-IsMap,
}
use tentacle_next.Bus.Kv.{
  Entry, Bucket, put_entry, delete_entry, expire, erase_all, expired_keys, watch, unwatch,
  load_entries,
}
use tentacle_next.Bus.Kv.Reads.{
  Call, put_call, delete_call, expire_call, watch_call, unwatch_call, call, calls,
}

abbrev pub is_lasting : Entry → Bool
is_lasting e = elim e.expires_at [ none ↦ true | some at ↦ false ]

abbrev pub all_lasting : Assoc Entry → Bool
all_lasting [] = true
all_lasting (entry ∷ entries) = is_lasting entry.1 && all_lasting entries

-- A bucket without a lifetime, none of whose entries expires.
pub record IsLasting (b : Bucket) : Type 0 where
  pub endless : (b.ttl == 0) ≡ true
  pub is_map : IsMap b.entries
  pub lasting : all_lasting b.entries ≡ true

pub insert-all_lasting :
    (entries : Assoc Entry) (key : String) (e : Entry)
    → is_lasting e ≡ true
    → all_lasting entries ≡ true
    → all_lasting (insert entries key e) ≡ true
unfolding insert
insert-all_lasting [] key e h l = ground arith
insert-all_lasting (entry ∷ entries) key e h l = ground (arith, insert-all_lasting entries key e)

erase-all_lasting :
    (entries : Assoc Entry) (key : String)
    → all_lasting entries ≡ true
    → all_lasting (erase entries key) ≡ true
unfolding erase
erase-all_lasting [] key l = refl
erase-all_lasting (entry ∷ entries) key l = ground (arith, erase-all_lasting entries key)

put_entry-IsLasting :
    (now : ℕ) (key : String) (value : List ℕ) (b : Bucket)
    → IsLasting b
    → IsLasting (put_entry now key value b).0
unfolding put_entry
put_entry-IsLasting now key value b h = record {
  endless = h.endless;
  is_map = insert-IsMap b.entries key _ h.is_map;
  lasting = insert-all_lasting b.entries key _ (rw h.endless refl) h.lasting;
}

delete_entry-IsLasting :
    (key : String) (b : Bucket) → IsLasting b → IsLasting (delete_entry key b).0
unfolding delete_entry
delete_entry-IsLasting key b h = record {
  endless = h.endless;
  is_map = erase-IsMap b.entries key h.is_map;
  lasting = erase-all_lasting b.entries key h.lasting;
}

erase_all-IsLasting :
    (ks : List String) (b : Bucket)
    → IsLasting b
    → IsLasting (record b { entries = erase_all ks b.entries })
unfolding erase_all
erase_all-IsLasting [] b h = h
erase_all-IsLasting (k ∷ ks) b h =
    erase_all-IsLasting ks (record b { entries = erase b.entries k })
      (record {
        endless = h.endless;
        is_map = erase-IsMap b.entries k h.is_map;
        lasting = erase-all_lasting b.entries k h.lasting;
      })

call-IsLasting : (c : Call) (b : Bucket) → IsLasting b → IsLasting (call c b).0
unfolding call expire watch unwatch
call-IsLasting (put_call now key value) b h = put_entry-IsLasting now key value b h
call-IsLasting (delete_call key) b h = delete_entry-IsLasting key b h
call-IsLasting (expire_call now) b h = erase_all-IsLasting (expired_keys now b.entries) b h
call-IsLasting (watch_call now key handler) b h = record {
  endless = h.endless;
  is_map = h.is_map;
  lasting = h.lasting;
}
call-IsLasting (unwatch_call handler) b h = record {
  endless = h.endless;
  is_map = h.is_map;
  lasting = h.lasting;
}

pub calls-IsLasting : (cs : List Call) (b : Bucket) → IsLasting b → IsLasting (calls cs b).0
unfolding calls
calls-IsLasting [] b h = h
calls-IsLasting (c ∷ cs) b h = calls-IsLasting cs (call c b).0 (call-IsLasting c b h)

pub load_entries-IsLasting :
    (snap : Assoc (List ℕ)) (b : Bucket) → IsLasting b → IsLasting (load_entries snap b)
unfolding load_entries
load_entries-IsLasting [] b h = h
load_entries-IsLasting ((k, v) ∷ snap) b h = load_entries-IsLasting snap _ (record {
  endless = h.endless;
  is_map = insert-IsMap b.entries k _ h.is_map;
  lasting = insert-all_lasting b.entries k _ refl h.lasting;
})
