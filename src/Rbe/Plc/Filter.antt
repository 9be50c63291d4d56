-- ===== src/Rbe/Plc/Filter.antt =====
-- What the PLC library's filter does with maps, and its promise to a receiver.
use tentacle_next.Prelude.{
  ℕ, ◌-◌, ◌/◌, ◌≤◌, ◌<◌, String, ◌&&◌, Option, none, some, true, ltb, leb, if◌then◌else◌, str_eq,
  ◌≡◌, refl, arith, Bool-cases, ◌⊎◌, inl, inr,
}
use tentacle_next.Rbe.{Floats, nil, table, string, DeadBand}
use tentacle_next.Rbe.Plc.{
  PlcState, differ, exceeds_deadband, numbers_exceed, plc_should_publish, published,
}

-- Neither forced by the maximum time nor held back by the minimum time.
decided :
    {A : Type 0} (max_time min_time elapsed : ℕ) (forced early other : Option A)
    → min_time ≤ elapsed
    → max_time ≡ 0 ⊎ elapsed < max_time
    → (if ltb 0 max_time && leb max_time elapsed
        then forced
        else if ltb 0 min_time && ltb elapsed min_time
        then early
        else other)
      ≡ other
decided max_time min_time elapsed forced early other late (inl never) = ground arith
decided max_time min_time elapsed forced early other late (inr soon) = ground arith

module _ (fl : Floats) where
  -- A variable that was never published.
  abbrev pub unpublished : DeadBand fl.Float → PlcState fl.Float
  unpublished db = record { last_value = nil; last_time = none; config = some db }

  -- A variable whose last published value is a map.
  abbrev pub holds_table : DeadBand fl.Float → String → String → ℕ → PlcState fl.Float
  holds_table db type former start = record {
    last_value = table type former;
    last_time = some start;
    config = some db;
  }

  -- A variable with a deadband gets a map as its first value, which is published, and then another value,
  -- once the minimum time has passed and before the maximum time, if there is one, has. If that is a
  -- map of the same type, the filter panics in comparing the two, whatever the limit and the contents, also
  -- where they are the same; a map of another type is published, and so is a string.
  pub plc_should_publish-tables :
      (db : DeadBand fl.Float) (type former : String) (start now : ℕ)
      → db.min_time ≤ (now - start) / 1000000
      → db.max_time ≡ 0 ⊎ (now - start) / 1000000 < db.max_time
      → let state = holds_table db type former start in
        (plc_should_publish fl (table type former) start (unpublished db) ≡ some (true, state))
        × ((other latter : String)
            → plc_should_publish fl (table other latter) now state ≡ (
                if str_eq type other
                then none
                else some (published fl (table other latter) now state)))
        × ((text : String)
            → plc_should_publish fl (string text) now state
              ≡ some (published fl (string text) now state))
  unfolding plc_should_publish exceeds_deadband differ numbers_exceed
  plc_should_publish-tables db type former start now late unforced =
      let elapsed = (now - start) / 1000000 in
      elim (Bool-cases (fl.is_zero db.value)) [
        | inl e ↦ (
          rw e refl,
          λ other latter. elim (Bool-cases (str_eq type other)) [
            | inl same ↦ rw (e, same) (decided db.max_time db.min_time elapsed _ _ _ late unforced)
            | inr else_type ↦
                rw (e, else_type) (decided db.max_time db.min_time elapsed _ _ _ late unforced)
          ],
          λ text. rw e (decided db.max_time db.min_time elapsed _ _ _ late unforced),
        )
        | inr e ↦ (
          rw e refl,
          λ other latter. elim (Bool-cases (str_eq type other)) [
            | inl same ↦ rw (e, same) (decided db.max_time db.min_time elapsed _ _ _ late unforced)
            | inr else_type ↦
                rw (e, else_type) (decided db.max_time db.min_time elapsed _ _ _ late unforced)
          ],
          λ text. rw e (decided db.max_time db.min_time elapsed _ _ _ late unforced),
        )
      ]
