-- ===== src/Rbe/Examples.antt =====
-- Runs of the two filters on whole numbers in place of floats, and the theorems at concrete inputs.
use tentacle_next.Prelude.{
  if◌then◌else◌, str_eq, true, ℕ, ◌+◌, ◌-◌, String, false, none, some, List, [], ◌∷◌, ltb, ◌==◌,
  ◌≡◌, refl, arith, inl, inr,
}
use tentacle_next.Prelude.Int.{pos, pos_part}
use tentacle_next.Rbe.{Floats, Value, integer, table, int64, string, DeadBand, State}
use tentacle_next.Rbe.Reports.{
  arrive, IsReported, arrive-IsReported, published_at, Spaced, published_at-Spaced,
}
use tentacle_next.Rbe.Plc.{published, plc_should_publish}
use tentacle_next.Rbe.Plc.Filter.{unpublished, holds_table, plc_should_publish-tables}

abbrev whole : Floats
whole = record {
  Float = ℕ;
  of_int = pos_part;
  parse = λ s. none;
  exceeds = λ x y limit. ltb limit ((x - y) + (y - x));
  same = λ x y. x == y;
  is_zero = λ x. x == 0;
}

abbrev print : Value ℕ → String
print (string s) = s
print _ = "?"

abbrev band : DeadBand ℕ
band = record { value = 2; min_time = 10; max_time = 100 }

abbrev seen : State ℕ
seen = record { last_value = integer int64 (pos 5); last_time = 1000 }

never_exceeds : (x : ℕ) → whole.exceeds x x band.value ≡ false
never_exceeds x = ground arith

abbrev arrivals : List (ℕ × Value ℕ)
arrivals =
    (1005, integer int64 (pos 9))
    ∷ (1011, integer int64 (pos 9))
    ∷ (1030, integer int64 (pos 10))
    ∷ (1111, integer int64 (pos 10))
    ∷ []

arrive-IsReported_example :
    IsReported whole print band 1020
      (integer int64 (pos 6))
      (arrive whole print band 1020 (integer int64 (pos 6)) seen)
arrive-IsReported_example =
    arrive-IsReported whole print band 1020 (integer int64 (pos 6)) seen never_exceeds

published_at-Spaced_example :
    Spaced whole print 10 1000 (published_at whole print band arrivals seen)
published_at-Spaced_example =
    published_at-Spaced whole print band arrivals seen (inr (omega arith)) refl refl

abbrev strict : DeadBand ℕ
strict = record { value = 0; min_time = 0; max_time = 0 }

plc_should_publish-tables_example :
    let state = holds_table whole strict "map[string]int" "map[a:1]" 5 in
    (plc_should_publish whole (table "map[string]int" "map[a:1]") 5 (unpublished whole strict)
      ≡ some (true, state))
    × ((other latter : String)
        → plc_should_publish whole (table other latter) 9 state ≡ (
            if str_eq "map[string]int" other
            then none
            else some (published whole (table other latter) 9 state)))
    × ((text : String)
        → plc_should_publish whole (string text) 9 state
          ≡ some (published whole (string text) 9 state))
plc_should_publish-tables_example =
    plc_should_publish-tables whole strict "map[string]int" "map[a:1]" 5 9 (omega arith) (inl refl)
