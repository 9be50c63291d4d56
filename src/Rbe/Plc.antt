-- ===== src/Rbe/Plc.antt =====
-- plc/rbe.go: the PLC library's filter, its rules and their patterns. Times are nanoseconds.
pub mod Glob
pub mod Filter
use Prim.Native.Char.{Char, code}
use tentacle_next.Prelude.{
  ℕ, ◌+◌, ◌-◌, ◌/◌, String, Bool, true, false, not, ◌&&◌, ◌||◌, Option, none, some, List, [], ◌∷◌,
  ltb, leb, ◌==◌, str_eq, if◌then◌else◌, ◌≡◌, refl, ap, ◌∙◌, arith,
}
use tentacle_next.Prelude.Int.{ℤ, pos, negsuc}
use tentacle_next.Rbe.{
  Floats, Value, nil, float64, float32, integer, json_number, bool, string, table, array, IntKind,
  int, int8, int16, int32, int64, uint, uint8, uint16, uint32, uint64, kind_number, DeadBand,
}

-- rbeState; `last_time` is none for the zero time.
pub record PlcState (F : Type 0) : Type 0 where
  pub last_value : Value F
  pub last_time : Option ℕ
  pub config : Option (DeadBand F)

abbrev equal_ℤ : ℤ → ℤ → Bool
equal_ℤ (pos a) (pos b) = a == b
equal_ℤ (negsuc a) (negsuc b) = a == b
equal_ℤ _ _ = false

abbrev equal_Bool : Bool → Bool → Bool
equal_Bool true b = b
equal_Bool false b = not b

module _ (fl : Floats) where
  -- a != b of two interface values: none is the panic for two maps or two slices of one type.
  unfoldable pub differ : Value fl.Float → Value fl.Float → Option Bool
  differ nil nil = some false
  differ (float64 x) (float64 y) = some (not (fl.same x y))
  differ (float32 x) (float32 y) = some (not (fl.same x y))
  differ (integer k m) (integer l n) = some (not ((kind_number k == kind_number l) && equal_ℤ m n))
  differ (json_number s) (json_number t) = some (not (str_eq s t))
  differ (bool a) (bool b) = some (not (equal_Bool a b))
  differ (string s) (string t) = some (not (str_eq s t))
  differ (table k s) (table l t) = if str_eq k l then none else some true
  differ (array k s) (array l t) = if str_eq k l then none else some true
  differ _ _ = some true

  -- toFloat64, which knows fewer types than the one of internal/rbe.
  abbrev pub as_float64 : Value fl.Float → Option fl.Float
  as_float64 (float64 x) = some x
  as_float64 (float32 x) = some x
  as_float64 (integer int n) = some (fl.of_int n)
  as_float64 (integer int64 n) = some (fl.of_int n)
  as_float64 (integer int32 n) = some (fl.of_int n)
  as_float64 (integer uint n) = some (fl.of_int n)
  as_float64 (integer uint64 n) = some (fl.of_int n)
  as_float64 (integer uint32 n) = some (fl.of_int n)
  as_float64 _ = none

  numbers_exceed : Option fl.Float → Option fl.Float → fl.Float → Option Bool → Option Bool
  numbers_exceed (some x) (some y) threshold other = some (fl.exceeds x y threshold)
  numbers_exceed (some x) none threshold other = other
  numbers_exceed none y threshold other = other

  unfoldable pub exceeds_deadband : Value fl.Float → Value fl.Float → fl.Float → Option Bool
  unfolding numbers_exceed
  exceeds_deadband old new threshold =
      if fl.is_zero threshold
      then differ old new
      else numbers_exceed (as_float64 old) (as_float64 new) threshold (differ old new)

  abbrev pub published : Value fl.Float → ℕ → PlcState fl.Float → Bool × PlcState fl.Float
  published new now state = (true, record state { last_value = new; last_time = some now })

  -- now.Sub(r.lastTime).Milliseconds(), where that time is set: whether the maximum has passed.
  abbrev is_forced : DeadBand fl.Float → Option ℕ → ℕ → Bool
  is_forced db none now = false
  is_forced db (some last) now = ltb 0 db.max_time && leb db.max_time ((now - last) / 1000000)

  abbrev is_early : DeadBand fl.Float → Option ℕ → ℕ → Bool
  is_early db none now = false
  is_early db (some last) now = ltb 0 db.min_time && ltb ((now - last) / 1000000) db.min_time

  -- shouldPublish: none is a panic in the comparison of two values.
  unfoldable pub plc_should_publish :
      Value fl.Float → ℕ → PlcState fl.Float → Option (Bool × PlcState fl.Float)
  plc_should_publish new now state = elim state.config [
    | none ↦ some (published new now state)
    | some db ↦
        if is_forced db state.last_time now
        then some (published new now state)
        else if is_early db state.last_time now
        then some (false, state)
        else elim (exceeds_deadband state.last_value new db.value) [
          | none ↦ none
          | some exceeds ↦ if exceeds then some (published new now state) else some (false, state)
        ]
  ]

-- pattern[:n-1] where pattern[n-1] == '*', and none where the pattern does not end in a star.
unfoldable pub starred : String → Option String
starred String.[] = none
starred (String.◌∷◌ c String.[]) = if code c == b'*' then some String.[] else none
starred (String.◌∷◌ c (String.◌∷◌ d s)) =
    let rest = starred (String.◌∷◌ d s) in
    elim rest [ none ↦ none | some prefix ↦ some (String.◌∷◌ c prefix) ]

-- len(s) >= len(prefix) && s[:len(prefix)] == prefix
unfoldable pub has_prefix : String → String → Bool
has_prefix String.[] s = true
has_prefix (String.◌∷◌ c prefix) String.[] = false
has_prefix (String.◌∷◌ c prefix) (String.◌∷◌ d s) = (code c == code d) && has_prefix prefix s

unfoldable pub match_starred : Option String → String → String → Bool
match_starred none pattern s = str_eq pattern s
match_starred (some prefix) pattern s = has_prefix prefix s

unfoldable pub match_glob : String → String → Bool
match_glob pattern s =
    if str_eq pattern "*" then true else match_starred (starred pattern) pattern s

-- RBERule
pub record Rule (F : Type 0) : Type 0 where
  pub pattern : String
  pub deadband : DeadBand F

-- ResolveDeadband, from a variable's own settings.
unfoldable pub resolve_deadband :
    {F : Type 0}
    → String
    → Bool
    → Option (DeadBand F)
    → List (Rule F)
    → Option (DeadBand F)
    → Option (DeadBand F)
resolve_deadband variable_id true own rules default_db = none
resolve_deadband variable_id false (some own) rules default_db = some own
resolve_deadband variable_id false none [] default_db = default_db
resolve_deadband variable_id false none (rule ∷ rules) default_db =
    let rest = resolve_deadband variable_id false none rules default_db in
    if match_glob rule.pattern variable_id then some rule.deadband else rest
