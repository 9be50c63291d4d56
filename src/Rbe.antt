-- ===== src/Rbe.antt =====
-- Report by exception: internal/rbe/rbe.go, and the PLC library's own in plc/rbe.go. Times are
-- milliseconds here, and the settings MinTime and MaxTime natural numbers, since a negative one acts
-- as 0. An elapsed time that would be negative is 0, which all of the code's tests take alike.
pub mod Reports
pub mod Plc
mod Examples
use tentacle_next.Prelude.{
  ℕ, ◌+◌, ◌-◌, String, Bool, true, false, not, ◌&&◌, ◌||◌, Option, none, some, List, [], ◌∷◌, ltb,
  leb, ◌==◌, str_eq, if◌then◌else◌,
}
use tentacle_next.Prelude.Int.{ℤ, pos}

-- Go's float64, and the parsing of json.Number and the printing by fmt, which the code uses.
pub record Floats : Type 1 where
  pub Float : Type 0
  pub of_int : ℤ → Float
  pub parse : String → Option Float
  -- math.Abs(y-x) > limit
  pub exceeds : Float → Float → Float → Bool
  -- x == y
  pub same : Float → Float → Bool
  pub is_zero : Float → Bool

pub data IntKind : Type 0 where
  int int8 int16 int32 int64 uint uint8 uint16 uint32 uint64 : IntKind

abbrev kind_number : IntKind → ℕ
kind_number int = 0
kind_number int8 = 1
kind_number int16 = 2
kind_number int32 = 3
kind_number int64 = 4
kind_number uint = 5
kind_number uint8 = 6
kind_number uint16 = 7
kind_number uint32 = 8
kind_number uint64 = 9

-- The dynamic types of a value. A float32 is given as the float64 that it widens to, and a map or a
-- slice as the name of its type and what %v prints of it.
pub data Value (F : Type 0) : Type 0 where
  nil : Value F
  float64 float32 : F → Value F
  integer : IntKind → ℤ → Value F
  json_number : String → Value F
  bool : Bool → Value F
  string : String → Value F
  table array : String → String → Value F

-- types.DeadBandConfig
pub record DeadBand (F : Type 0) : Type 0 where
  pub value : F
  pub min_time : ℕ
  pub max_time : ℕ

-- rbe.State; a `last_time` of 0 is that of a variable that was never published.
pub record State (F : Type 0) : Type 0 where
  pub last_value : Value F
  pub last_time : ℕ

module _ (fl : Floats) (print : Value fl.Float → String) where
  abbrev pub to_float64 : Value fl.Float → Option fl.Float
  to_float64 (float64 x) = some x
  to_float64 (float32 x) = some x
  to_float64 (integer kind n) = some (fl.of_int n)
  to_float64 (json_number s) = fl.parse s
  to_float64 (bool true) = some (fl.of_int (pos 1))
  to_float64 (bool false) = some (fl.of_int (pos 0))
  to_float64 _ = none

  abbrev is_nil : Value fl.Float → Bool
  is_nil nil = true
  is_nil _ = false

  -- A test of two numbers, and another of what is not two numbers.
  abbrev pub numbers_or :
      (fl.Float → fl.Float → Bool) → Option fl.Float → Option fl.Float → Bool → Bool
  numbers_or test (some x) (some y) other = test x y
  numbers_or test (some x) none other = other
  numbers_or test none y other = other

  unfoldable pub values_equal : Value fl.Float → Value fl.Float → Bool
  values_equal a b =
      if is_nil a && is_nil b
      then true
      else if is_nil a || is_nil b
      then false
      else numbers_or fl.same (to_float64 a) (to_float64 b) (str_eq (print a) (print b))

  -- The last two rules of ShouldPublish.
  unfoldable pub changed : fl.Float → Value fl.Float → Value fl.Float → Bool
  changed limit old new =
      numbers_or (λ x y. fl.exceeds x y limit) (to_float64 old) (to_float64 new)
        (not (values_equal old new))

  -- ShouldPublish where there is a deadband and a last value.
  unfoldable pub passes_deadband : DeadBand fl.Float → State fl.Float → Value fl.Float → ℕ → Bool
  passes_deadband db state new now =
      let elapsed = now - state.last_time in
      if ltb 0 db.max_time && leb db.max_time elapsed
      then true
      else if ltb 0 db.min_time && ltb elapsed db.min_time
      then false
      else changed db.value state.last_value new

  unfoldable pub should_publish :
      State fl.Float → Value fl.Float → ℕ → Option (DeadBand fl.Float) → Bool → Bool
  should_publish state new now deadband disable_rbe =
      if disable_rbe then true else if state.last_time == 0 then true else elim deadband [
        | none ↦ not (values_equal state.last_value new)
        | some db ↦ passes_deadband db state new now
      ]

abbrev pub record_publish : {F : Type 0} → State F → Value F → ℕ → State F
record_publish state value now = record { last_value = value; last_time = now }
