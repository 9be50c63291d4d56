-- ===== src/St/Result.antt =====
-- What a parser of plc/st/parser.go returns, its errors, and what a run meets.
use mathlib.Core.Logic.{◌≢◌}
use tentacle_next.Prelude.{◌≡◌, refl, Bool, true, false, if◌then◌else◌}
use tentacle_next.St.Token.{Token, TokenType}

-- The error of `expect`, that of `parsePrimary`, and the two with which parseVarDecl wraps one.
pub data ParseError : Type 0 where
  expected : TokenType → Token → ParseError
  unexpected : Token → ParseError
  var_decl var_decl_initial : ParseError → ParseError

-- `out_of_fuel` stands for no result of the program.
pub data Result {ℓ} (A : Type ℓ) : Type ℓ where
  out_of_fuel : Result A
  failed : ParseError → Result A
  ok : A → Result A

-- fmt.Errorf("...: %w", err)
abbrev pub wrap {ℓ} : {A : Type ℓ} → (ParseError → ParseError) → Result A → Result A
wrap w out_of_fuel = out_of_fuel
wrap w (failed e) = failed (w e)
wrap w (ok a) = ok a

abbrev pub bind {ℓ κ} : {A : Type ℓ} {B : Type κ} → Result A → (A → Result B) → Result B
bind out_of_fuel next = out_of_fuel
bind (failed e) next = failed e
bind (ok a) next = next a

-- What a successful bind went through.
pub bind-eq-ok {ℓ κ} :
    {A : Type ℓ} {B : Type κ} (r : Result A) (next : A → Result B) {b : B}
    → bind r next ≡ ok b
    → (a : A) × (r ≡ ok a) × (next a ≡ ok b)
bind-eq-ok out_of_fuel next e = cc
bind-eq-ok (failed _) next e = cc
bind-eq-ok (ok a) next e = (a, refl, e)

-- There was enough fuel, and a value that was returned satisfies `P`.
pub data Meets {ℓ κ} {A : Type ℓ} (P : A → Type κ) : Result A → Type (ℓ ⊔ κ) where
  fails : {e : ParseError} → Meets P (failed e)
  gives : {a : A} → P a → Meets P (ok a)

-- The next step is taken where the first gave a value.
pub Meets-bind {ℓ κ ℓ' κ'} :
    {A : Type ℓ} {B : Type ℓ'} {P : A → Type κ} {Q : B → Type κ'} {r : Result A}
    {next : A → Result B}
    → Meets P r
    → ((a : A) → P a → Meets Q (next a))
    → Meets Q (bind r next)
Meets-bind fails step = fails
Meets-bind (gives {a} p) step = step a p

pub Meets-weaken {ℓ κ κ'} :
    {A : Type ℓ} {P : A → Type κ} {Q : A → Type κ'} {r : Result A}
    → Meets P r
    → ((a : A) → P a → Q a)
    → Meets Q r
Meets-weaken fails weaker = fails
Meets-weaken (gives {a} p) weaker = gives (weaker a p)

module _ {ℓ κ} {A : Type ℓ} {P : A → Type κ} where
  pub Meets-if :
      (test : Bool) {r s : Result A}
      → (test ≡ true → Meets P r)
      → (test ≡ false → Meets P s)
      → Meets P (if test then r else s)
  Meets-if false whether otherwise = otherwise refl
  Meets-if true whether otherwise = whether refl

  pub Meets-wrap : (w : ParseError → ParseError) {r : Result A} → Meets P r → Meets P (wrap w r)
  Meets-wrap w fails = fails
  Meets-wrap w (gives p) = gives p

  pub Meets-ne-out_of_fuel : {r : Result A} → Meets P r → r ≢ out_of_fuel
  Meets-ne-out_of_fuel fails = cc
  Meets-ne-out_of_fuel (gives p) = cc
