-- ===== src/Prelude/Maps.antt =====
-- Go maps: total functions where the code reads a missing key as the zero value, association
-- lists where it tests for presence.
use Prim.Native.Nat.{ℕ}
use Prim.Native.String.{String}
use mathlib.Core.Path.{◌≡◌, refl, sym, subst}
use mathlib.Core.List.{List, [], ◌∷◌}
use mathlib.Core.Logic.{inl, inr}
use mathlib.Core.Bool.{true, false}
use mathlib.Core.Option.{Option, none, some}
use native.Mathlib.Omega.{arith}
use text.Mathlib.Text.{◌==◌ as str_eq}
use text.Mathlib.TextEquality.{eq_iff}
use tentacle_next.Prelude.Tests.{◌==◌, if◌then◌else◌, Bool-cases}

-- m[k] = v in a map with integer keys that is only read by m[k].
abbrev pub update {ℓ} : {V : Type ℓ} → (ℕ → V) → ℕ → V → ℕ → V
update m k v j = if j == k then v else m j

abbrev pub Assoc {ℓ} : Type ℓ → Type ℓ
Assoc V = List (String × V)

module _ {ℓ} {V : Type ℓ} where
  -- v, ok := m[k]
  unfoldable pub lookup : Assoc V → String → Option V
  lookup [] key = none
  lookup (entry ∷ others) key = if str_eq key entry.0 then some entry.1 else lookup others key

  -- m[k] = v
  unfoldable pub insert : Assoc V → String → V → Assoc V
  insert [] key value = (key, value) ∷ []
  insert (entry ∷ others) key value =
      if str_eq key entry.0 then (key, value) ∷ others else entry ∷ insert others key value

  -- delete(m, k)
  unfoldable pub erase : Assoc V → String → Assoc V
  erase [] key = []
  erase (entry ∷ others) key =
      let kept = erase others key in if str_eq key entry.0 then kept else entry ∷ kept

  -- No key stands twice.
  unfoldable pub IsMap : Assoc V → Type ℓ
  IsMap [] = Unit {ℓ}
  IsMap (entry ∷ others) = (lookup others entry.0 ≡ none) × IsMap others

  pub insert_here :
      (entry : String × V) (others : Assoc V) (key : String) (value : V)
      → str_eq key entry.0 ≡ true
      → insert (entry ∷ others) key value ≡ (key, value) ∷ others
  unfolding insert
  insert_here entry others key value e = rw e refl

  pub insert_there :
      (entry : String × V) (others : Assoc V) (key : String) (value : V)
      → str_eq key entry.0 ≡ false
      → insert (entry ∷ others) key value ≡ entry ∷ insert others key value
  unfolding insert
  insert_there entry others key value e = rw e refl

  pub lookup_here :
      (entry : String × V) (others : Assoc V) (key : String)
      → str_eq key entry.0 ≡ true
      → lookup (entry ∷ others) key ≡ some entry.1
  unfolding lookup
  lookup_here entry others key e = rw e refl

  pub lookup_there :
      (entry : String × V) (others : Assoc V) (key : String)
      → str_eq key entry.0 ≡ false
      → lookup (entry ∷ others) key ≡ lookup others key
  unfolding lookup
  lookup_there entry others key e = rw e refl

  pub lookup-insert :
      (entries : Assoc V) (key other : String) (value : V)
      → lookup (insert entries key value) other
        ≡ (if str_eq other key then some value else lookup entries other)
  unfolding lookup insert
  lookup-insert [] key other value = refl
  lookup-insert (entry ∷ others) key other value = ground (
    arith,
    lookup-insert others key other value,
    eq_iff other key,
    eq_iff key entry.0,
    eq_iff other entry.0,
  )

  pub lookup-erase :
      (entries : Assoc V) (key other : String)
      → lookup (erase entries key) other ≡ (if str_eq other key then none else lookup entries other)
  unfolding lookup erase
  lookup-erase [] key other = ground arith
  lookup-erase (entry ∷ others) key other = ground (
    arith,
    lookup-erase others key other,
    eq_iff other key,
    eq_iff key entry.0,
    eq_iff other entry.0,
  )

  pub insert-IsMap :
      (entries : Assoc V) (key : String) (value : V)
      → IsMap entries
      → IsMap (insert entries key value)
  unfolding IsMap lookup
  insert-IsMap [] key value w = unfold insert in (refl, tt)
  insert-IsMap (entry ∷ others) key value (fresh, w) = elim (Bool-cases (str_eq key entry.0)) [
    | inl e ↦
        subst IsMap (sym (insert_here entry others key value e))
          (subst (λ k. lookup others k ≡ none) (sym ((eq_iff key entry.0).0 e)) fresh, w)
    | inr e ↦ subst IsMap (sym (insert_there entry others key value e)) (
      ground
          (arith, lookup-insert others key entry.0 value, eq_iff entry.0 key, eq_iff key entry.0),
      insert-IsMap others key value w,
    )
  ]

  pub erase-IsMap : (entries : Assoc V) (key : String) → IsMap entries → IsMap (erase entries key)
  unfolding IsMap erase lookup
  erase-IsMap [] key w = tt
  erase-IsMap (entry ∷ others) key (fresh, w) = elim (Bool-cases (str_eq key entry.0)) [
    | inl e ↦ rw e (erase-IsMap others key w)
    | inr e ↦ rw e (
      ground (arith, lookup-erase others key entry.0, eq_iff entry.0 key, eq_iff key entry.0),
      erase-IsMap others key w,
    )
  ]

  pub lookup-insert_same :
      (entries : Assoc V) (key : String) (value : V)
      → lookup (insert entries key value) key ≡ some value
  lookup-insert_same entries key value =
      ground (arith, lookup-insert entries key key value, eq_iff key key)
