-- ===== src/Bus/Subject/Matching.antt =====
-- Matching by the rules of NATS subjects.
use text.Mathlib.Text.{◌==◌ as str_eq}
use tentacle_next.Prelude.{
  String, Bool, true, false, not, List, [], ◌∷◌, ◌&&◌, if◌then◌else◌, ◌≡◌, refl, sym, ◌↔◌, ◌⊎◌, inl,
  inr, arith, eq_iff, Bool-cases, subst,
}
use tentacle_next.Bus.Subject.{split, match_parts, match_subject}

-- A star stands for one token, and `>` for one or more, at the end of a pattern alone.
pub data Matches : List String → List String → Type 0 where
  over : Matches [] []
  token : {t : String} {ps ts : List String} → Matches ps ts → Matches (t ∷ ps) (t ∷ ts)
  star : {t : String} {ps ts : List String} → Matches ps ts → Matches ("*" ∷ ps) (t ∷ ts)
  rest : {t : String} {ts : List String} → Matches (">" ∷ []) (t ∷ ts)

-- Whether `>` occurs at the end alone.
unfoldable pub is_pattern : List String → Bool
is_pattern [] = true
is_pattern (p ∷ []) = true
is_pattern (p ∷ q ∷ ps) = not (str_eq p ">") && is_pattern (q ∷ ps)

is_pattern_tail :
    (p : String) (ps : List String) → is_pattern (p ∷ ps) ≡ true → is_pattern ps ≡ true
unfolding is_pattern
is_pattern_tail p [] h = refl
is_pattern_tail p (q ∷ ps) h = ground arith

last_rest :
    (p : String) (ps : List String) → str_eq p ">" ≡ true → is_pattern (p ∷ ps) ≡ true → ps ≡ []
unfolding is_pattern
last_rest p [] e h = refl
last_rest p (q ∷ ps) e h = ground arith

-- A test of one part passes where the pattern has a star or the subject's own part.
passes :
    (p t : String) (m : Bool)
    → str_eq p ">" ≡ false
    → (if str_eq p ">" then true else if not (str_eq p "*") && not (str_eq p t) then false else m)
      ≡ true
    → ((p ≡ "*") ⊎ (p ≡ t)) × (m ≡ true)
passes p t m n h = elim (Bool-cases (str_eq p "*")) [
  | inl e ↦ (inl ((eq_iff p "*").0 e), ground arith)
  | inr e ↦ elim (Bool-cases (str_eq p t)) [
    | inl f ↦ (inr ((eq_iff p t).0 f), ground arith)
    | inr f ↦ ground arith
  ]
]

match_parts-Matches :
    (ps ts : List String) → is_pattern ps ≡ true → match_parts ps ts ≡ true → Matches ps ts
unfolding match_parts
match_parts-Matches [] [] w h = over
match_parts-Matches [] (t ∷ ts) w h = cc
match_parts-Matches (p ∷ ps) [] w h = cc
match_parts-Matches (p ∷ ps) (t ∷ ts) w h = elim (Bool-cases (str_eq p ">")) [
  | inl e ↦
      subst (λ q. Matches (q ∷ ps) (t ∷ ts)) (sym ((eq_iff p ">").0 e))
        (subst (λ qs. Matches (">" ∷ qs) (t ∷ ts)) (sym (last_rest p ps e w)) rest)
  | inr n ↦
      let (part, others) = passes p t (match_parts ps ts) n h in
      let tail = match_parts-Matches ps ts (is_pattern_tail p ps w) others in
      elim part [
        | inl e ↦ subst (λ q. Matches (q ∷ ps) (t ∷ ts)) (sym e) (star tail)
        | inr e ↦ subst (λ q. Matches (q ∷ ps) (t ∷ ts)) (sym e) (token tail)
      ]
]

Matches-match_parts : {ps ts : List String} → Matches ps ts → match_parts ps ts ≡ true
unfolding match_parts
Matches-match_parts over = refl
Matches-match_parts (token {t} m) = ground (arith, Matches-match_parts m, eq_iff t t)
Matches-match_parts (star m) = Matches-match_parts m
Matches-match_parts rest = refl

-- Where `>` stands in a pattern only as its last token, the bus delivers a subject to the pattern
-- exactly when their tokens match by the rules of NATS: token by token, a star for any one token, and
-- a final `>` for one or more.
pub match_subject-Matches :
    (pattern subject : String)
    → is_pattern (split pattern) ≡ true
    → (match_subject pattern subject ≡ true) ↔ Matches (split pattern) (split subject)
unfolding match_subject
match_subject-Matches pattern subject w = (match_parts-Matches _ _ w, Matches-match_parts)
