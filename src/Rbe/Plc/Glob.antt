-- ===== src/Rbe/Plc/Glob.antt =====
-- The patterns of rules, described by what they match.
use Prim.Native.Char.{code}
use text.Mathlib.TextEquality.{Char-path}
use tentacle_next.Prelude.{
  String, true, none, some, ◌==◌, ==_iff, str_eq, eq_iff, ◌≡◌, refl, sym, ap, ◌∙◌, ◌↔◌, arith,
  Bool-cases, Option-cases, inl, inr, subst, some_inj, none_ne_some,
}
use tentacle_next.Rbe.Plc.{starred, has_prefix, match_glob, match_starred}

abbrev pub join : String → String → String
join String.[] t = t
join (String.◌∷◌ c s) t = String.◌∷◌ c (join s t)

-- A pattern that ends in a star matches what continues the text before the star, and any other
-- pattern itself alone.
pub data Globs : String → String → Type 0 where
  whole : (s : String) → starred s ≡ none → Globs s s
  continues : (prefix rest : String) → Globs (join prefix "*") (join prefix rest)

starred-star : starred "*" ≡ some ""
unfolding starred
starred-star = refl

starred-join : (p : String) → starred (join p "*") ≡ some p
unfolding starred
starred-join String.[] = refl
starred-join (String.◌∷◌ c String.[]) = refl
starred-join (String.◌∷◌ c (String.◌∷◌ d p)) = rw (starred-join (String.◌∷◌ d p)) refl

join-starred : (s p : String) → starred s ≡ some p → s ≡ join p "*"
unfolding starred
join-starred String.[] p h = cc
join-starred (String.◌∷◌ c String.[]) p h = elim (Bool-cases (code c == b'*')) [
  | inl e ↦
      let found : starred (String.◌∷◌ c String.[]) ≡ some "" = rw (e, starred) refl in
      let empty : "" ≡ p = some_inj (sym found ∙ h) in
      ap (λ k. String.◌∷◌ k "") (Char-path c "*" ((==_iff (code c) b'*').0 e))
      ∙ ap (λ q. join q "*") empty
  | inr e ↦ ground arith
]
join-starred (String.◌∷◌ c (String.◌∷◌ d s)) p h = elim (Option-cases (starred (String.◌∷◌ d s))) [
  | inl e ↦ let missing : starred (String.◌∷◌ c (String.◌∷◌ d s)) ≡ none = rw e refl in cc
  | inr (q, e) ↦
      let found : starred (String.◌∷◌ c (String.◌∷◌ d s)) ≡ some (String.◌∷◌ c q) = rw e refl in
      ap (λ t. String.◌∷◌ c t) (join-starred (String.◌∷◌ d s) q e)
      ∙ ap (λ t. join t "*") (some_inj (sym found ∙ h))
]

has_prefix-join : (p r : String) → has_prefix p (join p r) ≡ true
unfolding has_prefix
has_prefix-join String.[] r = refl
has_prefix-join (String.◌∷◌ c p) r = ground (arith, has_prefix-join p r, ==_iff (code c) (code c))

join-has_prefix : (p s : String) → has_prefix p s ≡ true → (r : String) × (s ≡ join p r)
unfolding has_prefix
join-has_prefix String.[] s h = (s, refl)
join-has_prefix (String.◌∷◌ c p) String.[] h = cc
join-has_prefix (String.◌∷◌ c p) (String.◌∷◌ d s) h =
    let both : ((code c == code d) ≡ true) × (has_prefix p s ≡ true) = ground arith in
    let (r, e) = join-has_prefix p s both.1 in
    (
      r,
      ap (λ t. String.◌∷◌ d t) e
          ∙ ap (λ k. String.◌∷◌ k (join p r))
              (sym (Char-path c d ((==_iff (code c) (code d)).0 both.0))),
    )

match_glob-starred : (p q s : String) → starred p ≡ some q → match_glob p s ≡ has_prefix q s
unfolding match_glob match_starred
match_glob-starred p q s h = elim (Bool-cases (str_eq p "*")) [
  | inl e ↦
      let star : some "" ≡ some q = sym starred-star ∙ ap starred (sym ((eq_iff p "*").0 e)) ∙ h in
      rw e (unfold has_prefix in ap (λ t. has_prefix t s) (some_inj star))
  | inr e ↦ rw e (ap (λ o. match_starred o p s) h)
]

match_glob-plain : (p s : String) → starred p ≡ none → match_glob p s ≡ str_eq p s
unfolding match_glob match_starred
match_glob-plain p s h = elim (Bool-cases (str_eq p "*")) [
  | inl e ↦ absurd (none_ne_some (sym h ∙ ap starred ((eq_iff p "*").0 e) ∙ starred-star))
  | inr e ↦ rw e (ap (λ o. match_starred o p s) h)
]

match_glob-Globs : (p s : String) → match_glob p s ≡ true → Globs p s
match_glob-Globs p s h = elim (Option-cases (starred p)) [
  | inl e ↦ subst (Globs p) ((eq_iff p s).0 (sym (match_glob-plain p s e) ∙ h)) (whole p e)
  | inr (q, e) ↦
      let (r, f) = join-has_prefix q s (sym (match_glob-starred p q s e) ∙ h) in
      subst (λ t. Globs t s) (sym (join-starred p q e))
        (subst (Globs (join q "*")) (sym f) (continues q r))
]

Globs-match_glob : {p s : String} → Globs p s → match_glob p s ≡ true
Globs-match_glob (whole s h) = match_glob-plain s s h ∙ (eq_iff s s).1 refl
Globs-match_glob (continues prefix rest) =
    match_glob-starred (join prefix "*") prefix (join prefix rest) (starred-join prefix)
    ∙ has_prefix-join prefix rest

-- A rule's pattern matches a variable exactly by its description: a pattern that ends in a star matches
-- the names that continue what stands before the star, and any other pattern its own name alone.
match_glob_iff : (p s : String) → (match_glob p s ≡ true) ↔ Globs p s
match_glob_iff p s = (match_glob-Globs p s, Globs-match_glob)
