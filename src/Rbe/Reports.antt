-- ===== src/Rbe/Reports.antt =====
-- What report by exception promises a receiver of the published values.
use tentacle_next.Prelude.{
  some_inj, ℕ, ◌-◌, ◌≤◌, ◌<◌, String, Bool, true, false, not, ◌&&◌, Option, none, some, List, [],
  ◌∷◌, ltb, ◌==◌, eq_iff, if◌then◌else◌, ◌≡◌, refl, sym, ap, ◌∙◌, arith, Bool-cases, ◌⊎◌, inl, inr,
}
use tentacle_next.Rbe.{
  Floats, Value, nil, DeadBand, State, to_float64, values_equal, changed, passes_deadband,
  should_publish, record_publish, numbers_or, is_nil,
}

module _ (fl : Floats) (print : Value fl.Float → String) where
  -- A caller's use of the two functions on one value that arrives.
  abbrev pub arrive : DeadBand fl.Float → ℕ → Value fl.Float → State fl.Float → State fl.Float
  arrive db now v state =
      if should_publish fl print state v now (some db) false
      then record_publish state v now
      else state

  -- Two values that a receiver need not tell apart: two numbers that are within the limit, and else two
  -- values that are both nil or both not, and print alike.
  pub record IsClose (limit : fl.Float) (old new : Value fl.Float) : Type 0 where
    numbers :
        (x y : fl.Float)
        → to_float64 fl print old ≡ some x
        → to_float64 fl print new ≡ some y
        → fl.exceeds x y limit ≡ false
    others :
        (to_float64 fl print old ≡ none) ⊎ (to_float64 fl print new ≡ none)
        → (is_nil fl print old ≡ is_nil fl print new) × (print old ≡ print new)

  -- What a receiver may rely on after a value has arrived.
  pub record IsReported (db : DeadBand fl.Float) (now : ℕ) (v : Value fl.Float)
      (state : State fl.Float) : Type 0 where
    recent : 0 < db.max_time → now - state.last_time < db.max_time
    close : db.min_time ≤ now - state.last_time → IsClose db.value state.last_value v

  numbers_or-numbers :
      (test : fl.Float → fl.Float → Bool) (o p : Option fl.Float) (other : Bool) (x y : fl.Float)
      → numbers_or fl print test o p other ≡ false
      → o ≡ some x
      → p ≡ some y
      → test x y ≡ false
  numbers_or-numbers test o p other x y h e f = rw (e, f) at h

  numbers_or-others :
      (test : fl.Float → fl.Float → Bool) (o p : Option fl.Float) (other : Bool)
      → (o ≡ none) ⊎ (p ≡ none)
      → numbers_or fl print test o p other ≡ other
  numbers_or-others test none p other h = refl
  numbers_or-others test (some x) none other h = refl
  numbers_or-others test (some x) (some y) other (inl h) = cc
  numbers_or-others test (some x) (some y) other (inr h) = cc

  is_nil-eq : (v : Value fl.Float) → is_nil fl print v ≡ true → v ≡ nil
  is_nil-eq nil h = refl
  is_nil-eq _ h = cc

  values_equal-alike :
      (old new : Value fl.Float)
      → (to_float64 fl print old ≡ none) ⊎ (to_float64 fl print new ≡ none)
      → values_equal fl print old new ≡ true
      → (is_nil fl print old ≡ is_nil fl print new) × (print old ≡ print new)
  unfolding values_equal
  values_equal-alike old new h e = elim (Bool-cases (is_nil fl print old)) [
    | inl n ↦ elim (Bool-cases (is_nil fl print new)) [
      | inl m ↦ (n ∙ sym m, ap print (is_nil-eq old n ∙ sym (is_nil-eq new m)))
      | inr m ↦ absurd (let never = rw (n, m) at e in cc)
    ]
    | inr n ↦ elim (Bool-cases (is_nil fl print new)) [
      | inl m ↦ absurd (let never = rw (n, m) at e in cc)
      | inr m ↦
          let alike = rw (n, m) at e in
          (
            n ∙ sym m,
            (eq_iff (print old) (print new)).0 (sym (numbers_or-others fl.same _ _ _ h) ∙ alike),
          )
    ]
  ]

  is_true : (b : Bool) → not b ≡ false → b ≡ true
  is_true true h = refl
  is_true false h = cc

  unchanged-IsClose :
      (limit : fl.Float) (old new : Value fl.Float)
      → changed fl print limit old new ≡ false
      → IsClose limit old new
  unfolding changed
  unchanged-IsClose limit old new h = record {
    numbers = λ x y e f. numbers_or-numbers _ _ _ _ x y h e f;
    others = λ o.
        values_equal-alike old new o
          (is_true _ (sym (numbers_or-others (λ x y. fl.exceeds x y limit) _ _ _ o) ∙ h));
  }

  self-IsClose :
      (limit : fl.Float) (v : Value fl.Float)
      → ((x : fl.Float) → fl.exceeds x x limit ≡ false)
      → IsClose limit v v
  self-IsClose limit v h = record {
    numbers = λ x y e f. ap (λ z. fl.exceeds x z limit) (some_inj (sym f ∙ e)) ∙ h x;
    others = λ o. (refl, refl);
  }

  published-IsReported :
      (db : DeadBand fl.Float) (now : ℕ) (v : Value fl.Float) (state : State fl.Float)
      → ((x : fl.Float) → fl.exceeds x x db.value ≡ false)
      → IsReported db now v (record_publish state v now)
  published-IsReported db now v state h = record {
    recent = λ positive. ground arith;
    close = λ late. self-IsClose db.value v h;
  }

  suppressed-IsReported :
      (db : DeadBand fl.Float) (now : ℕ) (v : Value fl.Float) (state : State fl.Float)
      → should_publish fl print state v now (some db) false ≡ false
      → IsReported db now v state
  unfolding should_publish passes_deadband
  suppressed-IsReported db now v state h = record {
    recent = λ positive. ground arith;
    close = λ late. unchanged-IsClose db.value state.last_value v (ground arith);
  }

  -- After a value has arrived, for a variable with a deadband: the value that was published last is
  -- younger than the maximum time, if there is one; and unless the minimum time has not yet passed
  -- since it was published, either the value that has arrived and it are numbers that do not differ by more
  -- than the deadband, or one is no number, and then both or neither are nil and both print alike. No
  -- number may differ from itself by more than the deadband, as for one that is not negative.
  pub arrive-IsReported :
      (db : DeadBand fl.Float) (now : ℕ) (v : Value fl.Float) (state : State fl.Float)
      → ((x : fl.Float) → fl.exceeds x x db.value ≡ false)
      → IsReported db now v (arrive db now v state)
  arrive-IsReported db now v state h =
      elim (Bool-cases (should_publish fl print state v now (some db) false)) [
        | inl e ↦ rw e (published-IsReported db now v state h)
        | inr e ↦ rw e (suppressed-IsReported db now v state e)
      ]

  -- The times at which values are published, of values that arrive one after the other.
  pub published_at : DeadBand fl.Float → List (ℕ × Value fl.Float) → State fl.Float → List ℕ
  published_at db [] state = []
  published_at db ((now, v) ∷ arrivals) state =
      let rest = published_at db arrivals (arrive db now v state) in
      if should_publish fl print state v now (some db) false then now ∷ rest else rest

  -- Each time but the first comes as long as `gap` after the one before it.
  abbrev pub Spaced : ℕ → ℕ → List ℕ → Type 0
  Spaced gap last [] = Unit {0}
  Spaced gap last (t ∷ ts) = (gap ≤ t - last) × Spaced gap t ts

  abbrev pub after_start : List (ℕ × Value fl.Float) → Bool
  after_start [] = true
  after_start ((now, v) ∷ arrivals) = ltb 0 now && after_start arrivals

  publishes-late :
      (db : DeadBand fl.Float) (now : ℕ) (v : Value fl.Float) (state : State fl.Float)
      → db.max_time ≡ 0 ⊎ db.min_time ≤ db.max_time
      → (state.last_time == 0) ≡ false
      → should_publish fl print state v now (some db) false ≡ true
      → db.min_time ≤ now - state.last_time
  unfolding should_publish passes_deadband
  publishes-late db now v state (inl none_forced) started h = ground arith
  publishes-late db now v state (inr order) started h = ground arith

  -- Values that arrive at times after 0, for a variable that has been published, whose minimum time is
  -- not above its maximum time if it has one: from one publication to the next, and from the last
  -- one before them, at least the minimum time passes.
  pub published_at-Spaced :
      (db : DeadBand fl.Float) (arrivals : List (ℕ × Value fl.Float)) (state : State fl.Float)
      → db.max_time ≡ 0 ⊎ db.min_time ≤ db.max_time
      → after_start arrivals ≡ true
      → (state.last_time == 0) ≡ false
      → Spaced db.min_time state.last_time (published_at db arrivals state)
  unfolding published_at
  published_at-Spaced db [] state order pos_times started = tt
  published_at-Spaced db ((now, v) ∷ arrivals) state order times started =
      let here : (ltb 0 now ≡ true) × (after_start arrivals ≡ true) = ground arith in
      elim (Bool-cases (should_publish fl print state v now (some db) false)) [
        | inl e ↦ rw e (
          publishes-late db now v state order started e,
          published_at-Spaced db arrivals (record_publish state v now) order here.1 (ground arith),
        )
        | inr e ↦ rw e (published_at-Spaced db arrivals state order here.1 started)
      ]
