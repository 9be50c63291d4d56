-- ===== src/St/Codegen/Programs.antt =====
-- plc/st/codegen.go: the function that is generated for a whole program.
use tentacle_next.Prelude.{
  ◌≡◌, ◌≢◌, refl, sym, subst, none, List, [], ◌∷◌, ◌++◌, append-nil, ◌⊎◌, inl, inr, Option-cases,
}
use tentacle_next.Prelude.Bytes.{Bytes}
use tentacle_next.St.Token.{text}
use tentacle_next.St.Ast.{Statements, no_statements, and_statement, VarDecl, VarBlock, Program}
use tentacle_next.St.Literals.{quote}
use tentacle_next.St.Codegen.{
  Line, Lines, line, expr, stmt, stmts, set_var, initial_values, blocks_values, pass_line, or_main,
  generate,
}
use tentacle_next.St.Codegen.Blocks.{
  set_call, pass_word, Suite, simple, sequence, HaveClauses, stmt-Suite, stmts-Suite,
}

-- Some variable of the blocks has an initial value.
abbrev pub AnyInitial : List VarDecl → Type 0
AnyInitial [] = ⊥
AnyInitial (v ∷ vs) = (v.initial ≢ none) ⊎ AnyInitial vs

abbrev pub AnyInitialIn : List VarBlock → Type 0
AnyInitialIn [] = ⊥
AnyInitialIn (vb ∷ vbs) = AnyInitial vb.variables ⊎ AnyInitialIn vbs

-- There is something to write in the body: no variable block at all, an initial value or a statement.
abbrev pub HasBody : Program → Type 0
HasBody prog =
    ((prog.var_blocks ≡ []) ⊎ AnyInitialIn prog.var_blocks) ⊎ (prog.statements ≢ no_statements)

-- A function without arguments, with its suite.
abbrev pub IsDefinition : Bytes → Lines → Type 0
IsDefinition name ls =
    (body : Lines) × (ls ≡ line 0 (text "def " ∷ name ∷ text "():" ∷ []) ∷ body) × Suite 1 body

-- Lines that are a suite if `A` holds, and none otherwise.
OptionalSuite : Type 0 → Lines → Type 0
OptionalSuite A ls = (A × Suite 1 ls) ⊎ ((ls ≡ []) × (A → ⊥))

join_suites :
    (A B : Type 0) (xs ys : Lines)
    → OptionalSuite A xs
    → OptionalSuite B ys
    → OptionalSuite (A ⊎ B) (xs ++ ys)
unfolding OptionalSuite
join_suites A B xs ys (inl (a, s)) (inl (b, t)) = inl (inl a, sequence s t)
join_suites A B xs ys (inl (a, s)) (inr (e, no_b)) =
    inl (inl a, subst (λ ls. Suite 1 (xs ++ ls)) (sym e) (subst (Suite 1) (sym (append-nil xs)) s))
join_suites A B xs ys (inr (e, no_a)) (inl (b, t)) =
    inl (inr b, subst (λ ls. Suite 1 (ls ++ ys)) (sym e) t)
join_suites A B xs ys (inr (e, no_a)) (inr (f, no_b)) =
    inr (rw (e, f) refl, λ h. elim h [ inl a ↦ no_a a | inr b ↦ no_b b ])

initial_values-suite : (vs : List VarDecl) → OptionalSuite (AnyInitial vs) (initial_values vs)
unfolding OptionalSuite initial_values
initial_values-suite [] = inr (refl, λ h. h)
initial_values-suite (v ∷ vs) = elim (Option-cases v.initial) [
  | inl e ↦
      let same : initial_values (v ∷ vs) ≡ initial_values vs = rw (e, initial_values) refl in
      subst (OptionalSuite (AnyInitial (v ∷ vs))) (sym same) (skipped e (initial_values-suite vs))
  | inr (init, e) ↦
      let same : initial_values (v ∷ vs) ≡ set_var 1 v.name init ∷ initial_values vs =
        rw (e, initial_values) refl in
      subst (OptionalSuite (AnyInitial (v ∷ vs))) (sym same) (
        inl (
          inl (λ h. cc),
          written (set_var 1 v.name init) (simple (set_call (quote v.name) (expr init)))
              (initial_values-suite vs),
        ))
]
  where
    skipped :
        v.initial ≡ none
        → OptionalSuite (AnyInitial vs) (initial_values vs)
        → OptionalSuite (AnyInitial (v ∷ vs)) (initial_values vs)
    skipped e (inl (a, s)) = inl (inr a, s)
    skipped e (inr (f, never)) = inr (f, λ h. elim h [ inl k ↦ absurd (k e) | inr k ↦ never k ])

    written :
        (l : Line)
        → Suite 1 (l ∷ [])
        → OptionalSuite (AnyInitial vs) (initial_values vs)
        → Suite 1 (l ∷ initial_values vs)
    written l s (inl (_, t)) = sequence s t
    written l s (inr (f, _)) = rw f s

blocks_values-suite : (vbs : List VarBlock) → OptionalSuite (AnyInitialIn vbs) (blocks_values vbs)
unfolding OptionalSuite blocks_values
blocks_values-suite [] = inr (refl, λ h. h)
blocks_values-suite (vb ∷ vbs) =
    join_suites (AnyInitial vb.variables) (AnyInitialIn vbs) (initial_values vb.variables)
      (blocks_values vbs) (initial_values-suite vb.variables) (blocks_values-suite vbs)

-- The lines after those of the initial values.
statements-suite :
    (vbs : List VarBlock) (ss : Statements)
    → HaveClauses ss
    → OptionalSuite ((vbs ≡ []) ⊎ (ss ≢ no_statements)) (pass_line vbs ss ++ stmts 1 ss)
unfolding OptionalSuite pass_line stmts
statements-suite [] no_statements h = inl (inl refl, simple pass_word)
statements-suite (vb ∷ vbs) no_statements h =
    inr (refl, λ k. elim k [ inl e ↦ cc | inr e ↦ e refl ])
statements-suite [] (and_statement s ss) h =
    inl (inr (cc), stmts-Suite 1 ss (stmt 1 s) (stmt-Suite 1 s h.0) h.1)
statements-suite (vb ∷ vbs) (and_statement s ss) h =
    inl (inr (cc), stmts-Suite 1 ss (stmt 1 s) (stmt-Suite 1 s h.0) h.1)

body-suite :
    (prog : Program)
    → HaveClauses prog.statements
    → OptionalSuite
        (AnyInitialIn prog.var_blocks
          ⊎ ((prog.var_blocks ≡ []) ⊎ (prog.statements ≢ no_statements)))
        (blocks_values prog.var_blocks
          ++ (pass_line prog.var_blocks prog.statements ++ stmts 1 prog.statements))
body-suite prog h =
    join_suites _ _ (blocks_values prog.var_blocks) _ (blocks_values-suite prog.var_blocks)
      (statements-suite prog.var_blocks prog.statements h)

-- The generated text of a program is one Starlark function: its header, and a body that is not empty
-- and in which every header is followed by a suite one step deeper, every elif and else comes after an
-- if, and every line stands at its block's indentation. It is so for a program with no variable block,
-- with an initial value or with a statement, in which each CASE has a clause.
pub generate-IsDefinition :
    (prog : Program)
    → HasBody prog
    → HaveClauses prog.statements
    → IsDefinition (or_main prog.name) (generate prog)
unfolding generate OptionalSuite
generate-IsDefinition prog b h = elim (body-suite prog h) [
  | inl (_, s) ↦ (_, refl, s)
  | inr (e, never) ↦ absurd (never (regroup b))
]
  where
    regroup :
        HasBody prog
        → AnyInitialIn prog.var_blocks
          ⊎ ((prog.var_blocks ≡ []) ⊎ (prog.statements ≢ no_statements))
    regroup (inl (inl e)) = inr (inl e)
    regroup (inl (inr k)) = inl k
    regroup (inr k) = inr (inr k)

-- A program whose variable blocks give no initial value and that has no statement becomes a function
-- without a body: its header is the only line.
pub generate-bodiless :
    (name : Bytes) (vb : VarBlock) (vbs : List VarBlock)
    → (AnyInitialIn (vb ∷ vbs) → ⊥)
    → generate (record { name = name; var_blocks = vb ∷ vbs; statements = no_statements })
      ≡ line 0 (text "def " ∷ or_main name ∷ text "():" ∷ []) ∷ []
unfolding generate OptionalSuite pass_line stmts
generate-bodiless name vb vbs never = elim (blocks_values-suite (vb ∷ vbs)) [
  | inl (given, _) ↦ absurd (never given)
  | inr (e, _) ↦ rw e refl
]
