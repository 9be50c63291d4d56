-- ===== src/St/Codegen/Blocks.antt =====
-- plc/st/codegen.go: the block structure of the generated program, against a grammar of Starlark's
-- statements by indentation.
use tentacle_next.Prelude.{
  ℕ, suc, sym, subst, false, none, some, List, [], ◌∷◌, ◌++◌, append-nil, append_assoc,
}
use tentacle_next.Prelude.Bytes.{Bytes}
use tentacle_next.St.Token.{text}
use tentacle_next.St.Ast.{
  Statement, Statements, ElsIfs, Cases, assign_stmt, if_stmt, for_stmt, while_stmt, repeat_stmt,
  case_stmt, call_stmt, return_stmt, no_statements, and_statement, no_elsifs, and_elsif, no_cases,
  and_case,
}
use tentacle_next.St.Literals.{print, join, quote}
use tentacle_next.St.Codegen.{
  Lines, line, labels, expr, exprs, stmt, stmts, stmt_block, elif_blocks, case_blocks, else_block,
}

-- A statement on a line of its own.
pub data Simple : List Bytes → Type 0 where
  set_call :
      (name value : Bytes) → Simple (text "set_var(" ∷ name ∷ text ", " ∷ value ∷ text ")" ∷ [])
  call : (name args : Bytes) → Simple (name ∷ text "(" ∷ args ∷ text ")" ∷ [])
  pass_word : Simple (text "pass" ∷ [])
  break_word : Simple (text "break" ∷ [])
  return_word : Simple (text "return" ∷ [])

-- `Suite d ls`: the lines are one or more statements at indentation d, each header followed by a
-- suite one step deeper. `Branches d ls`: what may follow the suite of an `if`.
mutual
  pub data Suite : ℕ → Lines → Type 0 where
    simple : {d : ℕ} {parts : List Bytes} → Simple parts → Suite d (line d parts ∷ [])
    if_suite :
        {d : ℕ} {body rest : Lines} (cond : Bytes)
        → Suite (suc d) body
        → Branches d rest
        → Suite d (line d (text "if " ∷ cond ∷ text ":" ∷ []) ∷ (body ++ rest))
    for_suite :
        {d : ℕ} {body : Lines} (variable range : Bytes)
        → Suite (suc d) body
        → Suite d
            (line d (text "for " ∷ variable ∷ text " in range(" ∷ range ∷ text "):" ∷ []) ∷ body)
    sequence : {d : ℕ} {xs ys : Lines} → Suite d xs → Suite d ys → Suite d (xs ++ ys)

  pub data Branches : ℕ → Lines → Type 0 where
    no_branch : {d : ℕ} → Branches d []
    elif_branch :
        {d : ℕ} {body rest : Lines} (cond : Bytes)
        → Suite (suc d) body
        → Branches d rest
        → Branches d (line d (text "elif " ∷ cond ∷ text ":" ∷ []) ∷ (body ++ rest))
    else_branch :
        {d : ℕ} {body : Lines} → Suite (suc d) body → Branches d (line d (text "else:" ∷ []) ∷ body)

-- Every CASE has a clause, also those inside other statements.
abbrev mutual
  pub HasClauses : Statement → Type 0
  HasClauses (assign_stmt target value) = Unit {0}
  HasClauses (if_stmt cond body elsifs other) =
      HaveClauses body × ElsIfsHaveClauses elsifs × HaveClauses other
  HasClauses (for_stmt variable start stop step body) = HaveClauses body
  HasClauses (while_stmt cond body) = HaveClauses body
  HasClauses (repeat_stmt body cond) = HaveClauses body
  HasClauses (case_stmt e no_cases other) = ⊥
  HasClauses (case_stmt e (and_case values body cases) other) =
      HaveClauses body × CasesHaveClauses cases × HaveClauses other
  HasClauses (call_stmt name args) = Unit {0}
  HasClauses return_stmt = Unit {0}

  pub HaveClauses : Statements → Type 0
  HaveClauses no_statements = Unit {0}
  HaveClauses (and_statement s ss) = HasClauses s × HaveClauses ss

  pub ElsIfsHaveClauses : ElsIfs → Type 0
  ElsIfsHaveClauses no_elsifs = Unit {0}
  ElsIfsHaveClauses (and_elsif cond body elsifs) = HaveClauses body × ElsIfsHaveClauses elsifs

  pub CasesHaveClauses : Cases → Type 0
  CasesHaveClauses no_cases = Unit {0}
  CasesHaveClauses (and_case values body cases) = HaveClauses body × CasesHaveClauses cases

mutual
  unfolding stmt

  pub stmt-Suite : (d : ℕ) (s : Statement) → HasClauses s → Suite d (stmt d s)
  stmt-Suite d (assign_stmt target value) h = simple (set_call (quote target) (expr value))
  stmt-Suite d (if_stmt cond body elsifs other) h =
      if_suite (expr cond) (stmt_block-Suite (suc d) body h.0)
        (elif_blocks-Branches d elsifs _ (else_block-Branches d other h.2) h.1)
  stmt-Suite d (for_stmt variable start stop none body) h =
      for_suite variable _ (stmt_block-Suite (suc d) body h)
  stmt-Suite d (for_stmt variable start stop (some step) body) h =
      for_suite variable _ (stmt_block-Suite (suc d) body h)
  stmt-Suite d (while_stmt cond body) h = for_suite (text "_") (text "10000") (
      sequence
        (if_suite (print (text "not (" ∷ expr cond ∷ text ")" ∷ [])) (simple break_word) no_branch)
        (stmt_block-Suite (suc d) body h))
  stmt-Suite d (repeat_stmt body cond) h = for_suite (text "_") (text "10000") (
      sequence (stmt_block-Suite (suc d) body h)
        (if_suite (expr cond) (simple break_word) no_branch))
  stmt-Suite d (case_stmt e no_cases other) h = elim h [ ]
  stmt-Suite d (case_stmt e (and_case values body cases) other) h =
      rw
        (append_assoc (stmt_block (suc d) body) (case_blocks d (expr e) false cases)
          (else_block d other))
        (if_suite (labels (expr e) (exprs values)) (stmt_block-Suite (suc d) body h.0)
          (case_blocks-Branches d (expr e) cases _ (else_block-Branches d other h.2) h.1))
  stmt-Suite d (call_stmt name args) h = simple (call name (join (text ", ") (exprs args)))
  stmt-Suite d return_stmt h = simple return_word

  -- What comes before a list of statements is not empty.
  pub stmts-Suite :
      (d : ℕ) (ss : Statements) (first : Lines)
      → Suite d first
      → HaveClauses ss
      → Suite d (first ++ stmts d ss)
  stmts-Suite d no_statements first f h = subst (Suite d) (sym (append-nil first)) f
  stmts-Suite d (and_statement s ss) first f h =
      sequence f (stmts-Suite d ss (stmt d s) (stmt-Suite d s h.0) h.1)

  stmt_block-Suite : (d : ℕ) (ss : Statements) → HaveClauses ss → Suite d (stmt_block d ss)
  stmt_block-Suite d no_statements h = simple pass_word
  stmt_block-Suite d (and_statement s ss) h = stmts-Suite d ss (stmt d s) (stmt-Suite d s h.0) h.1

  else_block-Branches : (d : ℕ) (ss : Statements) → HaveClauses ss → Branches d (else_block d ss)
  else_block-Branches d no_statements h = no_branch
  else_block-Branches d (and_statement s ss) h =
      else_branch (stmts-Suite (suc d) ss (stmt (suc d) s) (stmt-Suite (suc d) s h.0) h.1)

  elif_blocks-Branches :
      (d : ℕ) (elsifs : ElsIfs) (rest : Lines)
      → Branches d rest
      → ElsIfsHaveClauses elsifs
      → Branches d (elif_blocks d elsifs ++ rest)
  elif_blocks-Branches d no_elsifs rest r h = r
  elif_blocks-Branches d (and_elsif cond body elsifs) rest r h =
      rw (append_assoc (stmt_block (suc d) body) (elif_blocks d elsifs) rest) (
        elif_branch (expr cond) (stmt_block-Suite (suc d) body h.0)
          (elif_blocks-Branches d elsifs rest r h.1))

  case_blocks-Branches :
      (d : ℕ) (selector : Bytes) (cases : Cases) (rest : Lines)
      → Branches d rest
      → CasesHaveClauses cases
      → Branches d (case_blocks d selector false cases ++ rest)
  case_blocks-Branches d selector no_cases rest r h = r
  case_blocks-Branches d selector (and_case values body cases) rest r h =
      rw (append_assoc (stmt_block (suc d) body) (case_blocks d selector false cases) rest) (
        elif_branch (labels selector (exprs values)) (stmt_block-Suite (suc d) body h.0)
          (case_blocks-Branches d selector cases rest r h.1))
