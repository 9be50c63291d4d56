-- ===== src/St/Parser/Statements.antt =====
-- plc/st/parser.go: the statements, and what a program is made of.
pub mod Termination
use tentacle_next.Prelude.{
  ℕ, zero, suc, Bool, true, false, ◌||◌, Option, none, some, List, [], ◌∷◌, ◌++◌, if◌then◌else◌,
}
use tentacle_next.Prelude.Bytes.{Bytes}
use tentacle_next.St.Token
use tentacle_next.St.Token.{Token, Tokens, TokenType, is, to_upper}
use tentacle_next.St.Ast.{
  Expression, Expressions, no_expressions, and_expression, ident_expr, Statement, Statements,
  ElsIfs, Cases, assign_stmt, if_stmt, for_stmt, while_stmt, repeat_stmt, case_stmt, call_stmt,
  return_stmt, no_statements, and_statement, no_elsifs, and_elsif, no_cases, and_case,
}
use tentacle_next.St.Result.{Result, ok, failed, out_of_fuel, bind}
use tentacle_next.St.Parser.{
  Parser, peek, advance, expect, skip, members, parse_call_args, parse_expression,
}

-- A statement, or none where the code returns nil.
abbrev pub StatementParser : Type 0
StatementParser = Parser (Option Statement)

-- The two tokens that may close a statement: `end` and a semicolon.
abbrev pub close : TokenType → Tokens → Tokens
close end ts = skip Token.semicolon (skip end ts)

abbrev pub is_one_of : List TokenType → Token → Bool
is_one_of [] t = false
is_one_of (tt ∷ tts) t = is tt t || is_one_of tts t

abbrev pub cons_some : Option Statement → Statements → Statements
cons_some none stmts = stmts
cons_some (some s) stmts = and_statement s stmts

-- parseStatementBlock
unfoldable pub parse_block : List TokenType → StatementParser → ℕ → Parser Statements
parse_block terminators statement zero ts = out_of_fuel
parse_block terminators statement (suc n) ts =
    let more = bind (statement ts) λ (s, rest).
      bind (parse_block terminators statement n rest)
        λ (stmts, rest'). ok (cons_some s stmts, rest') in
    if is Token.eof (peek ts) || is_one_of terminators (peek ts)
    then ok (no_statements, ts)
    else more

assign_or_call : ℕ → Bytes × Tokens → Result (Option Statement × Tokens)
assign_or_call n (name, ts) =
    let assignment =
      bind (parse_expression n (advance ts))
        λ (value, rest). ok (some (assign_stmt name value), skip Token.semicolon rest) in
    let call =
      bind (parse_call_args (parse_expression n) n ts)
        λ (args, rest). ok (some (call_stmt name args), skip Token.semicolon rest) in
    if is Token.assign (peek ts)
    then assignment
    else if is Token.lparen (peek ts)
    then call
    else ok (some (assign_stmt name (ident_expr name)), skip Token.semicolon ts)

unfoldable pub parse_assign_or_call : ℕ → StatementParser
unfolding assign_or_call
parse_assign_or_call n ts = assign_or_call n (members (peek ts).literal (advance ts))

module _ (n : ℕ) (statement : StatementParser) where
  -- The ELSIF loop of parseIfStmt.
  unfoldable pub parse_elsifs : ℕ → Parser ElsIfs
  parse_elsifs zero ts = out_of_fuel
  parse_elsifs (suc m) ts =
      let more = bind (parse_expression n (advance ts)) λ (cond, rest).
        bind
          (parse_block (Token.elsif_kw ∷ Token.else_kw ∷ Token.end_if ∷ []) statement n
            (advance rest))
          λ (body, rest').
            bind (parse_elsifs m rest')
              λ (elsifs, rest''). ok (and_elsif cond body elsifs, rest'') in
      if is Token.elsif_kw (peek ts) then more else ok (no_elsifs, ts)

  -- An optional ELSE with its block, which `end` closes.
  unfoldable pub parse_else : TokenType → Parser Statements
  parse_else end ts =
      let block = parse_block (end ∷ []) statement n (advance ts) in
      if is Token.else_kw (peek ts) then block else ok (no_statements, ts)

  unfoldable pub parse_if : StatementParser
  parse_if ts = bind (parse_expression n (advance ts)) λ (cond, ts₁).
      bind (expect Token.then_kw ts₁) λ (_, ts₂).
        bind (parse_block (Token.elsif_kw ∷ Token.else_kw ∷ Token.end_if ∷ []) statement n ts₂)
          λ (body, ts₃). bind (parse_elsifs n ts₃) λ (elsifs, ts₄).
            bind (parse_else Token.end_if ts₄)
              λ (other, ts₅). ok (some (if_stmt cond body elsifs other), close Token.end_if ts₅)

  unfoldable pub parse_step : Parser (Option Expression)
  parse_step ts =
      let step = bind (parse_expression n (advance ts)) λ (e, rest). ok (some e, rest) in
      if is Token.by_kw (peek ts) then step else ok (none, ts)

  unfoldable pub parse_for : StatementParser
  unfolding parse_step
  parse_for ts = bind (expect Token.ident (advance ts)) λ (var, ts₁).
      bind (parse_expression n (advance ts₁)) λ (start, ts₂).
        bind (parse_expression n (advance ts₂)) λ (stop, ts₃). bind (parse_step ts₃) λ (step, ts₄).
          bind (parse_block (Token.end_for ∷ []) statement n (advance ts₄)) λ (body, ts₅).
            ok (some (for_stmt var.literal start stop step body), close Token.end_for ts₅)

  unfoldable pub parse_while : StatementParser
  parse_while ts = bind (parse_expression n (advance ts)) λ (cond, ts₁).
      bind (parse_block (Token.end_while ∷ []) statement n (advance ts₁))
        λ (body, ts₂). ok (some (while_stmt cond body), close Token.end_while ts₂)

  unfoldable pub parse_repeat : StatementParser
  parse_repeat ts = bind (parse_block (Token.until_kw ∷ []) statement n (advance ts)) λ (body, ts₁).
      bind (parse_expression n (advance ts₁))
        λ (cond, ts₂). ok (some (repeat_stmt body cond), close Token.end_repeat ts₂)

  -- The labels of one clause: at least one expression.
  unfoldable pub case_values : ℕ → Parser Expressions
  case_values zero ts = out_of_fuel
  case_values (suc m) ts = bind (parse_expression n ts) λ (value, rest).
      elim (is Token.comma (peek rest)) [
        | true ↦
            bind (case_values m (advance rest))
              λ (values, rest'). ok (and_expression value values, rest')
        | false ↦ ok (and_expression value no_expressions, rest)
      ]

  abbrev pub at_case_end : Tokens → Bool
  at_case_end ts =
      is Token.end_case (peek ts) || (is Token.else_kw (peek ts) || is Token.eof (peek ts))

  -- The loop over the clauses, with the test at its end that leaves it.
  unfoldable pub parse_cases : ℕ → Parser Cases
  unfolding case_values
  parse_cases zero ts = out_of_fuel
  parse_cases (suc m) ts =
      let clause = bind (case_values n ts) λ (values, rest).
        bind (parse_block (Token.end_case ∷ Token.else_kw ∷ []) statement n (advance rest))
          λ (body, rest'). elim (at_case_end rest') [
            | true ↦ ok (and_case values body no_cases, rest')
            | false ↦
                bind (parse_cases m rest')
                  λ (cases, rest''). ok (and_case values body cases, rest'')
          ] in
      if at_case_end ts then ok (no_cases, ts) else clause

  unfoldable pub parse_case : StatementParser
  unfolding parse_cases
  parse_case ts = bind (parse_expression n (advance ts)) λ (e, ts₁).
      bind (parse_cases n (advance ts₁)) λ (cases, ts₂).
        bind (parse_else Token.end_case ts₂)
          λ (other, ts₃). ok (some (case_stmt e cases other), close Token.end_case ts₃)

  statement_at : TokenType → StatementParser
  statement_at Token.if_kw ts = parse_if ts
  statement_at Token.for_kw ts = parse_for ts
  statement_at Token.while_kw ts = parse_while ts
  statement_at Token.repeat_kw ts = parse_repeat ts
  statement_at Token.case_kw ts = parse_case ts
  statement_at Token.return_kw ts = ok (some return_stmt, skip Token.semicolon (advance ts))
  statement_at Token.ident ts = parse_assign_or_call n ts
  -- Extra semicolons and unknown tokens are skipped.
  statement_at _ ts = ok (none, advance ts)

-- The fuel falls by one at each nesting.
unfoldable pub parse_statement : ℕ → StatementParser
unfolding statement_at
parse_statement zero ts = out_of_fuel
parse_statement (suc n) ts = statement_at n (parse_statement n) (peek ts).type ts
