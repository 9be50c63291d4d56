-- ===== src/St/Parser/Statements/Termination.antt =====
-- plc/st/parser.go: what the parsers of statements consume, and the fuel they need.
use tentacle_next.Prelude.{
  ℕ, zero, suc, ◌<◌, ◌≤◌, ◌≡◌, refl, Bool, true, false, ◌||◌, List, [], ◌∷◌, length, arith,
  Bool-cases, inl, inr,
}
use tentacle_next.Prelude.Bytes.{Bytes}
use tentacle_next.St.Token
use tentacle_next.St.Token.{Token, Tokens, TokenType, is, ordinal, text}
use tentacle_next.St.Result.{Meets, gives, Meets-if, Meets-bind, Meets-weaken}
use tentacle_next.St.Parser.{peek, advance, skip, members, parse_expression}
use tentacle_next.St.Parser.Termination.{
  Shrinks, Keeps, length-advance, advance-is, length-skip, expect-Meets, length-members,
  parse_call_args-Meets, parse_expression-Consumes,
}
use tentacle_next.St.Parser.Statements.{
  StatementParser, close, is_one_of, parse_block, assign_or_call, parse_assign_or_call,
  parse_elsifs, parse_else, parse_if, parse_step, parse_for, parse_while, parse_repeat, case_values,
  at_case_end, parse_cases, parse_case, statement_at, parse_statement,
}

-- Called before the end, the parser of a statement consumes a token.
abbrev pub ConsumesStatement : ℕ → StatementParser → Type 0
ConsumesStatement n p =
    (ts : Tokens) → suc (length ts) < n → is Token.eof (peek ts) ≡ false → Meets (Shrinks ts) (p ts)

pub or_false : (a b : Bool) → (a || b) ≡ false → (a ≡ false) × (b ≡ false)
or_false true b h = cc
or_false false b h = (refl, h)

pub advance-not_eof :
    (ts : Tokens) → is Token.eof (peek ts) ≡ false → length (advance ts) < length ts
advance-not_eof [] h = cc
advance-not_eof (t ∷ ts) h = omega arith

length-close : (end : TokenType) (ts : Tokens) → length (close end ts) ≤ length ts
length-close end ts = omega (arith, length-skip Token.semicolon (skip end ts), length-skip end ts)

pub parse_block-Meets :
    (n : ℕ) (statement : StatementParser)
    → ConsumesStatement n statement
    → (terminators : List TokenType) (m : ℕ) (ts : Tokens) → length ts < m
    → suc (length ts) < n
    → Meets (Keeps ts) (parse_block terminators statement m ts)
unfolding parse_block
parse_block-Meets n statement h terminators zero ts l k = absurd (omega arith)
parse_block-Meets n statement h terminators (suc m) ts l k =
    Meets-if (is Token.eof (peek ts) || is_one_of terminators (peek ts)) (λ _. gives (omega arith))
      λ e. Meets-bind (h ts k (or_false _ _ e).0) λ (s, rest) p.
        Meets-bind (parse_block-Meets n statement h terminators m rest (omega arith) (omega arith))
          λ _ q. gives (omega arith)

later : (n : ℕ) (ts : Tokens) → suc (length ts) < n → Meets (Shrinks ts) (parse_expression n ts)
later n = parse_expression-Consumes n

assign_or_call-Meets :
    (n : ℕ) (ts : Tokens) (r : Bytes × Tokens)
    → length r.1 < length ts
    → length ts < n
    → Meets (Shrinks ts) (assign_or_call n r)
unfolding assign_or_call
assign_or_call-Meets n ts (name, rest) l k =
    let less = length-advance rest in
    Meets-if (is Token.assign (peek rest))
      (λ _.
        Meets-bind (later n (advance rest) (omega arith))
          λ (e, ts₁) p. gives (omega (arith, length-skip Token.semicolon ts₁)))
      λ _.
        Meets-if (is Token.lparen (peek rest))
          (λ _.
            Meets-bind
              (parse_call_args-Meets n (parse_expression n) (parse_expression-Consumes n) rest
                (omega arith))
              λ (args, ts₁) p. gives (omega (arith, length-skip Token.semicolon ts₁)))
          λ _. gives (omega (arith, length-skip Token.semicolon rest))

module _ (n : ℕ) (statement : StatementParser) (h : ConsumesStatement n statement) where
  block :
      (terminators : List TokenType) (ts : Tokens)
      → suc (length ts) < n
      → Meets (Keeps ts) (parse_block terminators statement n ts)
  block terminators ts l = parse_block-Meets n statement h terminators n ts (omega arith) l

  parse_elsifs-Meets :
      (m : ℕ) (ts : Tokens)
      → length ts < m
      → suc (length ts) < n
      → Meets (Keeps ts) (parse_elsifs n statement m ts)
  unfolding parse_elsifs
  parse_elsifs-Meets zero ts l k = absurd (omega arith)
  parse_elsifs-Meets (suc m) ts l k =
      Meets-if (is Token.elsif_kw (peek ts))
        (λ e.
          let less = advance-is Token.elsif_kw ts e (omega arith) in
          Meets-bind (later n (advance ts) (omega arith)) λ (cond, ts₁) p₁.
            let less₁ = length-advance ts₁ in
            Meets-bind (block _ (advance ts₁) (omega arith)) λ (body, ts₂) p₂.
              Meets-bind (parse_elsifs-Meets m ts₂ (omega arith) (omega arith))
                λ _ q. gives (omega arith))
        λ _. gives (omega arith)

  parse_else-Meets :
      (end : TokenType) (ts : Tokens)
      → suc (length ts) < n
      → Meets (Keeps ts) (parse_else n statement end ts)
  unfolding parse_else
  parse_else-Meets end ts k =
      let less = length-advance ts in
      Meets-if (is Token.else_kw (peek ts))
        (λ _. Meets-weaken (block _ (advance ts) (omega arith)) λ _ p. omega arith)
        λ _. gives (omega arith)

  parse_if-Meets :
      (ts : Tokens)
      → length ts < n
      → length (advance ts) < length ts
      → Meets (Shrinks ts) (parse_if n statement ts)
  unfolding parse_if
  parse_if-Meets ts k less = Meets-bind (later n (advance ts) (omega arith)) λ (cond, ts₁) p₁.
      Meets-bind (expect-Meets Token.then_kw ts₁ (omega arith)) λ (_, ts₂) p₂.
        Meets-bind (block _ ts₂ (omega arith)) λ (body, ts₃) p₃.
          Meets-bind (parse_elsifs-Meets n ts₃ (omega arith) (omega arith)) λ (_, ts₄) p₄.
            Meets-bind (parse_else-Meets Token.end_if ts₄ (omega arith))
              λ (_, ts₅) p₅. gives (omega (arith, length-close Token.end_if ts₅))

  parse_step-Meets :
      (ts : Tokens) → suc (length ts) < n → Meets (Keeps ts) (parse_step n statement ts)
  unfolding parse_step
  parse_step-Meets ts k =
      let less = length-advance ts in
      Meets-if (is Token.by_kw (peek ts))
        (λ _. Meets-bind (later n (advance ts) (omega arith)) λ (_, rest) p. gives (omega arith))
        λ _. gives (omega arith)

  parse_for-Meets :
      (ts : Tokens)
      → length ts < n
      → length (advance ts) < length ts
      → Meets (Shrinks ts) (parse_for n statement ts)
  unfolding parse_for
  parse_for-Meets ts k less =
      Meets-bind (expect-Meets Token.ident (advance ts) (omega arith)) λ (_, ts₁) p₁.
        let less₁ = length-advance ts₁ in
        Meets-bind (later n (advance ts₁) (omega arith)) λ (_, ts₂) p₂.
          let less₂ = length-advance ts₂ in
          Meets-bind (later n (advance ts₂) (omega arith)) λ (_, ts₃) p₃.
            Meets-bind (parse_step-Meets ts₃ (omega arith)) λ (_, ts₄) p₄.
              let less₄ = length-advance ts₄ in
              Meets-bind (block _ (advance ts₄) (omega arith))
                λ (_, ts₅) p₅. gives (omega (arith, length-close Token.end_for ts₅))

  parse_while-Meets :
      (ts : Tokens)
      → length ts < n
      → length (advance ts) < length ts
      → Meets (Shrinks ts) (parse_while n statement ts)
  unfolding parse_while
  parse_while-Meets ts k less = Meets-bind (later n (advance ts) (omega arith)) λ (_, ts₁) p₁.
      let less₁ = length-advance ts₁ in
      Meets-bind (block _ (advance ts₁) (omega arith))
        λ (_, ts₂) p₂. gives (omega (arith, length-close Token.end_while ts₂))

  parse_repeat-Meets :
      (ts : Tokens)
      → length ts < n
      → length (advance ts) < length ts
      → Meets (Shrinks ts) (parse_repeat n statement ts)
  unfolding parse_repeat
  parse_repeat-Meets ts k less = Meets-bind (block _ (advance ts) (omega arith)) λ (_, ts₁) p₁.
      let less₁ = length-advance ts₁ in
      Meets-bind (later n (advance ts₁) (omega arith))
        λ (_, ts₂) p₂. gives (omega (arith, length-close Token.end_repeat ts₂))

  case_values-Meets :
      (m : ℕ) (ts : Tokens)
      → length ts < m
      → suc (length ts) < n
      → Meets (Shrinks ts) (case_values n statement m ts)
  unfolding case_values
  case_values-Meets zero ts l k = absurd (omega arith)
  case_values-Meets (suc m) ts l k = Meets-bind (later n ts k) λ (value, rest) p.
      elim (Bool-cases (is Token.comma (peek rest))) [
        | inl e ↦ rw e (
            let less = length-advance rest in
            Meets-bind (case_values-Meets m (advance rest) (omega arith) (omega arith))
              λ _ q. gives (omega arith))
        | inr e ↦ rw e (gives (omega arith))
      ]

  parse_cases-Meets :
      (m : ℕ) (ts : Tokens)
      → length ts < m
      → suc (length ts) < n
      → Meets (Keeps ts) (parse_cases n statement m ts)
  unfolding parse_cases
  parse_cases-Meets zero ts l k = absurd (omega arith)
  parse_cases-Meets (suc m) ts l k =
      Meets-if (at_case_end n statement ts) (λ _. gives (omega arith))
        λ _. Meets-bind (case_values-Meets n ts (omega arith) k) λ (values, ts₁) p₁.
          let less₁ = length-advance ts₁ in
          Meets-bind (block _ (advance ts₁) (omega arith)) λ (body, ts₂) p₂.
            elim (Bool-cases (at_case_end n statement ts₂)) [
              | inl e ↦ rw e (gives (omega arith))
              | inr e ↦ rw e (
                  Meets-bind (parse_cases-Meets m ts₂ (omega arith) (omega arith))
                    λ _ q. gives (omega arith))
            ]

  parse_case-Meets :
      (ts : Tokens)
      → length ts < n
      → length (advance ts) < length ts
      → Meets (Shrinks ts) (parse_case n statement ts)
  unfolding parse_case
  parse_case-Meets ts k less = Meets-bind (later n (advance ts) (omega arith)) λ (_, ts₁) p₁.
      let less₁ = length-advance ts₁ in
      Meets-bind (parse_cases-Meets n (advance ts₁) (omega arith) (omega arith)) λ (_, ts₂) p₂.
        Meets-bind (parse_else-Meets Token.end_case ts₂ (omega arith))
          λ (_, ts₃) p₃. gives (omega (arith, length-close Token.end_case ts₃))

  statement_at-Meets :
      (tt : TokenType) (ts : Tokens)
      → length ts < n
      → length (advance ts) < length ts
      → Meets (Shrinks ts) (statement_at n statement tt ts)
  unfolding statement_at parse_assign_or_call
  statement_at-Meets Token.if_kw ts k less = parse_if-Meets ts k less
  statement_at-Meets Token.for_kw ts k less = parse_for-Meets ts k less
  statement_at-Meets Token.while_kw ts k less = parse_while-Meets ts k less
  statement_at-Meets Token.repeat_kw ts k less = parse_repeat-Meets ts k less
  statement_at-Meets Token.case_kw ts k less = parse_case-Meets ts k less
  statement_at-Meets Token.return_kw ts k less =
      gives (omega (arith, length-skip Token.semicolon (advance ts)))
  statement_at-Meets Token.ident ts k less =
      assign_or_call-Meets n ts (members (peek ts).literal (advance ts))
        (omega (arith, length-members (peek ts).literal (advance ts))) k
  statement_at-Meets _ ts k less = gives less

pub parse_statement-Consumes : (n : ℕ) → ConsumesStatement n (parse_statement n)
unfolding parse_statement
parse_statement-Consumes zero ts l e = absurd (omega arith)
parse_statement-Consumes (suc n) ts l e =
    statement_at-Meets n (parse_statement n) (parse_statement-Consumes n) (peek ts).type ts
      (omega arith) (advance-not_eof ts e)
