-- ===== src/St/Grammar/Complete.antt =====
-- plc/st/parser.go: the parser of expressions on the phrases of the grammar.
use tentacle_next.Prelude.{
  ℕ, zero, suc, ◌<◌, ◌≡◌, refl, false, ◌||◌, [], ◌∷◌, ◌++◌, length, length-append, append_assoc,
  arith,
}
use tentacle_next.Prelude.Bytes.{Bytes}
use tentacle_next.St.Token
use tentacle_next.St.Token.{Token, Tokens, TokenType, text, is}
use tentacle_next.St.Ast.{
  Expression, Expressions, no_expressions, and_expression, unary_expr, call_expr, ident_expr,
}
use tentacle_next.St.Result.{ok}
use tentacle_next.St.Parser.{
  Precedence, or, peek, call_args, parse_call_args, parse_primary, parse_unary, parse_expression,
}
use tentacle_next.St.Grammar
use tentacle_next.St.Grammar.{
  typed, Operator, Level, primary, unary, binary, tighter, Members, no_member, member, Phrase,
  Operation, Arguments, ArgumentList, only_primary, negation, opposite, operation, only_operand,
  infix_op, no_argument, some_arguments, last_argument, more_arguments, rank, level_rank,
  operator_rank, Stops,
}
use tentacle_next.St.Grammar.Operators.{
  Members-members, Opens, Phrase-Opens, length-Opens, Reads, Chains, expression-Reads,
  only_operand-Chains, infix_op-Chains, operation-Reads,
}

pub name-Reads :
    (ts : Tokens) (full : Bytes) (t : Token)
    → Members t.literal ts full
    → Reads primary (typed Token.ident t ∷ ts) (ident_expr full)
unfolding parse_primary
name-Reads ts full t ms n u rest l le (d, p, s) = rw (Members-members ms rest d) (rw p refl)

-- The arguments are read up to the closing parenthesis.
abbrev pub ReadsArguments : Tokens → Expressions → Type 0
ReadsArguments ts es =
    (n m : ℕ) (r : Token) (rest : Tokens)
    → length ts < m
    → length ts < n
    → call_args (parse_expression n) m (ts ++ (typed Token.rparen r ∷ rest))
      ≡ ok (es, typed Token.rparen r ∷ rest)

no_argument-Reads : ReadsArguments [] no_expressions
unfolding call_args
no_argument-Reads n zero r rest l k = absurd (omega arith)
no_argument-Reads n (suc m) r rest l k = refl

call-Reads :
    (ts args : Tokens) (full : Bytes) (es : Expressions) (t l r : Token)
    → Members t.literal ts full
    → ReadsArguments args es
    → Reads primary
        (typed Token.ident t
          ∷ (ts ++ (typed Token.lparen l ∷ (args ++ (typed Token.rparen r ∷ [])))))
        (call_expr full es)
unfolding parse_primary parse_call_args
call-Reads ts args full es t l r ms ih n u rest len le (d, p, s) =
    let inner = args ++ (typed Token.rparen r ∷ []) in
    rw
      (
        append_assoc ts (typed Token.lparen l ∷ inner) rest,
        append_assoc args (typed Token.rparen r ∷ []) rest,
        Members-members ms (typed Token.lparen l ∷ (args ++ (typed Token.rparen r ∷ rest))) refl,
        ih n n r rest
            (omega (
              arith,
              length-append ts (typed Token.lparen l ∷ inner),
              length-append args (typed Token.rparen r ∷ []),
            ))
            (omega (
              arith,
              length-append ts (typed Token.lparen l ∷ inner),
              length-append args (typed Token.rparen r ∷ []),
            )),
      )
      refl

parens-Reads :
    (ts : Tokens) (e : Expression) (l r : Token)
    → Reads (binary or) ts e
    → Reads primary (typed Token.lparen l ∷ (ts ++ (typed Token.rparen r ∷ []))) e
unfolding parse_primary
parens-Reads ts e l r ih n u rest len le s =
    rw
      (
        append_assoc ts (typed Token.rparen r ∷ []) rest,
        expression-Reads ts e ih n (typed Token.rparen r ∷ rest)
            (omega (arith, length-append ts (typed Token.rparen r ∷ []))) (refl, refl, omega arith),
      )
      refl

abbrev HasNoSign : Token → Type 0
HasNoSign t = (is Token.not_kw t ≡ false) × (is Token.minus t ≡ false)

Phrase-HasNoSign :
    {ts : Tokens} {e : Expression}
    → Phrase primary ts e
    → (rest : Tokens) → HasNoSign (peek (ts ++ rest))
Phrase-HasNoSign (Grammar.number t) rest = (refl, refl)
Phrase-HasNoSign _ rest = (refl, refl)

only_primary-Reads :
    (ts : Tokens) (e : Expression) → Phrase primary ts e → Reads primary ts e → Reads unary ts e
unfolding parse_unary
only_primary-Reads ts e p ih n zero rest l le s =
    absurd (omega (arith, length-Opens ts (Phrase-Opens p)))
only_primary-Reads ts e p ih n (suc u) rest l le s =
    let (no_not, no_minus) = Phrase-HasNoSign p rest in
    rw (no_not, no_minus) (ih n n rest (omega arith) (omega arith) s)

negation-Reads :
    (ts : Tokens) (e : Expression) (t : Token)
    → Reads unary ts e
    → Reads unary (typed Token.not_kw t ∷ ts) (unary_expr (text "NOT") e)
unfolding parse_unary
negation-Reads ts e t ih n zero rest l le s = absurd (omega arith)
negation-Reads ts e t ih n (suc u) rest l le s = rw (ih n u rest (omega arith) (omega arith) s) refl

opposite-Reads :
    (ts : Tokens) (e : Expression) (t : Token)
    → Reads primary ts e
    → Reads unary (typed Token.minus t ∷ ts) (unary_expr (text "-") e)
unfolding parse_unary
opposite-Reads ts e t ih n zero rest l le s = absurd (omega arith)
opposite-Reads ts e t ih n (suc u) rest l le s = rw (ih n n rest (omega arith) (omega arith) s) refl

-- The loop over arguments goes on: what comes next closes no list.
pub Opens-guard :
    (ts rest : Tokens)
    → Opens ts
    → (is Token.rparen (peek (ts ++ rest)) || is Token.eof (peek (ts ++ rest))) ≡ false
Opens-guard [] rest o = elim o [ ]
Opens-guard (t ∷ ts) rest o = o.0

last_argument-Reads :
    (ts : Tokens) (e : Expression)
    → Opens ts
    → Reads (binary or) ts e
    → ReadsArguments ts (and_expression e no_expressions)
unfolding call_args
last_argument-Reads ts e o ih n zero r rest l k = absurd (omega arith)
last_argument-Reads ts e o ih n (suc m) r rest l k =
    rw
      (
        Opens-guard ts (typed Token.rparen r ∷ rest) o,
        expression-Reads ts e ih n (typed Token.rparen r ∷ rest) k (refl, refl, omega arith),
      )
      refl

more_arguments-Reads :
    (ts us : Tokens) (e : Expression) (es : Expressions) (t : Token)
    → Opens ts
    → Reads (binary or) ts e
    → ReadsArguments us es
    → ReadsArguments (ts ++ (typed Token.comma t ∷ us)) (and_expression e es)
unfolding call_args
more_arguments-Reads ts us e es t o ih ihs n zero r rest l k = absurd (omega arith)
more_arguments-Reads ts us e es t o ih ihs n (suc m) r rest l k =
    let close = typed Token.rparen r ∷ rest in
    let after = typed Token.comma t ∷ (us ++ close) in
    let len = length-append ts (typed Token.comma t ∷ us) in
    rw
      (
        append_assoc ts (typed Token.comma t ∷ us) close,
        Opens-guard ts after o,
        expression-Reads ts e ih n after (omega (arith, len)) (refl, refl, omega arith),
        ihs n m r rest (omega (arith, len)) (omega (arith, len)),
      )
      refl

mutual
  unfolding parse_primary

  pub Phrase-Reads : {l : Level} {ts : Tokens} {e : Expression} → Phrase l ts e → Reads l ts e
  Phrase-Reads (Grammar.number t) = λ n u rest l le s. refl
  Phrase-Reads (Grammar.string t) = λ n u rest l le s. refl
  Phrase-Reads (Grammar.truth t) = λ n u rest l le s. refl
  Phrase-Reads (Grammar.falsity t) = λ n u rest l le s. refl
  Phrase-Reads (Grammar.time t) = λ n u rest l le s. refl
  Phrase-Reads (Grammar.name {ts} {full} t ms) = name-Reads ts full t ms
  Phrase-Reads (Grammar.call {ts} {args} {full} {es} t l r ms a) =
      call-Reads ts args full es t l r ms (Arguments-Reads a)
  Phrase-Reads (Grammar.parens {ts} {e} l r p) = parens-Reads ts e l r (Phrase-Reads p)
  Phrase-Reads (only_primary {ts} {e} p) = only_primary-Reads ts e p (Phrase-Reads p)
  Phrase-Reads (negation {ts} {e} t p) = negation-Reads ts e t (Phrase-Reads p)
  Phrase-Reads (opposite {ts} {e} t p) = opposite-Reads ts e t (Phrase-Reads p)
  Phrase-Reads (operation {k} {ts} {e} o) = operation-Reads k ts e (Operation-Chains o)

  Operation-Chains :
      {k : Precedence} {ts : Tokens} {e : Expression} → Operation k ts e → Chains k ts e
  Operation-Chains (only_operand {k} {ts} {e} p) =
      only_operand-Chains k ts e (Phrase-Opens p) (Phrase-Reads p)
  Operation-Chains (infix_op {k} {ls} {rs} {e} {f} t o oper p) =
      infix_op-Chains k ls rs e f t (Operation-Chains o) oper (Phrase-Reads p)

  pub Arguments-Reads : {ts : Tokens} {es : Expressions} → Arguments ts es → ReadsArguments ts es
  Arguments-Reads no_argument = no_argument-Reads
  Arguments-Reads (some_arguments a) = ArgumentList-Reads a

  ArgumentList-Reads : {ts : Tokens} {es : Expressions} → ArgumentList ts es → ReadsArguments ts es
  ArgumentList-Reads (last_argument {ts} {e} p) =
      last_argument-Reads ts e (Phrase-Opens p) (Phrase-Reads p)
  ArgumentList-Reads (more_arguments {ts} {us} {e} {es} t p a) =
      more_arguments-Reads ts us e es t (Phrase-Opens p) (Phrase-Reads p) (ArgumentList-Reads a)

-- Whatever the grammar derives for an expression, the parser reads as that expression and leaves what
-- follows, given a token after it that does not continue an expression. The grammar has the precedences
-- of NOT and minus, of the six levels of operators, which group to the left, of parentheses, of dotted
-- names and of calls. The fuel is the number of the phrase's tokens and one more.
pub parse_expression-Phrase :
    {ts : Tokens} {e : Expression}
    → Phrase (binary or) ts e
    → (n : ℕ) (rest : Tokens) → length ts < n
    → Stops (binary or) (peek rest)
    → parse_expression n (ts ++ rest) ≡ ok (e, rest)
parse_expression-Phrase {ts} {e} p = expression-Reads ts e (Phrase-Reads p)
