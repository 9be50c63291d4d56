-- ===== src/St/Grammar/Operators.antt =====
-- plc/st/parser.go: the loops over operators on the phrases of the grammar.
use tentacle_next.Prelude.{
  ℕ, zero, suc, ◌+◌, ◌<◌, ◌≤◌, ◌≡◌, refl, ap, ◌∙◌, false, ◌||◌, none, some, [], ◌∷◌, ◌++◌, length,
  length-append, append_assoc, arith,
}
use tentacle_next.Prelude.Bytes.{Bytes}
use tentacle_next.St.Token
use tentacle_next.St.Token.{Token, Tokens, TokenType, text, is}
use tentacle_next.St.Ast.{Expression, binary_expr}
use tentacle_next.St.Result.{Result, ok}
use tentacle_next.St.Parser.{
  Parser, Precedence, multiplication, addition, comparison, and, xor, or, peek, members,
  parse_primary, parse_unary, chain, binary_level, op, op_at, parse_multiplication, parse_addition,
  parse_comparison, parse_and, parse_xor, parse_or, parse_expression,
}
use tentacle_next.St.Grammar
use tentacle_next.St.Grammar.{
  typed, Operator, Level, primary, unary, binary, tighter, Members, no_member, member, Phrase,
  Operation, Arguments, ArgumentList, only_primary, negation, opposite, operation, only_operand,
  infix_op, no_argument, some_arguments, last_argument, more_arguments, rank, level_rank,
  operator_rank, Stops,
}

-- What is no operator of the level or of a tighter one is not read by its loop.
op_none :
    (k : Precedence) (tt : TokenType) (s : Bytes) → rank k < operator_rank tt → op_at k tt s ≡ none
unfolding op_at
op_none multiplication Token.star s h = absurd (omega arith)
op_none multiplication Token.slash s h = absurd (omega arith)
op_none multiplication Token.mod_kw s h = absurd (omega arith)
op_none multiplication _ s h = refl
op_none addition Token.plus s h = absurd (omega arith)
op_none addition Token.minus s h = absurd (omega arith)
op_none addition _ s h = refl
op_none comparison Token.equal s h = absurd (omega arith)
op_none comparison Token.not_equal s h = absurd (omega arith)
op_none comparison Token.less s h = absurd (omega arith)
op_none comparison Token.less_eq s h = absurd (omega arith)
op_none comparison Token.greater s h = absurd (omega arith)
op_none comparison Token.greater_eq s h = absurd (omega arith)
op_none comparison _ s h = refl
op_none and Token.and_kw s h = absurd (omega arith)
op_none and _ s h = refl
op_none xor Token.xor_kw s h = absurd (omega arith)
op_none xor _ s h = refl
op_none or Token.or_kw s h = absurd (omega arith)
op_none or _ s h = refl

Operator-op :
    {k : Precedence} {kind : TokenType} {s o : Bytes}
    → Operator k kind s o
    → op_at k kind s ≡ some o
unfolding op_at
Operator-op Grammar.star = refl
Operator-op Grammar.slash = refl
Operator-op _ = refl

-- An operator ends a phrase of every tighter level.
pub Operator-Stops :
    {k : Precedence} {kind : TokenType} {s o : Bytes} (t : Token)
    → Operator k kind s o
    → Stops (tighter k) (typed kind t)
Operator-Stops t Grammar.star = (refl, refl, omega arith)
Operator-Stops t Grammar.slash = (refl, refl, omega arith)
Operator-Stops t _ = (refl, refl, omega arith)

Stops-tighter : (k : Precedence) (t : Token) → Stops (binary k) t → Stops (tighter k) t
Stops-tighter multiplication t (d, p, h) = (d, p, omega arith)
Stops-tighter addition t (d, p, h) = (d, p, omega arith)
Stops-tighter comparison t (d, p, h) = (d, p, omega arith)
Stops-tighter and t (d, p, h) = (d, p, omega arith)
Stops-tighter xor t (d, p, h) = (d, p, omega arith)
Stops-tighter or t (d, p, h) = (d, p, omega arith)

pub members-stop :
    (name : Bytes) (rest : Tokens)
    → is Token.dot (peek rest) ≡ false
    → members name rest ≡ (name, rest)
unfolding members
members-stop name [] h = refl
members-stop name (t ∷ []) h = rw h refl
members-stop name (t ∷ m ∷ ts) h = rw h refl

pub Members-members :
    {name full : Bytes} {ts : Tokens}
    → Members name ts full
    → (rest : Tokens) → is Token.dot (peek rest) ≡ false
    → members name (ts ++ rest) ≡ (full, rest)
unfolding members
Members-members (no_member {name}) rest h = members-stop name rest h
Members-members (member t m ms) rest h = Members-members ms rest h

-- The parser of a level, with the fuel of its operands and that of a chain of NOTs.
abbrev pub parse_at : Level → ℕ → ℕ → Parser Expression
parse_at primary n u = parse_primary (parse_expression n) n
parse_at unary n u = parse_unary (parse_primary (parse_expression n) n) u
parse_at (binary multiplication) n u = parse_multiplication (parse_expression n) n
parse_at (binary addition) n u = parse_addition (parse_expression n) n
parse_at (binary comparison) n u = parse_comparison (parse_expression n) n
parse_at (binary and) n u = parse_and (parse_expression n) n
parse_at (binary xor) n u = parse_xor (parse_expression n) n
parse_at (binary or) n u = parse_or (parse_expression n) n

-- The parser of a level's operands.
abbrev pub operand : Precedence → ℕ → Parser Expression
operand k n = parse_at (tighter k) n n

parse_at-binary :
    (k : Precedence) (n u : ℕ) → parse_at (binary k) n u ≡ binary_level (op k) (operand k n) n
unfolding parse_multiplication parse_addition parse_comparison parse_and parse_xor parse_or
parse_at-binary multiplication n u = refl
parse_at-binary addition n u = refl
parse_at-binary comparison n u = refl
parse_at-binary and n u = refl
parse_at-binary xor n u = refl
parse_at-binary or n u = refl

-- A phrase starts with a token that closes no list of arguments and ends no CASE.
abbrev pub Opens : Tokens → Type 0
Opens [] = ⊥
Opens (t ∷ ts) =
    ((is Token.rparen t || is Token.eof t) ≡ false)
    × ((is Token.end_case t || (is Token.else_kw t || is Token.eof t)) ≡ false)

pub Opens-append : (xs ys : Tokens) → Opens xs → Opens (xs ++ ys)
Opens-append [] ys h = elim h [ ]
Opens-append (x ∷ xs) ys h = h

mutual
  pub Phrase-Opens : {l : Level} {ts : Tokens} {e : Expression} → Phrase l ts e → Opens ts
  Phrase-Opens (only_primary p) = Phrase-Opens p
  Phrase-Opens (operation o) = Operation-Opens o
  Phrase-Opens (Grammar.number t) = (refl, refl)
  Phrase-Opens _ = (refl, refl)

  Operation-Opens : {k : Precedence} {ts : Tokens} {e : Expression} → Operation k ts e → Opens ts
  Operation-Opens (only_operand p) = Phrase-Opens p
  Operation-Opens (infix_op {ls} t o _ p) = Opens-append ls _ (Operation-Opens o)

pub length-Opens : (ts : Tokens) → Opens ts → 0 < length ts
length-Opens [] h = elim h [ ]
length-Opens (t ∷ ts) h = omega arith

-- The level's parser reads `ts` as `e` before whatever does not continue it.
abbrev pub Reads : Level → Tokens → Expression → Type 0
Reads l ts e =
    (n u : ℕ) (rest : Tokens)
    → length ts ≤ u
    → u ≤ n
    → Stops l (peek rest)
    → parse_at l n u (ts ++ rest) ≡ ok (e, rest)

-- Behind `ts` the level's loop goes on with `e` on its left, on fuel that is still above `m`.
abbrev pub Chains : Precedence → Tokens → Expression → Type 0
Chains k ts e =
    (n m : ℕ) (rest : Tokens) (r : Result (Expression × Tokens))
    → 1 ≤ m
    → m + length ts ≤ suc n
    → Stops (tighter k) (peek rest)
    → ((m' : ℕ) → m ≤ m' → chain (op k) (operand k n) m' e rest ≡ r)
    → binary_level (op k) (operand k n) n (ts ++ rest) ≡ r

pub expression-Reads :
    (ts : Tokens) (e : Expression)
    → Reads (binary or) ts e
    → (n : ℕ) (rest : Tokens) → length ts < n
    → Stops (binary or) (peek rest)
    → parse_expression n (ts ++ rest) ≡ ok (e, rest)
unfolding parse_expression
expression-Reads ts e reads zero rest l s = absurd (omega arith)
expression-Reads ts e reads (suc n) rest l s = reads n n rest (omega arith) (omega arith) s

pub only_operand-Chains :
    (k : Precedence) (ts : Tokens) (e : Expression)
    → Opens ts
    → Reads (tighter k) ts e
    → Chains k ts e
unfolding binary_level
only_operand-Chains k ts e o reads n m rest r pos l s continue =
    rw (reads n n rest (omega (arith, length-Opens ts o)) (omega arith) s)
      (continue n (omega (arith, length-Opens ts o)))

pub infix_op-Chains :
    (k : Precedence) (ls rs : Tokens) (e f : Expression) {kind : TokenType} {o : Bytes} (t : Token)
    → Chains k ls e
    → Operator k kind t.literal o
    → Reads (tighter k) rs f
    → Chains k (ls ++ (typed kind t ∷ rs)) (binary_expr e o f)
unfolding chain
infix_op-Chains k ls rs e f {kind} {o} t chains oper reads n m rest r pos l s continue =
    rw (append_assoc ls (typed kind t ∷ rs) rest) (
      chains n (suc m) (typed kind t ∷ (rs ++ rest)) r (omega arith) (omega (arith, len))
        (Operator-Stops t oper) next_round)
  where
    len : length (ls ++ (typed kind t ∷ rs)) ≡ length ls + suc (length rs)
    len = length-append ls (typed kind t ∷ rs)

    next_round :
        (m' : ℕ) → suc m ≤ m' → chain (op k) (operand k n) m' e (typed kind t ∷ (rs ++ rest)) ≡ r
    next_round zero h = absurd (omega arith)
    next_round (suc m') h =
        rw (Operator-op oper, chain)
          (rw (reads n n rest (omega (arith, len)) (omega arith) s) (continue m' (omega arith)))

-- Where the next token does not continue the level, its loop ends with what it has.
chain-Stops :
    (k : Precedence) (find : Parser Expression) (e : Expression) (rest : Tokens)
    → Stops (binary k) (peek rest)
    → (m : ℕ) → 1 ≤ m
    → chain (op k) find m e rest ≡ ok (e, rest)
unfolding chain
chain-Stops k find e rest s zero h = absurd (omega arith)
chain-Stops k find e rest (_, _, s) (suc m) h =
    rw (op_none k (peek rest).type (peek rest).literal s, chain) refl

pub operation-Reads :
    (k : Precedence) (ts : Tokens) (e : Expression) → Chains k ts e → Reads (binary k) ts e
operation-Reads k ts e chains n u rest l le s =
    ap (λ (p : Parser Expression). p (ts ++ rest)) (parse_at-binary k n u)
    ∙ chains n 1 rest (ok (e, rest)) (omega arith) (omega arith) (Stops-tighter k (peek rest) s)
        (chain-Stops k (operand k n) e rest s)
