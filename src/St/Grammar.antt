-- ===== src/St/Grammar.antt =====
-- A grammar of structured text's expressions, for plc/st/parser.go: the operators with their
-- precedences, and the phrases that stand for an expression at a level.
pub mod Operators
pub mod Complete
pub mod Statements
pub mod Sentences
pub mod Branches
pub mod Reading
pub mod Programs
pub mod Sources
pub mod Clauses
use tentacle_next.Prelude.{ℕ, ◌<◌, ◌≡◌, Bool, true, false, List, [], ◌∷◌, ◌++◌}
use tentacle_next.Prelude.Bytes.{Bytes}
use tentacle_next.St.Token
use tentacle_next.St.Token.{Token, Tokens, TokenType, text, is}
use tentacle_next.St.Ast
use tentacle_next.St.Ast.{
  Expression, Expressions, no_expressions, and_expression, binary_expr, unary_expr, call_expr,
  ident_expr, number_lit, bool_lit, time_lit,
}
use tentacle_next.St.Parser.{Precedence, multiplication, addition, comparison, and, xor, or}

-- A token of a given type, with the literal and the position of `t`.
abbrev pub typed : TokenType → Token → Token
typed tt t = record t { type = tt }

-- The operators of each level: the token's type, its literal and the operator in the tree.
pub data Operator : Precedence → TokenType → Bytes → Bytes → Type 0 where
  star : {s : Bytes} → Operator multiplication Token.star s s
  slash : {s : Bytes} → Operator multiplication Token.slash s s
  mod_op : {s : Bytes} → Operator multiplication Token.mod_kw s (text "MOD")
  plus : {s : Bytes} → Operator addition Token.plus s s
  minus : {s : Bytes} → Operator addition Token.minus s s
  equal : {s : Bytes} → Operator comparison Token.equal s (text "=")
  not_equal : {s : Bytes} → Operator comparison Token.not_equal s (text "<>")
  less : {s : Bytes} → Operator comparison Token.less s (text "<")
  less_eq : {s : Bytes} → Operator comparison Token.less_eq s (text "<=")
  greater : {s : Bytes} → Operator comparison Token.greater s (text ">")
  greater_eq : {s : Bytes} → Operator comparison Token.greater_eq s (text ">=")
  and_op : {s : Bytes} → Operator and Token.and_kw s (text "AND")
  xor_op : {s : Bytes} → Operator xor Token.xor_kw s (text "XOR")
  or_op : {s : Bytes} → Operator or Token.or_kw s (text "OR")

pub data Level : Type 0 where
  primary unary : Level
  binary : Precedence → Level

-- The level of an operator's right operand.
abbrev pub tighter : Precedence → Level
tighter multiplication = unary
tighter addition = binary multiplication
tighter comparison = binary addition
tighter and = binary comparison
tighter xor = binary and
tighter or = binary xor

-- The tokens of ".member" repeated, which extend a name.
pub data Members : Bytes → Tokens → Bytes → Type 0 where
  no_member : {name : Bytes} → Members name [] name
  member :
      {name full : Bytes} {ts : Tokens} (t m : Token)
      → Members (name ++ text "." ++ m.literal) ts full
      → Members name (typed Token.dot t ∷ m ∷ ts) full

mutual
  pub data Phrase : Level → Tokens → Expression → Type 0 where
    number : (t : Token) → Phrase primary (typed Token.number t ∷ []) (number_lit t.literal)
    string : (t : Token) → Phrase primary (typed Token.string_lit t ∷ []) (Ast.string_lit t.literal)
    truth : (t : Token) → Phrase primary (typed Token.true_kw t ∷ []) (bool_lit true)
    falsity : (t : Token) → Phrase primary (typed Token.false_kw t ∷ []) (bool_lit false)
    time : (t : Token) → Phrase primary (typed Token.time_literal t ∷ []) (time_lit t.literal)
    name :
        {ts : Tokens} {full : Bytes} (t : Token)
        → Members t.literal ts full
        → Phrase primary (typed Token.ident t ∷ ts) (ident_expr full)
    call :
        {ts args : Tokens} {full : Bytes} {es : Expressions} (t l r : Token)
        → Members t.literal ts full
        → Arguments args es
        → Phrase primary
            (typed Token.ident t
              ∷ (ts ++ (typed Token.lparen l ∷ (args ++ (typed Token.rparen r ∷ [])))))
            (call_expr full es)
    parens :
        {ts : Tokens} {e : Expression} (l r : Token)
        → Phrase (binary or) ts e
        → Phrase primary (typed Token.lparen l ∷ (ts ++ (typed Token.rparen r ∷ []))) e
    only_primary : {ts : Tokens} {e : Expression} → Phrase primary ts e → Phrase unary ts e
    negation :
        {ts : Tokens} {e : Expression} (t : Token)
        → Phrase unary ts e
        → Phrase unary (typed Token.not_kw t ∷ ts) (unary_expr (text "NOT") e)
    opposite :
        {ts : Tokens} {e : Expression} (t : Token)
        → Phrase primary ts e
        → Phrase unary (typed Token.minus t ∷ ts) (unary_expr (text "-") e)
    operation :
        {k : Precedence} {ts : Tokens} {e : Expression} → Operation k ts e → Phrase (binary k) ts e

  -- Operators of one level group to the left.
  pub data Operation : Precedence → Tokens → Expression → Type 0 where
    only_operand :
        {k : Precedence} {ts : Tokens} {e : Expression} → Phrase (tighter k) ts e → Operation k ts e
    infix_op :
        {k : Precedence} {ls rs : Tokens} {e f : Expression} {kind : TokenType} {op : Bytes}
        (t : Token)
        → Operation k ls e
        → Operator k kind t.literal op
        → Phrase (tighter k) rs f
        → Operation k (ls ++ (typed kind t ∷ rs)) (binary_expr e op f)

  pub data Arguments : Tokens → Expressions → Type 0 where
    no_argument : Arguments [] no_expressions
    some_arguments : {ts : Tokens} {es : Expressions} → ArgumentList ts es → Arguments ts es

  pub data ArgumentList : Tokens → Expressions → Type 0 where
    last_argument :
        {ts : Tokens} {e : Expression}
        → Phrase (binary or) ts e
        → ArgumentList ts (and_expression e no_expressions)
    more_arguments :
        {ts us : Tokens} {e : Expression} {es : Expressions} (t : Token)
        → Phrase (binary or) ts e
        → ArgumentList us es
        → ArgumentList (ts ++ (typed Token.comma t ∷ us)) (and_expression e es)

-- How loosely an operator binds; what is no operator comes last.
abbrev pub rank : Precedence → ℕ
rank multiplication = 1
rank addition = 2
rank comparison = 3
rank and = 4
rank xor = 5
rank or = 6

abbrev pub level_rank : Level → ℕ
level_rank primary = 0
level_rank unary = 0
level_rank (binary k) = rank k

abbrev pub operator_rank : TokenType → ℕ
operator_rank Token.star = 1
operator_rank Token.slash = 1
operator_rank Token.mod_kw = 1
operator_rank Token.plus = 2
operator_rank Token.minus = 2
operator_rank Token.equal = 3
operator_rank Token.not_equal = 3
operator_rank Token.less = 3
operator_rank Token.less_eq = 3
operator_rank Token.greater = 3
operator_rank Token.greater_eq = 3
operator_rank Token.and_kw = 4
operator_rank Token.xor_kw = 5
operator_rank Token.or_kw = 6
operator_rank _ = 7

-- The token does not continue a phrase of the level.
abbrev pub Stops : Level → Token → Type 0
Stops l t =
    (is Token.dot t ≡ false) × (is Token.lparen t ≡ false) × (level_rank l < operator_rank t.type)
