-- ===== src/St/Parser.antt =====
-- plc/st/parser.go: the parser's moves over its tokens and the grammar of expressions. The parser's
-- state is the list of the tokens that are left. A call of `expect` whose error the code drops is
-- an `advance`.
pub mod Statements
pub mod Termination
pub mod Program
use tentacle_next.Prelude.{
  ℕ, zero, suc, Bool, true, false, ◌||◌, Option, none, some, List, [], ◌∷◌, ◌++◌, if◌then◌else◌,
  ◌==◌,
}
use tentacle_next.Prelude.Bytes.{Bytes}
use tentacle_next.St.Token
use tentacle_next.St.Token.{Token, Tokens, TokenType, text, is}
use tentacle_next.St.Ast
use tentacle_next.St.Ast.{
  Expression, Expressions, no_expressions, and_expression, binary_expr, unary_expr, call_expr,
  ident_expr, number_lit, bool_lit, time_lit,
}
use tentacle_next.St.Result.{Result, ok, failed, out_of_fuel, bind, expected, unexpected}

abbrev pub Parser {ℓ} : Type ℓ → Type ℓ
Parser A = Tokens → Result (A × Tokens)

-- What peek gives past the end.
abbrev pub no_token : Token
no_token = record { type = Token.eof; literal = []; line = 0; col = 0 }

abbrev pub peek : Tokens → Token
peek [] = no_token
peek (t ∷ ts) = t

abbrev pub advance : Tokens → Tokens
advance [] = []
advance (t ∷ ts) = ts

unfoldable pub expect : TokenType → Parser Token
expect tt ts = if is tt (peek ts) then ok (peek ts, advance ts) else failed (expected tt (peek ts))

-- match, where the code goes on whatever it returns.
unfoldable pub skip : TokenType → Tokens → Tokens
skip tt ts = if is tt (peek ts) then advance ts else ts

-- The loops that extend a name by ".member".
unfoldable pub members : Bytes → Tokens → Bytes × Tokens
members name [] = (name, [])
members name (t ∷ []) = if is Token.dot t then (name ++ text ".", []) else (name, t ∷ [])
members name (t ∷ m ∷ ts) =
    let rest = members (name ++ text "." ++ m.literal) ts in
    if is Token.dot t then rest else (name, t ∷ m ∷ ts)

-- The loop of parseCallArgs.
unfoldable pub call_args : Parser Expression → ℕ → Parser Expressions
call_args expression zero ts = out_of_fuel
call_args expression (suc n) ts =
    let more = bind (expression ts) λ (arg, rest). elim (is Token.comma (peek rest)) [
      | true ↦
          bind (call_args expression n (advance rest))
            λ (args, rest'). ok (and_expression arg args, rest')
      | false ↦ ok (and_expression arg no_expressions, rest)
    ] in
    if is Token.rparen (peek ts) || is Token.eof (peek ts) then ok (no_expressions, ts) else more

-- parseCallArgs: the arguments between two parentheses.
unfoldable pub parse_call_args : Parser Expression → ℕ → Parser Expressions
unfolding call_args
parse_call_args expression n ts =
    bind (call_args expression n (advance ts)) λ (args, rest). ok (args, advance rest)

named_primary : Parser Expression → ℕ → Bytes × Tokens → Result (Expression × Tokens)
unfolding parse_call_args
named_primary expression n (name, ts) =
    if is Token.lparen (peek ts)
    then (bind (parse_call_args expression n ts) λ (args, rest). ok (call_expr name args, rest))
    else ok (ident_expr name, ts)

primary_at : Parser Expression → ℕ → TokenType → Token → Parser Expression
unfolding named_primary members
primary_at expression n Token.number t ts = ok (number_lit t.literal, advance ts)
primary_at expression n Token.string_lit t ts = ok (Expression.string_lit t.literal, advance ts)
primary_at expression n Token.true_kw t ts = ok (bool_lit true, advance ts)
primary_at expression n Token.false_kw t ts = ok (bool_lit false, advance ts)
primary_at expression n Token.time_literal t ts = ok (time_lit t.literal, advance ts)
primary_at expression n Token.lparen t ts =
    bind (expression (advance ts)) λ (e, rest). ok (e, advance rest)
primary_at expression n Token.ident t ts =
    named_primary expression n (members t.literal (advance ts))
primary_at expression n _ t ts = failed (unexpected t)

unfoldable pub parse_primary : Parser Expression → ℕ → Parser Expression
unfolding primary_at
parse_primary expression n ts = primary_at expression n (peek ts).type (peek ts) ts

unfoldable pub parse_unary : Parser Expression → ℕ → Parser Expression
parse_unary primary zero ts = out_of_fuel
parse_unary primary (suc n) ts =
    let negation =
      bind (parse_unary primary n (advance ts)) λ (e, rest). ok (unary_expr (text "NOT") e, rest) in
    let minus = bind (primary (advance ts)) λ (e, rest). ok (unary_expr (text "-") e, rest) in
    if is Token.not_kw (peek ts)
    then negation
    else if is Token.minus (peek ts)
    then minus
    else primary ts

-- The loop that the five levels of binary operators share: while `op` names the next token's
-- operator, an operand is read and joined to what is on its left.
unfoldable pub chain :
    (Token → Option Bytes) → Parser Expression → ℕ → Expression → Parser Expression
chain op operand zero left ts = out_of_fuel
chain op operand (suc n) left ts = elim (op (peek ts)) [
  | none ↦ ok (left, ts)
  | some o ↦
      bind (operand (advance ts))
        λ (right, rest). chain op operand n (binary_expr left o right) rest
]

unfoldable pub binary_level : (Token → Option Bytes) → Parser Expression → ℕ → Parser Expression
unfolding chain
binary_level op operand n ts = bind (operand ts) λ (left, rest). chain op operand n left rest

mul_op_at : TokenType → Bytes → Option Bytes
mul_op_at Token.star literal = some literal
mul_op_at Token.slash literal = some literal
mul_op_at Token.mod_kw literal = some (text "MOD")
mul_op_at _ literal = none

add_op_at : TokenType → Bytes → Option Bytes
add_op_at Token.plus literal = some literal
add_op_at Token.minus literal = some literal
add_op_at _ literal = none

comparison_op_at : TokenType → Option Bytes
comparison_op_at Token.equal = some (text "=")
comparison_op_at Token.not_equal = some (text "<>")
comparison_op_at Token.less = some (text "<")
comparison_op_at Token.less_eq = some (text "<=")
comparison_op_at Token.greater = some (text ">")
comparison_op_at Token.greater_eq = some (text ">=")
comparison_op_at _ = none

-- The levels, from the tightest to the loosest.
pub data Precedence : Type 0 where
  multiplication addition comparison and xor or : Precedence

unfoldable pub op_at : Precedence → TokenType → Bytes → Option Bytes
unfolding mul_op_at add_op_at comparison_op_at
op_at multiplication tt literal = mul_op_at tt literal
op_at addition tt literal = add_op_at tt literal
op_at comparison tt literal = comparison_op_at tt
op_at and Token.and_kw literal = some (text "AND")
op_at and _ literal = none
op_at xor Token.xor_kw literal = some (text "XOR")
op_at xor _ literal = none
op_at or Token.or_kw literal = some (text "OR")
op_at or _ literal = none

abbrev pub op : Precedence → Token → Option Bytes
op k t = op_at k t.type t.literal

unfoldable pub parse_multiplication : Parser Expression → ℕ → Parser Expression
unfolding binary_level parse_unary parse_primary op_at
parse_multiplication expression n =
    binary_level (op multiplication) (parse_unary (parse_primary expression n) n) n

unfoldable pub parse_addition : Parser Expression → ℕ → Parser Expression
unfolding binary_level op_at
parse_addition expression n = binary_level (op addition) (parse_multiplication expression n) n

unfoldable pub parse_comparison : Parser Expression → ℕ → Parser Expression
unfolding binary_level op_at
parse_comparison expression n = binary_level (op comparison) (parse_addition expression n) n

unfoldable pub parse_and : Parser Expression → ℕ → Parser Expression
unfolding binary_level op_at
parse_and expression n = binary_level (op and) (parse_comparison expression n) n

unfoldable pub parse_xor : Parser Expression → ℕ → Parser Expression
unfolding binary_level op_at
parse_xor expression n = binary_level (op xor) (parse_and expression n) n

unfoldable pub parse_or : Parser Expression → ℕ → Parser Expression
unfolding binary_level op_at
parse_or expression n = binary_level (op or) (parse_xor expression n) n

-- The fuel falls by one at each nesting.
unfoldable pub parse_expression : ℕ → Parser Expression
unfolding parse_multiplication parse_addition parse_comparison parse_and parse_xor parse_or
parse_expression zero ts = out_of_fuel
parse_expression (suc n) ts = parse_or (parse_expression n) n ts
