-- ===== src/St/Parser/Termination.antt =====
-- plc/st/parser.go: what the parsers of expressions consume, and the fuel they need.
use tentacle_next.Prelude.{
  ℕ, zero, suc, ◌<◌, ◌≤◌, ◌≡◌, refl, true, ◌||◌, Option, none, [], ◌∷◌, ◌++◌, Option-cases, length,
  arith, Bool-cases, inl, inr,
}
use tentacle_next.Prelude.Bytes.{Bytes}
use tentacle_next.St.Token
use tentacle_next.St.Token.{Token, Tokens, TokenType, is, ordinal, text}
use tentacle_next.St.Ast.{Expression, binary_expr}
use tentacle_next.St.Result.{Meets, gives, fails, Meets-if, Meets-bind, Meets-weaken}
use tentacle_next.St.Parser.{
  Parser, peek, advance, expect, skip, members, call_args, parse_call_args, named_primary,
  primary_at, parse_primary, parse_unary, chain, binary_level, op, op_at, no_token, multiplication,
  addition, comparison, and, xor, or, parse_multiplication, parse_addition, parse_comparison,
  parse_and, parse_xor, parse_or, parse_expression,
}

-- A token is consumed.
abbrev pub Shrinks {ℓ} : {A : Type ℓ} → Tokens → A × Tokens → Type 0
Shrinks ts r = length r.1 < length ts

abbrev pub Keeps {ℓ} : {A : Type ℓ} → Tokens → A × Tokens → Type 0
Keeps ts r = length r.1 ≤ length ts

-- On fewer than `n` tokens the parser fails or consumes one, and does not run out of fuel.
abbrev pub Consumes {ℓ} : {A : Type ℓ} → ℕ → Parser A → Type ℓ
Consumes n p = (ts : Tokens) → length ts < n → Meets (Shrinks ts) (p ts)

-- The same for a parser that is called after a token has been consumed.
abbrev pub ConsumesLater {ℓ} : {A : Type ℓ} → ℕ → Parser A → Type ℓ
ConsumesLater n p = (ts : Tokens) → suc (length ts) < n → Meets (Shrinks ts) (p ts)

pub length-advance : (ts : Tokens) → length (advance ts) ≤ length ts
length-advance [] = omega arith
length-advance (t ∷ ts) = omega arith

pub advance-is :
    (tt : TokenType) (ts : Tokens)
    → is tt (peek ts) ≡ true
    → 0 < ordinal tt
    → length (advance ts) < length ts
advance-is tt [] h k = ground arith
advance-is tt (t ∷ ts) h k = omega arith

pub length-skip : (tt : TokenType) (ts : Tokens) → length (skip tt ts) ≤ length ts
unfolding skip
length-skip tt ts = ground (arith, length-advance ts)

pub expect-Meets :
    (tt : TokenType) (ts : Tokens) → 0 < ordinal tt → Meets (Shrinks ts) (expect tt ts)
unfolding expect
expect-Meets tt ts k = Meets-if (is tt (peek ts)) (λ h. gives (advance-is tt ts h k)) λ _. fails

pub length-members : (name : Bytes) (ts : Tokens) → length (members name ts).1 ≤ length ts
unfolding members
length-members name [] = omega arith
length-members name (t ∷ []) = ground arith
length-members name (t ∷ m ∷ ts) = ground (arith, length-members (name ++ text "." ++ m.literal) ts)

module _ (n : ℕ) (expression : Parser Expression) (h : ConsumesLater n expression) where
  pub call_args-Meets :
      (m : ℕ) (ts : Tokens)
      → length ts < m
      → suc (length ts) < n
      → Meets (Keeps ts) (call_args expression m ts)
  unfolding call_args
  call_args-Meets zero ts l k = absurd (omega arith)
  call_args-Meets (suc m) ts l k =
      Meets-if (is Token.rparen (peek ts) || is Token.eof (peek ts)) (λ _. gives (omega arith))
        λ _. Meets-bind (h ts k) λ (arg, rest) p. elim (Bool-cases (is Token.comma (peek rest))) [
          | inl e ↦ rw e (
              Meets-bind
                (call_args-Meets m (advance rest) (omega (arith, length-advance rest))
                  (omega (arith, length-advance rest)))
                λ _ q. gives (omega (arith, length-advance rest)))
          | inr e ↦ rw e (gives (omega arith))
        ]

  pub parse_call_args-Meets :
      (ts : Tokens)
      → suc (length (advance ts)) < n
      → Meets (λ r. length r.1 ≤ length (advance ts)) (parse_call_args expression n ts)
  unfolding parse_call_args
  parse_call_args-Meets ts l =
      Meets-bind (call_args-Meets n (advance ts) (omega arith) l)
        λ (args, rest) p. gives (omega (arith, length-advance rest))

  named_primary-Meets :
      (ts : Tokens) (r : Bytes × Tokens)
      → length r.1 < length ts
      → length ts < n
      → Meets (Shrinks ts) (named_primary expression n r)
  unfolding named_primary
  named_primary-Meets ts (name, rest) l k =
      Meets-if (is Token.lparen (peek rest))
        (λ _.
          Meets-bind (parse_call_args-Meets rest (omega (arith, length-advance rest)))
            λ _ p. gives (omega (arith, length-advance rest)))
        λ _. gives l

  primary_at-Meets :
      (tt : TokenType) (t : Token) (ts : Tokens)
      → length ts < n
      → length (advance ts) < length ts
      → Meets (Shrinks ts) (primary_at expression n tt t ts)
  unfolding primary_at
  primary_at-Meets Token.number t ts l k = gives k
  primary_at-Meets Token.string_lit t ts l k = gives k
  primary_at-Meets Token.true_kw t ts l k = gives k
  primary_at-Meets Token.false_kw t ts l k = gives k
  primary_at-Meets Token.time_literal t ts l k = gives k
  primary_at-Meets Token.lparen t ts l k =
      Meets-bind (h (advance ts) (omega arith))
        λ (e, rest) p. gives (omega (arith, length-advance rest))
  primary_at-Meets Token.ident t ts l k =
      named_primary-Meets ts (members t.literal (advance ts))
        (omega (arith, length-members t.literal (advance ts))) l
  primary_at-Meets _ t ts l k = fails

  parse_primary-Consumes : Consumes n (parse_primary expression n)
  unfolding parse_primary primary_at
  parse_primary-Consumes [] l = fails
  parse_primary-Consumes (t ∷ ts) l = primary_at-Meets t.type t (t ∷ ts) l (omega arith)

  parse_unary-Meets :
      (primary : Parser Expression)
      → Consumes n primary
      → (m : ℕ) (ts : Tokens) → length ts < m
      → length ts < n
      → Meets (Shrinks ts) (parse_unary primary m ts)
  unfolding parse_unary
  parse_unary-Meets primary g zero ts l k = absurd (omega arith)
  parse_unary-Meets primary g (suc m) ts l k =
      Meets-if (is Token.not_kw (peek ts))
        (λ e.
          let less = advance-is Token.not_kw ts e (omega arith) in
          Meets-bind (parse_unary-Meets primary g m (advance ts) (omega arith) (omega arith))
            λ _ p. gives (omega arith))
        λ _.
          Meets-if (is Token.minus (peek ts))
            (λ e.
              let less = advance-is Token.minus ts e (omega arith) in
              Meets-bind (g (advance ts) (omega arith)) λ _ p. gives (omega arith))
            λ _. g ts k

  chain-Meets :
      (find : Token → Option Bytes)
      → find no_token ≡ none
      → (operand : Parser Expression) → Consumes n operand
      → (m : ℕ) (left : Expression) (ts : Tokens) → length ts < m
      → length ts < n
      → Meets (Keeps ts) (chain find operand m left ts)
  unfolding chain
  chain-Meets find none_at_end operand g zero left ts l k = absurd (omega arith)
  chain-Meets find none_at_end operand g (suc m) left [] l k =
      rw (none_at_end, chain) (gives (omega arith))
  chain-Meets find none_at_end operand g (suc m) left (t ∷ ts) l k = elim (Option-cases (find t)) [
    | inl e ↦ rw (e, chain) (gives (omega arith))
    | inr (o, e) ↦
        rw (e, chain)
          (Meets-bind (g ts (omega arith)) λ (right, rest) p.
            Meets-weaken
              (chain-Meets find none_at_end operand g m (binary_expr left o right) rest
                (omega arith) (omega arith))
              λ _ q. omega arith)
  ]

  binary_level-Consumes :
      (find : Token → Option Bytes)
      → find no_token ≡ none
      → (operand : Parser Expression) → Consumes n operand
      → Consumes n (binary_level find operand n)
  unfolding binary_level
  binary_level-Consumes find none_at_end operand g ts l = Meets-bind (g ts l) λ (left, rest) p.
      Meets-weaken (chain-Meets find none_at_end operand g n left rest (omega arith) (omega arith))
        λ _ q. omega arith

  parse_or-Consumes : Consumes n (parse_or expression n)
  unfolding parse_multiplication parse_addition parse_comparison parse_and parse_xor parse_or op_at
  parse_or-Consumes = binary_level-Consumes (op or) refl _ (
      binary_level-Consumes (op xor) refl _ (
        binary_level-Consumes (op and) refl _ (
          binary_level-Consumes (op comparison) refl _ (
            binary_level-Consumes (op addition) refl _ (
              binary_level-Consumes (op multiplication) refl _
                λ ts l. parse_unary-Meets _ parse_primary-Consumes n ts l l)))))

-- An expression's parser needs one unit of fuel more than there are tokens, and one more still.
pub parse_expression-Consumes : (n : ℕ) → ConsumesLater n (parse_expression n)
unfolding parse_expression
parse_expression-Consumes zero ts l = absurd (omega arith)
parse_expression-Consumes (suc n) ts l =
    parse_or-Consumes n (parse_expression n) (parse_expression-Consumes n) ts (omega arith)
