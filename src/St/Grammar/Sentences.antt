-- ===== src/St/Grammar/Sentences.antt =====
-- plc/st/parser.go: the parsers of single statements on the sentences of the grammar.
use tentacle_next.Prelude.{
  ℕ, zero, suc, ◌<◌, ◌≡◌, refl, Bool, true, false, ◌||◌, Option, some, List, [], ◌∷◌, ◌++◌, length,
  length-append, append_assoc, arith,
}
use tentacle_next.Prelude.Bytes.{Bytes}
use tentacle_next.St.Token
use tentacle_next.St.Token.{Token, Tokens, TokenType, text, is}
use tentacle_next.St.Ast.{
  Expression, Expressions, Statement, Statements, assign_stmt, for_stmt, while_stmt, repeat_stmt,
  call_stmt, return_stmt,
}
use tentacle_next.St.Result.{ok}
use tentacle_next.St.Parser.{or, peek, skip, expect, parse_call_args}
use tentacle_next.St.Parser.Statements.{
  is_one_of, parse_block, parse_assign_or_call, parse_step, parse_for, parse_while, parse_repeat,
  parse_statement,
}
use tentacle_next.St.Grammar.{typed, Members, Stops, Arguments, binary}
use tentacle_next.St.Grammar.Operators.{Members-members}
use tentacle_next.St.Grammar.Complete.{parse_expression-Phrase, Arguments-Reads}
use tentacle_next.St.Grammar.Statements.{Formula, end_of, StepPart, no_step, by_step}

-- The types that a sentence starts with.
pub data Starter : TokenType → Type 0 where
  ident : Starter Token.ident
  if_kw : Starter Token.if_kw
  for_kw : Starter Token.for_kw
  while_kw : Starter Token.while_kw
  repeat_kw : Starter Token.repeat_kw
  case_kw : Starter Token.case_kw
  return_kw : Starter Token.return_kw

-- A block with these terminators ends before the token.
abbrev pub ends_block : List TokenType → Token → Bool
ends_block terms t = is Token.eof t || is_one_of terms t

abbrev pub Avoids : List TokenType → Type 0
Avoids terms =
    (kind : TokenType) (t : Token) → Starter kind → ends_block terms (typed kind t) ≡ false

-- No sentence starts with a terminator of the parser's blocks.
pub if_blocks-Avoids : Avoids (Token.elsif_kw ∷ Token.else_kw ∷ Token.end_if ∷ [])
if_blocks-Avoids kind t ident = refl
if_blocks-Avoids kind t _ = refl

pub end_if-Avoids : Avoids (Token.end_if ∷ [])
end_if-Avoids kind t ident = refl
end_if-Avoids kind t _ = refl

pub end_for-Avoids : Avoids (Token.end_for ∷ [])
end_for-Avoids kind t ident = refl
end_for-Avoids kind t _ = refl

pub end_while-Avoids : Avoids (Token.end_while ∷ [])
end_while-Avoids kind t ident = refl
end_while-Avoids kind t _ = refl

pub until-Avoids : Avoids (Token.until_kw ∷ [])
until-Avoids kind t ident = refl
until-Avoids kind t _ = refl

pub clause-Avoids : Avoids (Token.end_case ∷ Token.else_kw ∷ [])
clause-Avoids kind t ident = refl
clause-Avoids kind t _ = refl

pub end_case-Avoids : Avoids (Token.end_case ∷ [])
end_case-Avoids kind t ident = refl
end_case-Avoids kind t _ = refl

abbrev pub ReadsStatement : Tokens → Statement → Type 0
ReadsStatement ts s =
    (n : ℕ) (rest : Tokens) → length ts < n → parse_statement n (ts ++ rest) ≡ ok (some s, rest)

abbrev pub ReadsBlock : Tokens → Statements → Type 0
ReadsBlock ts ss =
    (terms : List TokenType) (n m : ℕ) (rest : Tokens)
    → Avoids terms
    → ends_block terms (peek rest) ≡ true
    → length ts < m
    → length ts < n
    → parse_block terms (parse_statement n) m (ts ++ rest) ≡ ok (ss, rest)

-- What ends the block of a CASE's clause.
abbrev pub clause_ends : List TokenType
clause_ends = Token.end_case ∷ Token.else_kw ∷ []

abbrev pub ReadsClause : Tokens → Statements → Type 0
ReadsClause ts ss =
    (n m : ℕ) (rest : Tokens)
    → ends_block clause_ends (peek rest) ≡ true
    → length ts < m
    → length ts < n
    → parse_block clause_ends (parse_statement n) m (ts ++ rest) ≡ ok (ss, rest)

pub assignment-Reads :
    (ms vs : Tokens) (full : Bytes) (e : Expression) (t a s : Token)
    → Members t.literal ms full
    → Formula vs e
    → ReadsStatement
        (typed Token.ident t
          ∷ (ms ++ (typed Token.assign a ∷ (vs ++ (typed Token.semicolon s ∷ [])))))
        (assign_stmt full e)
unfolding parse_statement parse_assign_or_call skip
assignment-Reads ms vs full e t a s ms' p zero rest l = absurd (omega arith)
assignment-Reads ms vs full e t a s ms' p (suc n) rest l =
    rw
      (
        append_assoc ms (typed Token.assign a ∷ (vs ++ (typed Token.semicolon s ∷ []))) rest,
        append_assoc vs (typed Token.semicolon s ∷ []) rest,
        Members-members ms' (typed Token.assign a ∷ (vs ++ (typed Token.semicolon s ∷ rest))) refl,
        parse_expression-Phrase p n (typed Token.semicolon s ∷ rest)
            (omega (arith, length-append {0})) (refl, refl, omega arith),
      )
      refl

pub call_sentence-Reads :
    (ms args : Tokens) (full : Bytes) (es : Expressions) (t l r s : Token)
    → Members t.literal ms full
    → Arguments args es
    → ReadsStatement
        (typed Token.ident t ∷ (ms ++ (typed Token.lparen l ∷ (args ++ end_of Token.rparen r s))))
        (call_stmt full es)
unfolding parse_statement parse_assign_or_call parse_call_args skip
call_sentence-Reads ms args full es t l r s ms' a zero rest k = absurd (omega arith)
call_sentence-Reads ms args full es t l r s ms' a (suc n) rest k =
    rw
      (
        append_assoc ms (typed Token.lparen l ∷ (args ++ end_of Token.rparen r s)) rest,
        append_assoc args (end_of Token.rparen r s) rest,
        Members-members ms' (typed Token.lparen l ∷ (args ++ (end_of Token.rparen r s ++ rest)))
            refl,
        Arguments-Reads a n n r (typed Token.semicolon s ∷ rest) (omega (arith, length-append {0}))
            (omega (arith, length-append {0})),
      )
      refl

pub while_sentence-Reads :
    (cs bs : Tokens) (c : Expression) (body : Statements) (w d e s : Token)
    → Formula cs c
    → ReadsBlock bs body
    → ReadsStatement
        (typed Token.while_kw w
          ∷ (cs ++ (typed Token.do_kw d ∷ (bs ++ end_of Token.end_while e s))))
        (while_stmt c body)
unfolding parse_statement parse_while skip
while_sentence-Reads cs bs c body w d e s p ih zero rest l = absurd (omega arith)
while_sentence-Reads cs bs c body w d e s p ih (suc n) rest l =
    rw
      (
        append_assoc cs (typed Token.do_kw d ∷ (bs ++ end_of Token.end_while e s)) rest,
        append_assoc bs (end_of Token.end_while e s) rest,
        parse_expression-Phrase p n
            (typed Token.do_kw d ∷ (bs ++ (end_of Token.end_while e s ++ rest)))
            (omega (arith, length-append {0})) (refl, refl, omega arith),
        ih (Token.end_while ∷ []) n n (end_of Token.end_while e s ++ rest) end_while-Avoids refl
            (omega (arith, length-append {0})) (omega (arith, length-append {0})),
      )
      refl

pub repeat_sentence-Reads :
    (cs bs : Tokens) (c : Expression) (body : Statements) (r u e s : Token)
    → ReadsBlock bs body
    → Formula cs c
    → ReadsStatement
        (typed Token.repeat_kw r
          ∷ (bs ++ (typed Token.until_kw u ∷ (cs ++ end_of Token.end_repeat e s))))
        (repeat_stmt body c)
unfolding parse_statement parse_repeat skip
repeat_sentence-Reads cs bs c body r u e s ih p zero rest l = absurd (omega arith)
repeat_sentence-Reads cs bs c body r u e s ih p (suc n) rest l =
    let after = end_of Token.end_repeat e s ++ rest in
    rw
      (
        append_assoc bs (typed Token.until_kw u ∷ (cs ++ end_of Token.end_repeat e s)) rest,
        append_assoc cs (end_of Token.end_repeat e s) rest,
        ih (Token.until_kw ∷ []) n n (typed Token.until_kw u ∷ (cs ++ after)) until-Avoids refl
            (omega (arith, length-append {0})) (omega (arith, length-append {0})),
        parse_expression-Phrase p n after (omega (arith, length-append {0}))
            (refl, refl, omega arith),
      )
      refl

pub return_sentence-Reads : (r s : Token) → ReadsStatement (end_of Token.return_kw r s) return_stmt
unfolding parse_statement skip
return_sentence-Reads r s zero rest l = absurd (omega arith)
return_sentence-Reads r s (suc n) rest l = refl

-- Where the optional BY ends, DO does not continue an expression.
StepPart-Stops :
    {zs : Tokens} {step : Option Expression}
    → StepPart zs step
    → (d : Token) (rest : Tokens) → Stops (binary or) (peek (zs ++ (typed Token.do_kw d ∷ rest)))
StepPart-Stops no_step d rest = (refl, refl, omega arith)
StepPart-Stops (by_step b p) d rest = (refl, refl, omega arith)

StepPart-parse_step :
    {zs : Tokens} {step : Option Expression}
    → StepPart zs step
    → (n : ℕ) (d : Token) (rest : Tokens) → length zs < n
    → parse_step n (parse_statement n) (zs ++ (typed Token.do_kw d ∷ rest))
      ≡ ok (step, typed Token.do_kw d ∷ rest)
unfolding parse_step
StepPart-parse_step no_step n d rest l = refl
StepPart-parse_step (by_step b p) n d rest l =
    rw
      (parse_expression-Phrase p n (typed Token.do_kw d ∷ rest) (omega arith)
        (refl, refl, omega arith))
      refl

pub for_sentence-Reads :
    (xs ys zs bs : Tokens) (start stop : Expression) (step : Option Expression) (body : Statements)
    (f v a t d e s : Token)
    → Formula xs start
    → Formula ys stop
    → StepPart zs step
    → ReadsBlock bs body
    → ReadsStatement
        (typed Token.for_kw f
          ∷ typed Token.ident v
          ∷ typed Token.assign a
          ∷ (xs
              ++ (typed Token.to_kw t
                  ∷ (ys ++ (zs ++ (typed Token.do_kw d ∷ (bs ++ end_of Token.end_for e s)))))))
        (for_stmt v.literal start stop step body)
unfolding parse_statement parse_for expect skip
for_sentence-Reads xs ys zs bs start stop step body f v a t d e s p q st ih zero rest l =
    absurd (omega arith)
for_sentence-Reads xs ys zs bs start stop step body f v a t d e s p q st ih (suc n) rest l =
    let close = end_of Token.end_for e s in
    let after = close ++ rest in
    let tail = typed Token.do_kw d ∷ (bs ++ close) in
    let tail' = typed Token.do_kw d ∷ (bs ++ after) in
    rw
      (
        append_assoc xs (typed Token.to_kw t ∷ (ys ++ (zs ++ tail))) rest,
        append_assoc ys (zs ++ tail) rest,
        append_assoc zs tail rest,
        append_assoc bs close rest,
        parse_expression-Phrase p n (typed Token.to_kw t ∷ (ys ++ (zs ++ tail')))
            (omega (arith, length-append {0})) (refl, refl, omega arith),
        parse_expression-Phrase q n (zs ++ tail') (omega (arith, length-append {0}))
            (StepPart-Stops st d (bs ++ after)),
        StepPart-parse_step st n d (bs ++ after) (omega (arith, length-append {0})),
        ih (Token.end_for ∷ []) n n after end_for-Avoids refl (omega (arith, length-append {0}))
            (omega (arith, length-append {0})),
      )
      refl
