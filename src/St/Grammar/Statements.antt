-- ===== src/St/Grammar/Statements.antt =====
-- A grammar of structured text's statements, for plc/st/parser.go. Each statement ends in a semicolon.
use tentacle_next.Prelude.{[], ◌∷◌, ◌++◌, Option, none, some}
use tentacle_next.Prelude.Bytes.{Bytes}
use tentacle_next.St.Token
use tentacle_next.St.Token.{Token, Tokens, TokenType}
use tentacle_next.St.Ast.{
  Expression, Expressions, Statement, Statements, ElsIfs, assign_stmt, if_stmt, for_stmt,
  while_stmt, repeat_stmt, case_stmt, call_stmt, return_stmt, no_statements, and_statement,
  no_elsifs, and_elsif, no_cases, and_case,
}
use tentacle_next.St.Parser.{or}
use tentacle_next.St.Grammar.{typed, Members, Phrase, Arguments, ArgumentList, binary}

-- An expression of the loosest level.
abbrev pub Formula : Tokens → Expression → Type 0
Formula ts e = Phrase (binary or) ts e

-- The token that ends a statement, with the keyword before it where there is one.
abbrev pub end_of : TokenType → Token → Token → Tokens
end_of kind e s = typed kind e ∷ typed Token.semicolon s ∷ []

-- The optional BY of a FOR.
pub data StepPart : Tokens → Option Expression → Type 0 where
  no_step : StepPart [] none
  by_step :
      {ts : Tokens} {e : Expression} (b : Token)
      → Formula ts e
      → StepPart (typed Token.by_kw b ∷ ts) (some e)

mutual
  pub data Sentence : Tokens → Statement → Type 0 where
    assignment :
        {ms vs : Tokens} {full : Bytes} {e : Expression} (t a s : Token)
        → Members t.literal ms full
        → Formula vs e
        → Sentence
            (typed Token.ident t
              ∷ (ms ++ (typed Token.assign a ∷ (vs ++ (typed Token.semicolon s ∷ [])))))
            (assign_stmt full e)
    call_sentence :
        {ms args : Tokens} {full : Bytes} {es : Expressions} (t l r s : Token)
        → Members t.literal ms full
        → Arguments args es
        → Sentence
            (typed Token.ident t
              ∷ (ms ++ (typed Token.lparen l ∷ (args ++ end_of Token.rparen r s))))
            (call_stmt full es)
    if_sentence :
        {cs bs els os : Tokens} {c : Expression} {body : Statements} {alts : ElsIfs}
        {other : Statements} (i t e s : Token)
        → Formula cs c
        → Block bs body
        → ElsIfPart els alts
        → ElsePart os other
        → Sentence
            (typed Token.if_kw i
              ∷ (cs ++ (typed Token.then_kw t ∷ (bs ++ (els ++ (os ++ end_of Token.end_if e s))))))
            (if_stmt c body alts other)
    for_sentence :
        {xs ys zs bs : Tokens} {start stop : Expression} {step : Option Expression}
        {body : Statements} (f v a t d e s : Token)
        → Formula xs start
        → Formula ys stop
        → StepPart zs step
        → Block bs body
        → Sentence
            (typed Token.for_kw f
              ∷ typed Token.ident v
              ∷ typed Token.assign a
              ∷ (xs
                  ++ (typed Token.to_kw t
                      ∷ (ys ++ (zs ++ (typed Token.do_kw d ∷ (bs ++ end_of Token.end_for e s)))))))
            (for_stmt v.literal start stop step body)
    while_sentence :
        {cs bs : Tokens} {c : Expression} {body : Statements} (w d e s : Token)
        → Formula cs c
        → Block bs body
        → Sentence
            (typed Token.while_kw w
              ∷ (cs ++ (typed Token.do_kw d ∷ (bs ++ end_of Token.end_while e s))))
            (while_stmt c body)
    repeat_sentence :
        {cs bs : Tokens} {c : Expression} {body : Statements} (r u e s : Token)
        → Block bs body
        → Formula cs c
        → Sentence
            (typed Token.repeat_kw r
              ∷ (bs ++ (typed Token.until_kw u ∷ (cs ++ end_of Token.end_repeat e s))))
            (repeat_stmt body c)
    -- A CASE of one clause.
    case_sentence :
        {xs vs bs os : Tokens} {e : Expression} {values : Expressions} {body other : Statements}
        (c o k d s : Token)
        → Formula xs e
        → ArgumentList vs values
        → Block bs body
        → ElsePart os other
        → Sentence
            (typed Token.case_kw c
              ∷ (xs
                  ++ (typed Token.of_kw o
                      ∷ (vs ++ (typed Token.colon k ∷ (bs ++ (os ++ end_of Token.end_case d s)))))))
            (case_stmt e (and_case values body no_cases) other)
    return_sentence : (r s : Token) → Sentence (end_of Token.return_kw r s) return_stmt

  pub data Block : Tokens → Statements → Type 0 where
    no_sentence : Block [] no_statements
    and_sentence :
        {ts us : Tokens} {s : Statement} {ss : Statements}
        → Sentence ts s
        → Block us ss
        → Block (ts ++ us) (and_statement s ss)

  pub data ElsIfPart : Tokens → ElsIfs → Type 0 where
    no_elsif : ElsIfPart [] no_elsifs
    elsif :
        {cs bs els : Tokens} {c : Expression} {body : Statements} {alts : ElsIfs} (e t : Token)
        → Formula cs c
        → Block bs body
        → ElsIfPart els alts
        → ElsIfPart
            (typed Token.elsif_kw e ∷ (cs ++ (typed Token.then_kw t ∷ (bs ++ els))))
            (and_elsif c body alts)

  pub data ElsePart : Tokens → Statements → Type 0 where
    no_else : ElsePart [] no_statements
    else_block :
        {bs : Tokens} {body : Statements} (e : Token)
        → Block bs body
        → ElsePart (typed Token.else_kw e ∷ bs) body
