-- ===== src/St/Grammar/Branches.antt =====
-- plc/st/parser.go: the parsers of blocks, IF and CASE on the sentences of the grammar.
use tentacle_next.Prelude.{
  ℕ, zero, suc, ◌<◌, ◌≡◌, refl, ap, ◌∙◌, true, false, List, [], ◌∷◌, ◌++◌, length, length-append,
  append_assoc, arith,
}
use tentacle_next.St.Token
use tentacle_next.St.Token.{Token, Tokens, TokenType, text, is}
use tentacle_next.St.Ast.{
  Expression, Statement, Statements, ElsIfs, no_statements, and_statement, no_elsifs, and_elsif,
}
use tentacle_next.St.Result.{ok}
use tentacle_next.St.Parser.{peek}
use tentacle_next.St.Parser.Statements.{parse_block, parse_elsifs, parse_else, parse_statement}
use tentacle_next.St.Grammar.{typed}
use tentacle_next.St.Grammar.Complete.{parse_expression-Phrase}
use tentacle_next.St.Grammar.Statements.{
  Formula, end_of, Sentence, Block, ElsIfPart, ElsePart, no_sentence, and_sentence, no_elsif, elsif,
  no_else, else_block,
}
use tentacle_next.St.Grammar.Sentences.{
  Starter, ident, if_kw, for_kw, while_kw, repeat_kw, case_kw, return_kw, ends_block, Avoids,
  if_blocks-Avoids, ReadsStatement, ReadsBlock,
}
use tentacle_next.St.Grammar.Statements

-- The first token of a sentence.
abbrev pub Begins : Tokens → Type 0
Begins ts =
    (kind : TokenType) × (t : Token) × (us : Tokens) × (ts ≡ typed kind t ∷ us) × Starter kind

pub Sentence-Begins : {ts : Tokens} {s : Statement} → Sentence ts s → Begins ts
Sentence-Begins (Statements.assignment t a s m p) = (_, t, _, refl, ident)
Sentence-Begins (Statements.call_sentence t l r s m a) = (_, t, _, refl, ident)
Sentence-Begins (Statements.if_sentence i t e s p b els os) = (_, i, _, refl, if_kw)
Sentence-Begins (Statements.for_sentence f v a t d e s p q st b) = (_, f, _, refl, for_kw)
Sentence-Begins (Statements.while_sentence w d e s p b) = (_, w, _, refl, while_kw)
Sentence-Begins (Statements.repeat_sentence r u e s b p) = (_, r, _, refl, repeat_kw)
Sentence-Begins (Statements.case_sentence c o k d s p vs b os) = (_, c, _, refl, case_kw)
Sentence-Begins (Statements.return_sentence r s) = (_, r, _, refl, return_kw)

pub Begins-guard :
    (ts rest : Tokens)
    → Begins ts
    → (terms : List TokenType) → Avoids terms
    → ends_block terms (peek (ts ++ rest)) ≡ false
Begins-guard ts rest (kind, t, us, e, start) terms avoid =
    ap (λ (xs : Tokens). ends_block terms (peek (xs ++ rest))) e ∙ avoid kind t start

pub length-Begins : (ts : Tokens) → Begins ts → 0 < length ts
length-Begins ts (kind, t, us, e, start) = omega (arith, ap length e)

pub no_sentence-Reads : ReadsBlock [] no_statements
unfolding parse_block
no_sentence-Reads terms n zero rest avoid h l k = absurd (omega arith)
no_sentence-Reads terms n (suc m) rest avoid h l k = rw h refl

pub and_sentence-Reads :
    (ts us : Tokens) (s : Statement) (ss : Statements)
    → Begins ts
    → ReadsStatement ts s
    → ReadsBlock us ss
    → ReadsBlock (ts ++ us) (and_statement s ss)
unfolding parse_block
and_sentence-Reads ts us s ss b ih ihs terms n zero rest avoid h l k = absurd (omega arith)
and_sentence-Reads ts us s ss b ih ihs terms n (suc m) rest avoid h l k =
    rw
      (
        append_assoc ts us rest,
        Begins-guard ts (us ++ rest) b terms avoid,
        ih n (us ++ rest) (omega (arith, length-append {0})),
        ihs terms n m rest avoid h (omega (arith, length-append {0}, length-Begins ts b))
            (omega (arith, length-append {0})),
      )
      refl

abbrev pub if_terms : List TokenType
if_terms = Token.elsif_kw ∷ Token.else_kw ∷ Token.end_if ∷ []

abbrev pub ReadsElsIfs : Tokens → ElsIfs → Type 0
ReadsElsIfs els elsifs =
    (n m : ℕ) (rest : Tokens)
    → is Token.elsif_kw (peek rest) ≡ false
    → ends_block if_terms (peek rest) ≡ true
    → length els < m
    → length els < n
    → parse_elsifs n (parse_statement n) m (els ++ rest) ≡ ok (elsifs, rest)

pub ElsIfPart-ends :
    {els : Tokens} {elsifs : ElsIfs}
    → ElsIfPart els elsifs
    → (rest : Tokens) → ends_block if_terms (peek rest) ≡ true
    → ends_block if_terms (peek (els ++ rest)) ≡ true
ElsIfPart-ends no_elsif rest h = h
ElsIfPart-ends (elsif e t p b els) rest h = refl

pub no_elsif-Reads : ReadsElsIfs [] no_elsifs
unfolding parse_elsifs
no_elsif-Reads n zero rest h h' l k = absurd (omega arith)
no_elsif-Reads n (suc m) rest h h' l k = rw h refl

pub elsif-Reads :
    (cs bs els : Tokens) (c : Expression) (body : Statements) (alts : ElsIfs) (e t : Token)
    → Formula cs c
    → ReadsBlock bs body
    → ElsIfPart els alts
    → ReadsElsIfs els alts
    → ReadsElsIfs
        (typed Token.elsif_kw e ∷ (cs ++ (typed Token.then_kw t ∷ (bs ++ els))))
        (and_elsif c body alts)
unfolding parse_elsifs
elsif-Reads cs bs els c body alts e t p ih part ihs n zero rest h h' l k = absurd (omega arith)
elsif-Reads cs bs els c body alts e t p ih part ihs n (suc m) rest h h' l k =
    rw
      (
        append_assoc cs (typed Token.then_kw t ∷ (bs ++ els)) rest,
        append_assoc bs els rest,
        parse_expression-Phrase p n (typed Token.then_kw t ∷ (bs ++ (els ++ rest)))
            (omega (arith, length-append {0})) (refl, refl, omega arith),
        ih if_terms n n (els ++ rest) if_blocks-Avoids (ElsIfPart-ends part rest h')
            (omega (arith, length-append {0})) (omega (arith, length-append {0})),
        ihs n m rest h h' (omega (arith, length-append {0})) (omega (arith, length-append {0})),
      )
      refl

-- The ELSE is read before the token that closes the statement.
abbrev pub ReadsElse : Tokens → Statements → Type 0
ReadsElse os other =
    (kind : TokenType) (n : ℕ) (e : Token) (rest : Tokens)
    → Avoids (kind ∷ [])
    → is Token.else_kw (typed kind e) ≡ false
    → ends_block (kind ∷ []) (typed kind e) ≡ true
    → length os < n
    → parse_else n (parse_statement n) kind (os ++ (typed kind e ∷ rest))
      ≡ ok (other, typed kind e ∷ rest)

pub no_else-Reads : ReadsElse [] no_statements
unfolding parse_else
no_else-Reads kind n e rest avoid h ends l = rw h refl

pub else_block-Reads :
    (bs : Tokens) (body : Statements) (o : Token)
    → ReadsBlock bs body
    → ReadsElse (typed Token.else_kw o ∷ bs) body
unfolding parse_else
else_block-Reads bs body o ih kind n e rest avoid h ends l =
    ih (kind ∷ []) n n (typed kind e ∷ rest) avoid ends (omega arith) (omega arith)

-- The blocks before an optional ELSE end at it, or at what comes behind it.
pub ElsePart-ends :
    {os : Tokens} {other : Statements}
    → ElsePart os other
    → (terms : List TokenType) (rest : Tokens)
    → ((t : Token) → ends_block terms (typed Token.else_kw t) ≡ true)
    → ends_block terms (peek rest) ≡ true
    → ends_block terms (peek (os ++ rest)) ≡ true
ElsePart-ends no_else terms rest h k = k
ElsePart-ends (else_block o b) terms rest h k = h o

pub ElsePart-no_elsif :
    {os : Tokens} {other : Statements}
    → ElsePart os other
    → (rest : Tokens) → is Token.elsif_kw (peek rest) ≡ false
    → is Token.elsif_kw (peek (os ++ rest)) ≡ false
ElsePart-no_elsif no_else rest h = h
ElsePart-no_elsif (else_block o b) rest h = refl
