-- ===== src/St/Grammar/Clauses.antt =====
-- plc/st/parser.go: a CASE of several clauses, and what the parser makes of it.
use tentacle_next.Prelude.{
  ℕ, zero, suc, ◌<◌, ◌≡◌, refl, some, [], ◌∷◌, ◌++◌, length, length-append, append_assoc, arith,
}
use tentacle_next.St.Token
use tentacle_next.St.Token.{Token, Tokens, TokenType}
use tentacle_next.St.Ast.{
  Expression, Expressions, Statement, Statements, case_stmt, no_statements, and_statement, no_cases,
  and_case,
}
use tentacle_next.St.Result.{ok}
use tentacle_next.St.Parser.Statements.{parse_block, parse_statement}
use tentacle_next.St.Grammar.{typed, ArgumentList}
use tentacle_next.St.Grammar.Statements.{Formula, end_of, Sentence, ElsePart}
use tentacle_next.St.Grammar.Sentences.{ReadsStatement, ReadsClause, clause_ends, clause-Avoids}
use tentacle_next.St.Grammar.Branches.{Begins, Sentence-Begins, Begins-guard, length-Begins}
use tentacle_next.St.Grammar.Reading.{case_sentence-Reads}
use tentacle_next.St.Grammar.Programs.{parse_statement-Sentence, ElsePart-Reads}

-- The tokens of a label of numbers.
pub data LabelToken : TokenType → Type 0 where
  label_number : LabelToken Token.number
  label_comma : LabelToken Token.comma
  label_colon : LabelToken Token.colon

-- What follows the colon of the first clause: the sentences of all clauses in order, with the labels of the
-- later clauses between them.
pub data Clauses : Tokens → Statements → Type 0 where
  no_more : Clauses [] no_statements
  and_sentence :
      {ts us : Tokens} {s : Statement} {ss : Statements}
      → Sentence ts s
      → Clauses us ss
      → Clauses (ts ++ us) (and_statement s ss)
  and_label :
      {us : Tokens} {ss : Statements} (kind : TokenType) (t : Token)
      → LabelToken kind
      → Clauses us ss
      → Clauses (typed kind t ∷ us) ss

no_more-Reads : ReadsClause [] no_statements
unfolding parse_block
no_more-Reads n zero rest h l k = absurd (omega arith)
no_more-Reads n (suc m) rest h l k = rw h refl

sentence-Reads :
    (ts us : Tokens) (s : Statement) (ss : Statements)
    → Begins ts
    → ReadsStatement ts s
    → ReadsClause us ss
    → ReadsClause (ts ++ us) (and_statement s ss)
unfolding parse_block
sentence-Reads ts us s ss b ih ihs n zero rest h l k = absurd (omega arith)
sentence-Reads ts us s ss b ih ihs n (suc m) rest h l k =
    rw
      (
        append_assoc ts us rest,
        Begins-guard ts (us ++ rest) b clause_ends clause-Avoids,
        ih n (us ++ rest) (omega (arith, length-append {0})),
        ihs n m rest h (omega (arith, length-append {0}, length-Begins ts b))
            (omega (arith, length-append {0})),
      )
      refl

label-Reads :
    (us : Tokens) (ss : Statements) (kind : TokenType) (t : Token)
    → LabelToken kind
    → ReadsClause us ss
    → ReadsClause (typed kind t ∷ us) ss
unfolding parse_block parse_statement
label-Reads us ss kind t label ih n zero rest h l k = absurd (omega arith)
label-Reads us ss kind t label ih zero (suc m) rest h l k = absurd (omega arith)
label-Reads us ss kind t label_number ih (suc n) (suc m) rest h l k =
    rw (ih (suc n) m rest h (omega arith) (omega arith)) refl
label-Reads us ss kind t label_comma ih (suc n) (suc m) rest h l k =
    rw (ih (suc n) m rest h (omega arith) (omega arith)) refl
label-Reads us ss kind t label_colon ih (suc n) (suc m) rest h l k =
    rw (ih (suc n) m rest h (omega arith) (omega arith)) refl

Clauses-Reads : {ts : Tokens} {ss : Statements} → Clauses ts ss → ReadsClause ts ss
Clauses-Reads no_more = no_more-Reads
Clauses-Reads (and_sentence {ts} {us} {s} {ss} x c) =
    sentence-Reads ts us s ss (Sentence-Begins x) (parse_statement-Sentence x) (Clauses-Reads c)
Clauses-Reads (and_label {us} {ss} kind t label c) =
    label-Reads us ss kind t label (Clauses-Reads c)

-- A CASE of one clause or more, whose labels after the first are numbers, is read as a single clause when
-- there is more fuel than it has tokens: it has the values of the first label, and its body is the
-- sentences of all clauses in order, up to ELSE or END_CASE. The later labels are lost. The ELSE
-- branch, where there is one, is read, and what follows the statement is left.
pub parse_statement-Clauses :
    {xs vs bs os : Tokens} {e : Expression} {values : Expressions} {body other : Statements}
    (c o k d s : Token) (n : ℕ) (rest : Tokens)
    → Formula xs e
    → ArgumentList vs values
    → Clauses bs body
    → ElsePart os other
    → let source =
        typed Token.case_kw c
        ∷ (xs
            ++ (typed Token.of_kw o
                ∷ (vs ++ (typed Token.colon k ∷ (bs ++ (os ++ end_of Token.end_case d s)))))) in
      length source < n
      → parse_statement n (source ++ rest)
        ≡ ok (some (case_stmt e (and_case values body no_cases) other), rest)
parse_statement-Clauses {xs} {vs} {bs} {os} {e} {values} {body} {other} c o k d s n rest p a x y l =
    case_sentence-Reads xs vs bs os e values body other c o k d s p a (Clauses-Reads x) y
      (ElsePart-Reads y) n rest l
