-- ===== src/St/Grammar/Reading.antt =====
-- plc/st/parser.go: the parser of statements on the sentences of the grammar.
use tentacle_next.Prelude.{
  ℕ, zero, suc, ◌<◌, ◌≡◌, refl, Bool, true, false, [], ◌∷◌, ◌++◌, length, length-append,
  append_assoc, arith,
}
use tentacle_next.St.Token
use tentacle_next.St.Token.{Token, Tokens, TokenType, text, is}
use tentacle_next.St.Ast.{
  Expression, Expressions, Statements, ElsIfs, Cases, if_stmt, case_stmt, no_cases, and_case,
}
use tentacle_next.St.Result.{Result, ok}
use tentacle_next.St.Parser.{peek, skip, expect}
use tentacle_next.St.Parser.Statements.{
  parse_if, case_values, parse_cases, parse_case, at_case_end, parse_statement,
}
use tentacle_next.St.Grammar.{typed, ArgumentList, last_argument, more_arguments}
use tentacle_next.St.Grammar.Operators.{Phrase-Opens, Opens, Opens-append}
use tentacle_next.St.Grammar.Complete.{parse_expression-Phrase}
use tentacle_next.St.Grammar.Statements.{Formula, end_of, ElsIfPart, ElsePart}
use tentacle_next.St.Grammar.Sentences.{
  ends_block, if_blocks-Avoids, end_if-Avoids, end_case-Avoids, ReadsStatement, ReadsBlock,
  ReadsClause,
}
use tentacle_next.St.Grammar.Branches.{
  if_terms, ReadsElsIfs, ElsIfPart-ends, ReadsElse, ElsePart-ends, ElsePart-no_elsif,
}

pub if_sentence-Reads :
    (cs bs els os : Tokens) (c : Expression) (body : Statements) (alts : ElsIfs)
    (other : Statements) (i t e s : Token)
    → Formula cs c
    → ReadsBlock bs body
    → ElsIfPart els alts
    → ReadsElsIfs els alts
    → ElsePart os other
    → ReadsElse os other
    → ReadsStatement
        (typed Token.if_kw i
          ∷ (cs ++ (typed Token.then_kw t ∷ (bs ++ (els ++ (os ++ end_of Token.end_if e s))))))
        (if_stmt c body alts other)
unfolding parse_statement parse_if expect skip
if_sentence-Reads cs bs els os c body alts other i t e s p ih part ihs part' ih' zero rest l =
    absurd (omega arith)
if_sentence-Reads cs bs els os c body alts other i t e s p ih part ihs part' ih' (suc n) rest l =
    let close = end_of Token.end_if e s in
    let after = close ++ rest in
    let ends = ElsePart-ends part' if_terms after (λ t. refl) refl in
    rw
      (
        append_assoc cs (typed Token.then_kw t ∷ (bs ++ (els ++ (os ++ close)))) rest,
        append_assoc bs (els ++ (os ++ close)) rest,
        append_assoc els (os ++ close) rest,
        append_assoc os close rest,
        parse_expression-Phrase p n (typed Token.then_kw t ∷ (bs ++ (els ++ (os ++ after))))
            (omega (arith, length-append {0})) (refl, refl, omega arith),
        ih if_terms n n (els ++ (os ++ after)) if_blocks-Avoids
            (ElsIfPart-ends part (os ++ after) ends) (omega (arith, length-append {0}))
            (omega (arith, length-append {0})),
        ihs n n (os ++ after) (ElsePart-no_elsif part' after refl) ends
            (omega (arith, length-append {0})) (omega (arith, length-append {0})),
        ih' Token.end_if n e (typed Token.semicolon s ∷ rest) end_if-Avoids refl refl
            (omega (arith, length-append {0})),
      )
      refl

-- The labels of a clause, before its colon.
ArgumentList-case_values :
    {vs : Tokens} {values : Expressions}
    → ArgumentList vs values
    → (n m : ℕ) (k : Token) (rest : Tokens) → length vs < m
    → length vs < n
    → case_values n (parse_statement n) m (vs ++ (typed Token.colon k ∷ rest))
      ≡ ok (values, typed Token.colon k ∷ rest)
unfolding case_values
ArgumentList-case_values vs n zero k rest l h = absurd (omega arith)
ArgumentList-case_values (last_argument p) n (suc m) k rest l h =
    rw (parse_expression-Phrase p n (typed Token.colon k ∷ rest) h (refl, refl, omega arith)) refl
ArgumentList-case_values (more_arguments {ts} {us} t p a) n (suc m) k rest l h =
    rw
      (
        append_assoc ts (typed Token.comma t ∷ us) (typed Token.colon k ∷ rest),
        parse_expression-Phrase p n (typed Token.comma t ∷ (us ++ (typed Token.colon k ∷ rest)))
            (omega (arith, length-append {0})) (refl, refl, omega arith),
        ArgumentList-case_values a n m k rest (omega (arith, length-append {0}))
            (omega (arith, length-append {0})),
      )
      refl

ArgumentList-Opens : {vs : Tokens} {values : Expressions} → ArgumentList vs values → Opens vs
ArgumentList-Opens (last_argument p) = Phrase-Opens p
ArgumentList-Opens (more_arguments {ts} t p a) = Opens-append ts _ (Phrase-Opens p)

-- The guard of the loop over clauses at the labels of one.
Opens-not_end :
    (n : ℕ) (vs rest : Tokens) → Opens vs → at_case_end n (parse_statement n) (vs ++ rest) ≡ false
Opens-not_end n [] rest o = elim o [ ]
Opens-not_end n (v ∷ vs) rest o = o.1

last_clause :
    (b : Bool) (x y : Result (Cases × Tokens)) → b ≡ true → elim b [ true ↦ x | false ↦ y ] ≡ x
last_clause true x y h = refl
last_clause false x y h = cc

-- One clause is read with its labels and its block, up to what ends the CASE.
one_clause-Reads :
    (vs bs : Tokens) (values : Expressions) (body : Statements) (k : Token)
    → ArgumentList vs values
    → ReadsClause bs body
    → (n m : ℕ) (rest : Tokens) → length vs < n
    → length bs < n
    → ends_block (Token.end_case ∷ Token.else_kw ∷ []) (peek rest) ≡ true
    → parse_cases n (parse_statement n) (suc m) (vs ++ (typed Token.colon k ∷ (bs ++ rest)))
      ≡ ok (and_case values body no_cases, rest)
unfolding parse_cases
one_clause-Reads vs bs values body k a ih n m rest l l' ends =
    let end : at_case_end n (parse_statement n) rest ≡ true = ground arith in
    rw
      (
        Opens-not_end n vs (typed Token.colon k ∷ (bs ++ rest)) (ArgumentList-Opens a),
        ArgumentList-case_values a n n k (bs ++ rest) l l,
        ih n n rest ends l' l',
      )
      (last_clause (at_case_end n (parse_statement n) rest) _ _ end)

pub case_sentence-Reads :
    (xs vs bs os : Tokens) (e : Expression) (values : Expressions) (body other : Statements)
    (c o k d s : Token)
    → Formula xs e
    → ArgumentList vs values
    → ReadsClause bs body
    → ElsePart os other
    → ReadsElse os other
    → ReadsStatement
        (typed Token.case_kw c
          ∷ (xs
              ++ (typed Token.of_kw o
                  ∷ (vs ++ (typed Token.colon k ∷ (bs ++ (os ++ end_of Token.end_case d s)))))))
        (case_stmt e (and_case values body no_cases) other)
unfolding parse_statement parse_case skip
case_sentence-Reads xs vs bs os e values body other c o k d s p a ih part ih' zero rest l =
    absurd (omega arith)
case_sentence-Reads xs vs bs os e values body other c o k d s p a ih part ih' (suc zero) rest l =
    absurd (omega (arith, length-append {0}))
case_sentence-Reads xs vs bs os e values body other c o k d s p a ih part ih' (suc (suc n)) rest l =
    let close = end_of Token.end_case d s in
    let after = close ++ rest in
    let ends = ElsePart-ends part (Token.end_case ∷ Token.else_kw ∷ []) after (λ t. refl) refl in
    rw
      (
        append_assoc xs
            (typed Token.of_kw o ∷ (vs ++ (typed Token.colon k ∷ (bs ++ (os ++ close))))) rest,
        append_assoc vs (typed Token.colon k ∷ (bs ++ (os ++ close))) rest,
        append_assoc bs (os ++ close) rest,
        append_assoc os close rest,
        parse_expression-Phrase p (suc n)
            (typed Token.of_kw o ∷ (vs ++ (typed Token.colon k ∷ (bs ++ (os ++ after)))))
            (omega (arith, length-append {0})) (refl, refl, omega arith),
        one_clause-Reads vs bs values body k a ih (suc n) n (os ++ after)
            (omega (arith, length-append {0})) (omega (arith, length-append {0})) ends,
        ih' Token.end_case (suc n) d (typed Token.semicolon s ∷ rest) end_case-Avoids refl refl
            (omega (arith, length-append {0})),
      )
      refl
