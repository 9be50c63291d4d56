-- ===== src/St/Grammar/Programs.antt =====
-- plc/st/parser.go: the parsers of statements and of whole programs on the grammar.
use tentacle_next.Prelude.{
  ℕ, zero, suc, ◌<◌, ◌≡◌, refl, Option, none, some, List, [], ◌∷◌, ◌++◌, length, length-append,
  append_assoc, arith,
}
use tentacle_next.St.Token
use tentacle_next.St.Token.{Token, Tokens, TokenType, text, is, to_upper}
use tentacle_next.St.Ast.{Expression, Statement, Statements, ElsIfs, VarDecl}
use tentacle_next.St.Result.{ok}
use tentacle_next.St.Parser.{skip, expect}
use tentacle_next.St.Parser.Statements.{parse_statement}
use tentacle_next.St.Parser.Program.{parse_initial, parse_var_decl, var_decls}
use tentacle_next.St.Grammar.{typed}
use tentacle_next.St.Grammar.Complete.{parse_expression-Phrase}
use tentacle_next.St.Grammar.Statements
use tentacle_next.St.Grammar.Statements.{
  Formula, end_of, Sentence, Block, ElsIfPart, ElsePart, no_sentence, and_sentence, no_elsif, elsif,
  no_else, else_block,
}
use tentacle_next.St.Grammar.Sentences.{
  ReadsStatement, ReadsBlock, clause_ends, clause-Avoids, assignment-Reads, call_sentence-Reads,
  while_sentence-Reads, repeat_sentence-Reads, return_sentence-Reads, for_sentence-Reads,
}
use tentacle_next.St.Grammar.Branches.{
  Sentence-Begins, no_sentence-Reads, and_sentence-Reads, ReadsElsIfs, no_elsif-Reads, elsif-Reads,
  ReadsElse, no_else-Reads, else_block-Reads,
}
use tentacle_next.St.Grammar.Reading.{if_sentence-Reads, case_sentence-Reads}

mutual
  Sentence-Reads : {ts : Tokens} {s : Statement} → Sentence ts s → ReadsStatement ts s
  Sentence-Reads (Statements.assignment {ms} {vs} {full} {e} t a s m p) =
      assignment-Reads ms vs full e t a s m p
  Sentence-Reads (Statements.call_sentence {ms} {args} {full} {es} t l r s m a) =
      call_sentence-Reads ms args full es t l r s m a
  Sentence-Reads
        (Statements.if_sentence {cs} {bs} {els} {os} {c} {body} {alts} {other} i t e s p b x o) =
      if_sentence-Reads cs bs els os c body alts other i t e s p (Block-Reads b) x
        (ElsIfPart-Reads x) o (ElsePart-Reads o)
  Sentence-Reads
        (Statements.for_sentence {xs} {ys} {zs} {bs} {start} {stop} {step} {body} f v a t d e s p q
          st b) =
      for_sentence-Reads xs ys zs bs start stop step body f v a t d e s p q st (Block-Reads b)
  Sentence-Reads (Statements.while_sentence {cs} {bs} {c} {body} w d e s p b) =
      while_sentence-Reads cs bs c body w d e s p (Block-Reads b)
  Sentence-Reads (Statements.repeat_sentence {cs} {bs} {c} {body} r u e s b p) =
      repeat_sentence-Reads cs bs c body r u e s (Block-Reads b) p
  Sentence-Reads
        (Statements.case_sentence {xs} {vs} {bs} {os} {e} {values} {body} {other} c o k d s p a b
          x) =
      case_sentence-Reads xs vs bs os e values body other c o k d s p a
        (λ n m rest. Block-Reads b clause_ends n m rest clause-Avoids) x (ElsePart-Reads x)
  Sentence-Reads (Statements.return_sentence r s) = return_sentence-Reads r s

  Block-Reads : {ts : Tokens} {ss : Statements} → Block ts ss → ReadsBlock ts ss
  Block-Reads no_sentence = no_sentence-Reads
  Block-Reads (and_sentence {ts} {us} {s} {ss} x b) =
      and_sentence-Reads ts us s ss (Sentence-Begins x) (Sentence-Reads x) (Block-Reads b)

  ElsIfPart-Reads : {ts : Tokens} {alts : ElsIfs} → ElsIfPart ts alts → ReadsElsIfs ts alts
  ElsIfPart-Reads no_elsif = no_elsif-Reads
  ElsIfPart-Reads (elsif {cs} {bs} {els} {c} {body} {alts} e t p b x) =
      elsif-Reads cs bs els c body alts e t p (Block-Reads b) x (ElsIfPart-Reads x)

  pub ElsePart-Reads : {ts : Tokens} {other : Statements} → ElsePart ts other → ReadsElse ts other
  ElsePart-Reads no_else = no_else-Reads
  ElsePart-Reads (else_block {bs} {body} o b) = else_block-Reads bs body o (Block-Reads b)

-- Every sentence of the grammar is read as the statement that it stands for, and what follows it is
-- left: assignments, calls, IF with its ELSIF and ELSE parts, FOR with its optional BY, WHILE, REPEAT,
-- CASE with one clause, and RETURN, nested in any way, each ended by a semicolon.
pub parse_statement-Sentence :
    {ts : Tokens} {s : Statement}
    → Sentence ts s
    → (n : ℕ) (rest : Tokens) → length ts < n
    → parse_statement n (ts ++ rest) ≡ ok (some s, rest)
parse_statement-Sentence x = Sentence-Reads x

-- The optional initial value of a declaration.
pub data InitialPart : Tokens → Option Expression → Type 0 where
  no_initial : InitialPart [] none
  initial_value :
      {vs : Tokens} {e : Expression} (a : Token)
      → Formula vs e
      → InitialPart (typed Token.assign a ∷ vs) (some e)

-- Declarations of variables: a name, a type's name in any case, an initial value and a semicolon.
pub data Declarations : Tokens → List VarDecl → Type 0 where
  no_declaration : Declarations [] []
  declaration :
      {xs ts : Tokens} {initial : Option Expression} {decls : List VarDecl} (v c d s : Token)
      → InitialPart xs initial
      → Declarations ts decls
      → Declarations
          (typed Token.ident v ∷ typed Token.colon c ∷ d ∷ (xs ++ (typed Token.semicolon s ∷ ts)))
          (record { name = v.literal; datatype = to_upper d.literal; initial = initial } ∷ decls)

InitialPart-parse_initial :
    {xs : Tokens} {initial : Option Expression}
    → InitialPart xs initial
    → (n : ℕ) (s : Token) (rest : Tokens) → length xs < n
    → parse_initial n (xs ++ (typed Token.semicolon s ∷ rest))
      ≡ ok (initial, typed Token.semicolon s ∷ rest)
unfolding parse_initial
InitialPart-parse_initial no_initial n s rest l = refl
InitialPart-parse_initial (initial_value a p) n s rest l =
    rw
      (parse_expression-Phrase p n (typed Token.semicolon s ∷ rest) (omega arith)
        (refl, refl, omega arith))
      refl

pub Declarations-var_decls :
    (n m : ℕ) {ds : Tokens} {decls : List VarDecl}
    → Declarations ds decls
    → (e : Token) (rest : Tokens) → length ds < m
    → length ds < n
    → var_decls n m (ds ++ (typed Token.end_var e ∷ rest))
      ≡ ok (decls, typed Token.end_var e ∷ rest)
unfolding var_decls parse_var_decl expect skip
Declarations-var_decls n zero d e rest l k = absurd (omega arith)
Declarations-var_decls n (suc m) no_declaration e rest l k = refl
Declarations-var_decls n (suc m) (declaration {xs} {ts} v c d s p ds) e rest l k =
    rw
      (
        append_assoc xs (typed Token.semicolon s ∷ ts) (typed Token.end_var e ∷ rest),
        InitialPart-parse_initial p n s (ts ++ (typed Token.end_var e ∷ rest))
            (omega (arith, length-append {0})),
        Declarations-var_decls n m ds e rest (omega (arith, length-append {0}))
            (omega (arith, length-append {0})),
      )
      refl
