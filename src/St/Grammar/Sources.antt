-- ===== src/St/Grammar/Sources.antt =====
-- plc/st/parser.go: whole programs on a grammar of what a source contains.
use tentacle_next.Prelude.{
  ℕ, zero, suc, ◌<◌, ◌≡◌, refl, ap, ◌∙◌, Bool, true, false, ◌||◌, List, [], ◌∷◌, ◌++◌, length,
  length-append, append_assoc, arith,
}
use tentacle_next.St.Token
use tentacle_next.St.Token.{Token, Tokens, TokenType, text, is, to_upper}
use tentacle_next.St.Ast.{Statement, Statements, no_statements, and_statement, VarDecl, VarBlock}
use tentacle_next.St.Result.{ok}
use tentacle_next.St.Parser.{peek, skip}
use tentacle_next.St.Parser.Program.{
  parse_var_block, is_var_block_start, program_items, parse_program, parse,
}
use tentacle_next.St.Grammar.{typed}
use tentacle_next.St.Grammar.Statements.{Sentence}
use tentacle_next.St.Grammar.Sentences.{Starter, ident}
use tentacle_next.St.Grammar.Branches.{Begins, Sentence-Begins, length-Begins}
use tentacle_next.St.Grammar.Programs.{
  Declarations, Declarations-var_decls, parse_statement-Sentence,
}

pub data BlockKind : TokenType → Type 0 where
  var_kw : BlockKind Token.var_kw
  var_input : BlockKind Token.var_input
  var_output : BlockKind Token.var_output

-- What stands between the header and the end of a program: variable blocks and sentences in any order.
pub data Body : Tokens → List VarBlock → Statements → Type 0 where
  no_item : Body [] [] no_statements
  var_block :
      {ds ts : Tokens} {decls : List VarDecl} {vbs : List VarBlock} {ss : Statements}
      {kind : TokenType} (v e : Token)
      → BlockKind kind
      → Declarations ds decls
      → Body ts vbs ss
      → Body
          (typed kind v ∷ (ds ++ (typed Token.end_var e ∷ ts)))
          (record { kind = to_upper v.literal; variables = decls } ∷ vbs)
          ss
  sentence :
      {xs ts : Tokens} {vbs : List VarBlock} {s : Statement} {ss : Statements}
      → Sentence xs s
      → Body ts vbs ss
      → Body (xs ++ ts) vbs (and_statement s ss)

-- The loop of a program with a header goes on.
abbrev is_end : Token → Bool
is_end t = is Token.end_program t || is Token.eof t

BlockKind-item :
    {kind : TokenType} (t : Token)
    → BlockKind kind
    → (is_end (typed kind t) ≡ false) × (is_var_block_start (typed kind t) ≡ true)
BlockKind-item t var_kw = (refl, refl)
BlockKind-item t var_input = (refl, refl)
BlockKind-item t var_output = (refl, refl)

Starter-item :
    {kind : TokenType} (t : Token)
    → Starter kind
    → (is_end (typed kind t) ≡ false) × (is_var_block_start (typed kind t) ≡ false)
Starter-item t ident = (refl, refl)
Starter-item t _ = (refl, refl)

Begins-item :
    (ts rest : Tokens)
    → Begins ts
    → (is_end (peek (ts ++ rest)) ≡ false) × (is_var_block_start (peek (ts ++ rest)) ≡ false)
Begins-item ts rest (kind, t, us, e, start) = (
  ap (λ (xs : Tokens). is_end (peek (xs ++ rest))) e ∙ (Starter-item t start).0,
  ap (λ (xs : Tokens). is_var_block_start (peek (xs ++ rest))) e ∙ (Starter-item t start).1,
)

parse_var_block-Reads :
    (n : ℕ) (ds rest : Tokens) (decls : List VarDecl) (kind : TokenType) (v e : Token)
    → Declarations ds decls
    → length ds < n
    → parse_var_block n (typed kind v ∷ (ds ++ (typed Token.end_var e ∷ rest)))
      ≡ ok (record { kind = to_upper v.literal; variables = decls }, rest)
unfolding parse_var_block skip
parse_var_block-Reads n ds rest decls kind v e d l =
    rw (Declarations-var_decls n n d e rest l l) refl

Body-program_items :
    (n m : ℕ) {ts : Tokens} {vbs : List VarBlock} {ss : Statements}
    → Body ts vbs ss
    → (e : Token) (rest : Tokens) → length ts < m
    → length ts < n
    → program_items true n m (ts ++ (typed Token.end_program e ∷ rest))
      ≡ ok (record { blocks = vbs; stmts = ss }, typed Token.end_program e ∷ rest)
unfolding program_items
Body-program_items n zero b e rest l k = absurd (omega arith)
Body-program_items n (suc m) no_item e rest l k = refl
Body-program_items n (suc m) (var_block {ds} {ts} {decls} {vbs} {ss} {kind} v w bk d b) e rest l k =
    let after = ts ++ (typed Token.end_program e ∷ rest) in
    rw
      (
        append_assoc ds (typed Token.end_var w ∷ ts) (typed Token.end_program e ∷ rest),
        (BlockKind-item v bk).0,
        (BlockKind-item v bk).1,
        parse_var_block-Reads n ds after decls kind v w d (omega (arith, length-append {0})),
        Body-program_items n m b e rest (omega (arith, length-append {0}))
            (omega (arith, length-append {0})),
      )
      refl
Body-program_items n (suc m) (sentence {xs} {ts} x b) e rest l k =
    let after = ts ++ (typed Token.end_program e ∷ rest) in
    let starts = Begins-item xs after (Sentence-Begins x) in
    let pos = length-Begins xs (Sentence-Begins x) in
    rw
      (
        append_assoc xs ts (typed Token.end_program e ∷ rest),
        starts.0,
        starts.1,
        parse_statement-Sentence x n after (omega (arith, length-append {0})),
        Body-program_items n m b e rest (omega (arith, length-append {0}))
            (omega (arith, length-append {0})),
      )
      refl

-- A program of the grammar is parsed as what it stands for: its name, its variable blocks in order with
-- their declarations, and its statements in order, whatever follows END_PROGRAM.
pub parse-Body :
    (p name e : Token) {ts : Tokens} {vbs : List VarBlock} {ss : Statements} (rest : Tokens)
    → Body ts vbs ss
    → parse (typed Token.program_kw p ∷ name ∷ (ts ++ (typed Token.end_program e ∷ rest)))
      ≡ ok (record { name = name.literal; var_blocks = vbs; statements = ss })
unfolding parse parse_program skip
parse-Body p name e {ts} rest b =
    let n = suc (
      suc
        (length (typed Token.program_kw p ∷ name ∷ (ts ++ (typed Token.end_program e ∷ rest))))) in
    rw
      (Body-program_items n n b e rest (omega (arith, length-append {0}))
        (omega (arith, length-append {0})))
      refl
