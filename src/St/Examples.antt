-- ===== src/St/Examples.antt =====
-- plc/st: programs and tests.
use tentacle_next.Prelude.{String, ◌≡◌, ◌≢◌, refl, none, some, [], ◌∷◌, ◌++◌, arith, inl, inr}
use tentacle_next.Prelude.Bytes.{Bytes}
use tentacle_next.St.Token
use tentacle_next.St.Token.{Token, Tokens, TokenType, text}
use tentacle_next.St.Ast.{
  Expression, number_lit, ident_expr, binary_expr, unary_expr, no_expressions, and_expression,
  Statements, Cases, assign_stmt, if_stmt, case_stmt, no_statements, and_statement, no_elsifs,
  no_cases, and_case, VarBlock, Program,
}
use tentacle_next.St.Result.{ok, out_of_fuel}
use tentacle_next.St.Parser.{addition, comparison, xor, or, members, skip, parse_expression}
use tentacle_next.St.Parser.Statements.{
  parse_statement, parse_case, parse_block, parse_assign_or_call, parse_else,
}
use tentacle_next.St.Grammar.Clauses
use tentacle_next.St.Grammar.Clauses.{parse_statement-Clauses}
use tentacle_next.St.Parser.Program.{parse}
use tentacle_next.St.Codegen.{Lines, line, generate, render, or_main}
use tentacle_next.St.Codegen.Programs.{IsDefinition, generate-bodiless}
use tentacle_next.St.Grammar.{
  typed, Phrase, Operation, Members, no_member, member, only_primary, negation, operation,
  only_operand, infix_op, binary,
}
use tentacle_next.St.Grammar
use tentacle_next.St.Grammar.Complete.{parse_expression-Phrase}
use tentacle_next.St.Grammar.Statements
use tentacle_next.St.Grammar.Programs
use tentacle_next.St.Grammar.Sources
use tentacle_next.St.Grammar.Sources.{parse-Body}
use tentacle_next.St.Transpile.{
  parse_source, transpile, transpile-ne-out_of_fuel, all_vars, transpile-IsDefinition,
}

-- A token whose type `typed` sets.
abbrev word : String → Token
word s = record { type = Token.eof; literal = text s; line = 1; col = 1 }

abbrev blank : Token
blank = word ""

transpile-ne-out_of_fuel_example : transpile (text "(* a := 'b") ≢ out_of_fuel
transpile-ne-out_of_fuel_example = transpile-ne-out_of_fuel (text "(* a := 'b")

module _ {ts : Tokens} {e : Expression} where
  as_sum : Phrase Grammar.unary ts e → Phrase (binary addition) ts e
  as_sum p = operation (only_operand (operation (only_operand p)))

  as_disjunct : Phrase (binary comparison) ts e → Phrase (binary xor) ts e
  as_disjunct p = operation (only_operand (operation (only_operand p)))

  as_formula : Phrase (binary xor) ts e → Phrase (binary or) ts e
  as_formula p = operation (only_operand p)

  plain : Phrase Grammar.primary ts e → Phrase (binary or) ts e
  plain p = as_formula (as_disjunct (operation (only_operand (as_sum (only_primary p)))))

-- NOT a.b >= 5
abbrev condition_tokens : Tokens
condition_tokens =
    typed Token.not_kw blank
    ∷ typed Token.ident (word "a")
    ∷ typed Token.dot blank
    ∷ word "b"
    ∷ typed Token.greater_eq (word ">=")
    ∷ typed Token.number (word "5")
    ∷ []

abbrev condition : Expression
condition =
    binary_expr (unary_expr (text "NOT") (ident_expr (text "a.b"))) (text ">=")
      (number_lit (text "5"))

condition_phrase : Phrase (binary or) condition_tokens condition
condition_phrase = as_formula (
    as_disjunct (
      operation (
        infix_op (word ">=")
          (only_operand (
            as_sum (
              negation blank
                (only_primary (Grammar.name (word "a") (member blank (word "b") no_member))))))
          Grammar.greater_eq (as_sum (only_primary (Grammar.number (word "5")))))))

parse_expression-Phrase_example :
    parse_expression 8 (condition_tokens ++ (typed Token.then_kw blank ∷ []))
    ≡ ok (condition, typed Token.then_kw blank ∷ [])
parse_expression-Phrase_example =
    parse_expression-Phrase condition_phrase 8 (typed Token.then_kw blank ∷ []) (omega arith)
      (refl, refl, omega arith)

-- VAR i : int := 3; END_VAR IF NOT a.b >= 5 THEN i := 1; END_IF;
abbrev body_tokens : Tokens
body_tokens =
    typed Token.var_kw (word "Var")
    ∷ ((typed Token.ident (word "i")
          ∷ typed Token.colon blank
          ∷ word "int"
          ∷ (typed Token.assign blank
              ∷ typed Token.number (word "3")
              ∷ typed Token.semicolon blank
              ∷ []))
        ++ (typed Token.end_var blank
            ∷ ((typed Token.if_kw blank
                  ∷ (condition_tokens
                      ++ (typed Token.then_kw blank
                          ∷ typed Token.ident (word "i")
                          ∷ typed Token.assign blank
                          ∷ typed Token.number (word "1")
                          ∷ typed Token.semicolon blank
                          ∷ typed Token.end_if blank
                          ∷ typed Token.semicolon blank
                          ∷ [])))
                ++ [])))

abbrev block : VarBlock
block = record {
  kind = text "VAR";
  variables =
      record { name = text "i"; datatype = text "INT"; initial = some (number_lit (text "3")) }
      ∷ [];
}

abbrev statements : Statements
statements =
    and_statement
      (if_stmt condition
        (and_statement (assign_stmt (text "i") (number_lit (text "1"))) no_statements) no_elsifs
        no_statements)
      no_statements

body : Sources.Body body_tokens (block ∷ []) statements
unfolding Token.to_upper
body =
    Sources.var_block (word "Var") blank Sources.var_kw
      (Programs.declaration (word "i") blank (word "int") blank
        (Programs.initial_value blank (plain (Grammar.number (word "3")))) Programs.no_declaration)
      (Sources.sentence
        (Statements.if_sentence blank blank blank blank condition_phrase
          (Statements.and_sentence
            (Statements.assignment (word "i") blank blank no_member
              (plain (Grammar.number (word "1"))))
            Statements.no_sentence)
          Statements.no_elsif Statements.no_else)
        Sources.no_item)

parse-Body_example :
    parse (
      typed Token.program_kw blank
      ∷ word "p"
      ∷ (body_tokens ++ (typed Token.end_program blank ∷ blank ∷ [])))
    ≡ ok (record { name = text "p"; var_blocks = block ∷ []; statements = statements })
parse-Body_example = parse-Body blank (word "p") blank (blank ∷ []) body

-- CASE x OF 1: a := 1; 2: b := 2; END_CASE;
abbrev two_clauses : Tokens
two_clauses =
    typed Token.case_kw blank
    ∷ typed Token.ident (word "x")
    ∷ typed Token.of_kw blank
    ∷ typed Token.number (word "1")
    ∷ typed Token.colon blank
    ∷ typed Token.ident (word "a")
    ∷ typed Token.assign blank
    ∷ typed Token.number (word "1")
    ∷ typed Token.semicolon blank
    ∷ typed Token.number (word "2")
    ∷ typed Token.colon blank
    ∷ typed Token.ident (word "b")
    ∷ typed Token.assign blank
    ∷ typed Token.number (word "2")
    ∷ typed Token.semicolon blank
    ∷ typed Token.end_case blank
    ∷ typed Token.semicolon blank
    ∷ []

abbrev one_clause : Cases
one_clause =
    and_case (and_expression (number_lit (text "1")) no_expressions)
      (and_statement (assign_stmt (text "a") (number_lit (text "1")))
        (and_statement (assign_stmt (text "b") (number_lit (text "2"))) no_statements))
      no_cases

two_clauses-read :
    parse_case 20 (parse_statement 20) two_clauses
    ≡ ok (some (case_stmt (ident_expr (text "x")) one_clause no_statements), [])
unfolding parse_case parse_statement parse_expression parse_block parse_assign_or_call skip
    parse_else
two_clauses-read = refl

assign_number :
    (name value : String)
    → Statements.Sentence
        (typed Token.ident (word name)
          ∷ typed Token.assign blank
          ∷ typed Token.number (word value)
          ∷ typed Token.semicolon blank
          ∷ [])
        (assign_stmt (text name) (number_lit (text value)))
assign_number name value =
    Statements.assignment (word name) blank blank no_member (plain (Grammar.number (word value)))

parse_statement-Clauses_example :
    parse_statement 18 (two_clauses ++ [])
    ≡ ok (some (case_stmt (ident_expr (text "x")) one_clause no_statements), [])
parse_statement-Clauses_example =
    parse_statement-Clauses blank blank blank blank blank 18 []
      (plain (Grammar.name (word "x") no_member))
      (Grammar.last_argument (plain (Grammar.number (word "1"))))
      (Clauses.and_sentence (assign_number "a" "1") (
        Clauses.and_label Token.number (word "2") Clauses.label_number (
          Clauses.and_label Token.colon blank Clauses.label_colon
            (Clauses.and_sentence (assign_number "b" "2") Clauses.no_more))))
      Statements.no_else (omega arith)

generate-bodiless_example :
    generate (record {
      name = text "p";
      var_blocks =
          record {
            kind = text "VAR";
            variables = record { name = text "i"; datatype = text "INT"; initial = none } ∷ [];
          }
          ∷ [];
      statements = no_statements;
    })
    ≡ line 0 (text "def " ∷ or_main (text "p") ∷ text "():" ∷ []) ∷ []
generate-bodiless_example =
    generate-bodiless (text "p")
      (record {
        kind = text "VAR";
        variables = record { name = text "i"; datatype = text "INT"; initial = none } ∷ [];
      })
      []
      λ h. elim h [
        | inl k ↦ elim k [ inl e ↦ absurd (e refl) | inr l ↦ elim l [ ] ]
        | inr l ↦ elim l [ ]
      ]

-- x := 1;
abbrev small : Bytes
small = text "x := 1;"

abbrev small_program : Program
small_program = record {
  name = text "main";
  var_blocks = [];
  statements = and_statement (assign_stmt (text "x") (number_lit (text "1"))) no_statements;
}

small-parses : parse_source small ≡ ok small_program
unfolding parse_source parse_statement parse_assign_or_call members parse_expression skip
small-parses = refl

transpile-IsDefinition_example :
    (ls : Lines) × (transpile small ≡ ok (render ls, all_vars small_program.var_blocks))
    × IsDefinition (or_main (text "main")) ls
transpile-IsDefinition_example =
    transpile-IsDefinition small small_program small-parses (inl (inl refl)) (tt, tt)
