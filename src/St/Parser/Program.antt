-- ===== src/St/Parser/Program.antt =====
-- plc/st/parser.go: variable blocks and whole programs.
pub mod Termination
use tentacle_next.Prelude.{
  ℕ, zero, suc, Bool, true, false, ◌||◌, Option, none, some, List, [], ◌∷◌, if◌then◌else◌, length,
}
use tentacle_next.Prelude.Bytes.{Bytes}
use tentacle_next.St.Token
use tentacle_next.St.Token.{Token, Tokens, TokenType, is, to_upper, text}
use tentacle_next.St.Ast.{
  Expression, Statement, Statements, no_statements, and_statement, VarDecl, VarBlock, Program,
}
use tentacle_next.St.Result.{
  Result, ok, failed, out_of_fuel, bind, wrap, var_decl, var_decl_initial,
}
use tentacle_next.St.Parser.{Parser, peek, advance, expect, skip, parse_expression}
use tentacle_next.St.Parser.Statements.{parse_statement, cons_some}

unfoldable pub parse_initial : ℕ → Parser (Option Expression)
parse_initial n ts =
    let initial =
      bind (wrap var_decl_initial (parse_expression n (advance ts)))
        λ (e, rest). ok (some e, rest) in
    if is Token.assign (peek ts) then initial else ok (none, ts)

unfoldable pub parse_var_decl : ℕ → Parser VarDecl
unfolding parse_initial to_upper
parse_var_decl n ts = bind (wrap var_decl (expect Token.ident ts)) λ (name, ts₁).
    bind (wrap var_decl (expect Token.colon ts₁)) λ (_, ts₂).
      bind (parse_initial n (advance ts₂)) λ (initial, ts₃). ok (
        record { name = name.literal; datatype = to_upper (peek ts₂).literal; initial = initial },
        skip Token.semicolon ts₃,
      )

-- The loop of parseVarBlock, on fuel of its own.
unfoldable pub var_decls : ℕ → ℕ → Parser (List VarDecl)
var_decls n zero ts = out_of_fuel
var_decls n (suc m) ts =
    let more =
      bind (parse_var_decl n ts)
        λ (decl, rest). bind (var_decls n m rest) λ (decls, rest'). ok (decl ∷ decls, rest') in
    if is Token.end_var (peek ts) || is Token.eof (peek ts) then ok ([], ts) else more

unfoldable pub parse_var_block : ℕ → Parser VarBlock
unfolding var_decls to_upper
parse_var_block n ts = bind (var_decls n n (advance ts)) λ (decls, rest).
    ok (record { kind = to_upper (peek ts).literal; variables = decls }, skip Token.end_var rest)

abbrev pub is_var_block_start : Token → Bool
is_var_block_start t = is Token.var_kw t || (is Token.var_input t || is Token.var_output t)

-- What the two loops of parseProgram collect.
pub record Items : Type 0 where
  pub blocks : List VarBlock
  pub stmts : Statements

-- Both loops of parseProgram: that of a program with a header stops at END_PROGRAM too.
unfoldable pub program_items : Bool → ℕ → ℕ → Parser Items
unfolding parse_var_block
program_items headed n zero ts = out_of_fuel
program_items headed n (suc m) ts =
    let block = bind (parse_var_block n ts) λ (vb, rest).
      bind (program_items headed n m rest)
        λ (items, rest'). ok (record items { blocks = vb ∷ items.blocks }, rest') in
    let statement = bind (parse_statement n ts) λ (s, rest).
      bind (program_items headed n m rest)
        λ (items, rest'). ok (record items { stmts = cons_some s items.stmts }, rest') in
    let more = if is_var_block_start (peek ts) then block else statement in
    let at_end = if headed then is Token.end_program (peek ts) else false in
    if at_end || is Token.eof (peek ts)
    then ok (record { blocks = []; stmts = no_statements }, ts)
    else more

abbrev pub program_of : Bytes → Items → Program
program_of name items = record { name = name; var_blocks = items.blocks; statements = items.stmts }

unfoldable pub parse_program : ℕ → Parser Program
unfolding program_items
parse_program n ts =
    let headed = bind (program_items true n n (advance (advance ts))) λ (items, rest).
      ok (program_of (peek (advance ts)).literal items, skip Token.end_program rest) in
    let bare =
      bind (program_items false n n ts)
        λ (items, rest). ok (program_of (text "main") items, rest) in
    if is Token.program_kw (peek ts) then headed else bare

-- Parse, from the tokens: one unit of fuel for each and two more.
unfoldable pub parse : Tokens → Result Program
unfolding parse_program
parse ts = bind (parse_program (suc (suc (length ts))) ts) λ (program, rest). ok program
