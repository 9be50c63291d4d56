-- ===== src/St/Transpile.antt =====
-- plc/st: Parse and Transpile, which run the lexer, the parser and the generator on a source.
use mathlib.Core.Logic.{◌≢◌}
use tentacle_next.Prelude.{◌≡◌, refl, none, some, List, [], ◌∷◌, ◌++◌}
use tentacle_next.Prelude.Bytes.{Bytes}
use tentacle_next.St.Ast.{VarDecl, VarBlock, Program}
use tentacle_next.St.Result.{Result, ok, failed, out_of_fuel, bind}
use tentacle_next.St.Lexer.{lex}
use tentacle_next.St.Lexer.Total.{lex-total}
use tentacle_next.St.Parser.Program.{parse}
use tentacle_next.St.Parser.Program.Termination.{parse-ne-out_of_fuel}
use tentacle_next.St.Codegen.{Lines, generate, render, or_main}
use tentacle_next.St.Codegen.Blocks.{HaveClauses}
use tentacle_next.St.Codegen.Programs.{HasBody, IsDefinition, generate-IsDefinition}

-- Parse
unfoldable pub parse_source : Bytes → Result Program
unfolding lex parse
parse_source source = elim (lex source) [ none ↦ out_of_fuel | some ts ↦ parse ts ]

unfoldable pub all_vars : List VarBlock → List VarDecl
all_vars [] = []
all_vars (vb ∷ vbs) = vb.variables ++ all_vars vbs

-- Transpile
unfoldable pub transpile : Bytes → Result (Bytes × List VarDecl)
unfolding generate render all_vars parse_source
transpile source =
    bind (parse_source source) λ prog. ok (render (generate prog), all_vars prog.var_blocks)

bind_ok-ne-out_of_fuel :
    {A B : Type 0} (r : Result A) (f : A → B)
    → r ≢ out_of_fuel
    → bind r (λ a. ok (f a)) ≢ out_of_fuel
bind_ok-ne-out_of_fuel (ok a) f h = cc
bind_ok-ne-out_of_fuel (failed e) f h = cc
bind_ok-ne-out_of_fuel out_of_fuel f h = absurd (h refl)

-- The compiler ends on every source text: its lexer and its parser have enough fuel for whatever bytes
-- there are, so it returns a program's text or an error of the parser.
pub transpile-ne-out_of_fuel : (source : Bytes) → transpile source ≢ out_of_fuel
unfolding transpile parse_source
transpile-ne-out_of_fuel source =
    let (ts, e) = lex-total source in
    let parsed : parse_source source ≢ out_of_fuel =
      rw (e, parse_source) (parse-ne-out_of_fuel ts) in
    bind_ok-ne-out_of_fuel (parse_source source)
      (λ prog. (render (generate prog), all_vars prog.var_blocks)) parsed

-- A source that parses is compiled to the text of one Starlark function named after the program, with
-- the blocks that Starlark's indentation asks for, if each of its CASE statements has a clause and its
-- body is not that of variable blocks alone that give no initial value.
pub transpile-IsDefinition :
    (source : Bytes) (prog : Program)
    → parse_source source ≡ ok prog
    → HasBody prog
    → HaveClauses prog.statements
    → (ls : Lines) × (transpile source ≡ ok (render ls, all_vars prog.var_blocks))
      × IsDefinition (or_main prog.name) ls
unfolding transpile
transpile-IsDefinition source prog e b h =
    (generate prog, rw (e, transpile) refl, generate-IsDefinition prog b h)
