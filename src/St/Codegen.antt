-- ===== src/St/Codegen.antt =====
-- plc/st/codegen.go: the generator of Starlark. Its buffer is a list of lines, each with the
-- indentation that it was written at; `indent` is an argument in place of the generator's counter.
pub mod Programs
pub mod Blocks
use tentacle_next.Prelude.{
  ℕ, zero, suc, ◌+◌, ◌*◌, Bool, true, false, Option, none, some, List, [], ◌∷◌, ◌++◌, if◌then◌else◌,
  replicate,
}
use tentacle_next.Prelude.Bytes.{Bytes}
use tentacle_next.St.Token.{text, Tokens}
use tentacle_next.St.Ast.{
  Expression, Expressions, number_lit, string_lit, bool_lit, ident_expr, binary_expr, unary_expr,
  call_expr, member_expr, time_lit, no_expressions, and_expression, Statement, Statements, ElsIfs,
  Cases, assign_stmt, if_stmt, for_stmt, while_stmt, repeat_stmt, case_stmt, call_stmt, return_stmt,
  no_statements, and_statement, no_elsifs, and_elsif, no_cases, and_case, VarDecl, VarBlock,
  Program,
}
use tentacle_next.St.Literals.{print, join, quote, itoa, parse_time_ms, map_op, member_path}

pub record Line : Type 0 where
  pub indent : ℕ
  pub content : Bytes

abbrev pub Lines : Type 0
Lines = List Line

-- writeLine
abbrev pub line : ℕ → List Bytes → Line
line indent parts = record { indent = indent; content = print parts }

unfoldable mutual
  unfolding quote itoa parse_time_ms map_op member_path

  pub expr : Expression → Bytes
  expr (number_lit value) = value
  expr (string_lit value) = quote value
  expr (bool_lit true) = text "True"
  expr (bool_lit false) = text "False"
  expr (ident_expr name) = print (text "get_var(" ∷ quote name ∷ text ")" ∷ [])
  expr (binary_expr left op right) =
      print (text "(" ∷ expr left ∷ text " " ∷ map_op op ∷ text " " ∷ expr right ∷ text ")" ∷ [])
  expr (unary_expr op operand) = print (map_op op ∷ text " " ∷ expr operand ∷ [])
  expr (call_expr name args) =
      print (name ∷ text "(" ∷ join (text ", ") (exprs args) ∷ text ")" ∷ [])
  expr (member_expr object member) =
      print (text "get_var(" ∷ quote (member_path object member) ∷ text ")" ∷ [])
  expr (time_lit raw) = itoa (parse_time_ms raw)

  pub exprs : Expressions → List Bytes
  exprs no_expressions = []
  exprs (and_expression e es) = expr e ∷ exprs es

-- The conditions of a clause of CASE: the selector is written out in each.
abbrev pub conditions : Bytes → List Bytes → List Bytes
conditions selector [] = []
conditions selector (value ∷ values) =
    print (selector ∷ text " == " ∷ value ∷ []) ∷ conditions selector values

-- strings.Join(conds, " or ")
abbrev pub labels : Bytes → List Bytes → Bytes
labels selector values = join (text " or ") (conditions selector values)

-- maxLoopIterations
abbrev pub loop_header : ℕ → Line
loop_header indent = line indent (text "for _ in range(10000):" ∷ [])

abbrev range_args : Expression → Expression → Option Expression → List Bytes
range_args start stop none = expr start ∷ text ", " ∷ expr stop ∷ text " + 1" ∷ []
range_args start stop (some step) =
    expr start ∷ text ", " ∷ expr stop ∷ text " + 1" ∷ text ", " ∷ expr step ∷ []

abbrev pub set_var : ℕ → Bytes → Expression → Line
set_var indent name value =
    line indent (text "set_var(" ∷ quote name ∷ text ", " ∷ expr value ∷ text ")" ∷ [])

abbrev keyword : Bool → Bytes
keyword first = if first then text "if " else text "elif "

unfoldable mutual
  unfolding expr quote

  pub stmt : ℕ → Statement → Lines
  stmt indent (assign_stmt target value) = set_var indent target value ∷ []
  stmt indent (if_stmt cond body elsifs other) =
      line indent (text "if " ∷ expr cond ∷ text ":" ∷ [])
      ∷ (stmt_block (suc indent) body ++ (elif_blocks indent elsifs ++ else_block indent other))
  stmt indent (for_stmt variable start stop step body) =
      line indent (
        text "for "
        ∷ variable
        ∷ text " in range("
        ∷ print (range_args start stop step)
        ∷ text "):"
        ∷ [])
      ∷ stmt_block (suc indent) body
  stmt indent (while_stmt cond body) =
      loop_header indent
      ∷ (line (suc indent)
            (text "if " ∷ print (text "not (" ∷ expr cond ∷ text ")" ∷ []) ∷ text ":" ∷ [])
          ∷ line (suc (suc indent)) (text "break" ∷ [])
          ∷ stmt_block (suc indent) body)
  stmt indent (repeat_stmt body cond) =
      loop_header indent
      ∷ (stmt_block (suc indent) body
          ++ (line (suc indent) (text "if " ∷ expr cond ∷ text ":" ∷ [])
              ∷ line (suc (suc indent)) (text "break" ∷ [])
              ∷ []))
  stmt indent (case_stmt e cases other) =
      case_blocks indent (expr e) true cases ++ else_block indent other
  stmt indent (call_stmt name args) =
      line indent (name ∷ text "(" ∷ join (text ", ") (exprs args) ∷ text ")" ∷ []) ∷ []
  stmt indent return_stmt = line indent (text "return" ∷ []) ∷ []

  pub stmts : ℕ → Statements → Lines
  stmts indent no_statements = []
  stmts indent (and_statement s ss) = stmt indent s ++ stmts indent ss

  -- stmtBlock
  pub stmt_block : ℕ → Statements → Lines
  stmt_block indent no_statements = line indent (text "pass" ∷ []) ∷ []
  stmt_block indent (and_statement s ss) = stmt indent s ++ stmts indent ss

  pub elif_blocks : ℕ → ElsIfs → Lines
  elif_blocks indent no_elsifs = []
  elif_blocks indent (and_elsif cond body elsifs) =
      line indent (text "elif " ∷ expr cond ∷ text ":" ∷ [])
      ∷ (stmt_block (suc indent) body ++ elif_blocks indent elsifs)

  pub case_blocks : ℕ → Bytes → Bool → Cases → Lines
  case_blocks indent selector first no_cases = []
  case_blocks indent selector first (and_case values body cases) =
      line indent (keyword first ∷ labels selector (exprs values) ∷ text ":" ∷ [])
      ∷ (stmt_block (suc indent) body ++ case_blocks indent selector false cases)

  pub else_block : ℕ → Statements → Lines
  else_block indent no_statements = []
  else_block indent (and_statement s ss) =
      line indent (text "else:" ∷ []) ∷ (stmt (suc indent) s ++ stmts (suc indent) ss)

initial_values : List VarDecl → Lines
unfolding expr quote
initial_values [] = []
initial_values (v ∷ vs) = elim v.initial [
  | none ↦ initial_values vs
  | some e ↦ set_var 1 v.name e ∷ initial_values vs
]

blocks_values : List VarBlock → Lines
unfolding initial_values
blocks_values [] = []
blocks_values (vb ∷ vbs) = initial_values vb.variables ++ blocks_values vbs

-- pass, where a program has neither statements nor variable blocks.
pass_line : List VarBlock → Statements → Lines
pass_line [] no_statements = line 1 (text "pass" ∷ []) ∷ []
pass_line _ _ = []

unfoldable pub or_main : Bytes → Bytes
or_main [] = text "main"
or_main (c ∷ s) = c ∷ s

unfoldable pub generate : Program → Lines
unfolding stmts blocks_values pass_line or_main
generate prog =
    line 0 (text "def " ∷ or_main prog.name ∷ text "():" ∷ [])
    ∷ (blocks_values prog.var_blocks
        ++ (pass_line prog.var_blocks prog.statements ++ stmts 1 prog.statements))

-- The text of the buffer: four spaces for each indentation.
unfoldable pub render : Lines → Bytes
render [] = []
render (l ∷ ls) = replicate (4 * l.indent) b' ' ++ (l.content ++ (10 ∷ render ls))
