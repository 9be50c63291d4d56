-- ===== src/St/Ast.antt =====
-- plc/st/ast.go: expressions, statements and programs. A list of nodes inside a node is a type of
-- its own in the mutual block.
use tentacle_next.Prelude.{Bool, Option, List}
use tentacle_next.Prelude.Bytes.{Bytes}

mutual
  pub data Expression : Type 0 where
    number_lit string_lit : Bytes → Expression
    bool_lit : Bool → Expression
    ident_expr : Bytes → Expression
    binary_expr : Expression → Bytes → Expression → Expression
    unary_expr : Bytes → Expression → Expression
    call_expr : Bytes → Expressions → Expression
    member_expr : Expression → Bytes → Expression
    time_lit : Bytes → Expression

  pub data Expressions : Type 0 where
    no_expressions : Expressions
    and_expression : Expression → Expressions → Expressions

mutual
  pub data Statement : Type 0 where
    assign_stmt : Bytes → Expression → Statement
    if_stmt : Expression → Statements → ElsIfs → Statements → Statement
    for_stmt : Bytes → Expression → Expression → Option Expression → Statements → Statement
    while_stmt : Expression → Statements → Statement
    repeat_stmt : Statements → Expression → Statement
    case_stmt : Expression → Cases → Statements → Statement
    call_stmt : Bytes → Expressions → Statement
    return_stmt : Statement

  pub data Statements : Type 0 where
    no_statements : Statements
    and_statement : Statement → Statements → Statements

  pub data ElsIfs : Type 0 where
    no_elsifs : ElsIfs
    and_elsif : Expression → Statements → ElsIfs → ElsIfs

  pub data Cases : Type 0 where
    no_cases : Cases
    and_case : Expressions → Statements → Cases → Cases

pub record VarDecl : Type 0 where
  pub name : Bytes
  pub datatype : Bytes
  pub initial : Option Expression

pub record VarBlock : Type 0 where
  pub kind : Bytes
  pub variables : List VarDecl

pub record Program : Type 0 where
  pub name : Bytes
  pub var_blocks : List VarBlock
  pub statements : Statements
