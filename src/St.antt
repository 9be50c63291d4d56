-- ===== src/St.antt =====
-- plc/st: the compiler of structured text to Starlark, one module for each file of the package.
pub mod Token
pub mod Ast
pub mod Result
pub mod Parser
pub mod Literals
pub mod Lexer
pub mod Codegen
pub mod Grammar
pub mod Transpile
mod Examples
