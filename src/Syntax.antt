-- ===== src/Syntax.antt =====
-- adapter/syntax
pub mod Token
pub mod Position
pub mod Lexer
pub mod Ast
pub mod Docs
pub mod Cursor
pub mod Expr
pub mod Parser
mod Examples
