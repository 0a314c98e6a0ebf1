-- ===== src/Frontend.antt =====
-- include/frontend and src/frontend: from the text of a statement to its tokens.
pub mod Token
pub mod Keywords
pub mod Lexer
pub mod Ast
