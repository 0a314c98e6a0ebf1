-- ===== src/Frontend/Token.antt =====
-- include/frontend/token.hpp: the kinds of tokens. A keyword that is reserved, or a
-- common name, ends in `_keyword`.
use prqlite.Base.{ℕ, Bytes}

pub data TokenType : Type 0 where
  select from_keyword where_keyword insert into values create table index on delete update :
      TokenType
  set drop alter truncate returning conflict do_keyword nothing add column references foreign :
      TokenType
  key primary unique default check autoincr cascade restrict order by group having over : TokenType
  partition of limit offset case then else end explain view as_keyword asc desc join inner :
      TokenType
  left right full cross distinct union intersect except all_keyword is in_keyword between :
      TokenType
  like null_literal exists begin commit rollback transaction and_keyword or_keyword : TokenType
  not_keyword int_type bool_type text_type varchar float_type date_type timestamp_type : TokenType
  true_keyword false_keyword identifier integer_literal float_literal string_literal eq neq :
      TokenType
  lt leq gt geq plus minus slash lparen rparen comma semicolon star dot end_of_file unknown :
      TokenType

pub record Token : Type 0 where
  pub type : TokenType
  pub lexeme : Bytes
  pub line : ℕ
  pub column : ℕ
