-- ===== src/Frontend/Keywords.antt =====
-- src/frontend/lexer.cpp: the words that are keywords, and the names of the kinds of tokens.
pub mod Laws
use prqlite.Base.{ℕ, Bytes, codes, List, [], ◌∷◌, Dict}
use prqlite.Frontend.Token.{TokenType}

-- `keywordTable()`.
unfoldable pub keyword_table : Dict Bytes TokenType
keyword_table =
    (codes "FETCH", TokenType.select)
    ∷ (codes "FROM", TokenType.from_keyword)
    ∷ (codes "WHEN", TokenType.where_keyword)
    ∷ (codes "PUT", TokenType.insert)
    ∷ (codes "INTO", TokenType.into)
    ∷ (codes "VALUES", TokenType.values)
    ∷ (codes "BUILD", TokenType.create)
    ∷ (codes "RELATION", TokenType.table)
    ∷ (codes "INDEX", TokenType.index)
    ∷ (codes "ON", TokenType.on)
    ∷ (codes "REMOVE", TokenType.delete)
    ∷ (codes "AND", TokenType.and_keyword)
    ∷ (codes "OR", TokenType.or_keyword)
    ∷ (codes "NOT", TokenType.not_keyword)
    ∷ (codes "INT", TokenType.int_type)
    ∷ (codes "INTEGER", TokenType.int_type)
    ∷ (codes "BIGINT", TokenType.int_type)
    ∷ (codes "SMALLINT", TokenType.int_type)
    ∷ (codes "BOOL", TokenType.bool_type)
    ∷ (codes "BOOLEAN", TokenType.bool_type)
    ∷ (codes "TEXT", TokenType.text_type)
    ∷ (codes "VARCHAR", TokenType.varchar)
    ∷ (codes "FLOAT", TokenType.float_type)
    ∷ (codes "DOUBLE", TokenType.float_type)
    ∷ (codes "REAL", TokenType.float_type)
    ∷ (codes "DECIMAL", TokenType.float_type)
    ∷ (codes "NUMERIC", TokenType.float_type)
    ∷ (codes "DATE", TokenType.date_type)
    ∷ (codes "TIMESTAMP", TokenType.timestamp_type)
    ∷ (codes "DATETIME", TokenType.timestamp_type)
    ∷ (codes "TRUE", TokenType.true_keyword)
    ∷ (codes "FALSE", TokenType.false_keyword)
    ∷ (codes "MODIFY", TokenType.update)
    ∷ (codes "SET", TokenType.set)
    ∷ (codes "DISCARD", TokenType.drop)
    ∷ (codes "SORT", TokenType.order)
    ∷ (codes "BY", TokenType.by)
    ∷ (codes "GROUP", TokenType.group)
    ∷ (codes "HAVING", TokenType.having)
    ∷ (codes "TAKE", TokenType.limit)
    ∷ (codes "OVER", TokenType.over)
    ∷ (codes "PARTITION", TokenType.partition)
    ∷ (codes "OF", TokenType.of)
    ∷ (codes "SKIP", TokenType.offset)
    ∷ (codes "CASE", TokenType.case)
    ∷ (codes "THEN", TokenType.then)
    ∷ (codes "ELSE", TokenType.else)
    ∷ (codes "END", TokenType.end)
    ∷ (codes "EXPLAIN", TokenType.explain)
    ∷ (codes "VIEW", TokenType.view)
    ∷ (codes "AS", TokenType.as_keyword)
    ∷ (codes "ASC", TokenType.asc)
    ∷ (codes "DESC", TokenType.desc)
    ∷ (codes "LINK", TokenType.join)
    ∷ (codes "LEFT", TokenType.left)
    ∷ (codes "CROSS", TokenType.cross)
    ∷ (codes "RIGHT", TokenType.right)
    ∷ (codes "FULL", TokenType.full)
    ∷ (codes "IS", TokenType.is)
    ∷ (codes "IN", TokenType.in_keyword)
    ∷ (codes "BETWEEN", TokenType.between)
    ∷ (codes "LIKE", TokenType.like)
    ∷ (codes "NULL", TokenType.null_literal)
    ∷ (codes "START", TokenType.begin)
    ∷ (codes "SAVE", TokenType.commit)
    ∷ (codes "UNDO", TokenType.rollback)
    ∷ (codes "RESHAPE", TokenType.alter)
    ∷ (codes "ADD", TokenType.add)
    ∷ (codes "TRUNCATE", TokenType.truncate)
    ∷ (codes "RETURNING", TokenType.returning)
    ∷ (codes "CONFLICT", TokenType.conflict)
    ∷ (codes "DO", TokenType.do_keyword)
    ∷ (codes "NOTHING", TokenType.nothing)
    ∷ (codes "COLUMN", TokenType.column)
    ∷ (codes "REFERENCES", TokenType.references)
    ∷ (codes "FOREIGN", TokenType.foreign)
    ∷ (codes "KEY", TokenType.key)
    ∷ (codes "PRIMARY", TokenType.primary)
    ∷ (codes "UNIQUE", TokenType.unique)
    ∷ (codes "DEFAULT", TokenType.default)
    ∷ (codes "CHECK", TokenType.check)
    ∷ (codes "AUTO_INCREMENT", TokenType.autoincr)
    ∷ (codes "SERIAL", TokenType.autoincr)
    ∷ (codes "CASCADE", TokenType.cascade)
    ∷ (codes "RESTRICT", TokenType.restrict)
    ∷ (codes "UNIQUEONLY", TokenType.distinct)
    ∷ (codes "UNION", TokenType.union)
    ∷ (codes "INTERSECT", TokenType.intersect)
    ∷ (codes "EXCEPT", TokenType.except)
    ∷ (codes "ALL", TokenType.all_keyword)
    ∷ (codes "EXISTS", TokenType.exists)
    ∷ []

-- `tokenTypeName`.
unfoldable pub token_type_name : TokenType → Bytes
token_type_name TokenType.select = codes "SELECT"
token_type_name TokenType.from_keyword = codes "FROM"
token_type_name TokenType.where_keyword = codes "WHERE"
token_type_name TokenType.insert = codes "INSERT"
token_type_name TokenType.into = codes "INTO"
token_type_name TokenType.values = codes "VALUES"
token_type_name TokenType.create = codes "CREATE"
token_type_name TokenType.table = codes "TABLE"
token_type_name TokenType.index = codes "INDEX"
token_type_name TokenType.on = codes "ON"
token_type_name TokenType.delete = codes "DELETE"
token_type_name TokenType.update = codes "UPDATE"
token_type_name TokenType.set = codes "SET"
token_type_name TokenType.drop = codes "DROP"
token_type_name TokenType.alter = codes "ALTER"
token_type_name TokenType.truncate = codes "TRUNCATE"
token_type_name TokenType.returning = codes "RETURNING"
token_type_name TokenType.conflict = codes "CONFLICT"
token_type_name TokenType.do_keyword = codes "DO"
token_type_name TokenType.nothing = codes "NOTHING"
token_type_name TokenType.add = codes "ADD"
token_type_name TokenType.column = codes "COLUMN"
token_type_name TokenType.references = codes "REFERENCES"
token_type_name TokenType.foreign = codes "FOREIGN"
token_type_name TokenType.key = codes "KEY"
token_type_name TokenType.primary = codes "PRIMARY"
token_type_name TokenType.unique = codes "UNIQUE"
token_type_name TokenType.default = codes "DEFAULT"
token_type_name TokenType.check = codes "CHECK"
token_type_name TokenType.autoincr = codes "AUTO_INCREMENT"
token_type_name TokenType.cascade = codes "CASCADE"
token_type_name TokenType.restrict = codes "RESTRICT"
token_type_name TokenType.distinct = codes "DISTINCT"
token_type_name TokenType.order = codes "ORDER"
token_type_name TokenType.by = codes "BY"
token_type_name TokenType.group = codes "GROUP"
token_type_name TokenType.having = codes "HAVING"
token_type_name TokenType.over = codes "OVER"
token_type_name TokenType.partition = codes "PARTITION"
token_type_name TokenType.of = codes "OF"
token_type_name TokenType.limit = codes "LIMIT"
token_type_name TokenType.offset = codes "OFFSET"
token_type_name TokenType.case = codes "CASE"
token_type_name TokenType.then = codes "THEN"
token_type_name TokenType.else = codes "ELSE"
token_type_name TokenType.end = codes "END"
token_type_name TokenType.explain = codes "EXPLAIN"
token_type_name TokenType.view = codes "VIEW"
token_type_name TokenType.as_keyword = codes "AS"
token_type_name TokenType.asc = codes "ASC"
token_type_name TokenType.desc = codes "DESC"
token_type_name TokenType.join = codes "JOIN"
token_type_name TokenType.inner = codes "INNER"
token_type_name TokenType.left = codes "LEFT"
token_type_name TokenType.right = codes "RIGHT"
token_type_name TokenType.full = codes "FULL"
token_type_name TokenType.cross = codes "CROSS"
token_type_name TokenType.union = codes "UNION"
token_type_name TokenType.intersect = codes "INTERSECT"
token_type_name TokenType.except = codes "EXCEPT"
token_type_name TokenType.all_keyword = codes "ALL"
token_type_name TokenType.is = codes "IS"
token_type_name TokenType.in_keyword = codes "IN"
token_type_name TokenType.between = codes "BETWEEN"
token_type_name TokenType.like = codes "LIKE"
token_type_name TokenType.null_literal = codes "NULL"
token_type_name TokenType.exists = codes "EXISTS"
token_type_name TokenType.begin = codes "BEGIN"
token_type_name TokenType.commit = codes "COMMIT"
token_type_name TokenType.rollback = codes "ROLLBACK"
token_type_name TokenType.transaction = codes "TRANSACTION"
token_type_name TokenType.and_keyword = codes "AND"
token_type_name TokenType.or_keyword = codes "OR"
token_type_name TokenType.not_keyword = codes "NOT"
token_type_name TokenType.int_type = codes "INT_TYPE"
token_type_name TokenType.bool_type = codes "BOOL_TYPE"
token_type_name TokenType.text_type = codes "TEXT_TYPE"
token_type_name TokenType.varchar = codes "VARCHAR"
token_type_name TokenType.float_type = codes "FLOAT_TYPE"
token_type_name TokenType.date_type = codes "DATE_TYPE"
token_type_name TokenType.timestamp_type = codes "TIMESTAMP_TYPE"
token_type_name TokenType.true_keyword = codes "TRUE"
token_type_name TokenType.false_keyword = codes "FALSE"
token_type_name TokenType.identifier = codes "IDENTIFIER"
token_type_name TokenType.integer_literal = codes "INTEGER_LITERAL"
token_type_name TokenType.float_literal = codes "FLOAT_LITERAL"
token_type_name TokenType.string_literal = codes "STRING_LITERAL"
token_type_name TokenType.eq = codes "EQ"
token_type_name TokenType.neq = codes "NEQ"
token_type_name TokenType.lt = codes "LT"
token_type_name TokenType.leq = codes "LEQ"
token_type_name TokenType.gt = codes "GT"
token_type_name TokenType.geq = codes "GEQ"
token_type_name TokenType.plus = codes "PLUS"
token_type_name TokenType.minus = codes "MINUS"
token_type_name TokenType.slash = codes "SLASH"
token_type_name TokenType.lparen = codes "LPAREN"
token_type_name TokenType.rparen = codes "RPAREN"
token_type_name TokenType.comma = codes "COMMA"
token_type_name TokenType.semicolon = codes "SEMICOLON"
token_type_name TokenType.star = codes "STAR"
token_type_name TokenType.dot = codes "DOT"
token_type_name TokenType.end_of_file = codes "EOF"
token_type_name TokenType.unknown = codes "UNKNOWN"
