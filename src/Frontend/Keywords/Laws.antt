-- ===== src/Frontend/Keywords/Laws.antt =====
-- src/frontend/lexer.cpp: the names of the kinds of tokens tell them apart.
use prqlite.Base.{Bytes, bytes_beq, if◌then◌else◌, List, [], ◌∷◌, Option, none, some, ◌≡◌, refl, ap}
use prqlite.Frontend.Token.{TokenType}
use prqlite.Frontend.Keywords.{token_type_name}

all_types : List TokenType
all_types =
    TokenType.select ∷ TokenType.from_keyword ∷ TokenType.where_keyword ∷ TokenType.insert
    ∷ TokenType.into ∷ TokenType.values ∷ TokenType.create ∷ TokenType.table ∷ TokenType.index
    ∷ TokenType.on ∷ TokenType.delete ∷ TokenType.update ∷ TokenType.set ∷ TokenType.drop
    ∷ TokenType.alter ∷ TokenType.truncate ∷ TokenType.returning ∷ TokenType.conflict
    ∷ TokenType.do_keyword ∷ TokenType.nothing ∷ TokenType.add ∷ TokenType.column
    ∷ TokenType.references ∷ TokenType.foreign ∷ TokenType.key ∷ TokenType.primary
    ∷ TokenType.unique ∷ TokenType.default ∷ TokenType.check ∷ TokenType.autoincr
    ∷ TokenType.cascade ∷ TokenType.restrict ∷ TokenType.order ∷ TokenType.by ∷ TokenType.group
    ∷ TokenType.having ∷ TokenType.over ∷ TokenType.partition ∷ TokenType.of ∷ TokenType.limit
    ∷ TokenType.offset ∷ TokenType.case ∷ TokenType.then ∷ TokenType.else ∷ TokenType.end
    ∷ TokenType.explain ∷ TokenType.view ∷ TokenType.as_keyword ∷ TokenType.asc ∷ TokenType.desc
    ∷ TokenType.join ∷ TokenType.inner ∷ TokenType.left ∷ TokenType.right ∷ TokenType.full
    ∷ TokenType.cross ∷ TokenType.distinct ∷ TokenType.union ∷ TokenType.intersect
    ∷ TokenType.except ∷ TokenType.all_keyword ∷ TokenType.is ∷ TokenType.in_keyword
    ∷ TokenType.between ∷ TokenType.like ∷ TokenType.null_literal ∷ TokenType.exists
    ∷ TokenType.begin ∷ TokenType.commit ∷ TokenType.rollback ∷ TokenType.transaction
    ∷ TokenType.and_keyword ∷ TokenType.or_keyword ∷ TokenType.not_keyword ∷ TokenType.int_type
    ∷ TokenType.bool_type ∷ TokenType.text_type ∷ TokenType.varchar ∷ TokenType.float_type
    ∷ TokenType.date_type ∷ TokenType.timestamp_type ∷ TokenType.true_keyword
    ∷ TokenType.false_keyword ∷ TokenType.identifier ∷ TokenType.integer_literal
    ∷ TokenType.float_literal ∷ TokenType.string_literal ∷ TokenType.eq ∷ TokenType.neq
    ∷ TokenType.lt ∷ TokenType.leq ∷ TokenType.gt ∷ TokenType.geq ∷ TokenType.plus ∷ TokenType.minus
    ∷ TokenType.slash ∷ TokenType.lparen ∷ TokenType.rparen ∷ TokenType.comma ∷ TokenType.semicolon
    ∷ TokenType.star ∷ TokenType.dot ∷ TokenType.end_of_file ∷ TokenType.unknown ∷ []

-- The kind that a name stands for.
type_named : Bytes → List TokenType → Option TokenType
type_named s [] = none
type_named s (t ∷ ts) =
    let rest = type_named s ts in if bytes_beq (token_type_name t) s then some t else rest

type_named-token_type_name : (t : TokenType) → type_named (token_type_name t) all_types ≡ some t
unfolding type_named token_type_name all_types bytes_beq
type_named-token_type_name TokenType.select = refl
type_named-token_type_name TokenType.from_keyword = refl
type_named-token_type_name TokenType.where_keyword = refl
type_named-token_type_name TokenType.insert = refl
type_named-token_type_name TokenType.into = refl
type_named-token_type_name TokenType.values = refl
type_named-token_type_name TokenType.create = refl
type_named-token_type_name TokenType.table = refl
type_named-token_type_name TokenType.index = refl
type_named-token_type_name TokenType.on = refl
type_named-token_type_name TokenType.delete = refl
type_named-token_type_name TokenType.update = refl
type_named-token_type_name TokenType.set = refl
type_named-token_type_name TokenType.drop = refl
type_named-token_type_name TokenType.alter = refl
type_named-token_type_name TokenType.truncate = refl
type_named-token_type_name TokenType.returning = refl
type_named-token_type_name TokenType.conflict = refl
type_named-token_type_name TokenType.do_keyword = refl
type_named-token_type_name TokenType.nothing = refl
type_named-token_type_name TokenType.add = refl
type_named-token_type_name TokenType.column = refl
type_named-token_type_name TokenType.references = refl
type_named-token_type_name TokenType.foreign = refl
type_named-token_type_name TokenType.key = refl
type_named-token_type_name TokenType.primary = refl
type_named-token_type_name TokenType.unique = refl
type_named-token_type_name TokenType.default = refl
type_named-token_type_name TokenType.check = refl
type_named-token_type_name TokenType.autoincr = refl
type_named-token_type_name TokenType.cascade = refl
type_named-token_type_name TokenType.restrict = refl
type_named-token_type_name TokenType.order = refl
type_named-token_type_name TokenType.by = refl
type_named-token_type_name TokenType.group = refl
type_named-token_type_name TokenType.having = refl
type_named-token_type_name TokenType.over = refl
type_named-token_type_name TokenType.partition = refl
type_named-token_type_name TokenType.of = refl
type_named-token_type_name TokenType.limit = refl
type_named-token_type_name TokenType.offset = refl
type_named-token_type_name TokenType.case = refl
type_named-token_type_name TokenType.then = refl
type_named-token_type_name TokenType.else = refl
type_named-token_type_name TokenType.end = refl
type_named-token_type_name TokenType.explain = refl
type_named-token_type_name TokenType.view = refl
type_named-token_type_name TokenType.as_keyword = refl
type_named-token_type_name TokenType.asc = refl
type_named-token_type_name TokenType.desc = refl
type_named-token_type_name TokenType.join = refl
type_named-token_type_name TokenType.inner = refl
type_named-token_type_name TokenType.left = refl
type_named-token_type_name TokenType.right = refl
type_named-token_type_name TokenType.full = refl
type_named-token_type_name TokenType.cross = refl
type_named-token_type_name TokenType.distinct = refl
type_named-token_type_name TokenType.union = refl
type_named-token_type_name TokenType.intersect = refl
type_named-token_type_name TokenType.except = refl
type_named-token_type_name TokenType.all_keyword = refl
type_named-token_type_name TokenType.is = refl
type_named-token_type_name TokenType.in_keyword = refl
type_named-token_type_name TokenType.between = refl
type_named-token_type_name TokenType.like = refl
type_named-token_type_name TokenType.null_literal = refl
type_named-token_type_name TokenType.exists = refl
type_named-token_type_name TokenType.begin = refl
type_named-token_type_name TokenType.commit = refl
type_named-token_type_name TokenType.rollback = refl
type_named-token_type_name TokenType.transaction = refl
type_named-token_type_name TokenType.and_keyword = refl
type_named-token_type_name TokenType.or_keyword = refl
type_named-token_type_name TokenType.not_keyword = refl
type_named-token_type_name TokenType.int_type = refl
type_named-token_type_name TokenType.bool_type = refl
type_named-token_type_name TokenType.text_type = refl
type_named-token_type_name TokenType.varchar = refl
type_named-token_type_name TokenType.float_type = refl
type_named-token_type_name TokenType.date_type = refl
type_named-token_type_name TokenType.timestamp_type = refl
type_named-token_type_name TokenType.true_keyword = refl
type_named-token_type_name TokenType.false_keyword = refl
type_named-token_type_name TokenType.identifier = refl
type_named-token_type_name TokenType.integer_literal = refl
type_named-token_type_name TokenType.float_literal = refl
type_named-token_type_name TokenType.string_literal = refl
type_named-token_type_name TokenType.eq = refl
type_named-token_type_name TokenType.neq = refl
type_named-token_type_name TokenType.lt = refl
type_named-token_type_name TokenType.leq = refl
type_named-token_type_name TokenType.gt = refl
type_named-token_type_name TokenType.geq = refl
type_named-token_type_name TokenType.plus = refl
type_named-token_type_name TokenType.minus = refl
type_named-token_type_name TokenType.slash = refl
type_named-token_type_name TokenType.lparen = refl
type_named-token_type_name TokenType.rparen = refl
type_named-token_type_name TokenType.comma = refl
type_named-token_type_name TokenType.semicolon = refl
type_named-token_type_name TokenType.star = refl
type_named-token_type_name TokenType.dot = refl
type_named-token_type_name TokenType.end_of_file = refl
type_named-token_type_name TokenType.unknown = refl

-- Kinds of tokens with the same name are the same kind.
pub token_type_name_injective : (s t : TokenType) → token_type_name s ≡ token_type_name t → s ≡ t
token_type_name_injective s t e =
    cc (
      type_named-token_type_name s,
      type_named-token_type_name t,
      ap (λ n. type_named n all_types) e,
    )
