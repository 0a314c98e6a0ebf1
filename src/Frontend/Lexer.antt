-- ===== src/Frontend/Lexer.antt =====
-- src/frontend/lexer.cpp: the scanner. `source_` and `pos_` are the bytes from `pos_` on. The
-- classes of characters are those of the C locale.
pub mod Ends
pub mod Words
pub mod Kinds
pub mod Spelling
pub mod RoundTrip
use mathlib.Core.Option
use prqlite.Base.{
  ℕ, zero, suc, ◌+◌, ◌-◌, ◌==◌, leb, Bool, true, false, not, ◌&&◌, ◌||◌, List, [], ◌∷◌, map, Option,
  none, some, if◌then◌else◌, Bytes, bytes_eq, Dict, nat_eq, length, find, ◌++◌,
}
use prqlite.Frontend.Token.{TokenType, Token}
use prqlite.Frontend.Keywords.{keyword_table}

-- `toupper`, `isalpha || '_'`, `isalnum || '_'` and `isdigit`.
unfoldable pub to_upper : ℕ → ℕ
to_upper c = if leb b'a' c && leb c b'z' then c - 32 else c

unfoldable pub is_digit : ℕ → Bool
is_digit c = leb b'0' c && leb c b'9'

unfoldable pub is_identifier_start : ℕ → Bool
is_identifier_start c = (leb b'a' c && leb c b'z') || ((leb b'A' c && leb c b'Z') || c == b'_')

unfoldable pub is_identifier_part : ℕ → Bool
unfolding is_identifier_start is_digit
is_identifier_part c = is_identifier_start c || is_digit c

-- `line_` and `column_`.
pub record Position : Type 0 where
  pub line : ℕ
  pub column : ℕ

pub record Lexer : Type 0 where
  pub rest : Bytes
  pub at : Position

unfoldable pub new_lexer : Bytes → Lexer
new_lexer source = record { rest = source; at = record { line = 1; column = 1 } }

abbrev pub peek : Bytes → ℕ
peek [] = 0
peek (c ∷ cs) = c

abbrev pub peek_next : Bytes → ℕ
peek_next [] = 0
peek_next (c ∷ cs) = peek cs

-- The bytes after `advance`.
abbrev pub drop_one : Bytes → Bytes
drop_one [] = []
drop_one (c ∷ cs) = cs

-- The position after `advance` over a character.
unfoldable pub advance : ℕ → Position → Position
advance c p =
    if c == b'\n'
    then record { line = p.line + 1; column = 1 }
    else record p { column = p.column + 1 }

unfoldable pub is_blank : ℕ → Bool
is_blank c = c == b' ' || (c == b'\t' || (c == b'\r' || c == b'\n'))

-- `skipWhitespaceAndComments`; the flag says that the loop inside a comment is running.
unfoldable pub skip : Bool → Bytes → Position → Lexer
unfolding advance is_blank
skip comment [] p = record { rest = []; at = p }
skip comment (c ∷ cs) p =
    let outside = skip false cs (advance c p) in
    let inside = skip true cs (advance c p) in
    if comment && not (c == b'\n')
    then inside
    else if is_blank c
    then outside
    else if c == b'-' && peek cs == b'-'
    then inside
    else record { rest = c ∷ cs; at = p }

-- The loops that collect a lexeme.
unfoldable pub scan_while : (ℕ → Bool) → Bytes → Position → Bytes × Lexer
unfolding advance
scan_while class [] p = ([], record { rest = []; at = p })
scan_while class (c ∷ cs) p =
    let (lexeme, after) = scan_while class cs (advance c p) in
    if class c then (c ∷ lexeme, after) else ([], record { rest = c ∷ cs; at = p })

abbrev pub make_token : TokenType → Bytes → Position → Position → Token
make_token type lexeme now start = record {
  type = type;
  lexeme = lexeme;
  line = now.line;
  column = start.column;
}

unfoldable pub word_type : Bytes → TokenType
unfolding to_upper
word_type lexeme = elim (find (map to_upper lexeme) keyword_table) [
  | none ↦ TokenType.identifier
  | some type ↦ type
]

unfoldable pub scan_identifier_or_keyword : Lexer → Token × Lexer
scan_identifier_or_keyword lx =
    let (lexeme, after) = scan_while is_identifier_part lx.rest lx.at in
    (make_token (word_type lexeme) lexeme after.at lx.at, after)

-- The fraction of a number, whose first character is the dot.
unfoldable pub scan_fraction : Bytes → Lexer → Position → Token × Lexer
scan_fraction whole lx start =
    let (digits, after) = scan_while is_digit (drop_one lx.rest) (advance b'.' lx.at) in
    (make_token TokenType.float_literal (whole ++ (b'.' ∷ digits)) after.at start, after)

unfoldable pub scan_number : Lexer → Token × Lexer
scan_number lx =
    let (whole, after) = scan_while is_digit lx.rest lx.at in
    if peek after.rest == b'.' && is_digit (peek_next after.rest)
    then scan_fraction whole after lx.at
    else (make_token TokenType.integer_literal whole after.at lx.at, after)

-- The loop of `scanString` behind the first quote: what is collected, whether a closing quote
-- was found, and the scanner.
unfoldable pub string_body : Bytes → Position → Bytes × Bool × Lexer
unfolding advance
string_body [] p = ([], false, record { rest = []; at = p })
string_body (c ∷ []) p =
    if c == b'\''
    then ([], true, record { rest = []; at = advance c p })
    else (c ∷ [], false, record { rest = []; at = advance c p })
string_body (c ∷ (d ∷ cs)) p =
    let (more, closed, after) = string_body (d ∷ cs) (advance c p) in
    let (quoted, closed', after') = string_body cs (advance d (advance c p)) in
    if c == b'\''
    then (if d == b'\''
        then (d ∷ quoted, closed', after')
        else ([], true, record { rest = d ∷ cs; at = advance c p }))
    else (c ∷ more, closed, after)

unfoldable pub scan_string : Lexer → Token × Lexer
scan_string lx =
    let (value, closed, after) = string_body (drop_one lx.rest) (advance b'\'' lx.at) in
    (
      make_token (if closed then TokenType.string_literal else TokenType.unknown) value after.at
          lx.at,
      after,
    )

-- The characters that are a token by themselves.
unfoldable pub single_table : Dict ℕ TokenType
single_table =
    (b'(', TokenType.lparen)
    ∷ (b')', TokenType.rparen)
    ∷ (b',', TokenType.comma)
    ∷ (b';', TokenType.semicolon)
    ∷ (b'*', TokenType.star)
    ∷ (b'+', TokenType.plus)
    ∷ (b'-', TokenType.minus)
    ∷ (b'/', TokenType.slash)
    ∷ (b'.', TokenType.dot)
    ∷ (b'=', TokenType.eq)
    ∷ []

-- The kind of a symbol that starts with `c`, by the character `d` behind it, and whether `d`
-- belongs to it.
unfoldable pub symbol_type : ℕ → ℕ → TokenType × Bool
symbol_type c d = elim (find c single_table) [
  | some type ↦ (type, false)
  | none ↦
      if c == b'<'
      then (if d == b'='
          then (TokenType.leq, true)
          else if d == b'>'
          then (TokenType.neq, true)
          else (TokenType.lt, false))
      else if c == b'>'
      then (if d == b'=' then (TokenType.geq, true) else (TokenType.gt, false))
      else if c == b'!'
      then (if d == b'=' then (TokenType.neq, true) else (TokenType.unknown, false))
      else (TokenType.unknown, false)
]

-- The `switch`, with `c` behind `advance`.
unfoldable pub scan_symbol : ℕ → Bytes → Position → Token × Lexer
scan_symbol c cs p =
    let (type, two) = symbol_type c (peek cs) in
    if two
    then (
      make_token type (c ∷ peek cs ∷ []) (advance (peek cs) (advance c p)) p,
      record { rest = drop_one cs; at = advance (peek cs) (advance c p) },
    )
    else (make_token type (c ∷ []) (advance c p) p, record { rest = cs; at = advance c p })

-- `scanToken`, which is called where the text has not ended.
unfoldable pub scan_token : Lexer → Token × Lexer
scan_token lx =
    let c = peek lx.rest in
    if is_identifier_start c
    then scan_identifier_or_keyword lx
    else if is_digit c
    then scan_number lx
    else if c == b'\''
    then scan_string lx
    else scan_symbol c (drop_one lx.rest) lx.at

-- `tokenize` on fuel; `none` where it runs out.
unfoldable pub tokenize_from : ℕ → Lexer → Option (List Token)
tokenize_from zero lx = none
tokenize_from (suc fuel) lx =
    let skipped = skip false lx.rest lx.at in
    elim skipped.rest [
      | [] ↦ some (make_token TokenType.end_of_file [] skipped.at skipped.at ∷ [])
      | c ∷ cs ↦
          let (token, after) = scan_token (record { rest = c ∷ cs; at = skipped.at }) in
          Option.map (◌∷◌ token) (tokenize_from fuel after)
    ]

unfoldable pub tokenize : Bytes → Option (List Token)
unfolding new_lexer
tokenize source = tokenize_from (suc (length source)) (new_lexer source)
