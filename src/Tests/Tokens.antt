-- ===== src/Tests/Tokens.antt =====
-- src/frontend/lexer.cpp on a small statement.
use prqlite.Base.{List, [], ◌∷◌, ◌++◌, map, some, ◌≡◌, refl}
use prqlite.Frontend.Token.{TokenType, Token}
use prqlite.Frontend.Keywords.Laws.{token_type_name_injective}
use prqlite.Frontend.Lexer.{tokenize, is_blank, is_digit, is_identifier_start, is_identifier_part}
use prqlite.Frontend.Lexer.Ends.{EndsWithEof, tokenize_total}
use prqlite.Frontend.Lexer.Words.{name, whole, text, double, is_pair, kind, IsWord}
use prqlite.Frontend.Lexer.RoundTrip.{
  Text, end, word, written, words, IsText, token_kind, tokenize-written,
}

-- `a1 <= 7 'b' ` with two blanks behind `7`.
abbrev statement : Text
statement = word (name b'a' (b'1' ∷ [])) b' ' [] (
    word (double b'<' b'=') b' ' []
      (word (whole b'7' []) b' ' (b' ' ∷ []) (word (text (b'b' ∷ [])) b' ' [] end)))

statement-IsText : IsText statement
unfolding IsWord is_pair is_blank is_digit is_identifier_start is_identifier_part
statement-IsText = (
  (refl, (refl, tt)),
  refl,
  tt,
  (refl, refl, tt, ((refl, tt), refl, (refl, tt), (tt, refl, tt, tt))),
)

tokenize-written_example :
    (ts : List Token) × (tokenize (written statement) ≡ some ts)
    × (map token_kind ts ≡ map kind (words statement) ++ (TokenType.end_of_file, []) ∷ [])
tokenize-written_example = tokenize-written statement statement-IsText

-- An unterminated text.
tokenize_total_example :
    (ts : List Token) × (tokenize (b'\'' ∷ b'a' ∷ []) ≡ some ts) × EndsWithEof ts
tokenize_total_example = tokenize_total (b'\'' ∷ b'a' ∷ [])

token_type_name_injective_example : TokenType.select ≡ TokenType.select
token_type_name_injective_example = token_type_name_injective TokenType.select TokenType.select refl
