-- ===== src/Frontend/Lexer/Words.antt =====
-- src/frontend/lexer.cpp: how the words of a statement are spelled.
use prqlite.Base.{
  ◌+◌, leb, ◌&&◌, ◌||◌, Dict, get_or, bytes_eq, ℕ, ◌<◌, ◌==◌, Bool, true, false, [], ◌∷◌, ◌++◌,
  append-nil, sym, if◌then◌else◌, Bytes, length, nat_eq, ◌≡◌, ◌≢◌, refl, ap, arith, ◌∙◌,
}
use prqlite.Frontend.Token.{TokenType}
use prqlite.Frontend.Keywords.{keyword_table}
use prqlite.Frontend.Lexer.{is_blank, is_digit, is_identifier_start, is_identifier_part}

abbrev pub All : (ℕ → Bool) → Bytes → Type 0
All class [] = Unit
All class (c ∷ cs) = (class c ≡ true) × All class cs

-- The words of the language: a name or keyword, the literals, and the symbols.
pub data Word : Type 0 where
  name : ℕ → Bytes → Word
  whole : ℕ → Bytes → Word
  fraction : ℕ → Bytes → ℕ → Bytes → Word
  text : Bytes → Word
  single : ℕ → Word
  double : ℕ → ℕ → Word

-- A quote in a text is written twice.
unfoldable pub escape : Bytes → Bytes
escape [] = []
escape (c ∷ cs) = let rest = escape cs in if c == b'\'' then b'\'' ∷ (b'\'' ∷ rest) else c ∷ rest

unfoldable pub spelled : Word → Bytes
unfolding escape
spelled (name c cs) = c ∷ cs
spelled (whole c cs) = c ∷ cs
spelled (fraction c cs d ds) = c ∷ (cs ++ (b'.' ∷ (d ∷ ds)))
spelled (text s) = b'\'' ∷ (escape s ++ b'\'' ∷ [])
spelled (single c) = c ∷ []
spelled (double c d) = c ∷ (d ∷ [])

-- The symbols of the language, as they are written.
unfoldable pub symbols : Dict Bytes TokenType
symbols =
    (b'(' ∷ [], TokenType.lparen)
    ∷ (b')' ∷ [], TokenType.rparen)
    ∷ (b',' ∷ [], TokenType.comma)
    ∷ (b';' ∷ [], TokenType.semicolon)
    ∷ (b'*' ∷ [], TokenType.star)
    ∷ (b'+' ∷ [], TokenType.plus)
    ∷ (b'-' ∷ [], TokenType.minus)
    ∷ (b'/' ∷ [], TokenType.slash)
    ∷ (b'.' ∷ [], TokenType.dot)
    ∷ (b'=' ∷ [], TokenType.eq)
    ∷ (b'<' ∷ [], TokenType.lt)
    ∷ (b'>' ∷ [], TokenType.gt)
    ∷ (b'<' ∷ b'=' ∷ [], TokenType.leq)
    ∷ (b'<' ∷ b'>' ∷ [], TokenType.neq)
    ∷ (b'!' ∷ b'=' ∷ [], TokenType.neq)
    ∷ (b'>' ∷ b'=' ∷ [], TokenType.geq)
    ∷ []

unfoldable pub symbol_kind : Bytes → TokenType
unfolding symbols
symbol_kind s = get_or TokenType.unknown s symbols

-- The pairs of characters that are one symbol.
unfoldable pub is_pair : ℕ → ℕ → Bool
is_pair c d =
    (c == b'<' && (d == b'=' || d == b'>'))
    || ((c == b'!' && d == b'=') || (c == b'>' && d == b'='))

-- Two words are the same but for the case of their letters.
unfoldable pub lower_case : ℕ → ℕ
lower_case c = if leb b'A' c && leb c b'Z' then c + 32 else c

unfoldable pub same_word : Bytes → Bytes → Bool
unfolding lower_case
same_word [] [] = true
same_word (a ∷ v) (b ∷ w) = lower_case a == lower_case b && same_word v w
same_word _ _ = false

-- The type of the keyword that the word is, in any case, or that of an identifier.
unfoldable pub name_kind : Bytes → Dict Bytes TokenType → TokenType
unfolding same_word
name_kind w [] = TokenType.identifier
name_kind w ((keyword, type) ∷ table) = if same_word keyword w then type else name_kind w table

-- The type and the lexeme of the word's token.
unfoldable pub kind : Word → TokenType × Bytes
kind (name c cs) = (name_kind (c ∷ cs) keyword_table, c ∷ cs)
kind (whole c cs) = (TokenType.integer_literal, c ∷ cs)
kind (fraction c cs d ds) = (TokenType.float_literal, c ∷ (cs ++ (b'.' ∷ (d ∷ ds))))
kind (text s) = (TokenType.string_literal, s)
kind (single c) = (symbol_kind (c ∷ []), c ∷ [])
kind (double c d) = (symbol_kind (c ∷ (d ∷ [])), c ∷ (d ∷ []))

abbrev pub IsSymbolStart : ℕ → Type 0
IsSymbolStart c =
    (is_identifier_start c ≡ false) × (is_digit c ≡ false) × (is_blank c ≡ false) × (c ≢ b'\'')

unfoldable pub IsWord : Word → Type 0
IsWord (name c cs) = (is_identifier_start c ≡ true) × All is_identifier_part cs
IsWord (whole c cs) = (is_digit c ≡ true) × All is_digit cs
IsWord (fraction c cs d ds) =
    (is_digit c ≡ true) × All is_digit cs × (is_digit d ≡ true) × All is_digit ds
IsWord (text s) = Unit
IsWord (single c) = IsSymbolStart c
IsWord (double c d) = is_pair c d ≡ true

pub spelled_cons : (w : Word) (x : Bytes) → (c : ℕ) × (cs : Bytes) × (spelled w ++ x ≡ c ∷ cs)
unfolding spelled
spelled_cons (name c cs) x = (c, cs ++ x, refl)
spelled_cons (whole c cs) x = (c, cs ++ x, refl)
spelled_cons (fraction c cs d ds) x = (c, (cs ++ (b'.' ∷ (d ∷ ds))) ++ x, refl)
spelled_cons (text s) x = (b'\'', (escape s ++ b'\'' ∷ []) ++ x, refl)
spelled_cons (single c) x = (c, x, refl)
spelled_cons (double c d) x = (c, d ∷ x, refl)

pub length-spelled : (w : Word) → 0 < length (spelled w)
length-spelled w =
    let (c, cs, e) = spelled_cons w [] in
    omega (arith, ap length (sym (append-nil (spelled w)) ∙ e))
