-- ===== src/Frontend/Lexer/Kinds.antt =====
-- src/frontend/lexer.cpp: the types that the scanner gives to names and symbols.
use prqlite.Base.{
  ℕ, ◌==◌, leb, Bool, true, not, ◌&&◌, [], ◌∷◌, map, Option, none, some, Bytes, bytes_beq, bytes_eq,
  Dict, find, get_or, nat_eq, ◌≡◌, ◌≢◌, ◌⊎◌, inl, inr, refl, ap₂, arith,
}
use prqlite.Frontend.Token.{TokenType}
use prqlite.Frontend.Keywords.{keyword_table}
use prqlite.Frontend.Lexer.{
  to_upper, word_type, symbol_type, single_table, is_identifier_start, is_digit, is_blank,
}
use prqlite.Frontend.Lexer.Words.{
  symbols, symbol_kind, is_pair, lower_case, same_word, name_kind, IsSymbolStart,
}

-- A keyword's letters are capital.
unfoldable no_small : Bytes → Bool
no_small [] = true
no_small (c ∷ cs) = not (leb b'a' c && leb c b'z') && no_small cs

unfoldable all_capital : Dict Bytes TokenType → Bool
unfolding no_small
all_capital [] = true
all_capital ((keyword, type) ∷ table) = no_small keyword && all_capital table

keyword_table_capital : all_capital keyword_table ≡ true
unfolding all_capital keyword_table
keyword_table_capital = refl

same_letter :
    (a c : ℕ)
    → not (leb b'a' a && leb a b'z') ≡ true
    → (a == to_upper c) ≡ (lower_case a == lower_case c)
unfolding to_upper lower_case
same_letter a c h = ground (arith, h)

same_word-to_upper :
    (v w : Bytes) → no_small v ≡ true → bytes_beq v (map to_upper w) ≡ same_word v w
unfolding no_small bytes_beq same_word
same_word-to_upper [] [] h = refl
same_word-to_upper [] (c ∷ w) h = refl
same_word-to_upper (a ∷ v) [] h = refl
same_word-to_upper (a ∷ v) (c ∷ w) h =
    ap₂ ◌&&◌ (same_letter a c (ground (arith, h))) (same_word-to_upper v w (ground (arith, h)))

abbrev type_of : Option TokenType → TokenType
type_of none = TokenType.identifier
type_of (some type) = type

find-name_kind :
    (w : Bytes) (table : Dict Bytes TokenType)
    → all_capital table ≡ true
    → type_of (find (map to_upper w) table) ≡ name_kind w table
unfolding find name_kind all_capital
find-name_kind w [] h = refl
find-name_kind w ((keyword, type) ∷ table) h =
    let e = same_word-to_upper keyword w (ground (arith, h)) in
    ground (arith, e, find-name_kind w table (ground (arith, h)))

pub word_type-name_kind : (w : Bytes) → word_type w ≡ name_kind w keyword_table
unfolding word_type
word_type-name_kind w = find-name_kind w keyword_table keyword_table_capital

pub symbol_type-single : (c : ℕ) → (symbol_type c b' ').0 ≡ symbol_kind (c ∷ [])
unfolding symbol_type symbol_kind single_table symbols find get_or bytes_beq
symbol_type-single c = ground arith

pair_cases :
    (c d : ℕ)
    → is_pair c d ≡ true
    → ((c ≡ b'<') × (d ≡ b'='))
      ⊎ (((c ≡ b'<') × (d ≡ b'>')) ⊎ (((c ≡ b'!') × (d ≡ b'=')) ⊎ ((c ≡ b'>') × (d ≡ b'='))))
unfolding is_pair
pair_cases c d h = ground (arith, h)

pub symbol_type-pair :
    (c d : ℕ) → is_pair c d ≡ true → symbol_type c d ≡ (symbol_kind (c ∷ (d ∷ [])), true)
unfolding symbol_type symbol_kind single_table symbols find get_or bytes_beq
symbol_type-pair c d h = elim (pair_cases c d h) [
  | inl (e, f) ↦ rw (e, f)
  | inr (inl (e, f)) ↦ rw (e, f)
  | inr (inr (inl (e, f))) ↦ rw (e, f)
  | inr (inr (inr (e, f))) ↦ rw (e, f)
]

pub pair-IsSymbolStart : (c d : ℕ) → is_pair c d ≡ true → IsSymbolStart c × (c ≢ b'-')
unfolding is_pair is_identifier_start is_digit is_blank
pair-IsSymbolStart c d h = ground (arith, h)
