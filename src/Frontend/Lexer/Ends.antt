-- ===== src/Frontend/Lexer/Ends.antt =====
-- src/frontend/lexer.cpp: `tokenize` ends, since every token takes a character.
use mathlib.Core.Option
use prqlite.Base.{
  ℕ, zero, suc, ◌<◌, ◌≤◌, Bool, true, false, List, [], ◌∷◌, ◌++◌, some, Bytes, length, ◌≡◌, refl,
  ap, arith, Bool-cases, inl, inr, ◌∙◌, List-cases,
}
use prqlite.Frontend.Token.{TokenType, Token}
use prqlite.Frontend.Lexer.{
  Lexer, Position, advance, skip, scan_while, is_digit, is_identifier_start, is_identifier_part,
  scan_identifier_or_keyword, scan_fraction, scan_number, string_body, scan_string, scan_symbol,
  scan_token, tokenize_from, tokenize, drop_one, new_lexer, make_token,
}

skip_shortens : (b : Bool) (cs : Bytes) (p : Position) → length (skip b cs p).rest ≤ length cs
unfolding skip
skip_shortens b [] p = omega arith
skip_shortens b (c ∷ cs) p =
    ground (arith, skip_shortens false cs (advance c p), skip_shortens true cs (advance c p))

scan_while_shortens :
    (class : ℕ → Bool) (cs : Bytes) (p : Position)
    → length (scan_while class cs p).1.rest ≤ length cs
unfolding scan_while
scan_while_shortens class [] p = omega arith
scan_while_shortens class (c ∷ cs) p = ground (arith, scan_while_shortens class cs (advance c p))

-- It takes the first character if that is of the class.
scan_while_takes :
    (class : ℕ → Bool) (c : ℕ) (cs : Bytes) (p : Position)
    → class c ≡ true
    → length (scan_while class (c ∷ cs) p).1.rest < length (c ∷ cs)
unfolding scan_while
scan_while_takes class c cs p h = ground (arith, scan_while_shortens class cs (advance c p))

string_body_shortens : (cs : Bytes) (p : Position) → length (string_body cs p).2.rest ≤ length cs
unfolding string_body
string_body_shortens [] p = omega arith
string_body_shortens (c ∷ []) p = ground arith
string_body_shortens (c ∷ (d ∷ cs)) p = ground (
  arith,
  string_body_shortens (d ∷ cs) (advance c p),
  string_body_shortens cs (advance d (advance c p)),
)

length-drop_one : (cs : Bytes) → length (drop_one cs) ≤ length cs
length-drop_one [] = omega arith
length-drop_one (c ∷ cs) = omega arith

scan_number_takes :
    (c : ℕ) (cs : Bytes) (p : Position)
    → is_digit c ≡ true
    → length (scan_number (record { rest = c ∷ cs; at = p })).1.rest < length (c ∷ cs)
unfolding scan_number scan_fraction
scan_number_takes c cs p h =
    let after = (scan_while is_digit (c ∷ cs) p).1 in
    ground (
      arith,
      scan_while_takes is_digit c cs p h,
      scan_while_shortens is_digit (drop_one after.rest) (advance b'.' after.at),
      length-drop_one after.rest,
    )

scan_identifier_takes :
    (c : ℕ) (cs : Bytes) (p : Position)
    → is_identifier_start c ≡ true
    → length (scan_identifier_or_keyword (record { rest = c ∷ cs; at = p })).1.rest
      < length (c ∷ cs)
unfolding scan_identifier_or_keyword
scan_identifier_takes c cs p h =
    scan_while_takes is_identifier_part c cs p (unfold is_identifier_part in rw h)

scan_token_takes :
    (c : ℕ) (cs : Bytes) (p : Position)
    → length (scan_token (record { rest = c ∷ cs; at = p })).1.rest < length (c ∷ cs)
unfolding scan_token scan_string scan_symbol
scan_token_takes c cs p = elim (Bool-cases (is_identifier_start c)) [
  | inl name ↦ rw name (scan_identifier_takes c cs p name)
  | inr other ↦ elim (Bool-cases (is_digit c)) [
    | inl digit ↦ rw (other, digit) (scan_number_takes c cs p digit)
    | inr more ↦
        ground (arith, other, more, string_body_shortens cs (advance b'\'' p), length-drop_one cs)
  ]
]

-- The last of the tokens, which stands for the end of the text.
pub EndsWithEof : List Token → Type 0
EndsWithEof ts =
    (init : List Token) × (end : Token) × (ts ≡ init ++ end ∷ [])
    × (end.type ≡ TokenType.end_of_file)

pub tokenize_from_end :
    (fuel : ℕ) (lx : Lexer)
    → let skipped = skip false lx.rest lx.at in
      skipped.rest ≡ []
      → tokenize_from (suc fuel) lx
        ≡ some (make_token TokenType.end_of_file [] skipped.at skipped.at ∷ [])
unfolding tokenize_from
tokenize_from_end fuel lx e = rw (e, tokenize_from)

pub tokenize_from_token :
    (fuel : ℕ) (lx : Lexer) (c : ℕ) (cs : Bytes)
    → let skipped = skip false lx.rest lx.at in
      let (token, after) = scan_token (record { rest = c ∷ cs; at = skipped.at }) in
      skipped.rest ≡ c ∷ cs
      → tokenize_from (suc fuel) lx ≡ Option.map (◌∷◌ token) (tokenize_from fuel after)
unfolding tokenize_from
tokenize_from_token fuel lx c cs e = rw (e, tokenize_from)

tokenize_from_total :
    (fuel : ℕ) (lx : Lexer)
    → length lx.rest < fuel
    → (ts : List Token) × (tokenize_from fuel lx ≡ some ts) × EndsWithEof ts
unfolding EndsWithEof
tokenize_from_total zero lx h = absurd (omega arith)
tokenize_from_total (suc fuel) lx h =
    let skipped = skip false lx.rest lx.at in
    elim (List-cases skipped.rest) [
      | inl e ↦ (
        make_token TokenType.end_of_file [] skipped.at skipped.at ∷ [],
        tokenize_from_end fuel lx e,
        ([], make_token TokenType.end_of_file [] skipped.at skipped.at, refl, refl),
      )
      | inr (c, cs, e) ↦
          let (token, after) = scan_token (record { rest = c ∷ cs; at = skipped.at }) in
          let (ts, made, (init, end, last, type)) = tokenize_from_total fuel after (
            omega (
              arith,
              scan_token_takes c cs skipped.at,
              skip_shortens false lx.rest lx.at,
              ap length e,
            )) in
          (
            token ∷ ts,
            tokenize_from_token fuel lx c cs e ∙ rw made,
            (token ∷ init, end, ap (◌∷◌ token) last, type),
          )
    ]

-- Every text has tokens: the loop over the text ends, within a round for each character and one
-- more, and the last token stands for the end of the text.
pub tokenize_total :
    (source : Bytes) → (ts : List Token) × (tokenize source ≡ some ts) × EndsWithEof ts
unfolding tokenize
tokenize_total source = tokenize_from_total (suc (length source)) (new_lexer source) (omega arith)
