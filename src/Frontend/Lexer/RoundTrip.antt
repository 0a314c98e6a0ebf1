-- ===== src/Frontend/Lexer/RoundTrip.antt =====
-- src/frontend/lexer.cpp: the tokens of a text that is written word by word.
use mathlib.Core.Option
use prqlite.Base.{
  ℕ, zero, suc, ◌<◌, true, false, List, [], ◌∷◌, ◌++◌, map, some, Bytes, length, length-append, ◌≡◌,
  refl, ap, arith, ◌∙◌,
}
use prqlite.Frontend.Token.{TokenType, Token}
use prqlite.Frontend.Lexer.{
  Lexer, Position, advance, skip, is_blank, tokenize_from, tokenize, new_lexer, make_token,
}
use prqlite.Frontend.Lexer.Ends.{tokenize_from_end, tokenize_from_token}
use prqlite.Frontend.Lexer.Words.{All, Word, spelled, kind, IsWord, spelled_cons, length-spelled}
use prqlite.Frontend.Lexer.Spelling.{Scans, scan_token-spelled, skip-spelled}

-- A text: the words, each with the blanks behind it, of which the first is named apart.
pub data Text : Type 0 where
  end : Text
  word : Word → ℕ → Bytes → Text → Text

pub written : Text → Bytes
written end = []
written (word w b bs t) = spelled w ++ b ∷ (bs ++ written t)

pub words : Text → List Word
words end = []
words (word w b bs t) = w ∷ words t

abbrev pub IsText : Text → Type 0
IsText end = Unit
IsText (word w b bs t) = IsWord w × (is_blank b ≡ true) × All is_blank bs × IsText t

skip_blanks :
    (bs rest : Bytes) (p : Position)
    → All is_blank bs
    → (q : Position) × (skip false (bs ++ rest) p ≡ skip false rest q)
unfolding skip
skip_blanks [] rest p h = (p, refl)
skip_blanks (b ∷ bs) rest p (blank, blanks) =
    let (q, e) = skip_blanks bs rest (advance b p) blanks in (q, rw blank e)

-- The type and the lexeme of a token.
abbrev pub token_kind : Token → TokenType × Bytes
token_kind t = (t.type, t.lexeme)

-- One word in front of a text is one round of the loop.
tokenize_from_word :
    (fuel : ℕ) (lx : Lexer) (w : Word) (b : ℕ) (rest : Bytes) (p : Position)
    → skip false lx.rest lx.at ≡ record { rest = spelled w ++ b ∷ rest; at = p }
    → (s : Scans w b rest p)
    → tokenize_from (suc fuel) lx
      ≡ Option.map
          (◌∷◌ (make_token (kind w).0 (kind w).1 s.0 p))
          (tokenize_from fuel (record { rest = b ∷ rest; at = s.0 }))
tokenize_from_word fuel lx w b rest p e s =
    let (c, cs, first) = spelled_cons w (b ∷ rest) in
    tokenize_from_token fuel lx c cs (ap (λ x. x.rest) e ∙ first) ∙ rw (← first) (rw (e, s.1))

tokenize_from-written :
    (fuel : ℕ) (bs : Bytes) (t : Text) (p : Position)
    → length (bs ++ written t) < fuel
    → All is_blank bs
    → IsText t
    → (ts : List Token) × (tokenize_from fuel (record { rest = bs ++ written t; at = p }) ≡ some ts)
      × (map token_kind ts ≡ map kind (words t) ++ (TokenType.end_of_file, []) ∷ [])
unfolding words written
tokenize_from-written zero bs t p h blanks k = absurd (omega arith)
tokenize_from-written (suc fuel) bs end p h blanks k =
    let (q, skipped) = skip_blanks bs [] p blanks in
    (
      make_token TokenType.end_of_file [] q q ∷ [],
      tokenize_from_end fuel (record { rest = bs ++ []; at = p }) (rw skipped (unfold skip in refl))
          ∙ rw skipped (unfold skip in refl),
      refl,
    )
tokenize_from-written (suc fuel) bs (word w b cs t) p h blanks (good, blank, blanks', k) =
    let tail = (b ∷ cs) ++ written t in
    let (q, skipped) = skip_blanks bs (spelled w ++ tail) p blanks in
    let scans = scan_token-spelled w b (cs ++ written t) q good blank in
    let (ts, made, kinds) =
      tokenize_from-written fuel (b ∷ cs) t scans.0
        (omega (
          arith,
          length-append {0} bs (spelled w ++ tail),
          length-append {0} (spelled w) tail,
          length-spelled w,
          h,
        ))
        (blank, blanks') k in
    (
      make_token (kind w).0 (kind w).1 scans.0 q ∷ ts,
      tokenize_from_word fuel (record { rest = bs ++ (spelled w ++ tail); at = p }) w b
            (cs ++ written t) q (skipped ∙ skip-spelled w b (cs ++ written t) q good blank) scans
          ∙ rw made,
      ap (◌∷◌ (kind w)) kinds,
    )

-- Words, each with blanks behind it, are read back from their spelling: the tokens have their
-- types and lexemes, in order, and one more stands for the end of the text. A quote in a text is
-- doubled in its spelling, and an identifier that is a keyword in any case gets the keyword's
-- type.
pub tokenize-written :
    (t : Text)
    → IsText t
    → (ts : List Token) × (tokenize (written t) ≡ some ts)
      × (map token_kind ts ≡ map kind (words t) ++ (TokenType.end_of_file, []) ∷ [])
unfolding tokenize
tokenize-written t h =
    tokenize_from-written (suc (length (written t))) [] t (new_lexer (written t)).at (omega arith)
      tt h
