-- ===== src/Frontend/Lexer/Spelling.antt =====
-- src/frontend/lexer.cpp: the scanner reads each word up to the blank behind it.
use prqlite.Base.{
  ℕ, ◌==◌, Bool, true, false, ◌&&◌, ◌||◌, [], ◌∷◌, ◌++◌, append_assoc, if◌then◌else◌, Bytes, find,
  nat_eq, ◌≡◌, ◌≢◌, refl, ap, arith, Bool-cases, Option-cases, inl, inr, ◌∙◌,
}
use prqlite.Frontend.Token.{TokenType}
use prqlite.Frontend.Lexer.{
  Position, advance, skip, scan_while, is_blank, is_digit, is_identifier_start, is_identifier_part,
  scan_identifier_or_keyword, scan_fraction, scan_number, string_body, scan_string, scan_symbol,
  symbol_type, single_table, scan_token, peek, make_token,
}
use prqlite.Frontend.Keywords.{keyword_table}
use prqlite.Frontend.Lexer.Kinds.{
  word_type-name_kind, symbol_type-single, symbol_type-pair, pair-IsSymbolStart,
}
use prqlite.Frontend.Lexer.Words.{
  All, Word, name, whole, fraction, text, single, double, escape, spelled, kind, name_kind,
  symbol_kind, IsSymbolStart, IsWord,
}

-- The position behind a text.
abbrev behind : Bytes → Position → Position
behind [] p = p
behind (c ∷ cs) p = behind cs (advance c p)

scan_while-All :
    (class : ℕ → Bool) (cs : Bytes) (b : ℕ) (rest : Bytes) (p : Position)
    → All class cs
    → class b ≡ false
    → scan_while class (cs ++ b ∷ rest) p ≡ (cs, record { rest = b ∷ rest; at = behind cs p })
unfolding scan_while
scan_while-All class [] b rest p a h = rw h
scan_while-All class (c ∷ cs) b rest p (a, as_all) h =
    rw (a, scan_while-All class cs b rest (advance c p) as_all h)

-- What a blank is not.
blank_class :
    (b : ℕ)
    → is_blank b ≡ true
    → (is_identifier_part b ≡ false)
      × (is_digit b ≡ false)
      × (b ≢ b'\'')
      × (b ≢ b'.')
      × (b ≢ b'=')
      × (b ≢ b'>')
      × (b ≢ b'-')
unfolding is_blank is_identifier_part
blank_class b h = ground arith

-- A word that is scanned up to the blank behind it.
abbrev pub Scans : Word → ℕ → Bytes → Position → Type 0
Scans w b rest p =
    (now : Position) × (scan_token (record { rest = spelled w ++ b ∷ rest; at = p })
      ≡ (make_token (kind w).0 (kind w).1 now p, record { rest = b ∷ rest; at = now }))

string_body_plain :
    (c : ℕ) (cs : Bytes) (p : Position)
    → c ≢ b'\''
    → string_body (c ∷ cs) p
      ≡ (let (more, closed, after) = string_body cs (advance c p) in (c ∷ more, closed, after))
unfolding string_body
string_body_plain c [] p h = ground arith
string_body_plain c (d ∷ cs) p h = ground arith

string_body_quoted :
    (cs : Bytes) (p : Position)
    → string_body (b'\'' ∷ (b'\'' ∷ cs)) p ≡ (
        let (more, closed, after) = string_body cs (advance b'\'' (advance b'\'' p)) in
        (b'\'' ∷ more, closed, after))
unfolding string_body
string_body_quoted cs p = refl

string_body_end :
    (b : ℕ) (rest : Bytes) (p : Position)
    → b ≢ b'\''
    → string_body (b'\'' ∷ (b ∷ rest)) p
      ≡ ([], true, record { rest = b ∷ rest; at = advance b'\'' p })
unfolding string_body
string_body_end b rest p h = ground arith

-- The position behind a text and its closing quote.
behind_text : Bytes → Position → Position
behind_text [] p = advance b'\'' p
behind_text (c ∷ cs) p =
    let q = if c == b'\'' then advance b'\'' (advance b'\'' p) else advance c p in behind_text cs q

string_body-escape :
    (s : Bytes) (b : ℕ) (rest : Bytes) (p : Position)
    → b ≢ b'\''
    → string_body (escape s ++ (b'\'' ∷ (b ∷ rest))) p
      ≡ (s, true, record { rest = b ∷ rest; at = behind_text s p })
unfolding escape behind_text
string_body-escape [] b rest p h = string_body_end b rest p h
string_body-escape (c ∷ s) b rest p h = elim (Bool-cases (c == b'\'')) [
  | inl quote ↦
      let e : c ≡ b'\'' = ground (arith, quote) in
      rw (
        quote,
        string_body_quoted (escape s ++ (b'\'' ∷ (b ∷ rest))) p,
        string_body-escape s b rest (advance b'\'' (advance b'\'' p)) h,
        e,
      )
  | inr other ↦ rw (
    other,
    string_body_plain c (escape s ++ (b'\'' ∷ (b ∷ rest))) p (ground (arith, other)),
    string_body-escape s b rest (advance c p) h,
  )
]

scan_name :
    (c : ℕ) (cs : Bytes) (b : ℕ) (rest : Bytes) (p : Position)
    → IsWord (name c cs)
    → is_blank b ≡ true
    → scan_identifier_or_keyword (record { rest = c ∷ (cs ++ b ∷ rest); at = p }) ≡ (
      make_token (name_kind (c ∷ cs) keyword_table) (c ∷ cs) (behind (c ∷ cs) p) p,
      record { rest = b ∷ rest; at = behind (c ∷ cs) p },
    )
unfolding scan_identifier_or_keyword IsWord
scan_name c cs b rest p (start, part) blank =
    let first : is_identifier_part c ≡ true = unfold is_identifier_part in rw start in
    rw (
      scan_while-All is_identifier_part (c ∷ cs) b rest p (first, part) (blank_class b blank).0,
      word_type-name_kind (c ∷ cs),
    )

scan_whole :
    (c : ℕ) (cs : Bytes) (b : ℕ) (rest : Bytes) (p : Position)
    → IsWord (whole c cs)
    → is_blank b ≡ true
    → scan_number (record { rest = c ∷ (cs ++ b ∷ rest); at = p }) ≡ (
      make_token TokenType.integer_literal (c ∷ cs) (behind (c ∷ cs) p) p,
      record { rest = b ∷ rest; at = behind (c ∷ cs) p },
    )
unfolding scan_number IsWord
scan_whole c cs b rest p digits blank =
    let stops = blank_class b blank in
    rw (scan_while-All is_digit (c ∷ cs) b rest p digits stops.1) (ground (arith, stops.3))

scan_fraction_lem :
    (c : ℕ) (cs : Bytes) (d : ℕ) (ds : Bytes) (b : ℕ) (rest : Bytes) (p : Position)
    → IsWord (fraction c cs d ds)
    → is_blank b ≡ true
    → let now = behind (d ∷ ds) (advance b'.' (behind (c ∷ cs) p)) in
      scan_number (record { rest = c ∷ (cs ++ (b'.' ∷ ((d ∷ ds) ++ b ∷ rest))); at = p }) ≡ (
        make_token TokenType.float_literal (c ∷ (cs ++ (b'.' ∷ (d ∷ ds)))) now p,
        record { rest = b ∷ rest; at = now },
      )
unfolding scan_number scan_fraction IsWord
scan_fraction_lem c cs d ds b rest p (first, digits, second, decimals) blank =
    let stops = blank_class b blank in
    let dot : is_digit b'.' ≡ false = unfold is_digit in refl in
    rw (scan_while-All is_digit (c ∷ cs) b'.' ((d ∷ ds) ++ b ∷ rest) p (first, digits) dot, second)
      (rw (
        scan_while-All is_digit (d ∷ ds) b rest (advance b'.' (behind (c ∷ cs) p))
          (second, decimals) stops.1))

symbol_type-plain :
    (c b : ℕ) → is_blank b ≡ true → symbol_type c b ≡ ((symbol_type c b' ').0, false)
unfolding symbol_type
symbol_type-plain c b blank =
    let stops = blank_class b blank in
    elim (Option-cases (find c single_table)) [
      | inl other ↦ rw (symbol_type, other) (ground (arith, stops.4, stops.5))
      | inr (type, found) ↦ rw (symbol_type, found)
    ]

symbol_type-blank : (c b : ℕ) → is_blank b ≡ true → symbol_type c b ≡ (symbol_kind (c ∷ []), false)
symbol_type-blank c b blank =
    symbol_type-plain c b blank ∙ ap (λ type. (type, false)) (symbol_type-single c)

-- What is no word character, digit or quote is scanned as a symbol.
scan_token-symbol :
    (c : ℕ) (cs : Bytes) (p : Position)
    → IsSymbolStart c
    → scan_token (record { rest = c ∷ cs; at = p }) ≡ scan_symbol c cs p
unfolding scan_token
scan_token-symbol c cs p (start, digit, blank, quote) = rw (start, digit) (ground (arith, quote))

scan_token-name :
    (c : ℕ) (cs : Bytes) (p : Position)
    → is_identifier_start c ≡ true
    → scan_token (record { rest = c ∷ cs; at = p })
      ≡ scan_identifier_or_keyword (record { rest = c ∷ cs; at = p })
unfolding scan_token
scan_token-name c cs p h = rw h

digit_class : (c : ℕ) → is_digit c ≡ true → is_identifier_start c ≡ false
unfolding is_digit is_identifier_start
digit_class c h = ground arith

scan_token-number :
    (c : ℕ) (cs : Bytes) (p : Position)
    → is_digit c ≡ true
    → scan_token (record { rest = c ∷ cs; at = p }) ≡ scan_number (record { rest = c ∷ cs; at = p })
unfolding scan_token
scan_token-number c cs p h = rw (digit_class c h, h)

scan_token-text :
    (s : Bytes) (b : ℕ) (rest : Bytes) (p : Position)
    → b ≢ b'\''
    → scan_token (record { rest = b'\'' ∷ (escape s ++ (b'\'' ∷ (b ∷ rest))); at = p }) ≡ (
      make_token TokenType.string_literal s (behind_text s (advance b'\'' p)) p,
      record { rest = b ∷ rest; at = behind_text s (advance b'\'' p) },
    )
unfolding scan_token scan_string is_identifier_start is_digit
scan_token-text s b rest p h = rw (string_body-escape s b rest (advance b'\'' p) h)

-- Every word is scanned as the token of its kind.
pub scan_token-spelled :
    (w : Word) (b : ℕ) (rest : Bytes) (p : Position)
    → IsWord w
    → is_blank b ≡ true
    → Scans w b rest p
unfolding spelled kind
scan_token-spelled (name c cs) b rest p h blank = (
  behind (c ∷ cs) p,
  scan_token-name c (cs ++ b ∷ rest) p (unfold IsWord in h.0) ∙ scan_name c cs b rest p h blank,
)
scan_token-spelled (whole c cs) b rest p h blank = (
  behind (c ∷ cs) p,
  scan_token-number c (cs ++ b ∷ rest) p (unfold IsWord in h.0) ∙ scan_whole c cs b rest p h blank,
)
scan_token-spelled (fraction c cs d ds) b rest p h blank = (
  behind (d ∷ ds) (advance b'.' (behind (c ∷ cs) p)),
  rw (append_assoc cs (b'.' ∷ (d ∷ ds)) (b ∷ rest)) (
      scan_token-number c (cs ++ (b'.' ∷ ((d ∷ ds) ++ b ∷ rest))) p (unfold IsWord in h.0)
      ∙ scan_fraction_lem c cs d ds b rest p h blank),
)
scan_token-spelled (text s) b rest p h blank = (
  behind_text s (advance b'\'' p),
  rw (append_assoc (escape s) (b'\'' ∷ []) (b ∷ rest))
      (scan_token-text s b rest p (blank_class b blank).2),
)
scan_token-spelled (single c) b rest p h blank = (
  advance c p,
  scan_token-symbol c (b ∷ rest) p (unfold IsWord in h)
      ∙ (unfold scan_symbol in rw (symbol_type-blank c b blank)),
)
scan_token-spelled (double c d) b rest p h blank = (
  advance d (advance c p),
  scan_token-symbol c (d ∷ (b ∷ rest)) p (pair-IsSymbolStart c d (unfold IsWord in h)).0
      ∙ (unfold IsWord scan_symbol in rw (symbol_type-pair c d h)),
)

-- The loop stops at what is neither blank nor the start of a comment.
skip_stays :
    (c : ℕ) (cs : Bytes) (p : Position)
    → is_blank c ≡ false
    → (c == b'-' && peek cs == b'-') ≡ false
    → skip false (c ∷ cs) p ≡ record { rest = c ∷ cs; at = p }
unfolding skip
skip_stays c cs p h k = rw (h, k)

word_class :
    (c : ℕ)
    → (is_identifier_start c || is_digit c) ≡ true
    → (is_blank c ≡ false) × ((c == b'-') ≡ false)
unfolding is_identifier_start is_digit is_blank
word_class c h = ground arith

-- A word is not skipped.
pub skip-spelled :
    (w : Word) (b : ℕ) (rest : Bytes) (p : Position)
    → IsWord w
    → is_blank b ≡ true
    → skip false (spelled w ++ b ∷ rest) p ≡ record { rest = spelled w ++ b ∷ rest; at = p }
unfolding spelled IsWord
skip-spelled (name c cs) b rest p h blank =
    let class = word_class c (rw h.0) in skip_stays c _ p class.0 (rw class.1)
skip-spelled (whole c cs) b rest p h blank =
    let class = word_class c (ground (arith, h.0)) in skip_stays c _ p class.0 (rw class.1)
skip-spelled (fraction c cs d ds) b rest p h blank =
    let class = word_class c (ground (arith, h.0)) in skip_stays c _ p class.0 (rw class.1)
skip-spelled (text s) b rest p h blank = skip_stays b'\'' _ p (unfold is_blank in refl) refl
skip-spelled (single c) b rest p h blank =
    skip_stays c (b ∷ rest) p h.2 (ground (arith, (blank_class b blank).6))
skip-spelled (double c d) b rest p h blank =
    let ((letter, digit, space, quote), dash) = pair-IsSymbolStart c d h in
    skip_stays c (d ∷ (b ∷ rest)) p space (ground (arith, dash))
