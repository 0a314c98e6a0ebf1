-- ===== src/Vm/Eval/Calls/Casts.antt =====
-- src/vm/expression_eval.cpp and src/vm/value.cpp: integers cast to texts and back.
use mathlib.Core.List.{reverse-cons}
use prqlite.Base.{
  ℕ, zero, suc, ◌+◌, ◌-◌, ◌*◌, ◌/◌, ◌%◌, ◌^◌, ◌<◌, ◌≤◌, ◌==◌, ℤ, pos, negsuc, InRange, true, false,
  [], ◌∷◌, ◌++◌, reverse, Option, none, some, Bytes, length, ◌≡◌, ◌≢◌, refl, ap, arith, Bool-cases,
  inl, inr,
}
use prqlite.Vm.Values.{Doubles, Value, digits_from, print_nat, print_int, make_int, make_text, null}
use prqlite.Vm.Tuples.{int, text, long_half}
use prqlite.Vm.Eval.Calls.{is_space, drop_while, read_digits, read_sign, stoll, cast_value}
use prqlite.Frontend.Lexer.{is_digit}

abbrev AllDigits : Bytes → Type 0
AllDigits [] = Unit
AllDigits (c ∷ cs) = (is_digit c ≡ true) × AllDigits cs

-- The number that digits stand for, behind the number read so far.
abbrev value : ℕ → Bytes → ℕ
value acc [] = acc
value acc (c ∷ cs) = value (acc * 10 + (c - b'0')) cs

read_digits_lem : (acc : ℕ) (s : Bytes) → AllDigits s → read_digits acc s ≡ (value acc s, length s)
unfolding read_digits
read_digits_lem acc [] h = refl
read_digits_lem acc (c ∷ s) (h, hs) = rw (h, read_digits_lem (acc * 10 + (c - b'0')) s hs)

value-snoc : (acc : ℕ) (s : Bytes) (c : ℕ) → value acc (s ++ c ∷ []) ≡ value acc s * 10 + (c - b'0')
value-snoc acc [] c = refl
value-snoc acc (b ∷ s) c = value-snoc (acc * 10 + (b - b'0')) s c

AllDigits-snoc : (s : Bytes) (c : ℕ) → AllDigits s → is_digit c ≡ true → AllDigits (s ++ c ∷ [])
AllDigits-snoc [] c h k = (k, tt)
AllDigits-snoc (b ∷ s) c (h, hs) k = (h, AllDigits-snoc s c hs k)

digit_of : (n : ℕ) → is_digit (b'0' + n % 10) ≡ true
unfolding is_digit
digit_of n = ground arith

digits_lem :
    (fuel n : ℕ)
    → n ≤ fuel
    → AllDigits (reverse (digits_from fuel n)) × (value 0 (reverse (digits_from fuel n)) ≡ n)
unfolding digits_from
digits_lem zero n h = (tt, omega arith)
digits_lem (suc fuel) n h = elim (Bool-cases (n == 0)) [
  | inl none_left ↦ rw none_left (tt, ground (arith, none_left))
  | inr more ↦
      let (digits, number) = digits_lem fuel (n / 10) (ground (arith, more)) in
      let c = b'0' + n % 10 in
      rw (more, reverse-cons c (digits_from fuel (n / 10)))
        (
          AllDigits-snoc (reverse (digits_from fuel (n / 10))) c digits (digit_of n),
          omega (arith, value-snoc 0 (reverse (digits_from fuel (n / 10))) c, number),
        )
]

some_digit : (s : Bytes) → value 0 s ≢ 0 → 0 < length s
some_digit [] h = absurd (h refl)
some_digit (c ∷ s) h = omega arith

-- A number is printed with one digit or more.
print_nat_lem :
    (n : ℕ) → AllDigits (print_nat n) × (value 0 (print_nat n) ≡ n) × (0 < length (print_nat n))
unfolding print_nat
print_nat_lem n = elim (Bool-cases (n == 0)) [
  | inl nothing ↦ rw nothing ((unfold is_digit in (refl, tt)), ground (arith, nothing), omega arith)
  | inr more ↦
      let (digits, number) = digits_lem n n (omega arith) in
      rw more
        (digits, number, some_digit (reverse (digits_from n n)) (ground (arith, number, more)))
]

digit_front : (c : ℕ) → is_digit c ≡ true → (is_space c ≡ false) × (c ≢ b'-') × (c ≢ b'+')
unfolding is_digit is_space
digit_front c h = ground arith

front :
    (s : Bytes)
    → AllDigits s
    → 0 < length s
    → (drop_while is_space s ≡ s) × (read_sign s ≡ (false, s))
unfolding drop_while
front [] h k = absurd (omega arith)
front (c ∷ s) (h, hs) k =
    let (space, minus, plus) = digit_front c h in (rw space, ground (arith, minus, plus))

-- The digits of a number that fits, with or without a minus sign in front.
stoll_digits :
    (s : Bytes) (n : ℕ)
    → AllDigits s
    → 0 < length s
    → value 0 s ≡ n
    → n < 2 ^ 63
    → stoll s ≡ some (pos n)
unfolding stoll
stoll_digits s n h k e small =
    let (space, sign) = front s h k in rw (space, sign, read_digits_lem 0 s h) (ground (arith, e))

stoll_minus :
    (s : Bytes) (n : ℕ)
    → AllDigits s
    → 0 < length s
    → value 0 s ≡ suc n
    → n < 2 ^ 63
    → stoll (b'-' ∷ s) ≡ some (negsuc n)
unfolding stoll drop_while is_space
stoll_minus s n h k e small = rw (read_digits_lem 0 s h, e) (ground arith)

pub stoll-print_int : (a : ℤ) → InRange long_half a → stoll (print_int a) ≡ some a
unfolding print_int
stoll-print_int (pos n) h =
    let (digits, number, some_digits) = print_nat_lem n in
    stoll_digits (print_nat n) n digits some_digits number h
stoll-print_int (negsuc n) h =
    let (digits, number, some_digits) = print_nat_lem (suc n) in
    stoll_minus (print_nat (suc n)) n digits some_digits number h

abbrev cast_parsed : (d : Doubles) → Option ℤ → Value d
cast_parsed d o = elim o [ none ↦ null d | some n ↦ make_int d n ]

cast_int_text :
    (d : Doubles) (s : Bytes) (n : ℤ)
    → stoll s ≡ some n
    → cast_value d (make_text d s) int ≡ make_int d n
unfolding cast_value
cast_int_text d s n h = ap (λ (o : Option ℤ). cast_parsed d o) h

-- CAST of an integer to a text and back to an integer gives it again.
pub cast-cast :
    (d : Doubles) (n : ℤ)
    → InRange long_half n
    → cast_value d (cast_value d (make_int d n) text) int ≡ make_int d n
unfolding cast_value
cast-cast d n h = cast_int_text d (print_int n) n (stoll-print_int n h)
