-- ===== src/Base/Int.antt =====
-- The signed integers of the source. `negsuc n` is -(n + 1).
use Prim.Native.Nat.{ℕ, zero, suc, ◌+◌, ◌-◌, ◌*◌, ◌/◌, ◌%◌, ◌<◌}
use mathlib.Core.Path.{◌≡◌}
use mathlib.Core.Logic.{◌↔◌}
use mathlib.Core.Bool.{Bool, true, false, not}
use native.Mathlib.Nat.{mod-eq_of_lt}
use native.Mathlib.Omega.{arith}
use prqlite.Base.Tests.{Eq, ◌==◌, ltb, if◌then◌else◌, leb}

pub data ℤ : Type 0 where
  pos : ℕ → ℤ
  negsuc : ℕ → ℤ

unfoldable pub int_beq : ℤ → ℤ → Bool
int_beq (pos a) (pos b) = a == b
int_beq (negsuc a) (negsuc b) = a == b
int_beq _ _ = false

pub int_beq_iff : (a b : ℤ) → (int_beq a b ≡ true) ↔ (a ≡ b)
unfolding int_beq
int_beq_iff (pos a) (pos b) = ground arith
int_beq_iff (pos a) (negsuc b) = ground arith
int_beq_iff (negsuc a) (pos b) = ground arith
int_beq_iff (negsuc a) (negsuc b) = ground arith

instance abbrev pub int_eq : Eq ℤ
int_eq = record { beq = int_beq; beq_iff = int_beq_iff }

-- The values of a signed type whose unsigned type has `2 * h` values.
abbrev pub InRange : ℕ → ℤ → Type 0
InRange h (pos n) = n < h
InRange h (negsuc n) = n < h

-- The cast to the unsigned type, and back.
abbrev pub to_unsigned : ℕ → ℤ → ℕ
to_unsigned h (pos n) = n % (2 * h)
to_unsigned h (negsuc n) = 2 * h - 1 - n % (2 * h)

abbrev pub of_unsigned : ℕ → ℕ → ℤ
of_unsigned h u = if ltb u h then pos u else negsuc (2 * h - 1 - u)

pub of_unsigned-to_unsigned : (h : ℕ) (a : ℤ) → InRange h a → of_unsigned h (to_unsigned h a) ≡ a
of_unsigned-to_unsigned h (pos n) r =
    let e : n % (2 * h) ≡ n = mod-eq_of_lt (omega arith) in ground (arith, e)
of_unsigned-to_unsigned h (negsuc n) r =
    let e : n % (2 * h) ≡ n = mod-eq_of_lt (omega arith) in ground (arith, e)

pub to_unsigned-lt : (h : ℕ) (a : ℤ) → 0 < h → to_unsigned h a < 2 * h
to_unsigned-lt h (pos n) r = grind arith
to_unsigned-lt h (negsuc n) r = grind arith

-- The sum, the difference and the product, by the two parts of each number.
abbrev pub pos_part : ℤ → ℕ
pos_part (pos n) = n
pos_part (negsuc n) = 0

abbrev pub neg_part : ℤ → ℕ
neg_part (pos n) = 0
neg_part (negsuc n) = suc n

abbrev pub sub_ℕ : ℕ → ℕ → ℤ
sub_ℕ a b = if leb b a then pos (a - b) else negsuc (b - a - 1)

infixl 65 ◌+ℤ◌ ◌-ℤ◌
infixl 70 ◌*ℤ◌
unfoldable pub ◌+ℤ◌ : ℤ → ℤ → ℤ
a +ℤ b = sub_ℕ (pos_part a + pos_part b) (neg_part a + neg_part b)

unfoldable pub ◌-ℤ◌ : ℤ → ℤ → ℤ
a -ℤ b = sub_ℕ (pos_part a + neg_part b) (neg_part a + pos_part b)

unfoldable pub ◌*ℤ◌ : ℤ → ℤ → ℤ
a *ℤ b =
    sub_ℕ (pos_part a * pos_part b + neg_part a * neg_part b)
      (pos_part a * neg_part b + neg_part a * pos_part b)

abbrev pub is_neg : ℤ → Bool
is_neg (pos n) = false
is_neg (negsuc n) = true

abbrev pub magnitude : ℤ → ℕ
magnitude (pos n) = n
magnitude (negsuc n) = suc n

abbrev pub signed : Bool → ℕ → ℤ
signed false n = pos n
signed true zero = pos 0
signed true (suc n) = negsuc n

-- Division towards zero and its remainder, for a divisor that is not zero.
unfoldable pub quot : ℤ → ℤ → ℤ
quot a b = signed (if is_neg a then not (is_neg b) else is_neg b) (magnitude a / magnitude b)

unfoldable pub rem : ℤ → ℤ → ℤ
rem a b = signed (is_neg a) (magnitude a % magnitude b)

-- What is left of a number in a signed type.
abbrev pub wrap : ℕ → ℤ → ℤ
wrap h a = of_unsigned h (to_unsigned h a)

pub wrap-InRange : (h : ℕ) (a : ℤ) → InRange h a → wrap h a ≡ a
wrap-InRange h a r = of_unsigned-to_unsigned h a r

pub +ℤ-zero : (a : ℤ) → a +ℤ pos 0 ≡ a
unfolding ◌+ℤ◌
+ℤ-zero (pos n) = ground arith
+ℤ-zero (negsuc n) = ground arith

pub zero-+ℤ : (a : ℤ) → pos 0 +ℤ a ≡ a
unfolding ◌+ℤ◌
zero-+ℤ (pos n) = ground arith
zero-+ℤ (negsuc n) = ground arith

pub -ℤ-zero : (a : ℤ) → a -ℤ pos 0 ≡ a
unfolding ◌-ℤ◌
-ℤ-zero (pos n) = ground arith
-ℤ-zero (negsuc n) = ground arith

pub *ℤ-one : (a : ℤ) → a *ℤ pos 1 ≡ a
unfolding ◌*ℤ◌
*ℤ-one (pos n) = ground arith
*ℤ-one (negsuc n) = ground arith

pub one-*ℤ : (a : ℤ) → pos 1 *ℤ a ≡ a
unfolding ◌*ℤ◌
one-*ℤ (pos n) = ground arith
one-*ℤ (negsuc n) = ground arith

pub quot-one : (a : ℤ) → quot a (pos 1) ≡ a
unfolding quot
quot-one (pos n) = ground arith
quot-one (negsuc n) = let e : suc n / 1 ≡ suc n = omega arith in rw e
