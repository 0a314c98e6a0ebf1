-- ===== src/Base/Bits.antt =====
-- Single bits of a word, and bit strings as the bytes of an array, least significant bit first.
use Prim.Native.Nat.{ℕ, zero, suc, ◌+◌, ◌*◌, ◌/◌, ◌%◌, ◌<◌}
use mathlib.Core.Path.{◌≡◌, refl, ap}
use mathlib.Core.Bool.{Bool, false, ◌||◌}
use mathlib.Core.List.{List, [], ◌∷◌, ◌++◌}
use mathlib.Core.Option.{none, some}
use mathlib.Core.Logic.{inl, inr}
use native.Mathlib.Omega.{arith}
use prqlite.Base.Tests.{◌==◌, Bool-cases}
use prqlite.Base.Lists.{length, get_elem?, modify, get_elem?-modify, get_elem?_of_lt}
use prqlite.Base.Words.{Bytes}

-- `(b >> k) & 1`.
unfoldable pub test_bit : ℕ → ℕ → Bool
test_bit zero b = (b % 2) == 1
test_bit (suc k) b = test_bit k (b / 2)

-- `b | (1 << k)`.
unfoldable pub set_bit : ℕ → ℕ → ℕ
set_bit zero b = 1 + 2 * (b / 2)
set_bit (suc k) b = (b % 2) + 2 * set_bit k (b / 2)

pub test_bit-set_bit : (j k b : ℕ) → test_bit j (set_bit k b) ≡ (k == j || test_bit j b)
unfolding test_bit set_bit
test_bit-set_bit zero zero b = ground arith
test_bit-set_bit zero (suc k) b = ground arith
test_bit-set_bit (suc j) zero b =
    let e : (1 + 2 * (b / 2)) / 2 ≡ b / 2 = omega arith in ground (arith, ap (test_bit j) e)
test_bit-set_bit (suc j) (suc k) b =
    let c = set_bit k (b / 2) in
    let e : (b % 2 + 2 * c) / 2 ≡ c = omega arith in
    ground (arith, ap (test_bit j) e, test_bit-set_bit j k (b / 2))

-- `(bytes[i / 8] >> (i % 8)) & 1`.
unfoldable pub bit_at : Bytes → ℕ → Bool
unfolding test_bit
bit_at bytes i = elim (get_elem? bytes (i / 8)) [ none ↦ false | some b ↦ test_bit (i % 8) b ]

-- `bytes[i / 8] |= 1 << (i % 8)`.
unfoldable pub set_bit_at : Bytes → ℕ → Bytes
unfolding set_bit
set_bit_at bytes i = modify bytes (i / 8) (set_bit (i % 8))

pub bit_at-set_bit_at :
    (bytes : Bytes) (i j : ℕ)
    → i / 8 < length bytes
    → bit_at (set_bit_at bytes i) j ≡ (i == j || bit_at bytes j)
unfolding bit_at set_bit_at
bit_at-set_bit_at bytes i j h = elim (Bool-cases (i / 8 == j / 8)) [
  | inl same ↦
      let (b, found) = get_elem?_of_lt bytes (j / 8) (ground arith) in
      ground (
        arith,
        get_elem?-modify bytes (i / 8) (j / 8) (set_bit (i % 8)),
        same,
        found,
        test_bit-set_bit (j % 8) (i % 8) b,
      )
  | inr ne ↦ ground (arith, get_elem?-modify bytes (i / 8) (j / 8) (set_bit (i % 8)), ne)
]

pub get_elem?-append {ℓ} :
    {A : Type ℓ} (xs ys : List A) (i : ℕ) → i < length xs → get_elem? (xs ++ ys) i ≡ get_elem? xs i
unfolding get_elem?
get_elem?-append [] ys i h = absurd (omega arith)
get_elem?-append (x ∷ xs) ys zero h = refl
get_elem?-append (x ∷ xs) ys (suc i) h = get_elem?-append xs ys i (omega arith)

pub bit_at-append : (xs ys : Bytes) (i : ℕ) → i / 8 < length xs → bit_at (xs ++ ys) i ≡ bit_at xs i
unfolding bit_at
bit_at-append xs ys i h = rw (bit_at, get_elem?-append xs ys (i / 8) h)
