-- ===== src/Base/Words.antt =====
-- Strings of bytes, and little-endian numbers as `memcpy` lays them out.
use Prim.Native.Nat.{ℕ, zero, suc, ◌+◌, ◌*◌, ◌/◌, ◌%◌, ◌^◌, ◌<◌}
use mathlib.Core.Path.{◌≡◌, refl, ap}
use mathlib.Core.List.{List, [], ◌∷◌, ◌++◌}
use native.Mathlib.Nat.{pow-suc}
use native.Mathlib.Omega.{arith}
use prqlite.Base.Lists.{length, take, drop, take-append, drop-append, length-append}
use mathlib.Core.Bool.{Bool, true, false, ◌&&◌}
use mathlib.Core.Logic.{◌↔◌}
use prqlite.Base.Tests.{Eq, ◌==◌, leb, if◌then◌else◌}
use mathlib.Core.Option.{Option, none, some}

abbrev pub Bytes : Type 0
Bytes = List ℕ

unfoldable pub le_bytes : ℕ → ℕ → Bytes
le_bytes zero v = []
le_bytes (suc n) v = (v % 256) ∷ le_bytes n (v / 256)

unfoldable pub of_le : Bytes → ℕ
of_le [] = 0
of_le (b ∷ bs) = b + 256 * of_le bs

pub length-le_bytes : (n v : ℕ) → length (le_bytes n v) ≡ n
unfolding le_bytes
length-le_bytes zero v = refl
length-le_bytes (suc n) v = ap suc (length-le_bytes n (v / 256))

pub of_le-le_bytes : (n v : ℕ) → v < 256 ^ n → of_le (le_bytes n v) ≡ v
unfolding le_bytes of_le
of_le-le_bytes zero v h = omega arith
of_le-le_bytes (suc n) v h =
    omega (arith, of_le-le_bytes n (v / 256) (omega (arith, pow-suc 256 n)))

-- The first `n` bytes and the others, where there are as many.
unfoldable pub split : ℕ → Bytes → Option (Bytes × Bytes)
split n bs = if leb n (length bs) then some (take n bs, drop n bs) else none

pub split-append : (n : ℕ) (xs ys : Bytes) → length xs ≡ n → split n (xs ++ ys) ≡ some (xs, ys)
unfolding split
split-append n xs ys h =
    ground (arith, take-append n xs ys h, drop-append n xs ys h, length-append {0} xs ys)

pub split_short : (n : ℕ) (xs : Bytes) → length xs < n → split n xs ≡ none
unfolding split
split_short n xs h = ground arith

-- `==` of two strings.
unfoldable pub bytes_beq : Bytes → Bytes → Bool
bytes_beq [] [] = true
bytes_beq (a ∷ rest) (b ∷ bs) = a == b && bytes_beq rest bs
bytes_beq _ _ = false

pub bytes_beq_iff : (a b : Bytes) → (bytes_beq a b ≡ true) ↔ (a ≡ b)
unfolding bytes_beq
bytes_beq_iff [] [] = ground arith
bytes_beq_iff [] (b ∷ bs) = ground arith
bytes_beq_iff (a ∷ rest) [] = ground arith
bytes_beq_iff (a ∷ rest) (b ∷ bs) = ground (arith, bytes_beq_iff rest bs)

instance abbrev pub bytes_eq : Eq Bytes
bytes_eq = record { beq = bytes_beq; beq_iff = bytes_beq_iff }
