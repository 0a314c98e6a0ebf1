-- ===== src/Index/Bloom.antt =====
-- src/index/bloom_filter.cpp: a set of keys in a bit array, by several hashes of each key.
pub mod Members
use prqlite.Base.{
  ℕ, zero, suc, ◌+◌, ◌*◌, ◌/◌, ◌%◌, ◌^◌, ◌==◌, ltb, ℤ, to_unsigned, Bool, true, false, ◌&&◌, List,
  [], ◌∷◌, Option, none, some, if◌then◌else◌, Bytes, length, replicate, modify, get_elem?, le_bytes,
  test_bit, set_bit,
}

-- `a ^ b` on words of `n` bits.
pub xor : ℕ → ℕ → ℕ → ℕ
xor zero a b = 0
xor (suc n) a b = (a + b) % 2 + 2 * xor n (a / 2) (b / 2)

pub fnv1a : Bytes → ℕ → ℕ
unfolding xor
fnv1a [] h = h
fnv1a (b ∷ bs) h = fnv1a bs ((xor 64 h b * 1099511628211) % 2 ^ 64)

abbrev pub seed1 : ℕ
seed1 = 1469598103934665603

abbrev pub seed2 : ℕ
seed2 = 1099511628211

pub record BloomFilter : Type 0 where
  pub num_bits : ℕ
  pub num_hashes : ℕ
  pub words : List ℕ

unfoldable pub new_filter : ℕ → ℕ → BloomFilter
new_filter expected_items asked =
    let num_hashes = if asked == 0 then 1 else asked in
    let wanted = ((if expected_items == 0 then 1 else expected_items) * num_hashes * 2) % 2 ^ 64 in
    let bits = if ltb wanted 64 then 64 else wanted in
    let word_count = ((bits + 63) % 2 ^ 64) / 64 in
    record { num_bits = word_count * 64; num_hashes = num_hashes; words = replicate word_count 0 }

-- The word, and the bit of the word that the mask selects.
unfoldable pub locate : BloomFilter → Bytes → ℕ → ℕ × ℕ
unfolding fnv1a
locate f key i =
    let h1 = fnv1a key seed1 in
    let h2 = set_bit 0 (fnv1a key seed2) in
    let bit = ((h1 + i * h2) % 2 ^ 64) % f.num_bits in (bit / 64, bit % 64)

-- `words_[word].fetch_or(mask)`.
pub mark : List ℕ → ℕ × ℕ → List ℕ
mark words (word, bit) = modify words word (set_bit bit)

-- `(words_[word].load() & mask) != 0`.
pub is_marked : List ℕ → ℕ × ℕ → Bool
is_marked words (word, bit) = elim (get_elem? words word) [ none ↦ false | some w ↦ test_bit bit w ]

-- The loop of `add`, with `n` hashes to go from the hash `i` on.
pub add_from : BloomFilter → Bytes → ℕ → ℕ → List ℕ → List ℕ
unfolding locate mark
add_from f key zero i words = words
add_from f key (suc n) i words = add_from f key n (i + 1) (mark words (locate f key i))

unfoldable pub add : BloomFilter → Bytes → BloomFilter
unfolding add_from
add f key = record f { words = add_from f key f.num_hashes 0 f.words }

-- The loop of `mightContain`.
pub might_from : BloomFilter → Bytes → ℕ → ℕ → Bool
unfolding locate is_marked
might_from f key zero i = true
might_from f key (suc n) i =
    let rest = might_from f key n (i + 1) in
    if is_marked f.words (locate f key i) then rest else false

unfoldable pub might_contain : BloomFilter → Bytes → Bool
unfolding might_from
might_contain f key = might_from f key f.num_hashes 0

-- The eight bytes of the integer.
unfoldable pub add_int : BloomFilter → ℤ → BloomFilter
unfolding add
add_int f value = add f (le_bytes 8 (to_unsigned (2 ^ 63) value))

unfoldable pub might_contain_int : BloomFilter → ℤ → Bool
unfolding might_contain
might_contain_int f value = might_contain f (le_bytes 8 (to_unsigned (2 ^ 63) value))
