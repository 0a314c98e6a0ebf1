-- ===== src/Index/Bloom/Members.antt =====
-- src/index/bloom_filter.cpp: a key that was added is always found.
use prqlite.Base.{
  ℕ, zero, suc, ◌+◌, ◌*◌, ◌/◌, ◌%◌, ◌^◌, ◌<◌, ◌≤◌, ltb, ◌==◌, true, List, [], ◌∷◌, if◌then◌else◌,
  Bytes, length, replicate, length-replicate, length-modify, get_elem?, get_elem?-modify,
  get_elem?_of_lt, Option-cases, set_bit, test_bit-set_bit, ◌≡◌, ap, sym, subst, inl, inr, refl,
  arith, ◌∙◌, ◌⊎◌,
}
use native.Mathlib.Nat.{le_trans, mul-le-mul_left, mul-le-mul_right}
use prqlite.Index.Bloom.{
  BloomFilter, new_filter, locate, mark, is_marked, add_from, add, might_from, might_contain,
}

pub record IsValid (f : BloomFilter) : Type 0 where
  pub some_bits : 0 < f.num_bits
  pub size : length f.words * 64 ≡ f.num_bits

-- What is marked in `a` is marked in `b`.
abbrev Within : List ℕ → List ℕ → Type 0
Within a b = (p : ℕ × ℕ) → is_marked a p ≡ true → is_marked b p ≡ true

is_marked-mark :
    (words : List ℕ) (word bit : ℕ)
    → word < length words
    → is_marked (mark words (word, bit)) (word, bit) ≡ true
unfolding is_marked mark
is_marked-mark words word bit h =
    let (w, found) = get_elem?_of_lt words word h in
    ground
      (arith, get_elem?-modify words word word (set_bit bit), found, test_bit-set_bit bit bit w)

Within-mark : (words : List ℕ) (p : ℕ × ℕ) → Within words (mark words p)
unfolding is_marked mark
Within-mark words (word, bit) (word', bit') h = elim (Option-cases (get_elem? words word')) [
  | inl gone ↦ absurd (ground (arith, gone))
  | inr (w, found) ↦
      ground
        (arith, get_elem?-modify words word word' (set_bit bit), found, test_bit-set_bit bit' bit w)
]

length-mark : (words : List ℕ) (p : ℕ × ℕ) → length (mark words p) ≡ length words
unfolding mark
length-mark words (word, bit) = length-modify words word (set_bit bit)

Within-add_from :
    (f : BloomFilter) (key : Bytes) (n i : ℕ) (words : List ℕ)
    → Within words (add_from f key n i words)
unfolding add_from
Within-add_from f key zero i words p h = h
Within-add_from f key (suc n) i words p h =
    Within-add_from f key n (i + 1) (mark words (locate f key i)) p
      (Within-mark words (locate f key i) p h)

length-add_from :
    (f : BloomFilter) (key : Bytes) (n i : ℕ) (words : List ℕ)
    → length (add_from f key n i words) ≡ length words
unfolding add_from
length-add_from f key zero i words = refl
length-add_from f key (suc n) i words =
    length-add_from f key n (i + 1) (mark words (locate f key i))
    ∙ length-mark words (locate f key i)

add-IsValid : (f : BloomFilter) (key : Bytes) → IsValid f → IsValid (add f key)
unfolding add
add-IsValid f key v = record {
  some_bits = v.some_bits;
  size = ap (λ n. n * 64) (length-add_from f key f.num_hashes 0 f.words) ∙ v.size;
}

-- The bits of a key do not depend on the words.
might_from-Within :
    (f : BloomFilter) (key : Bytes) (n i : ℕ) (words : List ℕ)
    → Within f.words words
    → might_from f key n i ≡ true
    → might_from (record f { words = words }) key n i ≡ true
unfolding might_from locate
might_from-Within f key zero i words w h = refl
might_from-Within f key (suc n) i words w h =
    ground (arith, w (locate f key i), might_from-Within f key n (i + 1) words w)

locate-lt :
    (f : BloomFilter) (key : Bytes) (i : ℕ) → IsValid f → (locate f key i).0 < length f.words
unfolding locate
locate-lt f key i v = grind (arith, v.some_bits, v.size)

might_from-add_from :
    (f : BloomFilter) (key : Bytes) (n i : ℕ) (words : List ℕ)
    → IsValid f
    → length words ≡ length f.words
    → might_from (record f { words = add_from f key n i words }) key n i ≡ true
unfolding might_from add_from locate
might_from-add_from f key zero i words v e = refl
might_from-add_from f key (suc n) i words v e =
    let p = locate f key i in
    let here =
      Within-add_from f key n (i + 1) (mark words p) p
        (is_marked-mark words p.0 p.1 (omega (arith, locate-lt f key i v, e))) in
    ground
      (arith, here, might_from-add_from f key n (i + 1) (mark words p) v (length-mark words p ∙ e))

abbrev pub add_all : BloomFilter → List Bytes → BloomFilter
add_all f [] = f
add_all f (key ∷ keys) = add_all (add f key) keys

abbrev pub IsAmong : Bytes → List Bytes → Type 0
IsAmong key [] = ⊥
IsAmong key (k ∷ keys) = (key ≡ k) ⊎ IsAmong key keys

made-IsValid :
    (n wanted : ℕ)
    → wanted + 64 ≤ 2 ^ 64
    → let count = (((if ltb wanted 64 then 64 else wanted) + 63) % 2 ^ 64) / 64 in
      IsValid (record { num_bits = count * 64; num_hashes = n; words = replicate count 0 })
made-IsValid n wanted h =
    let count = (((if ltb wanted 64 then 64 else wanted) + 63) % 2 ^ 64) / 64 in
    record { some_bits = ground arith; size = ap (λ c. c * 64) (length-replicate count 0) }

small : (x y : ℕ) → x ≤ y → y * 2 + 64 ≤ 2 ^ 64 → (x * 2) % 2 ^ 64 + 64 ≤ 2 ^ 64
small x y h k = omega arith

new_filter-IsValid :
    (expected_items asked : ℕ)
    → (expected_items + 1) * (asked + 1) * 2 + 64 ≤ 2 ^ 64
    → IsValid (new_filter expected_items asked)
unfolding new_filter
new_filter-IsValid expected_items asked h =
    let e = if expected_items == 0 then 1 else expected_items in
    let n = if asked == 0 then 1 else asked in
    let e_le : e ≤ expected_items + 1 = ground arith in
    let n_le : n ≤ asked + 1 = ground arith in
    let product : e * n ≤ (expected_items + 1) * (asked + 1) =
      le_trans (mul-le-mul_right n e_le) (mul-le-mul_left (expected_items + 1) n_le) in
    made-IsValid n ((e * n * 2) % 2 ^ 64) (small (e * n) _ product h)

might_contain-add :
    (f : BloomFilter) (key : Bytes) → IsValid f → might_contain (add f key) key ≡ true
unfolding might_contain add
might_contain-add f key v = might_from-add_from f key f.num_hashes 0 f.words v refl

might_contain-add_other :
    (f : BloomFilter) (key other : Bytes)
    → might_contain f key ≡ true
    → might_contain (add f other) key ≡ true
unfolding might_contain add
might_contain-add_other f key other h =
    might_from-Within f key f.num_hashes 0 (add_from f other f.num_hashes 0 f.words)
      (Within-add_from f other f.num_hashes 0 f.words) h

add_all_keeps :
    (f : BloomFilter) (keys : List Bytes) (key : Bytes)
    → might_contain f key ≡ true
    → might_contain (add_all f keys) key ≡ true
add_all_keeps f [] key h = h
add_all_keeps f (k ∷ keys) key h =
    add_all_keeps (add f k) keys key (might_contain-add_other f key k h)

might_contain-add_all :
    (f : BloomFilter) (keys : List Bytes) (key : Bytes)
    → IsValid f
    → IsAmong key keys
    → might_contain (add_all f keys) key ≡ true
might_contain-add_all f [] key v m = absurd m
might_contain-add_all f (k ∷ keys) key v (inl e) =
    add_all_keeps (add f k) keys key
      (subst (λ x. might_contain (add f k) x ≡ true) (sym e) (might_contain-add f k v))
might_contain-add_all f (k ∷ keys) key v (inr m) =
    might_contain-add_all (add f k) keys key (add-IsValid f k v) m

-- A filter made for any number of keys that does not overflow 64 bits, to which any keys were
-- added, answers true for each of them, however many they are and whatever their hashes.
pub no_false_negatives :
    (expected_items asked : ℕ) (keys : List Bytes) (key : Bytes)
    → (expected_items + 1) * (asked + 1) * 2 + 64 ≤ 2 ^ 64
    → IsAmong key keys
    → might_contain (add_all (new_filter expected_items asked) keys) key ≡ true
no_false_negatives expected_items asked keys key h m =
    might_contain-add_all (new_filter expected_items asked) keys key
      (new_filter-IsValid expected_items asked h) m
