-- ===== src/Vm/Eval/Like/Loop.antt =====
-- src/vm/expression_eval.cpp: `likeMatch` decides the plain meaning of a pattern.
use prqlite.Base.{
  ℕ, zero, ◌+◌, ◌*◌, ◌<◌, ◌≤◌, Bool, true, false, ◌||◌, [], ◌∷◌, none, some, Bytes, length,
  length-append, take, subst, suc, ◌≡◌, ◌≢◌, refl, ap, sym, ◌∙◌, arith, inl, inr, Bool-cases,
}
use native.Mathlib.Nat.{mul-le-mul_right}
use prqlite.Vm.Eval.Like.{Star, head_matches, starts_percent, behind_one, like_loop, like_match}
use prqlite.Vm.Eval.Like.Spec.{
  any_suffix, like_spec, NoPercent, star_spec, Progress, Follows, Progress-here, Progress-take,
  only_percents_lem, owed_end, owed_covered, below,
}

-- How much fuel a state needs; `k` is one more than the text is long.
abbrev weight : ℕ → Star → Bytes → Bytes → ℕ
weight k none p s = (length p + 1) * (k * k) + length s
weight k (some (q, mark)) p s = length q * (k * k) + length mark * k + length s

abbrev Within : ℕ → Star → Bytes → Type 0
Within k none s = length s < k
Within k (some (q, mark)) s = (length s < k) × (length mark < k)

lt_to_le : {a b : ℕ} → a < b → suc a ≤ b
lt_to_le h = h

-- A step of the counts: fewer patterns left outweigh any place in the text.
outweighs : (k r r' m s : ℕ) → r' < r → m < k → s < k → r' * (k * k) + m * k + s < r * (k * k)
outweighs k r r' m s h a b =
    omega (arith, mul-le-mul_right (k * k) (lt_to_le h), mul-le-mul_right k (lt_to_le a))

loop_take :
    (fuel c : ℕ) (s p : Bytes) (star : Star)
    → head_matches c p ≡ true
    → like_loop (suc fuel) (c ∷ s) p star ≡ like_loop fuel s (behind_one p) star
unfolding like_loop
loop_take fuel c s p star h = rw h

loop_star :
    (fuel c : ℕ) (s p : Bytes) (star : Star)
    → head_matches c p ≡ false
    → starts_percent p ≡ true
    → like_loop (suc fuel) (c ∷ s) p star
      ≡ like_loop fuel (c ∷ s) (behind_one p) (some (behind_one p, c ∷ s))
unfolding like_loop
loop_star fuel c s p star h k = rw (h, k)

loop_fail :
    (fuel c : ℕ) (s p : Bytes)
    → head_matches c p ≡ false
    → starts_percent p ≡ false
    → like_loop (suc fuel) (c ∷ s) p none ≡ some false
unfolding like_loop
loop_fail fuel c s p h k = rw (h, k)

loop_back :
    (fuel c : ℕ) (s p q mark : Bytes)
    → head_matches c p ≡ false
    → starts_percent p ≡ false
    → like_loop (suc fuel) (c ∷ s) p (some (q, mark))
      ≡ like_loop fuel (behind_one mark) q (some (q, behind_one mark))
unfolding like_loop
loop_back fuel c s p q mark h k = rw (h, k)

-- A pattern that neither takes the byte nor starts with `%` does not match.
like_spec_stuck :
    (c : ℕ) (s p : Bytes)
    → head_matches c p ≡ false
    → starts_percent p ≡ false
    → like_spec p (c ∷ s) ≡ false
unfolding like_spec head_matches starts_percent
like_spec_stuck c s [] h k = refl
like_spec_stuck c s (a ∷ p) h k = ground arith

taken_plain : (a c : ℕ) (p : Bytes) → head_matches c (a ∷ p) ≡ true → c ≢ b'%' → a ≢ b'%'
unfolding head_matches
taken_plain a c p h n e = ground (arith, e, h, n)

like_spec_taken :
    (a c : ℕ) (p s : Bytes)
    → head_matches c (a ∷ p) ≡ true
    → a ≢ b'%'
    → like_spec (a ∷ p) (c ∷ s) ≡ like_spec p s
unfolding like_spec head_matches
like_spec_taken a c p s h n = ground arith

or_false : (b : Bool) → b ≡ (b || false)
or_false true = refl
or_false false = refl

-- All that is owed to the last `%` when its mark moves on.
owed_back : (q m : Bytes) → (like_spec q m || star_spec (some (q, m))) ≡ any_suffix (like_spec q) m
unfolding star_spec
owed_back q [] = ground arith
owed_back q (c ∷ m) = refl

new_star :
    (star : Star) (a : ℕ) (p : Bytes) (c : ℕ) (s : Bytes)
    → starts_percent (a ∷ p) ≡ true
    → Follows star (a ∷ p) (c ∷ s)
    → (like_spec p (c ∷ s) || star_spec (some (p, c ∷ s)))
      ≡ (like_spec (a ∷ p) (c ∷ s) || star_spec star)
new_star star a p c s h g =
    let e : a ≡ b'%' = unfold starts_percent in ground (arith, h) in
    let spec : like_spec (a ∷ p) (c ∷ s) ≡ any_suffix (like_spec p) (c ∷ s) =
      unfold like_spec in rw e in
    let left : (like_spec p (c ∷ s) || star_spec (some (p, c ∷ s)))
        ≡ any_suffix (like_spec p) (c ∷ s) =
      owed_back p (c ∷ s) in
    elim (Bool-cases (star_spec star)) [
      | inl owed ↦
          let covered =
            owed_covered star p (c ∷ s) (subst (λ x. Follows star (x ∷ p) (c ∷ s)) e g) owed in
          rw (left, spec, covered)
      | inr nothing ↦ left ∙ rw (spec, nothing) (or_false (any_suffix (like_spec p) (c ∷ s)))
    ]

Follows-take :
    (star : Star) (a : ℕ) (p : Bytes) (c : ℕ) (s : Bytes)
    → a ≢ b'%'
    → Follows star (a ∷ p) (c ∷ s)
    → Follows star p s
Follows-take none a p c s h g = tt
Follows-take (some (q, mark)) a p c s h g = Progress-take a p c s g h

Within-take : (k : ℕ) (star : Star) (c : ℕ) (s : Bytes) → Within k star (c ∷ s) → Within k star s
Within-take k none c s w = omega arith
Within-take k (some (q, mark)) c s w = omega arith

weight_take :
    (k : ℕ) (star : Star) (a : ℕ) (p : Bytes) (c : ℕ) (s : Bytes)
    → weight k star p s < weight k star (a ∷ p) (c ∷ s)
weight_take k none a p c s =
    omega (arith, mul-le-mul_right (k * k) (lt_to_le (below (length p + 1))))
weight_take k (some (q, mark)) a p c s = omega arith

Within-star : (k : ℕ) (star : Star) (p s : Bytes) → Within k star s → Within k (some (p, s)) s
Within-star k none p s w = omega arith
Within-star k (some (q, mark)) p s w = omega arith

length-Progress : {q mark p s : Bytes} → Progress q mark p s → length p ≤ length q
length-Progress {q} {mark} {p} {s} g =
    omega (arith, ap length g.pattern_split, length-append {0} g.seg p)

weight_star :
    (k : ℕ) (star : Star) (a : ℕ) (p s : Bytes)
    → Follows star (a ∷ p) s
    → Within k star s
    → weight k (some (p, s)) p s < weight k star (a ∷ p) s
weight_star k none a p s g w =
    omega (arith, outweighs k (length p + 2) (length p) (length s) (length s) (omega arith) w w)
weight_star k (some (q, mark)) a p s g w = omega (
  arith,
  outweighs k (length q) (length p) (length s) (length s) (omega (arith, length-Progress g)) w.0
      w.0,
)

-- Neither does the pattern take the byte, nor does it start with `%`: back to the last one.
like_loop_back :
    (k fuel c : ℕ) (s p : Bytes) (star : Star)
    → head_matches c p ≡ false
    → starts_percent p ≡ false
    → Follows star p (c ∷ s)
    → Within k star (c ∷ s)
    → weight k star p (c ∷ s) < suc fuel
    → ((q mark : Bytes)
        → NoPercent mark
        → Within k (some (q, mark)) mark
        → weight k (some (q, mark)) q mark < fuel
        → like_loop fuel mark q (some (q, mark))
          ≡ some (like_spec q mark || star_spec (some (q, mark))))
    → like_loop (suc fuel) (c ∷ s) p star ≡ some (like_spec p (c ∷ s) || star_spec star)
unfolding star_spec
like_loop_back k fuel c s p none h h' g w f ih =
    loop_fail fuel c s p h h' ∙ rw (like_spec_stuck c s p h h')
like_loop_back k fuel c s p (some (q, [])) h h' g w f ih =
    absurd (omega (arith, ap length g.text_split, length-append {0} g.took (c ∷ s)))
like_loop_back k fuel c s p (some (q, b ∷ mark)) h h' g w f ih =
    loop_back fuel c s p q (b ∷ mark) h h'
    ∙ ih q mark g.marked.1 (omega arith) (omega arith)
    ∙ ap some (owed_back q mark)
    ∙ rw (like_spec_stuck c s p h h')

like_loop_lem :
    (k fuel : ℕ) (s p : Bytes) (star : Star)
    → NoPercent s
    → Follows star p s
    → Within k star s
    → weight k star p s < fuel
    → like_loop fuel s p star ≡ some (like_spec p s || star_spec star)
like_loop_lem k zero s p star n g w h = absurd (omega arith)
like_loop_lem k (suc fuel) [] p star n g w h =
    let owed = owed_end star p g in
    unfold like_loop in rw (only_percents_lem p, owed) (ap some (or_false (like_spec p [])))
like_loop_lem k (suc fuel) (c ∷ s) [] star n g w h =
    like_loop_back k fuel c s [] star (unfold head_matches in refl) (unfold starts_percent in refl)
      g w h
      (λ q mark m v f. like_loop_lem k fuel mark q (some (q, mark)) m (Progress-here q mark m) v f)
like_loop_lem k (suc fuel) (c ∷ s) (a ∷ p) star n g w h =
    elim (Bool-cases (head_matches c (a ∷ p))) [
      | inl take ↦
          let plain = taken_plain a c p take n.0 in
          loop_take fuel c s (a ∷ p) star take
          ∙ like_loop_lem k fuel s p star n.1 (Follows-take star a p c s plain g)
              (Within-take k star c s w) (omega (arith, weight_take k star a p c s))
          ∙ rw (like_spec_taken a c p s take plain)
      | inr keep ↦ elim (Bool-cases (starts_percent (a ∷ p))) [
        | inl percent ↦
            loop_star fuel c s (a ∷ p) star keep percent
            ∙ like_loop_lem k fuel (c ∷ s) p (some (p, c ∷ s)) n (Progress-here p (c ∷ s) n)
                (Within-star k star p (c ∷ s) w) (omega (arith, weight_star k star a p (c ∷ s) g w))
            ∙ ap some (new_star star a p c s percent g)
        | inr other ↦ like_loop_back k fuel c s (a ∷ p) star keep other g w h (λ q mark m v f.
            like_loop_lem k fuel mark q (some (q, mark)) m (Progress-here q mark m) v f)
      ]
    ]

-- On a text without `%`, the pattern matcher ends within its fuel and decides whether the
-- pattern matches: `%` stands for any bytes, `_` for one byte, and any other byte for itself.
pub like_match_lem : (s p : Bytes) → NoPercent s → like_match s p ≡ some (like_spec p s)
unfolding like_match star_spec
like_match_lem s p n =
    let k = suc (length s) in
    like_loop_lem k (suc ((length p + 1) * (k * k) + k)) s p none n tt (omega arith) (omega arith)
    ∙ ap some (sym (or_false (like_spec p s)))

-- Where the text has a `%` under the pattern's, that is taken as any byte is: the pattern `%`
-- does not match a longer text that starts with `%`.
pub like_match_percent : (c : ℕ) (s : Bytes) → like_match (b'%' ∷ (c ∷ s)) (b'%' ∷ []) ≡ some false
unfolding like_match
like_match_percent c s =
    let fuel =
      2 * (suc (suc (suc (length s))) * suc (suc (suc (length s)))) + suc (suc (length s)) in
    let k = suc (suc (suc (length s))) in
    let e : 2 * (k * k) + k ≡ suc fuel = omega arith in
    ap (λ f. like_loop (suc f) (b'%' ∷ (c ∷ s)) (b'%' ∷ []) none) e
    ∙ loop_take (suc fuel) b'%' (c ∷ s) (b'%' ∷ []) none (unfold head_matches in refl)
    ∙ loop_fail fuel c s [] (unfold head_matches in refl) (unfold starts_percent in refl)
