-- ===== src/Vm/Eval/Like/Spec.antt =====
-- src/vm/expression_eval.cpp: what a pattern means, and what the last `%` still allows.
use prqlite.Base.{
  ℕ, ◌<◌, ◌≤◌, ◌==◌, Bool, true, false, ◌&&◌, ◌||◌, [], ◌∷◌, ◌++◌, append_assoc, none, some,
  if◌then◌else◌, Bytes, length, length-append, append_cut, take, drop, take-drop, length-take,
  subst, suc, ◌≡◌, ◌≢◌, refl, ap, sym, ◌∙◌, arith, inl, inr, Bool-cases,
}
use prqlite.Vm.Eval.Like.{Star, only_percents}

-- `%` stands for any bytes, `_` for any one byte.
abbrev pub any_suffix : (Bytes → Bool) → Bytes → Bool
any_suffix f [] = f []
any_suffix f (c ∷ s) = f (c ∷ s) || any_suffix f s

abbrev after_one : ℕ → (Bytes → Bool) → Bytes → Bool
after_one a f [] = false
after_one a f (c ∷ s) = (a == b'_' || a == c) && f s

abbrev is_empty : Bytes → Bool
is_empty [] = true
is_empty (c ∷ s) = false

unfoldable pub like_spec : Bytes → Bytes → Bool
like_spec [] s = is_empty s
like_spec (a ∷ p) s = if a == b'%' then any_suffix (like_spec p) s else after_one a (like_spec p) s

abbrev pub NoPercent : Bytes → Type 0
NoPercent [] = Unit
NoPercent (c ∷ s) = (c ≢ b'%') × NoPercent s

any_suffix-append :
    (f : Bytes → Bool) (u s : Bytes) → any_suffix f s ≡ true → any_suffix f (u ++ s) ≡ true
any_suffix-append f [] s h = h
any_suffix-append f (c ∷ u) s h = ground (arith, any_suffix-append f u s h)

-- The suffix that was found.
any_suffix_found :
    (f : Bytes → Bool) (s : Bytes)
    → any_suffix f s ≡ true
    → (u : Bytes) × (t : Bytes) × (s ≡ u ++ t) × (f t ≡ true)
any_suffix_found f [] h = ([], [], refl, h)
any_suffix_found f (c ∷ s) h = elim (Bool-cases (f (c ∷ s))) [
  | inl here ↦ ([], c ∷ s, refl, here)
  | inr later ↦
      let (u, t, e, found) = any_suffix_found f s (ground (arith, later)) in
      (c ∷ u, t, ap (◌∷◌ c) e, found)
]

any_suffix_self : (f : Bytes → Bool) (s : Bytes) → f s ≡ true → any_suffix f s ≡ true
any_suffix_self f [] h = h
any_suffix_self f (c ∷ s) h = rw h

-- A piece of a pattern without `%` takes as many bytes as it is long.
like_spec_segment :
    (seg p m : Bytes)
    → NoPercent seg
    → like_spec (seg ++ p) m ≡ true
    → (length seg ≤ length m) × (like_spec p (drop (length seg) m) ≡ true)
unfolding like_spec drop
like_spec_segment [] p m n h = (omega arith, h)
like_spec_segment (a ∷ seg) p [] (n, ns) h = absurd (ground (arith, n, h))
like_spec_segment (a ∷ seg) p (c ∷ m) (n, ns) h =
    let ih = like_spec_segment seg p m ns (ground (arith, n, h)) in (omega (arith, ih.0), ih.1)

-- What the loop still owes to the last `%`: a match that starts behind `mark`.
unfoldable pub star_spec : Star → Bool
star_spec none = false
star_spec (some (q, [])) = false
star_spec (some (q, c ∷ m)) = any_suffix (like_spec q) m

-- The pattern behind the last `%` has taken the bytes from `mark` on, one for one.
pub record Progress (q mark p s : Bytes) : Type 0 where
  pub seg : Bytes
  pub took : Bytes
  pub pattern_split : q ≡ seg ++ p
  pub text_split : mark ≡ took ++ s
  pub same : length took ≡ length seg
  pub plain : NoPercent seg
  pub marked : NoPercent mark

abbrev pub Follows : Star → Bytes → Bytes → Type 0
Follows none p s = Unit
Follows (some (q, mark)) p s = Progress q mark p s

NoPercent-append : (s t : Bytes) → NoPercent s → NoPercent t → NoPercent (s ++ t)
NoPercent-append [] t h k = k
NoPercent-append (c ∷ s) t (h, hs) k = (h, NoPercent-append s t hs k)

pub Progress-here : (q mark : Bytes) → NoPercent mark → Progress q mark q mark
Progress-here q mark h = record {
  seg = [];
  took = [];
  pattern_split = refl;
  text_split = refl;
  same = refl;
  plain = tt;
  marked = h;
}

pub Progress-take :
    {q mark : Bytes} (a : ℕ) (p : Bytes) (c : ℕ) (s : Bytes)
    → Progress q mark (a ∷ p) (c ∷ s)
    → a ≢ b'%'
    → Progress q mark p s
Progress-take a p c s g h = record {
  seg = g.seg ++ a ∷ [];
  took = g.took ++ c ∷ [];
  pattern_split = g.pattern_split ∙ sym (append_assoc g.seg (a ∷ []) p);
  text_split = g.text_split ∙ sym (append_assoc g.took (c ∷ []) s);
  same = omega (arith, length-append {0} g.took (c ∷ []), length-append {0} g.seg (a ∷ []), g.same);
  plain = NoPercent-append g.seg (a ∷ []) g.plain (h, tt);
  marked = g.marked;
}

-- A later match of the older `%` takes the piece up to `p` and then a suffix of the text at hand.
later_match :
    (q : Bytes) (c : ℕ) (m p s : Bytes)
    → Progress q (c ∷ m) p s
    → any_suffix (like_spec q) m ≡ true
    → (v : Bytes) × (w : Bytes) × (s ≡ v ++ w) × (like_spec p w ≡ true) × (length w < length s)
later_match q c m p s g h =
    let k = length g.seg in
    let (u, t, e, found) = any_suffix_found (like_spec q) m h in
    let (room, rest) =
      like_spec_segment g.seg p t g.plain
        (subst (λ x. like_spec x t ≡ true) g.pattern_split found) in
    let w = drop k t in
    let front = (c ∷ u) ++ take k t in
    let whole : front ++ w ≡ g.took ++ s =
      append_assoc (c ∷ u) (take k t) w
      ∙ ap (λ x. (c ∷ u) ++ x) (take-drop k t)
      ∙ ap (◌∷◌ c) (sym e)
      ∙ g.text_split in
    let size = length-append {0} (c ∷ u) (take k t) in
    let taken = length-take k t room in
    let (v, cut, tail) = append_cut g.took s front w whole (omega (arith, size, taken, g.same)) in
    (
      v,
      w,
      sym tail,
      rest,
      omega (
        arith,
        size,
        taken,
        g.same,
        ap length cut,
        length-append {0} g.took v,
        ap length tail,
        length-append {0} v w,
      ),
    )

pub only_percents_lem : (p : Bytes) → only_percents p ≡ like_spec p []
unfolding only_percents like_spec
only_percents_lem [] = refl
only_percents_lem (a ∷ p) = ground (arith, only_percents_lem p)

-- At the end of the text no later start is left.
pub owed_end : (star : Star) (p : Bytes) → Follows star p [] → star_spec star ≡ false
unfolding star_spec
owed_end none p g = refl
owed_end (some (q, [])) p g = refl
owed_end (some (q, c ∷ m)) p g = elim (Bool-cases (any_suffix (like_spec q) m)) [
  | inl owed ↦ absurd (omega (arith, (later_match q c m p [] g owed).4))
  | inr nothing ↦ nothing
]

-- A new `%` covers what the older one owed.
pub owed_covered :
    (star : Star) (p s : Bytes)
    → Follows star (b'%' ∷ p) s
    → star_spec star ≡ true
    → any_suffix (like_spec p) s ≡ true
unfolding star_spec like_spec
owed_covered none p s g h = cc
owed_covered (some (q, [])) p s g h = cc
owed_covered (some (q, c ∷ m)) p s g h =
    let (v, w, e, found, _) = later_match q c m (b'%' ∷ p) s g h in
    rw e (any_suffix-append (like_spec p) v w found)

pub below : (n : ℕ) → n < suc n
below n = omega arith
