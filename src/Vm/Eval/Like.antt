-- ===== src/Vm/Eval/Like.antt =====
-- src/vm/expression_eval.cpp: `likeMatch`.
pub mod Spec
pub mod Loop
use prqlite.Base.{
  ℕ, zero, suc, ◌+◌, ◌*◌, ◌==◌, Bool, true, false, ◌&&◌, ◌||◌, List, [], ◌∷◌, Option, none, some,
  if◌then◌else◌, Bytes, length,
}

-- The bytes of the pattern behind the last `%`, and those of the text from `mark` on.
abbrev pub Star : Type 0
Star = Option (Bytes × Bytes)

-- The loop behind the main one: what is left of the pattern is `%` only.
pub only_percents : Bytes → Bool
only_percents [] = true
only_percents (c ∷ p) = let rest = only_percents p in if c == b'%' then rest else false

-- `p[pi] == '_' || p[pi] == s[si]` where the pattern has not ended.
pub head_matches : ℕ → Bytes → Bool
head_matches c [] = false
head_matches c (a ∷ p) = a == b'_' || a == c

pub starts_percent : Bytes → Bool
starts_percent [] = false
starts_percent (a ∷ p) = a == b'%'

abbrev pub behind_one : Bytes → Bytes
behind_one [] = []
behind_one (c ∷ cs) = cs

-- The main loop on fuel: the text from `si` on, the pattern from `pi` on, and the last `%`.
pub like_loop : ℕ → Bytes → Bytes → Star → Option Bool
unfolding only_percents head_matches starts_percent
like_loop zero s p star = none
like_loop (suc fuel) [] p star = some (only_percents p)
like_loop (suc fuel) (c ∷ s) p star =
    let taken = like_loop fuel s (behind_one p) star in
    let starred = like_loop fuel (c ∷ s) (behind_one p) (some (behind_one p, c ∷ s)) in
    if head_matches c p then taken else if starts_percent p then starred else elim star [
      | none ↦ some false
      | some (q, mark) ↦ like_loop fuel (behind_one mark) q (some (q, behind_one mark))
    ]

-- The fuel is for a round per `%`, per place of the text that it is tried at, and per byte.
unfoldable pub like_match : Bytes → Bytes → Option Bool
unfolding like_loop
like_match s p = let k = suc (length s) in like_loop (suc ((length p + 1) * (k * k) + k)) s p none
