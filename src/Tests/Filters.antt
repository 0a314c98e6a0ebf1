-- ===== src/Tests/Filters.antt =====
-- src/index/bloom_filter.cpp with two keys.
use prqlite.Base.{◌∷◌, [], ◌≡◌, true, refl, arith, inl, inr}
use prqlite.Index.Bloom.{new_filter, might_contain}
use prqlite.Index.Bloom.Members.{add_all, no_false_negatives}

no_false_negatives_example :
    might_contain (add_all (new_filter 10 4) ((97 ∷ []) ∷ (98 ∷ 99 ∷ []) ∷ [])) (98 ∷ 99 ∷ [])
    ≡ true
no_false_negatives_example =
    no_false_negatives 10 4 ((97 ∷ []) ∷ (98 ∷ 99 ∷ []) ∷ []) (98 ∷ 99 ∷ []) (omega arith)
      (inr (inl refl))
