-- ===== src/Base/Maps.antt =====
-- Association lists for the maps of the source. `find`, `insert` and `erase` are those of
-- `std::map` and `std::unordered_map`: a key stands at most once in what they build.
use mathlib.Core.Path.{◌≡◌, refl}
use mathlib.Core.List.{List, [], ◌∷◌}
use mathlib.Core.Option.{Option, none, some}
use native.Mathlib.Omega.{arith}
use prqlite.Base.Tests.{Eq, if◌then◌else◌}

abbrev pub Dict {ℓ κ} : Type ℓ → Type κ → Type (ℓ ⊔ κ)
Dict K V = List (K × V)

module _ {ℓ κ} {K : Type ℓ} {V : Type κ} ⦃e : Eq K⦄ where
  unfoldable pub find : K → Dict K V → Option V
  find k [] = none
  find k ((j, v) ∷ m) = if e.beq j k then some v else find k m

  unfoldable pub insert : K → V → Dict K V → Dict K V
  insert k v [] = (k, v) ∷ []
  insert k v ((j, w) ∷ m) = if e.beq j k then (k, v) ∷ m else (j, w) ∷ insert k v m

  unfoldable pub erase : K → Dict K V → Dict K V
  erase k [] = []
  erase k ((j, w) ∷ m) = let rest = erase k m in if e.beq j k then rest else (j, w) ∷ rest

  -- `m[k]`, which makes a default value where the key is missing.
  unfoldable pub get_or : V → K → Dict K V → V
  get_or d k m = elim (find k m) [ none ↦ d | some v ↦ v ]

  pub find-nil : (k : K) → find k [] ≡ none
  unfolding find
  find-nil k = refl

  pub erase-nil : (k : K) → erase k [] ≡ []
  unfolding erase
  erase-nil k = refl

  pub find-insert :
      (k j : K) (v : V) (m : Dict K V)
      → find j (insert k v m) ≡ (if e.beq k j then some v else find j m)
  unfolding find insert
  find-insert k j v [] = refl
  find-insert k j v ((i, w) ∷ m) =
      ground (arith, e.beq_iff k j, e.beq_iff i k, e.beq_iff i j, find-insert k j v m)

  pub find-erase :
      (k j : K) (m : Dict K V) → find j (erase k m) ≡ (if e.beq k j then none else find j m)
  unfolding find erase
  find-erase k j [] = ground arith
  find-erase k j ((i, w) ∷ m) =
      ground (arith, e.beq_iff k j, e.beq_iff i k, e.beq_iff i j, find-erase k j m)

  -- No key stands twice.
  abbrev pub Distinct : Dict K V → Type κ
  Distinct [] = Unit
  Distinct ((k, v) ∷ m) = (find k m ≡ none) × Distinct m

  pub insert-Distinct : (k : K) (v : V) (m : Dict K V) → Distinct m → Distinct (insert k v m)
  unfolding insert find
  insert-Distinct k v [] d = (refl, tt)
  insert-Distinct k v ((j, w) ∷ m) d =
      ground (arith, e.beq_iff j k, e.beq_iff k j, find-insert k j v m, insert-Distinct k v m d.1)

  pub erase-Distinct : (k : K) (m : Dict K V) → Distinct m → Distinct (erase k m)
  unfolding erase
  erase-Distinct k [] d = tt
  erase-Distinct k ((j, w) ∷ m) d =
      ground (arith, e.beq_iff j k, find-erase k j m, erase-Distinct k m d.1)

  pub get_or_found : (d v : V) (k : K) (m : Dict K V) → find k m ≡ some v → get_or d k m ≡ v
  unfolding get_or
  get_or_found d v k m h = ground arith

  pub get_or_missing : (d : V) (k : K) (m : Dict K V) → find k m ≡ none → get_or d k m ≡ d
  unfolding get_or
  get_or_missing d k m h = ground arith

  pub get_or-insert :
      (d : V) (k j : K) (v : V) (m : Dict K V)
      → get_or d j (insert k v m) ≡ (if e.beq k j then v else get_or d j m)
  unfolding get_or
  get_or-insert d k j v m = ground (arith, find-insert k j v m)

  pub get_or-erase :
      (d : V) (k j : K) (m : Dict K V)
      → get_or d j (erase k m) ≡ (if e.beq k j then d else get_or d j m)
  unfolding get_or
  get_or-erase d k j m = ground (arith, find-erase k j m)
