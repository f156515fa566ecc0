-- ===== src/Base/Map.antt =====
-- std::unordered_map as an association list. A key is written once: `insert` drops the old entry.
use mathlib.Core.Path.{◌≡◌, refl}
use mathlib.Core.Logic.{ite, ◌≢◌}
use mathlib.Core.Bool.{Bool}
use mathlib.Core.Option.{Option, none, some}
use mathlib.Core.List.{List, [], ◌∷◌}
use native.Mathlib.Omega.{arith}
use bartimaeus_app.Base.Tests.{if◌then◌else◌}
use bartimaeus_app.Base.Lists.{All}

abbrev pub Map {ℓ} : Type ℓ → Type ℓ → Type ℓ
Map K V = List (K × V)

module _ {ℓ} {K V : Type ℓ} (same : Discrete K) where
  -- find(key), with `none` for end()
  unfoldable pub find : K → Map K V → Option V
  find k [] = none
  find k ((j, v) ∷ m) = ite (same j k) (some v) (find k m)

  -- erase(key)
  unfoldable pub erase : K → Map K V → Map K V
  erase k [] = []
  erase k ((j, v) ∷ m) = let rest = erase k m in ite (same j k) rest ((j, v) ∷ rest)

  -- map[key] = value
  unfoldable pub insert : K → V → Map K V → Map K V
  unfolding erase
  insert k v m = (k, v) ∷ erase k m

  pub find-erase : (k j : K) (m : Map K V) → find j (erase k m) ≡ ite (same k j) none (find j m)
  unfolding find erase
  find-erase k j [] = ground arith
  find-erase k j ((i, v) ∷ m) = ground (arith, find-erase k j m)

  pub find-insert :
      (k j : K) (v : V) (m : Map K V) → find j (insert k v m) ≡ ite (same k j) (some v) (find j m)
  unfolding find insert
  find-insert k j v m = ground (arith, find-erase k j m)

  -- The loop that erases the entries which do not pass the test.
  unfoldable pub retain : (V → Bool) → Map K V → Map K V
  retain p [] = []
  retain p ((k, v) ∷ m) = let rest = retain p m in if p v then (k, v) ∷ rest else rest

  abbrev pub keep_if : (V → Bool) → Option V → Option V
  keep_if p none = none
  keep_if p (some v) = if p v then some v else none

  -- No two entries have one key.
  abbrev pub IsFunctional : Map K V → Type ℓ
  IsFunctional [] = Unit
  IsFunctional ((k, v) ∷ m) = (find k m ≡ none) × IsFunctional m

  pub erase-IsFunctional : (k : K) (m : Map K V) → IsFunctional m → IsFunctional (erase k m)
  unfolding erase
  erase-IsFunctional k [] h = tt
  erase-IsFunctional k ((j, v) ∷ m) h = ground (arith, erase-IsFunctional k m h.1, find-erase k j m)

  pub insert-IsFunctional :
      (k : K) (v : V) (m : Map K V) → IsFunctional m → IsFunctional (insert k v m)
  unfolding insert
  insert-IsFunctional k v m h = ground (arith, erase-IsFunctional k m h, find-erase k k m)

  pub find-retain :
      (p : V → Bool) (k : K) (m : Map K V)
      → IsFunctional m
      → find k (retain p m) ≡ keep_if p (find k m)
  unfolding find retain
  find-retain p k [] h = refl
  find-retain p k ((j, v) ∷ m) h = elim (same j k) [
    | yes e ↦ ground (arith, find-retain p k m h.1)
    | no e ↦ ground (arith, find-retain p k m h.1)
  ]

  pub retain-IsFunctional :
      (p : V → Bool) (m : Map K V) → IsFunctional m → IsFunctional (retain p m)
  unfolding retain
  retain-IsFunctional p [] h = tt
  retain-IsFunctional p ((k, v) ∷ m) h =
      ground (arith, retain-IsFunctional p m h.1, find-retain p k m h.1)

  module _ {κ} (P : K → V → Type κ) where
    -- The property holds of every entry of the map.
    abbrev pub HoldsOf : Map K V → Type κ
    HoldsOf = All (λ (e : K × V). P e.0 e.1)

    pub erase-HoldsOf : (k : K) (m : Map K V) → HoldsOf m → HoldsOf (erase k m)
    unfolding erase
    erase-HoldsOf k [] h = tt
    erase-HoldsOf k ((j, v) ∷ m) h = ground (arith, erase-HoldsOf k m h.1)

    pub insert-HoldsOf : (k : K) (v : V) (m : Map K V) → P k v → HoldsOf m → HoldsOf (insert k v m)
    unfolding insert
    insert-HoldsOf k v m p h = (p, erase-HoldsOf k m h)

    pub retain-HoldsOf : (p : V → Bool) (m : Map K V) → HoldsOf m → HoldsOf (retain p m)
    unfolding retain
    retain-HoldsOf p [] h = tt
    retain-HoldsOf p ((k, v) ∷ m) h = ground (arith, retain-HoldsOf p m h.1)

    pub find-HoldsOf : (k : K) (v : V) (m : Map K V) → HoldsOf m → find k m ≡ some v → P k v
    unfolding find
    find-HoldsOf k v [] h e = cc
    find-HoldsOf k v ((j, w) ∷ m) h e = elim (same j k) [
      | yes here ↦ let value : w ≡ v = ground arith in rw (← here, ← value) h.0
      | no there ↦ find-HoldsOf k v m h.1 (ground arith)
    ]

  -- A key that was erased is no longer there.
  pub erase-IsAbsent : (k : K) (m : Map K V) → HoldsOf (λ j v. j ≢ k) (erase k m)
  unfolding erase
  erase-IsAbsent k [] = tt
  erase-IsAbsent k ((j, v) ∷ m) = ground (arith, erase-IsAbsent k m)
