-- ===== src/Base/Dict.antt =====
-- Go maps with string keys: an entry for each key, in the order in which `range` visits them.
use Prim.Native.String.{String}
use mathlib.Core.Path.{◌≡◌, refl, subst₂}
use mathlib.Core.Logic.{inl, inr}
use mathlib.Core.Option.{Option, none, some, some-injective}
use mathlib.Core.List.{List, [], ◌∷◌}
use native.Mathlib.Omega.{arith}
use text.Mathlib.Text.{◌==◌}
use text.Mathlib.TextEquality.{eq_iff}
use cam_bus.Base.Tests.{if◌then◌else◌, Bool-cases}

abbrev pub Dict {ℓ} : Type ℓ → Type ℓ
Dict V = List (String × V)

module _ {ℓ} {V : Type ℓ} where
  -- v, ok := m[k]
  unfoldable pub lookup : String → Dict V → Option V
  lookup k [] = none
  lookup k ((j, v) ∷ d) = if j == k then some v else lookup k d

  -- m[k] = v
  unfoldable pub insert : String → V → Dict V → Dict V
  insert k v [] = (k, v) ∷ []
  insert k v ((j, w) ∷ d) = if j == k then (j, v) ∷ d else (j, w) ∷ insert k v d

  -- delete(m, k)
  unfoldable pub erase : String → Dict V → Dict V
  erase k [] = []
  erase k ((j, w) ∷ d) = let rest = erase k d in if j == k then rest else (j, w) ∷ rest

  abbrev pub NodupKeys : Dict V → Type ℓ
  NodupKeys [] = Unit
  NodupKeys ((k, _) ∷ d) = (lookup k d ≡ none) × NodupKeys d

  pub lookup-insert :
      (k j : String) (v : V) (d : Dict V)
      → lookup j (insert k v d) ≡ (if k == j then some v else lookup j d)
  unfolding lookup insert
  lookup-insert k j v [] = refl
  lookup-insert k j v ((i, w) ∷ d) =
      ground (arith, eq_iff k j, eq_iff i k, eq_iff i j, lookup-insert k j v d)

  pub lookup-erase :
      (k j : String) (d : Dict V) → lookup j (erase k d) ≡ (if k == j then none else lookup j d)
  unfolding lookup erase
  lookup-erase k j [] = ground arith
  lookup-erase k j ((i, w) ∷ d) =
      ground (arith, eq_iff k j, eq_iff i k, eq_iff i j, lookup-erase k j d)

  pub insert-NodupKeys : (k : String) (v : V) (d : Dict V) → NodupKeys d → NodupKeys (insert k v d)
  unfolding lookup insert
  insert-NodupKeys k v [] _ = (refl, tt)
  insert-NodupKeys k v ((j, w) ∷ d) (fresh, u) = elim (Bool-cases (j == k)) [
    | inl same ↦ rw same (fresh, u)
    | inr other ↦
        rw other
          (ground (arith, lookup-insert k j v d, eq_iff k j, eq_iff j k), insert-NodupKeys k v d u)
  ]

  pub erase-NodupKeys : (k : String) (d : Dict V) → NodupKeys d → NodupKeys (erase k d)
  unfolding lookup erase
  erase-NodupKeys k [] _ = tt
  erase-NodupKeys k ((j, w) ∷ d) (fresh, u) = elim (Bool-cases (j == k)) [
    | inl same ↦ rw same (erase-NodupKeys k d u)
    | inr other ↦ rw other (ground (arith, lookup-erase k j d), erase-NodupKeys k d u)
  ]

  -- What holds of every entry.
  abbrev pub Entries {κ} : (String → V → Type κ) → Dict V → Type (ℓ ⊔ κ)
  Entries P d = (k : String) (v : V) → lookup k d ≡ some v → P k v

module _ {ℓ κ} {V : Type ℓ} (P : String → V → Type κ) where
  pub Entries-insert :
      (k : String) (v : V) (d : Dict V) → Entries P d → P k v → Entries P (insert k v d)
  Entries-insert k v d h p j q e = elim (Bool-cases (k == j)) [
    | inl same ↦
        subst₂ P ((eq_iff k j).0 same) (some-injective v q (rw (lookup-insert k j v d, same) at e))
          p
    | inr other ↦ h j q (rw (lookup-insert k j v d, other) at e)
  ]

  pub Entries-erase : (k : String) (d : Dict V) → Entries P d → Entries P (erase k d)
  Entries-erase k d h j q e = elim (Bool-cases (k == j)) [
    | inl same ↦ let e' : none ≡ some q = rw (lookup-erase k j d, same) at e in cc
    | inr other ↦ h j q (rw (lookup-erase k j d, other) at e)
  ]
