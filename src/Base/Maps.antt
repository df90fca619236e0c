-- ===== src/Base/Maps.antt =====
-- Go's maps with comparable keys, as association lists. A key that is there keeps its place, and a
-- new key goes to the end; Go's iteration order is unspecified, so it is any such order.
use mathlib.Core.Path.{◌≡◌, refl}
use mathlib.Core.Logic.{◌≢◌}
use mathlib.Core.List.{List, [], ◌∷◌, ◌++◌}
use mathlib.Core.Option.{Option, none, some}
use native.Mathlib.Omega.{arith}
use go_dcpp.Base.Tests.{Eq, ◌==◌, ==_refl, if◌then◌else◌}

abbrev pub Map {ℓ κ} : Type ℓ → Type κ → Type (ℓ ⊔ κ)
Map K V = List (K × V)

module _ {ℓ κ} {K : Type ℓ} {V : Type κ} ⦃e : Eq K⦄ where
  -- m[k]
  unfoldable pub lookup : K → Map K V → Option V
  lookup k [] = none
  lookup k ((key, x) ∷ rest) = if key == k then some x else lookup k rest

  -- m[k] = v
  unfoldable pub insert : K → V → Map K V → Map K V
  insert k v ((key, x) ∷ rest) = if key == k then (k, v) ∷ rest else (key, x) ∷ insert k v rest
  insert k v [] = (k, v) ∷ []

  -- delete(m, k)
  unfoldable pub remove : K → Map K V → Map K V
  remove k [] = []
  remove k ((j, w) ∷ m) = let rest = remove k m in if j == k then rest else (j, w) ∷ rest

  pub lookup-insert :
      (k other : K) (v : V) (m : Map K V)
      → lookup other (insert k v m) ≡ (if k == other then some v else lookup other m)
  unfolding lookup insert
  lookup-insert k other v [] = refl
  lookup-insert k other v ((key, x) ∷ rest) =
      ground (
        arith,
        lookup-insert k other v rest,
        e.beq_iff k other,
        e.beq_iff key k,
        e.beq_iff key other,
      )

  pub lookup-remove :
      (k j : K) (m : Map K V) → lookup j (remove k m) ≡ (if k == j then none else lookup j m)
  unfolding lookup remove
  lookup-remove k j [] = ground arith
  lookup-remove k j ((i, w) ∷ m) =
      ground (arith, e.beq_iff k j, e.beq_iff i k, e.beq_iff i j, lookup-remove k j m)

pub ruleset map_laws = (lookup-insert, lookup-remove, ==_refl)

module _ {ℓ κ} {K : Type ℓ} {V : Type κ} ⦃e : Eq K⦄ where
  -- Each key stands once, as in every map that `insert` and `remove` build.
  abbrev pub IsMap : Map K V → Type κ
  IsMap [] = Unit
  IsMap ((k, v) ∷ m) = (lookup k m ≡ none) × IsMap m

  pub insert-IsMap : (k : K) (v : V) (m : Map K V) → IsMap m → IsMap (insert k v m)
  unfolding lookup insert
  insert-IsMap k v [] h = (refl, tt)
  insert-IsMap k v ((j, w) ∷ m) h =
      ground (arith, e.beq_iff j k, e.beq_iff k j, lookup-insert k j v m, insert-IsMap k v m h.1)

  pub remove-IsMap : (k : K) (m : Map K V) → IsMap m → IsMap (remove k m)
  unfolding lookup remove
  remove-IsMap k [] h = tt
  remove-IsMap k ((j, w) ∷ m) h =
      ground (arith, lookup-remove k j m, e.beq_iff k j, remove-IsMap k m h.1)

  -- A new key goes to the end.
  pub insert_fresh :
      (k : K) (v : V) (m : Map K V) → lookup k m ≡ none → insert k v m ≡ m ++ (k, v) ∷ []
  unfolding lookup insert
  insert_fresh k v [] h = refl
  insert_fresh k v ((j, w) ∷ m) h = ground (arith, insert_fresh k v m)

  lookup_middle : (k : K) (v : V) (l m : Map K V) → lookup k (l ++ (k, v) ∷ m) ≢ none
  unfolding lookup
  lookup_middle k v [] m h = ground (arith, e.beq_iff k k)
  lookup_middle k v ((j, w) ∷ l) m h = ground (arith, lookup_middle k v l m)

  pub lookup_before : (k : K) (v : V) (l m : Map K V) → IsMap (l ++ (k, v) ∷ m) → lookup k l ≡ none
  unfolding lookup
  lookup_before k v [] m h = refl
  lookup_before k v ((j, w) ∷ l) m h =
      ground (arith, e.beq_iff j k, lookup_middle k v l m, lookup_before k v l m h.1)
