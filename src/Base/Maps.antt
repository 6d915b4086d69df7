-- ===== src/Base/Maps.antt =====
-- Hash maps as association lists. `lookup` sees the first entry of a key; the order of entries is
-- never read by the code that is modelled with them.
use mathlib.Core.Path.{◌≡◌, refl}
use mathlib.Core.Bool.{Bool, true, false}
use mathlib.Core.Logic.{◌⊎◌, inl, inr}
use mathlib.Core.Option.{Option, none, some}
use mathlib.Core.List.{List, [], ◌∷◌}
use native.Mathlib.Omega.{arith}
use geonosis.Base.Tests.{if◌then◌else◌, Bool-cases}
use geonosis.Base.Keys.{Eq, ◌==◌}

abbrev pub is_some {ℓ} : {A : Type ℓ} → Option A → Bool
is_some none = false
is_some (some v) = true

abbrev pub is_none {ℓ} : {A : Type ℓ} → Option A → Bool
is_none none = true
is_none (some v) = false

abbrev pub Map {ℓ κ} : Type ℓ → Type κ → Type (ℓ ⊔ κ)
Map K V = List (K × V)

module _ {ℓ κ} {K : Type ℓ} {V : Type κ} ⦃e : Eq K⦄ where
  -- `get(&k)`
  unfoldable pub lookup : K → Map K V → Option V
  lookup key [] = none
  lookup key ((k, held) ∷ rest) = if k == key then some held else lookup key rest

  -- `insert(k, v)`
  unfoldable pub insert : K → V → Map K V → Map K V
  insert key value [] = (key, value) ∷ []
  insert key value ((k, held) ∷ rest) =
      if k == key then (key, value) ∷ rest else (k, held) ∷ insert key value rest

  -- `remove(&k)`
  unfoldable pub remove : K → Map K V → Map K V
  remove k [] = []
  remove k ((j, w) ∷ m) = let rest = remove k m in if j == k then rest else (j, w) ∷ rest

  unfoldable pub contains_key : K → Map K V → Bool
  contains_key k m = is_some (lookup k m)

  -- What is at a key after another key, or the same one, is written.
  pub lookup-insert :
      (written key : K) (value : V) (m : Map K V)
      → lookup key (insert written value m) ≡ (if written == key then some value else lookup key m)
  unfolding lookup insert
  lookup-insert written key value [] = refl
  lookup-insert written key value ((k, held) ∷ rest) =
      let below = lookup-insert written key value rest in
      ground (arith, below, e.beq_iff k written, e.beq_iff k key, e.beq_iff written key)

  pub lookup-remove :
      (k j : K) (m : Map K V) → lookup j (remove k m) ≡ (if k == j then none else lookup j m)
  unfolding lookup remove
  lookup-remove k j [] = ground arith
  lookup-remove k j ((i, w) ∷ m) =
      ground (arith, e.beq_iff k j, e.beq_iff i k, e.beq_iff i j, lookup-remove k j m)

  pub lookup-insert_self : (k : K) (v : V) (m : Map K V) → lookup k (insert k v m) ≡ some v
  lookup-insert_self k v m = ground (arith, lookup-insert k k v m, e.beq_iff k k)

  pub lookup-remove_self : (k : K) (m : Map K V) → lookup k (remove k m) ≡ none
  lookup-remove_self k m = ground (arith, lookup-remove k k m, e.beq_iff k k)

  -- What is found after a write was written, or was there under another key.
  pub insert-cases :
      (k j : K) (v w : V) (m : Map K V)
      → lookup j (insert k v m) ≡ some w
      → ((k ≡ j) × (v ≡ w)) ⊎ (¬ (k ≡ j) × (lookup j m ≡ some w))
  insert-cases k j v w m h = elim (Bool-cases (k == j)) [
    | inl same ↦ inl (ground (arith, e.beq_iff k j), ground (arith, lookup-insert k j v m))
    | inr other ↦ inr (λ q. ground (arith, e.beq_iff k j), ground (arith, lookup-insert k j v m))
  ]

  pub insert_other :
      (k j : K) (v : V) (m : Map K V) → ¬ (k ≡ j) → lookup j (insert k v m) ≡ lookup j m
  insert_other k j v m h = ground (arith, lookup-insert k j v m, e.beq_iff k j)

  pub remove-cases :
      (k j : K) (w : V) (m : Map K V)
      → lookup j (remove k m) ≡ some w
      → ¬ (k ≡ j) × (lookup j m ≡ some w)
  remove-cases k j w m h =
      (λ q. ground (arith, lookup-remove k j m, e.beq_iff k j), ground (arith, lookup-remove k j m))

  pub remove_other : (k j : K) (m : Map K V) → ¬ (k ≡ j) → lookup j (remove k m) ≡ lookup j m
  remove_other k j m h = ground (arith, lookup-remove k j m, e.beq_iff k j)

  -- `for v in values_mut() { *v = f(v) }`
  unfoldable pub map_values : (V → V) → Map K V → Map K V
  map_values f [] = []
  map_values f ((k, v) ∷ m) = (k, f v) ∷ map_values f m

  pub lookup-map_values :
      (f : V → V) (k : K) (m : Map K V)
      → lookup k (map_values f m) ≡ (elim (lookup k m) [ none ↦ none | some v ↦ some (f v) ])
  unfolding lookup map_values
  lookup-map_values f k [] = refl
  lookup-map_values f k ((j, v) ∷ m) = ground (arith, lookup-map_values f k m)
