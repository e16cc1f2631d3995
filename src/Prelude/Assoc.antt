-- ===== src/Prelude/Assoc.antt =====
-- Go's maps as association lists: a lookup, an assignment, `delete`.
use mathlib.Core.Path.{◌≡◌, refl}
use mathlib.Core.Bool.{true}
use mathlib.Core.Option.{Option, none, some}
use mathlib.Core.List.{List, [], ◌∷◌}
use native.Mathlib.Omega.{arith}
use quotacontrol.Prelude.Tests.{if◌then◌else◌, Eq, ◌==◌}

abbrev pub Assoc {ℓ κ} : Type ℓ → Type κ → Type (ℓ ⊔ κ)
Assoc K V = List (K × V)

module _ {ℓ κ} {K : Type ℓ} {V : Type κ} ⦃e : Eq K⦄ where
  -- `v, ok := m[key]`
  unfoldable pub lookup : K → Assoc K V → Option V
  lookup key [] = none
  lookup key ((j, old) ∷ m) = if j == key then some old else lookup key m

  -- `delete(m, key)`
  unfoldable pub remove : K → Assoc K V → Assoc K V
  remove key [] = []
  remove key ((j, old) ∷ m) = let rest = remove key m in if j == key then rest else (j, old) ∷ rest

  -- `m[key] = new`
  unfoldable pub insert : K → V → Assoc K V → Assoc K V
  insert key new [] = (key, new) ∷ []
  insert key new ((j, old) ∷ m) = if j == key then (key, new) ∷ m else (j, old) ∷ insert key new m

  pub lookup-insert :
      (key other : K) (new : V) (m : Assoc K V)
      → lookup other (insert key new m) ≡ (if key == other then some new else lookup other m)
  unfolding lookup insert
  lookup-insert key other new [] = refl
  lookup-insert key other new ((j, old) ∷ m) = ground (
    arith,
    lookup-insert key other new m,
    e.same_iff key other,
    e.same_iff j key,
    e.same_iff j other,
  )

  pub lookup-remove :
      (key other : K) (m : Assoc K V)
      → lookup other (remove key m) ≡ (if key == other then none else lookup other m)
  unfolding lookup remove
  lookup-remove key other [] = ground arith
  lookup-remove key other ((j, old) ∷ m) =
      ground (
        arith,
        lookup-remove key other m,
        e.same_iff key other,
        e.same_iff j key,
        e.same_iff j other,
      )

pub beq_self {ℓ} : {K : Type ℓ} ⦃e : Eq K⦄ (k : K) → (k == k) ≡ true
beq_self ⦃e⦄ k = (e.same_iff k k).1 refl
