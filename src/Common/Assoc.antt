-- ===== src/Common/Assoc.antt =====
-- `std::unordered_map` and `std::map` as association lists with one entry per key, under the `==`
-- of the key's type.
use kvstorage.Base.{
  Bool, true, if◌then◌else◌, List, [], ◌∷◌, Option, none, some, ◌≡◌, arith, ◌↔◌, ◌≢◌,
}

module _ {ℓ κ} {A : Type ℓ} {B : Type κ} (eq : A → A → Bool) where
  abbrev pub lookup : List (A × B) → A → Option B
  lookup [] k = none
  lookup ((a, b) ∷ m) k = if eq a k then some b else lookup m k

  -- `m[k] = v`
  abbrev pub assign : List (A × B) → A → B → List (A × B)
  assign [] k v = (k, v) ∷ []
  assign ((a, b) ∷ m) k v = if eq a k then (a, v) ∷ m else (a, b) ∷ assign m k v

  abbrev pub erase : List (A × B) → A → List (A × B)
  erase [] k = []
  erase ((a, b) ∷ m) k = if eq a k then m else (a, b) ∷ erase m k

  pub lookup-assign_self :
      ((a : A) → eq a a ≡ true)
      → (m : List (A × B)) (k : A) (v : B) → lookup (assign m k v) k ≡ some v
  lookup-assign_self r [] k v = ground (arith, r k)
  lookup-assign_self r ((a, b) ∷ m) k v = ground (arith, lookup-assign_self r m k v)

  pub lookup-assign_ne :
      ((a b : A) → (eq a b ≡ true) ↔ (a ≡ b))
      → (m : List (A × B)) (k j : A) (v : B) → k ≢ j
      → lookup (assign m k v) j ≡ lookup m j
  lookup-assign_ne r [] k j v h = ground (arith, r k j, h)
  lookup-assign_ne r ((a, b) ∷ m) k j v h =
      ground (arith, lookup-assign_ne r m k j v h, r a k, r a j, h)
