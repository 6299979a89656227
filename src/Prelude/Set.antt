-- ===== src/Prelude/Set.antt =====
-- `BTreeSet<u64>`: the members in ascending order, each once.
use Prim.Native.Nat.{ℕ, ◌≤◌, compare, Ordering, max}
use mathlib.Core.Path.{◌≡◌, refl}
use mathlib.Core.Bool.{Bool, true, false, ◌||◌}
use mathlib.Core.List.{List, [], ◌∷◌}
use native.Mathlib.Omega.{arith}
use tauri_plugin_hot_update.Prelude.Tests.{◌==◌}

unfoldable pub contains : ℕ → List ℕ → Bool
contains a [] = false
contains a (x ∷ xs) = x == a || contains a xs

unfoldable pub insert : ℕ → List ℕ → List ℕ
insert a [] = a ∷ []
insert a (x ∷ xs) =
    let rest = x ∷ insert a xs in
    elim (compare a x) [ Ordering.lt ↦ a ∷ x ∷ xs | Ordering.eq ↦ x ∷ xs | Ordering.gt ↦ rest ]

unfoldable pub union : List ℕ → List ℕ → List ℕ
unfolding insert
union [] ys = ys
union (x ∷ xs) ys = insert x (union xs ys)

-- `.max().unwrap_or(0)`
unfoldable pub max_or_zero : List ℕ → ℕ
max_or_zero [] = 0
max_or_zero (x ∷ xs) = max x (max_or_zero xs)

pub contains-insert : (a x : ℕ) (xs : List ℕ) → contains a (insert x xs) ≡ (x == a || contains a xs)
unfolding contains insert
contains-insert a x [] = refl
contains-insert a x (y ∷ ys) = ground (arith, contains-insert a x ys)

pub contains-union :
    (a : ℕ) (xs ys : List ℕ) → contains a (union xs ys) ≡ (contains a xs || contains a ys)
unfolding contains union
contains-union a [] ys = refl
contains-union a (x ∷ xs) ys =
    ground (arith, contains-insert a x (union xs ys), contains-union a xs ys)

pub contains-le-max : (a : ℕ) (xs : List ℕ) → contains a xs ≡ true → a ≤ max_or_zero xs
unfolding contains max_or_zero
contains-le-max a [] h = ground arith
contains-le-max a (x ∷ xs) h = ground (arith, contains-le-max a xs)
