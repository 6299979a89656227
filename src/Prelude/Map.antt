-- ===== src/Prelude/Map.antt =====
-- `BTreeMap<u64, A>`: the entries in ascending order of their keys, each key once.
use Prim.Native.Nat.{ℕ, compare, Ordering}
use mathlib.Core.Path.{◌≡◌, refl}
use mathlib.Core.Option.{Option, none, some}
use mathlib.Core.List.{List, [], ◌∷◌}
use native.Mathlib.Omega.{arith}
use tauri_plugin_hot_update.Prelude.Tests.{◌==◌, if◌then◌else◌, is_some}
use tauri_plugin_hot_update.Prelude.Set.{contains}

abbrev pub Map {ℓ} : Type ℓ → Type ℓ
Map A = List (ℕ × A)

module _ {ℓ} {A : Type ℓ} where
  unfoldable pub get : ℕ → Map A → Option A
  get k [] = none
  get k ((j, v) ∷ m) = if j == k then some v else get k m

  unfoldable pub put : ℕ → A → Map A → Map A
  put k v [] = (k, v) ∷ []
  put k v ((j, w) ∷ m) =
      let rest = (j, w) ∷ put k v m in
      elim (compare k j) [
        | Ordering.lt ↦ (k, v) ∷ (j, w) ∷ m
        | Ordering.eq ↦ (k, v) ∷ m
        | Ordering.gt ↦ rest
      ]

  unfoldable pub remove : ℕ → Map A → Map A
  remove k [] = []
  remove k ((j, v) ∷ m) = let rest = remove k m in if j == k then rest else (j, v) ∷ rest

  unfoldable pub keys : Map A → List ℕ
  keys [] = []
  keys ((j, v) ∷ m) = j ∷ keys m

  pub get-put :
      (j k : ℕ) (v : A) (m : Map A) → get j (put k v m) ≡ (if k == j then some v else get j m)
  unfolding get put
  get-put j k v [] = refl
  get-put j k v ((i, w) ∷ m) = ground (arith, get-put j k v m)

  pub get-remove : (j k : ℕ) (m : Map A) → get j (remove k m) ≡ (if k == j then none else get j m)
  unfolding get remove
  get-remove j k [] = ground arith
  get-remove j k ((i, w) ∷ m) = ground (arith, get-remove j k m)

  pub contains-keys : (k : ℕ) (m : Map A) → contains k (keys m) ≡ is_some (get k m)
  unfolding contains keys get
  contains-keys k [] = refl
  contains-keys k ((j, v) ∷ m) = ground (arith, contains-keys k m)
