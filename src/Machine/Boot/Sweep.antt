-- ===== src/Machine/Boot/Sweep.antt =====
-- Step 6 of `resolve_boot`: what the garbage collection keeps and deletes.
use tauri_plugin_hot_update.Prelude.{
  ℕ, Bool, false, not, ◌&&◌, ◌||◌, none, List, [], ◌∷◌, ◌==◌, ◌≡◌, refl, arith, if◌then◌else◌,
}
use tauri_plugin_hot_update.Prelude.Set
use tauri_plugin_hot_update.Prelude.Map
use tauri_plugin_hot_update.Prelude.Map.{Map}
use tauri_plugin_hot_update.Version.{Order}
use tauri_plugin_hot_update.Machine.{BundleMeta, State, Effect, delete_bundle, referenced}
use tauri_plugin_hot_update.Machine.Boot.{sweep, collect_garbage}

-- the seqs that a list of effects deletes
abbrev pub deletes : ℕ → List Effect → Bool
deletes q [] = false
deletes q (delete_bundle r ∷ es) = r == q || deletes q es

module _ {V : Type 0} ⦃o : Order V⦄ where
  get-sweep :
      (q : ℕ) (qs kept present : List ℕ) (m : Map (BundleMeta V))
      → Map.get q (sweep qs kept present m).0
        ≡ (if Set.contains q qs && not (Set.contains q kept) then none else Map.get q m)
  unfolding sweep Set.contains
  get-sweep q [] kept present m = refl
  get-sweep q (x ∷ qs) kept present m = ground (
    arith,
    get-sweep q qs kept present m,
    get-sweep q qs kept present (Map.remove x m),
    Map.get-remove q x m,
  )

  deletes-sweep :
      (q : ℕ) (qs kept present : List ℕ) (m : Map (BundleMeta V))
      → deletes q (sweep qs kept present m).1
        ≡ (Set.contains q qs && not (Set.contains q kept) && Set.contains q present)
  unfolding sweep Set.contains
  deletes-sweep q [] kept present m = refl
  deletes-sweep q (x ∷ qs) kept present m =
      ground
        (arith, deletes-sweep q qs kept present m, deletes-sweep q qs kept present (Map.remove x m))

  -- Metadata survives exactly for the seqs that a pointer names.
  pub get-collect_garbage :
      (q : ℕ) (s : State V) (present : List ℕ)
      → Map.get q (collect_garbage s present).0.versions
        ≡ (if Set.contains q (referenced s) then Map.get q s.versions else none)
  unfolding collect_garbage
  get-collect_garbage q s present = ground (
    arith,
    get-sweep q (Set.union present (Map.keys s.versions)) (referenced s) present s.versions,
    Set.contains-union q present (Map.keys s.versions),
    Map.contains-keys q s.versions,
  )

  -- A directory is deleted exactly if it is there and no pointer names it.
  pub deletes-collect_garbage :
      (q : ℕ) (s : State V) (present : List ℕ)
      → deletes q (collect_garbage s present).1
        ≡ (Set.contains q present && not (Set.contains q (referenced s)))
  unfolding collect_garbage
  deletes-collect_garbage q s present = ground (
    arith,
    deletes-sweep q (Set.union present (Map.keys s.versions)) (referenced s) present s.versions,
    Set.contains-union q present (Map.keys s.versions),
  )
