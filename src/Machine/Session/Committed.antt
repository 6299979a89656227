-- ===== src/Machine/Session/Committed.antt =====
-- What the transitions of a running app (src/machine.rs) do to the committed bundle.
use tauri_plugin_hot_update.Prelude.{
  ℕ, Option, none, some, List, ◌≡◌, refl, ◌⊎◌, inl, inr, arith, Option-cases,
}
use tauri_plugin_hot_update.Prelude.Map
use tauri_plugin_hot_update.Version.{Order}
use tauri_plugin_hot_update.Machine.{State, BundleMeta, Active, embedded, ota}
use tauri_plugin_hot_update.Machine.Session.{commit, ack, drop_previous, promote_staged, stage}

module _ {V : Type 0} ⦃o : Order V⦄ where
  drop_previous-committed :
      (p : Option ℕ) (s : State V) → (drop_previous p s).0.committed ≡ s.committed
  unfolding drop_previous
  drop_previous-committed none s = refl
  drop_previous-committed (some q) s = ground arith

  -- an ack commits only the bundle on trial, and only by a page of that bundle
  pub ack-committed :
      (q : ℕ) (s : State V) (a : Active)
      → (ack s a).0.committed ≡ some q
      → (s.committed ≡ some q) ⊎ ((a ≡ ota q) × (s.booting ≡ some q))
  unfolding ack
  ack-committed q s embedded e = inl e
  ack-committed q s (ota r) e = ground (arith, drop_previous-committed s.committed (commit r s))

  pub promote_staged-committed :
      (s : State V) (shell : V) (present : List ℕ)
      → (promote_staged s shell present).0.committed ≡ s.committed
  unfolding promote_staged
  promote_staged-committed s shell present = ground arith

  pub stage-committed :
      (s : State V) (seq : ℕ) (meta : BundleMeta V) → (stage s seq meta).0.committed ≡ s.committed
  unfolding stage
  stage-committed s seq meta = ground arith

  pub get-ack :
      (q : ℕ) (s : State V) (a : Active) (meta : BundleMeta V)
      → Map.get q (ack s a).0.versions ≡ some meta
      → Map.get q s.versions ≡ some meta
  unfolding ack drop_previous
  get-ack q s embedded meta e = e
  get-ack q s (ota r) meta e = elim (Option-cases s.committed) [
    | inl n ↦ ground arith
    | inr (prev, n) ↦ ground (arith, Map.get-remove q prev s.versions)
  ]
