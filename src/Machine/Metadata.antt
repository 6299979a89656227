-- ===== src/Machine/Metadata.antt =====
-- Where the metadata of a bundle in a state of src/machine.rs comes from.
use tauri_plugin_hot_update.Prelude.{
  ℕ, some, List, ◌≡◌, ◌⊎◌, inl, inr, arith, Bool-cases, Option-cases,
}
use tauri_plugin_hot_update.Prelude.Map
use tauri_plugin_hot_update.Version.{Order}
use tauri_plugin_hot_update.Machine.{State, BundleMeta}
use tauri_plugin_hot_update.Machine.Boot.{resolve_boot, promote, before_promotion}
use tauri_plugin_hot_update.Machine.Boot.Sweep.{get-collect_garbage}
use tauri_plugin_hot_update.Machine.Boot.Serving.{versions-promote, versions-before_promotion}
use tauri_plugin_hot_update.Machine.Invariant.{IsValid}
use tauri_plugin_hot_update.Machine.Session.{promote_staged, stage}
use tauri_plugin_hot_update.Machine.Session.Staging.{passes_gates, stage-accepted, stage-refusal}

module _ {V : Type 0} ⦃o : Order V⦄ (q : ℕ) (meta : BundleMeta V) where
  pub get-resolve_boot :
      (s : State V) (shell : V) (present : List ℕ)
      → Map.get q (resolve_boot s shell present).state.versions ≡ some meta
      → Map.get q s.versions ≡ some meta
  unfolding resolve_boot
  get-resolve_boot s shell present e =
      let before = before_promotion s shell present in
      ground (
        arith,
        get-collect_garbage q (promote before shell present).0 present,
        versions-promote before shell present,
        versions-before_promotion s shell present,
      )

  pub get-promote_staged :
      (s : State V) (shell : V) (present : List ℕ)
      → Map.get q (promote_staged s shell present).0.versions ≡ some meta
      → Map.get q s.versions ≡ some meta
  unfolding promote_staged
  get-promote_staged s shell present e = elim (Option-cases s.staged) [
    | inl n ↦ ground arith
    | inr (r, n) ↦ ground (arith, Map.get-remove q r s.versions)
  ]

  -- Only a bundle that is staged gets metadata, and gets that of its manifest.
  pub get-stage :
      (s : State V) (seq : ℕ) (new : BundleMeta V)
      → Map.get q (stage s seq new).0.versions ≡ some meta
      → (Map.get q s.versions ≡ some meta) ⊎ (new ≡ meta)
  get-stage s seq new e = elim (Bool-cases (passes_gates s seq new)) [
    | inl y ↦ let (_, _, _, _, _, _, _, _, _, v) = stage-accepted s seq new y in ground (arith, v q)
    | inr n ↦ let (_, r, _) = stage-refusal s seq new n in inl (ground arith)
  ]

module _ {V : Type 0} ⦃o : Order V⦄ where
  -- In a well-formed state, the bundle on trial and the committed one have metadata.
  pub pointed_meta :
      (q : ℕ) (s : State V)
      → IsValid s
      → (s.booting ≡ some q) ⊎ (s.committed ≡ some q)
      → (meta : BundleMeta V) × (Map.get q s.versions ≡ some meta)
  pointed_meta q s h p = elim (Option-cases (Map.get q s.versions)) [
    | inr (meta, e) ↦ (meta, e)
    | inl n ↦ elim p [
      | inl b ↦ absurd (ground (arith, h.booting_candidate))
      | inr b ↦ absurd (ground (arith, h.committed_past))
    ]
  ]
