-- ===== src/Machine/Boot/Serving.antt =====
-- What `resolve_boot` (src/machine.rs) serves, and what it deletes.
use tauri_plugin_hot_update.Prelude.{
  ℕ, true, false, Option, none, some, List, ◌≡◌, refl, arith, Option-cases, inl, inr, or_else, ◌∙◌,
}
use tauri_plugin_hot_update.Prelude.Set
use tauri_plugin_hot_update.Prelude.Map
use tauri_plugin_hot_update.Version.{Order, newer, newer_trans}
use tauri_plugin_hot_update.Machine.{BundleMeta, State, referenced, ota}
use tauri_plugin_hot_update.Machine.Boot.{
  above_watermark, settle_pointer, ota_beats_embedded, may_arm, try_arm, promote_pointers, promote,
  before_promotion, resolve_boot, source_of,
}
use tauri_plugin_hot_update.Machine.Boot.Sweep.{
  get-collect_garbage, deletes-collect_garbage, deletes,
}
use tauri_plugin_hot_update.Machine.Boot.Valid.{
  is_servable, settle_pointer-servable, at_most-raise_self,
}
use tauri_plugin_hot_update.Machine.Invariant.{contains-referenced, every, at_most_watermark}

module _ {V : Type 0} ⦃o : Order V⦄ where
  servable_meta :
      (shell : V) (present : List ℕ) (s : State V) (q : ℕ)
      → is_servable shell present s q ≡ true
      → (m : BundleMeta V) × (Map.get q s.versions ≡ some m)
        × ((newer m.version shell ≡ true) × (Set.contains q present ≡ true))
  unfolding ota_beats_embedded
  servable_meta shell present s q h = elim (Option-cases (Map.get q s.versions)) [
    | inl n ↦ absurd (ground arith)
    | inr (m, n) ↦ (m, n, ground arith)
  ]

  -- after steps 1 to 3: both sources can be served, and the watermark covers the shell
  record IsServable (s : State V) (shell : V) (present : List ℕ) : Type 0 where
    booting_servable : every s.booting (is_servable shell present s) ≡ true
    committed_servable : every s.committed (is_servable shell present s) ≡ true
    covered : at_most_watermark s.max_version_seen shell ≡ true

  before_promotion-IsServable :
      (s : State V) (shell : V) (present : List ℕ)
      → IsServable (before_promotion s shell present) shell present
  unfolding before_promotion
  before_promotion-IsServable s shell present = record {
    booting_servable = settle_pointer-servable s.booting s shell present refl;
    committed_servable = ground arith;
    covered =
        at_most-raise_self (settle_pointer s.booting s shell present).0.max_version_seen shell;
  }

  above-servable :
      (seen : Option V) (v shell : V)
      → at_most_watermark seen shell ≡ true
      → above_watermark seen v ≡ true
      → newer v shell ≡ true
  above-servable none v shell h k = ground arith
  above-servable (some w) v shell h k = newer_trans v w shell k h

  try_arm-IsServable :
      (seq : ℕ) (s : State V) (shell : V) (present : List ℕ)
      → s.booting ≡ none
      → IsServable s shell present
      → IsServable (try_arm seq s shell present).0 shell present
  unfolding try_arm may_arm ota_beats_embedded
  try_arm-IsServable seq s shell present e h = elim (Option-cases (Map.get seq s.versions)) [
    | inl n ↦ ground arith
    | inr (m, n) ↦ ground (arith, above-servable s.max_version_seen m.version shell)
  ]

  promote_pointers-IsServable :
      (b p : Option ℕ) (s : State V) (shell : V) (present : List ℕ)
      → s.booting ≡ b
      → IsServable s shell present
      → IsServable (promote_pointers b p s shell present).0 shell present
  promote_pointers-IsServable (some _) p s shell present e h = h
  promote_pointers-IsServable none none s shell present e h = h
  promote_pointers-IsServable none (some seq) s shell present e h =
      try_arm-IsServable seq s shell present e h

  promoted-IsServable :
      (s : State V) (shell : V) (present : List ℕ)
      → IsServable (promote (before_promotion s shell present) shell present).0 shell present
  unfolding promote
  promoted-IsServable s shell present =
      let before = before_promotion s shell present in
      promote_pointers-IsServable before.booting before.staged before shell present refl
        (before_promotion-IsServable s shell present)

  servable-source :
      (s : State V) (shell : V) (present : List ℕ) (q : ℕ)
      → IsServable s shell present
      → source_of (or_else s.booting s.committed) ≡ ota q
      → (is_servable shell present s q ≡ true) × (Set.contains q (referenced s) ≡ true)
  servable-source s shell present q h e = ground (arith, contains-referenced q s)

  -- A bundle that a launch serves is on disk, has metadata, is newer than the embedded frontend,
  -- and is not among the directories that the launch deletes.
  pub resolve_boot-serves_present :
      (s : State V) (shell : V) (present : List ℕ) (q : ℕ)
      → (resolve_boot s shell present).active ≡ ota q
      → (m : BundleMeta V) × (Map.get q (resolve_boot s shell present).state.versions ≡ some m)
        × (newer m.version shell ≡ true)
        × (Set.contains q present ≡ true)
        × (deletes q (resolve_boot s shell present).effects ≡ false)
  unfolding resolve_boot
  resolve_boot-serves_present s shell present q e =
      let promoted = (promote (before_promotion s shell present) shell present).0 in
      let (servable, named) =
        servable-source promoted shell present q (promoted-IsServable s shell present) e in
      let (m, found, rest) = servable_meta shell present promoted q servable in
      (
        m,
        (get-collect_garbage q promoted present ∙ ground (arith, named, found)),
        rest.0,
        rest.1,
        ground (arith, deletes-collect_garbage q promoted present, named),
      )

  pub versions-before_promotion :
      (s : State V) (shell : V) (present : List ℕ)
      → (before_promotion s shell present).versions ≡ s.versions
  unfolding before_promotion
  versions-before_promotion s shell present = ground arith

  pub versions-promote :
      (s : State V) (shell : V) (present : List ℕ)
      → (promote s shell present).0.versions ≡ s.versions
  unfolding promote
  versions-promote s shell present = ground arith
