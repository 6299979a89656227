-- ===== src/Runtime/Booting.antt =====
-- What `initialize` (src/runtime.rs) serves, against what is on disk when it returns.
use tauri_plugin_hot_update.Prelude.{
  ℕ, none, some, List, ◌≡◌, refl, arith, ◌⊎◌, inl, inr, ◌∙◌, or_else,
}
use tauri_plugin_hot_update.Prelude.Result.{Result, ok, err}
use tauri_plugin_hot_update.Version.{Order}
use tauri_plugin_hot_update.Machine.{State, Active, embedded, ota, Effect, fresh}
use tauri_plugin_hot_update.Machine.Boot.{BootOutcome, resolve_boot, source_of}
use tauri_plugin_hot_update.Store.{
  Codec, load_state, save_state, present_seqs, apply_effects, sweep_foreign_entries,
}
use tauri_plugin_hot_update.Store.Disk.{World, IoError, read_bundles}
use tauri_plugin_hot_update.Store.Persist.{
  on_disk, after, load_state-on_disk, save_state_atomic, on_disk-load_state, on_disk_json,
}
use tauri_plugin_hot_update.Store.Names.{bundle_name}
use tauri_plugin_hot_update.Store.Deletion.{
  state_json-apply_effects, state_json-sweep_foreign_entries,
}
use tauri_plugin_hot_update.Runtime.{Activation, App, current_of, boot_from, initialize, served}

module _ {V : Type 0} ⦃o : Order V⦄ where
  -- the source of a launch is what its state points to
  active-pointers :
      (s : State V) (shell : V) (present : List ℕ)
      → (resolve_boot s shell present).active
        ≡ source_of (
            or_else
              (resolve_boot s shell present).state.booting
              (resolve_boot s shell present).state.committed)
  unfolding resolve_boot
  active-pointers s shell present = refl

  -- a launch commits nothing
  pub committed-resolve_boot :
      (s : State V) (shell : V) (present : List ℕ) (q : ℕ)
      → (resolve_boot s shell present).state.committed ≡ some q
      → s.committed ≡ some q
  unfolding resolve_boot
  committed-resolve_boot s shell present q e = ground arith

pub Active-cases : (a : Active) → (a ≡ embedded) ⊎ ((q : ℕ) × (a ≡ ota q))
Active-cases embedded = inl refl
Active-cases (ota q) = inr (q, refl)

fresh-committed : (V : Type 0) → (fresh {V = V}).committed ≡ none
unfolding fresh
fresh-committed V = refl

pub state_json-present_seqs : (w : World) → (present_seqs w).1.state_json ≡ w.state_json
unfolding present_seqs read_bundles
state_json-present_seqs w = refl

module _ {V : Type 0} ⦃o : Order V⦄ (c : Codec V) where
  pub on_disk-clean :
      (es : List Effect) (w : World)
      → on_disk c (sweep_foreign_entries (apply_effects es w)) ≡ on_disk c w
  on_disk-clean es w =
      on_disk_json c (sweep_foreign_entries (apply_effects es w)) w
        (state_json-sweep_foreign_entries (apply_effects es w) ∙ state_json-apply_effects es w)

  served_persisted :
      (r : Result IoError (Unit {0})) (outcome : BootOutcome V) (w : World) (old : State V) (q : ℕ)
      → on_disk c w ≡ after r outcome.state old
      → outcome.active ≡ source_of (or_else outcome.state.booting outcome.state.committed)
      → (outcome.state.committed ≡ some q → old.committed ≡ some q)
      → (served c r outcome w).0 ≡ ota q
      → ((on_disk c (served c r outcome w).1).booting ≡ some q)
        ⊎ ((on_disk c (served c r outcome w).1).committed ≡ some q)
  served_persisted (ok u) outcome w old q d a k e = ground (arith, on_disk-clean outcome.effects w)
  served_persisted (err x) outcome w old q d a k e = inr (ground arith)

  loaded-committed :
      (w : World) (q : ℕ) → (load_state c w).0.committed ≡ some q → (on_disk c w).committed ≡ some q
  loaded-committed w q e = ground (arith, load_state-on_disk c w, fresh-committed V)

  -- A bundle that a launch serves is the one on trial or the committed one in the state that is on
  -- disk when the launch is over, whatever calls failed. So no trial starts without its mark on disk.
  pub boot_from-persisted :
      (shell : V) (w : World) (q : ℕ)
      → (boot_from c shell w).0 ≡ ota q
      → ((on_disk c (boot_from c shell w).2).booting ≡ some q)
        ⊎ ((on_disk c (boot_from c shell w).2).committed ≡ some q)
  unfolding boot_from
  boot_from-persisted shell w q e =
      let s = (load_state c w).0 in
      let w₁ = (load_state c w).1 in
      let present = (present_seqs w₁).0 in
      let w₂ = (present_seqs w₁).1 in
      let outcome = resolve_boot s shell present in
      let saved = save_state c outcome.state w₂ in
      let kept : on_disk c w₂ ≡ on_disk c w =
        on_disk_json c w₂ w₁ (state_json-present_seqs w₁) ∙ on_disk-load_state c w in
      served_persisted saved.0 outcome saved.1 (on_disk c w₂) q
        (save_state_atomic c outcome.state w₂).0 (active-pointers s shell present)
        (λ k. rw kept (loaded-committed w q (committed-resolve_boot s shell present q k))) e

  -- `initialize` of a process that is not active yet: the bundle that it serves, from that bundle's
  -- own directory, is on trial or committed in the state that is on disk when it returns.
  pub initialize-persisted :
      (shell : V) (app : App V) (a : Activation V) (q : ℕ)
      → app.shared.activation ≡ none
      → (initialize c shell app).shared.activation ≡ some a
      → a.current.active ≡ ota q
      → (a.current.active_dir ≡ some (bundle_name q))
        × (((on_disk c (initialize c shell app).world).booting ≡ some q)
            ⊎ ((on_disk c (initialize c shell app).world).committed ≡ some q))
  unfolding initialize current_of
  initialize-persisted shell app a q n e k = elim (Active-cases (boot_from c shell app.world).0) [
    | inl m ↦ absurd (ground arith)
    | inr (r, m) ↦ (ground arith, ground (arith, boot_from-persisted shell app.world q))
  ]

  -- A second `initialize` leaves the first activation in place.
  pub initialize_again :
      (shell shell' : V) (app : App V)
      → (initialize c shell' (initialize c shell app)).shared ≡ (initialize c shell app).shared
  unfolding initialize
  initialize_again shell shell' app = ground arith
