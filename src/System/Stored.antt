-- ===== src/System/Stored.antt =====
-- A property of states that the transitions of src/machine.rs keep, in the state on disk: what the
-- calls of src/runtime.rs leave of it.
use tauri_plugin_hot_update.Prelude.{ℕ, some, true, List, ◌≡◌, inl, inr, Option-cases, Bool-cases}
use tauri_plugin_hot_update.Prelude.Result.{Result, ok, err}
use tauri_plugin_hot_update.Version.{Order}
use tauri_plugin_hot_update.Machine.{State, BundleMeta, Active, Effect, fresh}
use tauri_plugin_hot_update.Machine.Session.{ack, promote_staged, stage, reset}
use tauri_plugin_hot_update.Machine.Boot.{resolve_boot}
use tauri_plugin_hot_update.Store.{Codec, load_state, update, present_seqs}
use tauri_plugin_hot_update.Store.Disk.{World}
use tauri_plugin_hot_update.Store.Persist.{on_disk, after, load_state-cases, update_atomic}
use tauri_plugin_hot_update.Store.Persist.{on_disk_json, on_disk-load_state}
use tauri_plugin_hot_update.Store.{apply_effects}
use tauri_plugin_hot_update.Store.Disk.{IoError}
use tauri_plugin_hot_update.Machine.Session
use tauri_plugin_hot_update.Machine.Session.{AckOutcome, ApplyDecision}
use tauri_plugin_hot_update.Runtime.{
  App, Shared, Activation, finish_ack, finish_apply, switch_to, after_promotion, finish_reset,
  ack_page, apply_active, notify_app_ready, apply_staged, reset_all,
}
use tauri_plugin_hot_update.Runtime.Booting.{on_disk-clean, state_json-present_seqs}
use tauri_plugin_hot_update.Runtime.Calls.{
  on_disk-apply_effects, notify_app_ready-active, notify_app_ready-reload_pending,
}
use tauri_plugin_hot_update.Runtime.Switching.{reset_all-active, apply_staged-active}

-- The property holds at first, and the transitions keep it, where only bundles with certain metadata
-- are staged; what an ack does to it is left open.
pub record AreClosed {V : Type 0} ⦃o : Order V⦄ (A : BundleMeta V → Type 0) (K : State V → Type 0)
    : Type 0 where
  pub starts : K fresh
  pub boots :
      (s : State V) (shell : V) (present : List ℕ) → K s → K (resolve_boot s shell present).state
  pub promotes :
      (s : State V) (shell : V) (present : List ℕ) → K s → K (promote_staged s shell present).0
  pub stages : (s : State V) (seq : ℕ) (meta : BundleMeta V) → A meta → K s → K (stage s seq meta).0
  pub resets : (s : State V) (shell : V) (a : Active) → K s → K (reset s shell a).0

module _ {V : Type 0} ⦃o : Order V⦄ (c : Codec V) (A : BundleMeta V → Type 0) (K : State V → Type 0)
    (k : AreClosed A K) where
  abbrev pub IsStored : World → Type 0
  IsStored w = K (on_disk c w)

  pub loaded_state : (w : World) → IsStored w → K (load_state c w).0
  loaded_state w h = elim (load_state-cases c w) [ inl e ↦ rw e h | inr e ↦ rw e k.starts ]

  pub after_state {ℓ κ} :
      {E : Type ℓ} {T : Type κ} (r : Result E T) (new old : State V)
      → K new
      → K old
      → K (after r new old)
  after_state (ok x) new old n h = n
  after_state (err x) new old n h = h

  -- a transition that keeps states valid keeps the disk valid
  pub update-IsStored :
      {T : Type 0} (transition : State V → State V × T) (w : World)
      → ((s : State V) → K s → K (transition s).0)
      → IsStored w
      → IsStored (update c transition w).1
  update-IsStored transition w keeps h = rw (update_atomic c transition w).0 (
      after_state (update c transition w).0 (transition (load_state c w).0).0 (on_disk c w)
        (keeps (load_state c w).0 (loaded_state w h)) h)

  finish_ack-IsStored :
      (r : Result IoError (AckOutcome × List Effect)) (sh : Shared V) (w : World)
      → IsStored w
      → IsStored (finish_ack c r sh w).1.world
  finish_ack-IsStored (ok (out, es)) sh w h = rw (on_disk-apply_effects c es w) h
  finish_ack-IsStored (err e) sh w h = h

  finish_apply-IsStored :
      (d : ApplyDecision V) (a : Activation V) (app : App V)
      → IsStored app.world
      → IsStored (finish_apply c d a app).1.world
  unfolding switch_to
  finish_apply-IsStored (Session.applied seq) a app h = rw (on_disk-load_state c app.world) h
  finish_apply-IsStored Session.nothing_staged a app h = h
  finish_apply-IsStored Session.trial_pending a app h = h
  finish_apply-IsStored Session.discarded a app h = h
  finish_apply-IsStored (Session.base_refused r) a app h = h

  after_promotion-IsStored :
      (r : Result IoError (ApplyDecision V × List Effect)) (a : Activation V) (sh : Shared V)
      (w : World)
      → IsStored w
      → IsStored (after_promotion c r a sh w).1.world
  after_promotion-IsStored (err e) a sh w h = h
  after_promotion-IsStored (ok (d, es)) a sh w h =
      finish_apply-IsStored d a (record { shared = sh; world = apply_effects es w })
        (rw (on_disk-apply_effects c es w) h)

  finish_reset-IsStored :
      (r : Result IoError (List Effect)) (sh : Shared V) (w : World)
      → IsStored w
      → IsStored (finish_reset c r sh w).1.world
  finish_reset-IsStored (ok es) sh w h = rw (on_disk-clean c es w) h
  finish_reset-IsStored (err e) sh w h = h

  ack_page-IsStored :
      (a : Activation V) (app : App V)
      → ((s : State V) → K s → K (ack s a.current.active).0)
      → IsStored app.world
      → IsStored (ack_page c a app).1.world
  unfolding ack_page
  ack_page-IsStored a app acks h =
      let transition : State V → State V × (AckOutcome × List Effect) =
        λ s. let acked = ack s a.current.active in (acked.0, (acked.1, acked.2)) in
      let (r, w) = update c transition app.world in
      finish_ack-IsStored r (record app.shared { page_acked = true }) w
        (update-IsStored transition app.world acks h)

  apply_active-IsStored :
      (a : Activation V) (app : App V)
      → IsStored app.world
      → IsStored (apply_active c a app).1.world
  unfolding apply_active
  apply_active-IsStored a app h =
      let (present, w) = present_seqs app.world in
      let transition : State V → State V × (ApplyDecision V × List Effect) = λ s.
        let promoted = promote_staged s a.embedded_version present in
        (promoted.0, (promoted.1, promoted.2)) in
      let listed : on_disk c w ≡ on_disk c app.world =
        on_disk_json c w app.world (state_json-present_seqs app.world) in
      let (r, w') = update c transition w in
      after_promotion-IsStored r a app.shared w' (
        update-IsStored transition w (λ s v. k.promotes s a.embedded_version present v)
          (rw listed h))

  pub reset_all-IsStored : (app : App V) → IsStored app.world → IsStored (reset_all c app).1.world
  reset_all-IsStored app h = elim (Option-cases app.shared.activation) [
    | inl n ↦ unfold reset_all in rw n h
    | inr (a, n) ↦
        let transition = λ (s : State V). reset s a.embedded_version a.current.active in
        let (r, w) = update c transition app.world in
        rw (reset_all-active c a app n) (
          finish_reset-IsStored r app.shared w (
            update-IsStored transition app.world
              (λ s v. k.resets s a.embedded_version a.current.active v) h))
  ]

  pub apply_staged-IsStored :
      (app : App V) → IsStored app.world → IsStored (apply_staged c app).1.world
  apply_staged-IsStored app h = elim (Option-cases app.shared.activation) [
    | inl n ↦ unfold apply_staged in rw n h
    | inr (a, n) ↦ rw (apply_staged-active c a app n) (apply_active-IsStored a app h)
  ]

  pub notify_app_ready-IsStored :
      (app : App V)
      → ((a : Activation V) (s : State V)
          → app.shared.activation ≡ some a
          → K s
          → K (ack s a.current.active).0)
      → IsStored app.world
      → IsStored (notify_app_ready c app).1.world
  notify_app_ready-IsStored app acks h = elim (Option-cases app.shared.activation) [
    | inl n ↦ unfold notify_app_ready in rw n h
    | inr (a, n) ↦ elim (Bool-cases app.shared.reload_pending) [
      | inl y ↦ let same = notify_app_ready-reload_pending c a app n y in rw same.1 h
      | inr f ↦
          rw (notify_app_ready-active c a app n f) (ack_page-IsStored a app (λ s. acks a s n) h)
    ]
  ]
