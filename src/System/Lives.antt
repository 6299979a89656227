-- ===== src/System/Lives.antt =====
-- The state on disk through any life of an install: calls of src/runtime.rs, src/update.rs,
-- src/recovery.rs and src/lib.rs, and launches.
use tauri_plugin_hot_update.Prelude.{
  Bool, true, false, some, refl, List, [], ◌∷◌, ◌≡◌, inl, inr, Bool-cases, arith, ◌∙◌,
}
use tauri_plugin_hot_update.Prelude.Result.{Result, ok, err}
use tauri_plugin_hot_update.Version.{Order}
use tauri_plugin_hot_update.Error.{Error}
use tauri_plugin_hot_update.Machine.{State, BundleMeta}
use tauri_plugin_hot_update.Manifest.{Manifest}
use tauri_plugin_hot_update.Update.{meta_of}
use tauri_plugin_hot_update.Update.Pipeline.{fetch_with_client}
use tauri_plugin_hot_update.Machine.Session.{ack}
use tauri_plugin_hot_update.Machine.Session.Valid.{
  ack-IsValid, promote_staged-IsValid, stage-IsValid,
}
use tauri_plugin_hot_update.Machine.Invariant.{IsValid, fresh-IsValid, reset-IsValid}
use tauri_plugin_hot_update.Machine.Boot.{BootOutcome, resolve_boot}
use tauri_plugin_hot_update.Machine.Boot.Valid.{resolve_boot-IsValid}
use tauri_plugin_hot_update.Store.{Codec, load_state, save_state, present_seqs}
use tauri_plugin_hot_update.Store.Disk.{World, IoError}
use tauri_plugin_hot_update.Store.Persist.{
  on_disk, on_disk_json, on_disk-load_state, save_state_atomic,
}
use tauri_plugin_hot_update.Runtime.{
  App, Activation, ApplyOutcome, applied, nothing_staged, trial_pending, not_applicable,
  apply_staged, served, boot_from, initialize,
}
use tauri_plugin_hot_update.Runtime.Booting.{on_disk-clean, state_json-present_seqs}
use tauri_plugin_hot_update.Recovery.{after_apply, switch}
use tauri_plugin_hot_update.Plugin.{on_page_load}
use tauri_plugin_hot_update.System.{
  Call, acks, applies, resets, recovers, loads, checks, downloads, Step, calls, launches,
  new_shared, perform, advance, live, is_ack, is_ack_step,
}
use tauri_plugin_hot_update.System.Stored.{
  AreClosed, IsStored, loaded_state, after_state, notify_app_ready-IsStored, apply_staged-IsStored,
  reset_all-IsStored,
}
use tauri_plugin_hot_update.System.Staging.{check-IsStored, check_and_download-IsStored}

-- the step downloads under this manifest, which the pipeline has verified
abbrev pub IsFetchedBy : {V : Type 0} → Manifest V → Step V → Type 0
IsFetchedBy m (calls (downloads x config names)) = fetch_with_client x config ≡ ok m
IsFetchedBy m _ = ⊥

module _ {V : Type 0} ⦃o : Order V⦄ (c : Codec V) (A : BundleMeta V → Type 0) (K : State V → Type 0)
    (k : AreClosed A K) where
  after_apply-IsStored :
      (r : Result (Error V) (ApplyOutcome V)) (app : App V)
      → IsStored c A K k app.world
      → IsStored c A K k (after_apply (r, app)).1.world
  after_apply-IsStored (err e) app h = h
  after_apply-IsStored (ok (applied q v)) app h = h
  after_apply-IsStored (ok nothing_staged) app h = h
  after_apply-IsStored (ok trial_pending) app h = h
  after_apply-IsStored (ok not_applicable) app h = h

  switch-IsStored :
      (app : App V) → IsStored c A K k app.world → IsStored c A K k (switch c app).1.world
  unfolding switch
  switch-IsStored app h = elim (Bool-cases app.shared.page_acked) [
    | inl y ↦ let idle : (switch c app).1 ≡ app = ground arith in rw idle h
    | inr n ↦
        let (r, app') = apply_staged c app in
        let there : switch c app ≡ after_apply (r, app') = ground arith in
        rw there (after_apply-IsStored r app' (apply_staged-IsStored c A K k app h))
  ]

  on_page_load-IsStored :
      (started : Bool) (app : App V)
      → IsStored c A K k app.world
      → IsStored c A K k (on_page_load started app).world
  unfolding on_page_load
  on_page_load-IsStored true app h = h
  on_page_load-IsStored false app h = h

  served-IsStored :
      (r : Result IoError (Unit {0})) (outcome : BootOutcome V) (w : World)
      → IsStored c A K k w
      → IsStored c A K k (served c r outcome w).1
  served-IsStored (ok _) outcome w h = rw (on_disk-clean c outcome.effects w) h
  served-IsStored (err e) outcome w h = h

  boot_from-IsStored :
      (shell : V) (w : World) → IsStored c A K k w → IsStored c A K k (boot_from c shell w).2
  unfolding boot_from
  boot_from-IsStored shell w h =
      let (s, w₁) = load_state c w in
      let (present, w₂) = present_seqs w₁ in
      let outcome = resolve_boot s shell present in
      let kept : on_disk c w₂ ≡ on_disk c w =
        on_disk_json c w₂ w₁ (state_json-present_seqs w₁) ∙ on_disk-load_state c w in
      let (saved, w₃) = save_state c outcome.state w₂ in
      served-IsStored saved outcome w₃ (
        rw (save_state_atomic c outcome.state w₂).0 (
          after_state c A K k saved outcome.state (on_disk c w₂)
            (k.boots s shell present (loaded_state c A K k w h)) (rw kept h)))

  pub initialize-IsStored :
      (shell : V) (app : App V)
      → IsStored c A K k app.world
      → IsStored c A K k (initialize c shell app).world
  unfolding initialize
  initialize-IsStored shell app h = boot_from-IsStored shell app.world h

  perform-IsStored :
      (call : Call V) (app : App V)
      → (is_ack call ≡ true
          → (a : Activation V) (s : State V) → app.shared.activation ≡ some a
          → K s
          → K (ack s a.current.active).0)
      → ((m : Manifest V) → IsFetchedBy m (calls call) → A (meta_of m))
      → IsStored c A K k app.world
      → IsStored c A K k (perform c call app).world
  unfolding perform
  perform-IsStored acks app acked allowed h = notify_app_ready-IsStored c A K k app (acked refl) h
  perform-IsStored applies app acked allowed h = apply_staged-IsStored c A K k app h
  perform-IsStored resets app acked allowed h = reset_all-IsStored c A K k app h
  perform-IsStored recovers app acked allowed h = switch-IsStored app h
  perform-IsStored (loads started) app acked allowed h = on_page_load-IsStored started app h
  perform-IsStored (checks x config) app acked allowed h = check-IsStored c A K k x config app h
  perform-IsStored (downloads x config names) app acked allowed h =
      check_and_download-IsStored c A K k x config allowed names app h

  -- What the transitions keep, a step of an install keeps in the state on disk, whatever it is
  -- answered from outside and wherever a call of the operating system fails.
  pub advance-IsStored :
      (s : Step V) (app : App V)
      → (is_ack_step s ≡ true
          → (a : Activation V) (t : State V) → app.shared.activation ≡ some a
          → K t
          → K (ack t a.current.active).0)
      → ((m : Manifest V) → IsFetchedBy m s → A (meta_of m))
      → K (on_disk c app.world)
      → K (on_disk c (advance c s app).world)
  unfolding advance
  advance-IsStored (calls call) app acked allowed h = perform-IsStored call app acked allowed h
  advance-IsStored (launches shell) app acked allowed h =
      initialize-IsStored shell (record app { shared = new_shared }) h

module _ {V : Type 0} ⦃o : Order V⦄ (c : Codec V) where
  IsValid-closed : AreClosed (λ _. Unit {0}) (λ (s : State V). IsValid s)
  IsValid-closed = record {
    starts = fresh-IsValid;
    boots = λ s shell present h. resolve_boot-IsValid s shell present h;
    promotes = λ s shell present h. promote_staged-IsValid s shell present h;
    stages = λ s seq meta _ h. stage-IsValid s seq meta h;
    resets = λ s shell a h. reset-IsValid s shell a;
  }

  pub advance-IsValid :
      (s : Step V) (app : App V)
      → IsValid (on_disk c app.world)
      → IsValid (on_disk c (advance c s app).world)
  advance-IsValid s app h =
      advance-IsStored c (λ _. Unit {0}) (λ t. IsValid t) IsValid-closed s app
        (λ _ a t _ v. ack-IsValid t a.current.active v) (λ m _. tt) h

  -- The state on disk stays well formed through any life of an install: any launches of any shells,
  -- and any calls in any order, whatever they are answered from outside, wherever a call of the
  -- operating system fails.
  pub live-IsValid :
      (steps : List (Step V)) (app : App V)
      → IsValid (on_disk c app.world)
      → IsValid (on_disk c (live c steps app).world)
  unfolding live
  live-IsValid [] app h = h
  live-IsValid (s ∷ steps) app h = live-IsValid steps (advance c s app) (advance-IsValid s app h)
