-- ===== src/System/Committed.antt =====
-- How a bundle comes to be committed on disk in the life of an install: src/machine.rs and
-- src/runtime.rs under all that the plugin does.
use tauri_plugin_hot_update.Prelude.{
  ℕ, true, false, some, List, [], ◌∷◌, ◌≡◌, refl, sym, ◌∙◌, ◌⊎◌, inl, inr, arith, Option-cases,
  Bool-cases,
}
use tauri_plugin_hot_update.Prelude.Result.{Result, ok, err}
use tauri_plugin_hot_update.Version.{Order}
use tauri_plugin_hot_update.Error.{Error}
use tauri_plugin_hot_update.Machine.{State, fresh}
use tauri_plugin_hot_update.Machine.Session.{AckOutcome, ack, reset}
use tauri_plugin_hot_update.Machine.Session.Committed.{
  ack-committed, promote_staged-committed, stage-committed,
}
use tauri_plugin_hot_update.Store.{Codec, load_state}
use tauri_plugin_hot_update.Store.Disk.{World}
use tauri_plugin_hot_update.Store.Persist.{on_disk, after, load_state-cases}
use tauri_plugin_hot_update.Runtime.{App, notify_app_ready}
use tauri_plugin_hot_update.Runtime.Booting.{committed-resolve_boot}
use tauri_plugin_hot_update.Runtime.Calls.{notify_app_ready-acks, notify_app_ready-reload_pending}
use tauri_plugin_hot_update.System.{
  acks, applies, resets, recovers, loads, checks, downloads, Step, calls, launches, perform,
  advance, live, is_ack_step,
}
use tauri_plugin_hot_update.System.Stored.{AreClosed}
use tauri_plugin_hot_update.System.Lives.{advance-IsStored}
use tauri_plugin_hot_update.System.Serving.{IsServing}
use tauri_plugin_hot_update.System.Pages.{Page, served_source, turn, IsCurrent, advance-IsCurrent}
use tauri_plugin_hot_update.Machine.{ota}

module _ {V : Type 0} ⦃o : Order V⦄ (c : Codec V) (q : ℕ) where
  -- The step is an ack by a process that serves the bundle, which is on trial on disk. No reload is
  -- pending.
  abbrev IsAckOf : Step V → App V → Type 0
  IsAckOf (calls acks) app =
      IsServing q app
      × (app.shared.reload_pending ≡ false)
      × ((on_disk c app.world).booting ≡ some q)
  IsAckOf _ app = ⊥

  -- The step is an ack that is sent while the bundle is on trial on disk, with no reload pending, by
  -- a page that was loaded from the bundle, or by a page after whose load an `apply` has switched, in a
  -- process that serves the bundle.
  abbrev pub IsAckFrom : Step V → App V → Page → Type 0
  IsAckFrom (calls acks) app p =
      (app.shared.reload_pending ≡ false)
      × ((on_disk c app.world).booting ≡ some q)
      × ((p.source ≡ some (ota q)) ⊎ ((p.switched ≡ true) × IsServing q app))
  IsAckFrom _ app p = ⊥

  -- one of the steps is such an ack, with the page that is there before it
  abbrev pub IsAckedIn : List (Step V) → App V → Page → Type 0
  IsAckedIn [] app p = ⊥
  IsAckedIn (s ∷ steps) app p =
      IsAckFrom s app p ⊎ IsAckedIn steps (advance c s app) (turn c s app p)

  committed-closed :
      (P : Type 0) → AreClosed (λ _. Unit {0}) (λ (s : State V). s.committed ≡ some q → P)
  committed-closed P = record {
    starts = λ e. absurd (unfold fresh in ground arith);
    boots = λ s shell present h e. h (committed-resolve_boot s shell present q e);
    promotes = λ s shell present h e. h (sym (promote_staged-committed s shell present) ∙ e);
    stages = λ s seq meta _ h e. h (sym (stage-committed s seq meta) ∙ e);
    resets = λ s shell a h e. absurd (unfold reset fresh in ground arith);
  }

  loaded-trial :
      (w : World)
      → ((load_state c w).0.committed ≡ some q → (on_disk c w).committed ≡ some q)
        × ((load_state c w).0.booting ≡ some q → (on_disk c w).booting ≡ some q)
  unfolding fresh
  loaded-trial w = elim (load_state-cases c w) [
    | inl e ↦ rw e (λ h. h, λ h. h)
    | inr e ↦ rw e (λ h. absurd (ground arith), λ h. absurd (ground arith))
  ]

  after-committed :
      (r : Result (Error V) AckOutcome) (new old : State V)
      → (after r new old).committed ≡ some q
      → (new.committed ≡ some q) ⊎ (old.committed ≡ some q)
  after-committed (ok x) new old e = inl e
  after-committed (err x) new old e = inr e

  notify_app_ready-committed :
      (app : App V)
      → (on_disk c (notify_app_ready c app).1.world).committed ≡ some q
      → ((on_disk c app.world).committed ≡ some q) ⊎ IsAckOf (calls acks) app
  notify_app_ready-committed app e = elim (Option-cases app.shared.activation) [
    | inl n ↦
        let idle : (notify_app_ready c app).1 ≡ app = unfold notify_app_ready in rw n refl in
        inl (rw idle at e)
    | inr (a, n) ↦ elim (Bool-cases app.shared.reload_pending) [
      | inl y ↦ let same = notify_app_ready-reload_pending c a app n y in inl (rw same.1 at e)
      | inr f ↦
          let (_, disk, _) = notify_app_ready-acks c a app n f in
          let s = (load_state c app.world).0 in
          let (committed, booting) = loaded-trial app.world in
          elim (after-committed (notify_app_ready c app).0 (ack s a.current.active).0
            (on_disk c app.world) (rw disk at e)) [
              | inr old ↦ inl old
              | inl new ↦ elim (ack-committed q s a.current.active new) [
                | inl before ↦ inl (committed before)
                | inr (serves, trial) ↦
                    inr (record { activation = a; active = n; serves = serves }, f, booting trial)
              ]
            ]
    ]
  ]

  -- any other step commits nothing
  advance_other-committed :
      (s : Step V) (app : App V)
      → is_ack_step s ≡ false
      → (on_disk c (advance c s app).world).committed ≡ some q
      → (on_disk c app.world).committed ≡ some q
  advance_other-committed s app n =
      let Before : Type 0 = (on_disk c app.world).committed ≡ some q in
      advance-IsStored c (λ _. Unit {0}) (λ t. t.committed ≡ some q → Before)
        (committed-closed Before) s app (λ y. absurd (ground arith)) (λ m _. tt) (λ e. e)

  advance-committed :
      (s : Step V) (app : App V)
      → (on_disk c (advance c s app).world).committed ≡ some q
      → ((on_disk c app.world).committed ≡ some q) ⊎ IsAckOf s app
  unfolding advance perform
  advance-committed (calls acks) app e = notify_app_ready-committed app e
  advance-committed (calls applies) app e = inl (advance_other-committed (calls applies) app refl e)
  advance-committed (calls resets) app e = inl (advance_other-committed (calls resets) app refl e)
  advance-committed (calls recovers) app e =
      inl (advance_other-committed (calls recovers) app refl e)
  advance-committed (calls (loads started)) app e =
      inl (advance_other-committed (calls (loads started)) app refl e)
  advance-committed (calls (checks x config)) app e =
      inl (advance_other-committed (calls (checks x config)) app refl e)
  advance-committed (calls (downloads x config names)) app e =
      inl (advance_other-committed (calls (downloads x config names)) app refl e)
  advance-committed (launches shell) app e =
      inl (advance_other-committed (launches shell) app refl e)

  -- an ack of a served bundle is one by a page of it, unless an `apply` has switched
  acked-IsAckFrom :
      (s : Step V) (app : App V) (p : Page) → IsCurrent app p → IsAckOf s app → IsAckFrom s app p
  acked-IsAckFrom (calls acks) app p h (serving, pending, trial) = elim (Bool-cases p.switched) [
    | inl y ↦ (pending, trial, inr (y, serving))
    | inr n ↦
        let active = serving.active in
        let serves = serving.serves in
        let source : served_source app ≡ some (ota q) = ground arith in
        (pending, trial, inl (h pending n ∙ source))
  ]
  acked-IsAckFrom s app p h a = absurd a

  -- Whatever an install goes through, a bundle that is committed on disk at the end was committed at
  -- the start, or was acked in between, while it was on trial on disk and no reload was pending: by a
  -- page that was loaded from it, or by a page after whose load an `apply` has switched, in a process
  -- that served the bundle. A page is loaded when a process starts and when a page load starts, from
  -- what the provider then serves. At the start it is from what the process serves, unless a reload
  -- is pending or an `apply` has switched.
  pub live-committed :
      (steps : List (Step V)) (app : App V) (p : Page)
      → IsCurrent app p
      → (on_disk c (live c steps app).world).committed ≡ some q
      → ((on_disk c app.world).committed ≡ some q) ⊎ IsAckedIn steps app p
  unfolding live
  live-committed [] app p h e = inl e
  live-committed (s ∷ steps) app p h e =
      let next = advance-IsCurrent c s app p h in
      elim (live-committed steps (advance c s app) (turn c s app p) next e) [
        | inr later ↦ inr (inr later)
        | inl now ↦ elim (advance-committed s app now) [
          | inl before ↦ inl before
          | inr acked ↦ inr (inl (acked-IsAckFrom s app p h acked))
        ]
      ]
