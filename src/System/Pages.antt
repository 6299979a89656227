-- ===== src/System/Pages.antt =====
-- The page in the webview: the source it was loaded from (src/lib.rs, src/recovery.rs and
-- src/runtime.rs together).
use tauri_plugin_hot_update.Prelude.{
  ℕ, true, false, none, some, Bool, ◌||◌, Option, ◌≡◌, ◌≢◌, refl, arith, ap, sym, ◌∙◌, inl, inr,
  Option-cases, Bool-cases,
}
use tauri_plugin_hot_update.Prelude.Result.{Result, ok, err}
use tauri_plugin_hot_update.Version.{Order}
use tauri_plugin_hot_update.Error.{Error}
use tauri_plugin_hot_update.Manifest.{Manifest}
use tauri_plugin_hot_update.Machine.{Active}
use tauri_plugin_hot_update.Store.{Codec}
use tauri_plugin_hot_update.Runtime.{
  App, Activation, Shared, ApplyOutcome, applied, nothing_staged, trial_pending, not_applicable,
  notify_app_ready, apply_staged, reset_all,
}
use tauri_plugin_hot_update.Runtime.Calls.{notify_app_ready-acks, notify_app_ready-reload_pending}
use tauri_plugin_hot_update.Runtime.Switching.{apply_staged-unswitched, reset_all-factory}
use tauri_plugin_hot_update.Recovery.{after_apply, switch}
use tauri_plugin_hot_update.Plugin.{on_page_load}
use tauri_plugin_hot_update.Update.Pipeline.{
  Outside, UpdateConfig, TempNames, fetch_with_client, after_check, check_active, check,
  after_fetch, download_active, check_and_download,
}
use tauri_plugin_hot_update.System.{
  acks, applies, resets, recovers, loads, checks, downloads, Step, calls, launches, perform,
  advance,
}

-- The source the page was loaded from, and whether an `apply` has switched since.
pub record Page : Type 0 where
  pub source : Option Active
  pub switched : Bool

module _ {V : Type 0} where
  -- what the provider serves
  abbrev pub served_source : App V → Option Active
  served_source app = elim app.shared.activation [ none ↦ none | some a ↦ some a.current.active ]

  abbrev pub loaded_page : App V → Page
  loaded_page app = record { source = served_source app; switched = false }

  -- the answer of an `apply` that has switched
  abbrev is_applied : Result (Error V) (ApplyOutcome V) → Bool
  is_applied (ok (applied _ _)) = true
  is_applied _ = false

  not_applied :
      (r : Result (Error V) (ApplyOutcome V))
      → is_applied r ≡ false
      → (seq : ℕ) (v : V) → r ≢ ok (applied seq v)
  not_applied r n seq v e = ground arith

  -- unless a reload is pending or an `apply` has switched, the page is from what the provider serves
  abbrev pub IsCurrent : App V → Page → Type 0
  IsCurrent app p =
      app.shared.reload_pending ≡ false → p.switched ≡ false → p.source ≡ served_source app

  -- a step that keeps the source and the flag keeps the page current
  kept-IsCurrent :
      (app app' : App V) (p : Page)
      → app'.shared.activation ≡ app.shared.activation
      → app'.shared.reload_pending ≡ app.shared.reload_pending
      → IsCurrent app p
      → IsCurrent app' p
  kept-IsCurrent app app' p a r h f s = rw a (h (sym r ∙ f) s)

  shared-IsCurrent :
      (app app' : App V) (p : Page) → app'.shared ≡ app.shared → IsCurrent app p → IsCurrent app' p
  shared-IsCurrent app app' p e h =
      kept-IsCurrent app app' p (ap (λ (t : Shared V). t.activation) e)
        (ap (λ (t : Shared V). t.reload_pending) e) h

module _ {V : Type 0} ⦃o : Order V⦄ (c : Codec V) where
  -- The page after a step of this process: the start of a process or of a page load loads it from
  -- what the provider then serves.
  abbrev pub turn : Step V → App V → Page → Page
  turn (launches shell) app p = loaded_page (advance c (launches shell) app)
  turn (calls (loads true)) app p = loaded_page (advance c (calls (loads true)) app)
  turn (calls applies) app p = record p {
    switched = p.switched || is_applied (apply_staged c app).0;
  }
  turn _ app p = p

  notify_app_ready-IsCurrent :
      (app : App V) (p : Page) → IsCurrent app p → IsCurrent (notify_app_ready c app).1 p
  notify_app_ready-IsCurrent app p h = elim (Option-cases app.shared.activation) [
    | inl n ↦
        let idle : (notify_app_ready c app).1 ≡ app = unfold notify_app_ready in rw n refl in
        rw idle h
    | inr (a, n) ↦ elim (Bool-cases app.shared.reload_pending) [
      | inl y ↦ rw (notify_app_ready-reload_pending c a app n y).1 h
      | inr f ↦
          let (shared, _, _) = notify_app_ready-acks c a app n f in
          kept-IsCurrent app (notify_app_ready c app).1 p
            (ap (λ (t : Shared V). t.activation) shared)
            (ap (λ (t : Shared V). t.reload_pending) shared) h
    ]
  ]

  reset_all-shared : (app : App V) → (reset_all c app).1.shared ≡ app.shared
  reset_all-shared app = elim (Option-cases app.shared.activation) [
    | inl n ↦ unfold reset_all in ground arith
    | inr (a, n) ↦ (reset_all-factory c a app n).1
  ]

  after_apply-IsCurrent :
      (app : App V) (p : Page) (r : Result (Error V) (ApplyOutcome V)) (app' : App V)
      → (((seq : ℕ) (v : V) → r ≢ ok (applied seq v)) → app'.shared ≡ app.shared)
      → IsCurrent app p
      → IsCurrent (after_apply (r, app')).1 p
  after_apply-IsCurrent app p (ok (applied seq v)) app' k h = λ f s. absurd (ground arith)
  after_apply-IsCurrent app p (ok trial_pending) app' k h = rw (k (λ seq v e. cc)) h
  after_apply-IsCurrent app p (ok nothing_staged) app' k h = rw (k (λ seq v e. cc)) h
  after_apply-IsCurrent app p (ok not_applicable) app' k h = rw (k (λ seq v e. cc)) h
  after_apply-IsCurrent app p (err e) app' k h = rw (k (λ seq v e. cc)) h

  apply_staged-IsCurrent :
      (app : App V) (p : Page)
      → IsCurrent app p
      → IsCurrent
          (apply_staged c app).1
          (record p { switched = p.switched || is_applied (apply_staged c app).0 })
  apply_staged-IsCurrent app p h f s =
      let stayed : is_applied (apply_staged c app).0 ≡ false = ground arith in
      let same = apply_staged-unswitched c app (not_applied (apply_staged c app).0 stayed) in
      shared-IsCurrent app (apply_staged c app).1 p same h f (ground arith)

  switch-IsCurrent : (app : App V) (p : Page) → IsCurrent app p → IsCurrent (switch c app).1 p
  switch-IsCurrent app p h = elim (Bool-cases app.shared.page_acked) [
    | inl y ↦ let there : (switch c app).1 ≡ app = unfold switch in ground arith in rw there h
    | inr n ↦
        let switched = apply_staged c app in
        let there : (switch c app).1 ≡ (after_apply switched).1 = unfold switch in ground arith in
        rw there
          (after_apply-IsCurrent app p switched.0 switched.1 (apply_staged-unswitched c app) h)
  ]

  after_check-shared :
      (x : Outside V) (a : Activation V) (app : App V) (r : Result (Error V) (Manifest V))
      → (after_check c x a app r).1.shared ≡ app.shared
  after_check-shared x a app (err e) = refl
  after_check-shared x a app (ok m) = refl

  check-shared :
      (x : Outside V) (config : UpdateConfig) (app : App V)
      → (check c x config app).1.shared ≡ app.shared
  unfolding check check_active
  check-shared x config app = elim (Option-cases app.shared.activation) [
    | inl n ↦ ground arith
    | inr (a, n) ↦ ground (arith, after_check-shared x a app (fetch_with_client x config))
  ]

  after_fetch-shared :
      (x : Outside V) (names : TempNames) (a : Activation V) (app : App V)
      (r : Result (Error V) (Manifest V))
      → (after_fetch c x names a app r).1.shared ≡ app.shared
  after_fetch-shared x names a app (err e) = refl
  after_fetch-shared x names a app (ok m) = refl

  check_and_download-shared :
      (x : Outside V) (config : UpdateConfig) (names : TempNames) (app : App V)
      → (check_and_download c x config names app).1.shared ≡ app.shared
  unfolding check_and_download download_active
  check_and_download-shared x config names app = elim (Option-cases app.shared.activation) [
    | inl n ↦ ground arith
    | inr (a, n) ↦ ground (arith, after_fetch-shared x names a app (fetch_with_client x config))
  ]

  -- a step keeps the page current
  pub advance-IsCurrent :
      (s : Step V) (app : App V) (p : Page)
      → IsCurrent app p
      → IsCurrent (advance c s app) (turn s app p)
  unfolding advance perform on_page_load
  advance-IsCurrent (launches shell) app p h = λ f s. refl
  advance-IsCurrent (calls acks) app p h = notify_app_ready-IsCurrent app p h
  advance-IsCurrent (calls applies) app p h = apply_staged-IsCurrent app p h
  advance-IsCurrent (calls resets) app p h =
      shared-IsCurrent app (reset_all c app).1 p (reset_all-shared app) h
  advance-IsCurrent (calls recovers) app p h = switch-IsCurrent app p h
  advance-IsCurrent (calls (loads true)) app p h = λ f s. refl
  advance-IsCurrent (calls (loads false)) app p h = h
  advance-IsCurrent (calls (checks x config)) app p h =
      shared-IsCurrent app (check c x config app).1 p (check-shared x config app) h
  advance-IsCurrent (calls (downloads x config names)) app p h =
      shared-IsCurrent app (check_and_download c x config names app).1 p
        (check_and_download-shared x config names app) h
