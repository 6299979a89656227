-- ===== src/Recovery.antt =====
-- Boot recovery (src/recovery.rs). What other calls of the process do while a download runs is the
-- argument `meanwhile`: any change of the process and the world.
pub mod Switch
pub mod Rounds
use tauri_plugin_hot_update.Prelude.{
  ℕ, zero, suc, ◌+◌, String, Bool, true, false, ◌||◌, Option, none, some, List, [], ◌∷◌,
  if◌then◌else◌, str_eq,
}
use tauri_plugin_hot_update.Prelude.Lists.{get_elem?}
use tauri_plugin_hot_update.Prelude.Result.{Result, ok, err}
use tauri_plugin_hot_update.Version.{Order}
use tauri_plugin_hot_update.Error.{Error}
use tauri_plugin_hot_update.Store.{Codec}
use tauri_plugin_hot_update.Runtime.{
  App, ApplyOutcome, applied, nothing_staged, trial_pending, not_applicable, apply_staged,
}
use tauri_plugin_hot_update.Update.{UpdateOutcome, staged, already_staged}
use tauri_plugin_hot_update.Update.Pipeline.{UpdateConfig, Outside, TempNames, check_and_download}

pub data Recovery (V : Type 0) : Type 0 where
  page_is_fine switched staged_only no_update : Recovery V
  failed : Error V → Recovery V

-- `matches!(outcome, Staged | AlreadyStaged)`
abbrev pub is_waiting : {V : Type 0} → UpdateOutcome V → Bool
is_waiting (staged _ _) = true
is_waiting (already_staged _ _) = true
is_waiting _ = false

-- `set_reload_pending(true)`
abbrev pub set_reload_pending : {V : Type 0} → Bool → App V → App V
set_reload_pending pending app = record app {
  shared = record app.shared { reload_pending = pending };
}

abbrev pub after_apply :
    {V : Type 0} → Result (Error V) (ApplyOutcome V) × App V → Recovery V × App V
after_apply (ok (applied _ _), app) = (switched, set_reload_pending true app)
after_apply (ok trial_pending, app) = (staged_only, app)
after_apply (ok nothing_staged, app) = (no_update, app)
after_apply (ok not_applicable, app) = (no_update, app)
after_apply (err e, app) = (failed e, app)

abbrev pub is_failed : {V : Type 0} → Recovery V → Bool
is_failed (failed _) = true
is_failed _ = false

abbrev pub is_switched : {V : Type 0} → Recovery V → Bool
is_switched switched = true
is_switched _ = false

-- what one pass meets: the outside, the temporary names, and the other calls during the download
pub record Surroundings (V : Type 0) : Type 1 where
  pub outside : Outside V
  pub names : TempNames
  pub meanwhile : App V → App V

-- the URL of a window
pub record PageUrl : Type 0 where
  pub scheme : String
  pub host : Option String

pub record Window : Type 0 where
  pub label : String
  pub url : Option PageUrl

abbrev pub is_host : String → Option String → Bool
is_host name none = false
is_host name (some host) = str_eq host name

unfoldable pub is_app_page : PageUrl → Bool
is_app_page url = str_eq url.scheme "tauri" || is_host "tauri.localhost" url.host

-- A window whose URL cannot be read counts as the app's.
abbrev pub is_ours : Option PageUrl → Bool
is_ours none = true
is_ours (some url) = is_app_page url

-- the labels of the windows that are reloaded
unfoldable pub reloaded : List Window → List String
unfolding is_app_page
reloaded [] = []
reloaded (w ∷ ws) = let rest = reloaded ws in if is_ours w.url then w.label ∷ rest else rest

-- The passes made with the wait before each, the process at the end, and the windows reloaded.
pub record Passes (V : Type 0) : Type 0 where
  pub outcomes : List (Recovery V)
  pub waits : List ℕ
  pub final : App V
  pub reloads : List String

abbrev pub before : {V : Type 0} → Recovery V → ℕ → Passes V → Passes V
before r wait p = record p { outcomes = r ∷ p.outcomes; waits = wait ∷ p.waits }

abbrev pub retry_delays : List ℕ
retry_delays = 15 ∷ 30 ∷ 60 ∷ []

module _ {V : Type 0} ⦃o : Order V⦄ (c : Codec V) where
  -- the check and the switch under the gate
  unfoldable pub switch : App V → Recovery V × App V
  switch app =
      if app.shared.page_acked then (staged_only, app) else after_apply (apply_staged c app)

  abbrev pub after_update :
      (App V → App V) → Result (Error V) (UpdateOutcome V) × App V → Recovery V × App V
  after_update meanwhile (err e, app) = (failed e, meanwhile app)
  after_update meanwhile (ok out, app) =
      if is_waiting out then switch (meanwhile app) else (no_update, meanwhile app)

  unfoldable pub recover_once : UpdateConfig → Surroundings V → App V → Recovery V × App V
  unfolding switch
  recover_once config s app =
      if app.shared.page_acked
      then (page_is_fine, app)
      else after_update s.meanwhile (check_and_download c s.outside config s.names app)

  module _ (config : UpdateConfig) (around : ℕ → Surroundings V) (windows : ℕ → List Window) where
    abbrev pub ended : ℕ → ℕ → Recovery V × App V → Passes V
    ended attempt wait (r, app) = record {
      outcomes = r ∷ [];
      waits = wait ∷ [];
      final = app;
      reloads = if is_switched r then reloaded (windows attempt) else [];
    }

    -- The loop over the attempts, with `rounds` of them left after this one.
    unfoldable pub attempts : ℕ → ℕ → ℕ → App V → Passes V
    unfolding recover_once reloaded
    attempts zero attempt wait app = ended attempt wait (recover_once config (around attempt) app)
    attempts (suc rounds) attempt wait app =
        let (r, app') = recover_once config (around attempt) app in
        elim (is_failed r) [
          | false ↦ ended attempt wait (r, app')
          | true ↦ elim (get_elem? retry_delays attempt) [
            | none ↦ ended attempt wait (r, app')
            | some next ↦ before r wait (attempts rounds (attempt + 1) next app')
          ]
        ]

    -- `run`: attempts 0 to the number of delays
    unfoldable pub run : ℕ → App V → Passes V
    unfolding attempts
    run after app = attempts 3 0 after app
