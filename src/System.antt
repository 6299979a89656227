-- ===== src/System.antt =====
-- The calls of the plugin in any order, over several launches: what an app can do with
-- src/runtime.rs, src/update.rs, src/recovery.rs and src/lib.rs. A call is one step. In the source
-- the locks keep single updates of the state apart (`write_lock`, `gate`) and runs of the pipeline
-- (`update_lock`); an ack, an apply or a reset in the middle of a run is left out. The download of
-- boot recovery and its switch are two steps, and any calls may come between them.
pub mod Stored
pub mod Staging
pub mod Lives
pub mod Kept
pub mod Calls
pub mod Serving
pub mod Pages
pub mod Committed
pub mod Signed
use tauri_plugin_hot_update.Prelude.{ℕ, Bool, true, false, none, List, [], ◌∷◌}
use tauri_plugin_hot_update.Version.{Order}
use tauri_plugin_hot_update.Store.{Codec}
use tauri_plugin_hot_update.Runtime.{
  Shared, App, initialize, notify_app_ready, apply_staged, reset_all,
}
use tauri_plugin_hot_update.Update.Pipeline.{
  UpdateConfig, Outside, TempNames, check, check_and_download,
}
use tauri_plugin_hot_update.Recovery.{switch}
use tauri_plugin_hot_update.Plugin.{on_page_load}

pub data Call (V : Type 0) : Type 1 where
  acks applies resets recovers : Call V
  loads : (started : Bool) → Call V
  checks : Outside V → UpdateConfig → Call V
  downloads : Outside V → UpdateConfig → TempNames → Call V

-- a step of an install: a call, or the end of the process and a launch of a shell
pub data Step (V : Type 0) : Type 1 where
  calls : Call V → Step V
  launches : (shell : V) → Step V

-- `notify_app_ready` is the one call that may commit a bundle
abbrev pub is_ack : {V : Type 0} → Call V → Bool
is_ack acks = true
is_ack _ = false

abbrev pub is_ack_step : {V : Type 0} → Step V → Bool
is_ack_step (calls call) = is_ack call
is_ack_step (launches shell) = false

-- `Shared::default()`
abbrev pub new_shared : {V : Type 0} → Shared V
new_shared = record { activation = none; page_acked = false; reload_pending = false }

module _ {V : Type 0} ⦃o : Order V⦄ (c : Codec V) where
  unfoldable pub perform : Call V → App V → App V
  unfolding on_page_load
  perform acks app = (notify_app_ready c app).1
  perform applies app = (apply_staged c app).1
  perform resets app = (reset_all c app).1
  perform recovers app = (switch c app).1
  perform (loads started) app = on_page_load started app
  perform (checks x config) app = (check c x config app).1
  perform (downloads x config names) app = (check_and_download c x config names app).1

  unfoldable pub perform_all : List (Call V) → App V → App V
  unfolding perform
  perform_all [] app = app
  perform_all (call ∷ cs) app = perform_all cs (perform call app)

  unfoldable pub advance : Step V → App V → App V
  unfolding perform
  advance (calls call) app = perform call app
  advance (launches shell) app = initialize c shell (record app { shared = new_shared })

  unfoldable pub live : List (Step V) → App V → App V
  unfolding advance
  live [] app = app
  live (s ∷ ss) app = live ss (advance s app)
