-- ===== src/Tests/Runtime.antt =====
-- The theorems about the runtime at concrete processes.
use tauri_plugin_hot_update.Prelude.{ℕ, ◌≢◌, true, false, none, some, [], ◌∷◌, ◌≡◌, refl}
use tauri_plugin_hot_update.Prelude.Result.{ok}
use tauri_plugin_hot_update.Machine.{fresh, ota}
use tauri_plugin_hot_update.Machine.Session.{AckOutcome, ack}
use tauri_plugin_hot_update.Store.{load_state, save_state, update}
use tauri_plugin_hot_update.Store.Disk.{failed, done}
use tauri_plugin_hot_update.Store.Names.{bundle_name}
use tauri_plugin_hot_update.Store.Persist.{on_disk, after}
use tauri_plugin_hot_update.Runtime.{
  Activation, App, applied, trial_pending, boot_from, initialize, notify_app_ready, apply_staged,
  reset_all, current_of,
}
use tauri_plugin_hot_update.Runtime.Calls.{notify_app_ready-acks}
use tauri_plugin_hot_update.Runtime.Switching.{reset_all-factory}
use tauri_plugin_hot_update.Tests.Data.{number_order, two_bundles}
use tauri_plugin_hot_update.Tests.Codec
use tauri_plugin_hot_update.Tests.Codec.{codec}
use tauri_plugin_hot_update.Tests.Machine.{code as machine_code}
use tauri_plugin_hot_update.Tests.Store.{code as store_code}

unfoldable pub code : Unit {0}
unfolding machine_code store_code Codec.encode Codec.decode boot_from initialize current_of
    notify_app_ready apply_staged reset_all update save_state
code = tt

abbrev pub cold : App ℕ
cold = record {
  shared = record { activation = none; page_acked = false; reload_pending = false };
  world = two_bundles;
}

abbrev pub serving_two : Activation ℕ
serving_two = record {
  current = record { active = ota 2; active_dir = some (bundle_name 2); active_version = 20 };
  embedded_version = 5;
}

abbrev pub serving_one : Activation ℕ
serving_one = record {
  current = record { active = ota 1; active_dir = some (bundle_name 1); active_version = 10 };
  embedded_version = 5;
}

-- the process that serves bundle 1 while bundle 2 waits on disk
abbrev pub warm : App ℕ
warm = record {
  shared = record { activation = some serving_one; page_acked = true; reload_pending = false };
  world = two_bundles;
}

abbrev reloading : App ℕ
reloading = record warm { shared = record warm.shared { reload_pending = true } }

-- a launch arms bundle 2 and serves it
armed_launch : (initialize codec 5 cold).shared.activation ≡ some serving_two
unfolding code
armed_launch = refl

-- the state cannot be saved, so the committed bundle is served
abbrev read_only : App ℕ
read_only = record cold { world = record two_bundles { answers = done ∷ done ∷ failed ∷ [] } }

unarmed_launch : (initialize codec 5 read_only).shared.activation ≡ some serving_one
unfolding code
unarmed_launch = refl

notify_app_ready-acks_example :
    ((notify_app_ready codec warm).1.shared ≡ record warm.shared { page_acked = true })
    × (on_disk codec (notify_app_ready codec warm).1.world
        ≡ after
            (notify_app_ready codec warm).0
            (ack (load_state codec warm.world).0 (ota 1)).0
            (on_disk codec warm.world))
    × ((out : AckOutcome)
        → (notify_app_ready codec warm).0 ≡ ok out
        → out ≡ (ack (load_state codec warm.world).0 (ota 1)).1)
notify_app_ready-acks_example = notify_app_ready-acks codec serving_one warm refl refl

-- bundle 2 is still on trial
abbrev trying : App ℕ
trying = record warm { world = record two_bundles { state_json = some (2 ∷ []) } }

still_trying : (apply_staged codec trying).0 ≡ ok trial_pending
unfolding code
still_trying = refl

no_switch : (q v : ℕ) → (apply_staged codec trying).0 ≢ ok (applied q v)
no_switch q v e = cc (still_trying)

reset_all-factory_example :
    (on_disk codec (reset_all codec warm).1.world
      ≡ after
          (reset_all codec warm).0
          (record (fresh {V = ℕ}) { max_version_seen = some 5 })
          (on_disk codec warm.world))
    × ((reset_all codec warm).1.shared ≡ warm.shared)
reset_all-factory_example = reset_all-factory codec serving_one warm refl
