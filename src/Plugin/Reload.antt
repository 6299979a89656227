-- ===== src/Plugin/Reload.antt =====
-- The ack of the page that boot recovery loads (src/lib.rs, src/recovery.rs, src/runtime.rs).
use tauri_plugin_hot_update.Prelude.{ℕ, true, false, some, ◌≡◌, ap, ◌∙◌, arith}
use tauri_plugin_hot_update.Prelude.Map
use tauri_plugin_hot_update.Prelude.Result.{ok}
use tauri_plugin_hot_update.Version.{Order}
use tauri_plugin_hot_update.Machine.{BundleMeta, ota}
use tauri_plugin_hot_update.Machine.Session.{AckOutcome, committed}
use tauri_plugin_hot_update.Machine.Session.Laws.{ack-commits}
use tauri_plugin_hot_update.Store.{Codec, load_state}
use tauri_plugin_hot_update.Store.Disk.{answer, succeeds}
use tauri_plugin_hot_update.Store.Persist.{on_disk, load_state-on_disk}
use tauri_plugin_hot_update.Runtime.{App, Shared, Activation, notify_app_ready}
use tauri_plugin_hot_update.Runtime.Calls.{notify_app_ready-acks}
use tauri_plugin_hot_update.Update.Pipeline.{UpdateConfig}
use tauri_plugin_hot_update.Recovery.{Surroundings, recover_once, switched}
use tauri_plugin_hot_update.Recovery.Switch.{recover_once-IsRecovered}
use tauri_plugin_hot_update.Plugin.{on_page_load}

module _ {V : Type 0} ⦃o : Order V⦄ (c : Codec V) where
  -- the bundle that is served and on trial is committed
  abbrev pub IsCommitted : ℕ → AckOutcome → App V → Type 0
  IsCommitted seq out app =
      (out ≡ committed seq)
      × ((on_disk c app.world).committed ≡ some seq)
      × ((on_disk c app.world).last_good ≡ some seq)
      × (app.shared.page_acked ≡ true)

  trial-IsCommitted :
      (seq : ℕ) (m : BundleMeta V) (a : Activation V) (app : App V) (out : AckOutcome)
      → app.shared.activation ≡ some a
      → app.shared.reload_pending ≡ false
      → a.current.active ≡ ota seq
      → (on_disk c app.world).booting ≡ some seq
      → Map.get seq (on_disk c app.world).versions ≡ some m
      → succeeds (answer app.world) ≡ true
      → (notify_app_ready c app).0 ≡ ok out
      → IsCommitted seq out (notify_app_ready c app).1
  trial-IsCommitted seq m a app out n p s b g y h =
      let (shared, disk, says) = notify_app_ready-acks c a app n p in
      let loaded : (load_state c app.world).0 ≡ on_disk c app.world =
        ground (arith, load_state-on_disk c app.world) in
      let acked = ack-commits seq m (on_disk c app.world) b g in
      ground (arith, shared, disk, says out h, loaded, acked)

  -- When boot recovery has switched a process to a bundle and the webview then starts to load, an
  -- ack that is answered without an error commits that bundle: it is the committed and the last good
  -- bundle on disk. The state on disk must be readable at that time and know the bundle's metadata.
  pub notify_app_ready-on_page_load :
      (config : UpdateConfig) (s : Surroundings V) (app loading : App V) (seq : ℕ)
      (m : BundleMeta V) (out : AckOutcome)
      → (recover_once c config s app).0 ≡ switched
      → loading ≡ on_page_load true (recover_once c config s app).1
      → (on_disk c loading.world).booting ≡ some seq
      → Map.get seq (on_disk c loading.world).versions ≡ some m
      → succeeds (answer loading.world) ≡ true
      → (notify_app_ready c loading).0 ≡ ok out
      → IsCommitted seq out (notify_app_ready c loading).1
  unfolding on_page_load
  notify_app_ready-on_page_load config s app loading seq m out h l b g y k =
      let (_, r) = recover_once-IsRecovered c config s app h in
      let trial = r.serves.on_trial in
      let same : r.seq ≡ seq = ground (arith, l, b, trial) in
      let shared : loading.shared
          ≡ record (recover_once c config s app).1.shared { reload_pending = false } =
        ap (λ (p : App V). p.shared) l in
      let active = ap (λ (p : Shared V). p.activation) shared ∙ r.serves.served in
      trial-IsCommitted seq m _ loading out active (ap (λ (p : Shared V). p.reload_pending) shared)
        (ap ota same) b g y k
