-- ===== src/Runtime/Calls.antt =====
-- `notify_app_ready`, `apply_staged` and `reset` (src/runtime.rs), with the state on disk.
use tauri_plugin_hot_update.Prelude.{ℕ, true, false, some, List, ◌≡◌, refl, arith, ap}
use tauri_plugin_hot_update.Prelude.Result.{Result, ok, err}
use tauri_plugin_hot_update.Version.{Order}
use tauri_plugin_hot_update.Machine.{State, Active, Effect}
use tauri_plugin_hot_update.Machine.Session.{AckOutcome, stale, ack}
use tauri_plugin_hot_update.Store.{Codec, load_state, update, apply_effects}
use tauri_plugin_hot_update.Store.Disk.{World, IoError}
use tauri_plugin_hot_update.Store.Persist.{on_disk, after, update_atomic, on_disk_json}
use tauri_plugin_hot_update.Store.Deletion.{state_json-apply_effects}
use tauri_plugin_hot_update.Runtime.{
  Activation, Shared, App, ack_page, notify_app_ready, finish_ack, seq_or_zero,
}

module _ {V : Type 0} ⦃o : Order V⦄ (c : Codec V) where
  pub on_disk-apply_effects :
      (es : List Effect) (w : World) → on_disk c (apply_effects es w) ≡ on_disk c w
  on_disk-apply_effects es w = on_disk_json c (apply_effects es w) w (state_json-apply_effects es w)

  ack_transition : Active → State V → State V × (AckOutcome × List Effect)
  ack_transition a s = let acked = ack s a in (acked.0, (acked.1, acked.2))

  -- finishing a call deletes bundles and leaves the state on disk
  finish_ack_disk :
      (r : Result IoError (AckOutcome × List Effect)) (sh : Shared V) (w : World)
      (new old : State V)
      → on_disk c w ≡ after r new old
      → on_disk c (finish_ack c r sh w).1.world ≡ after (finish_ack c r sh w).0 new old
  finish_ack_disk (ok x) sh w new old e = ground (arith, on_disk-apply_effects x.1 w)
  finish_ack_disk (err x) sh w new old e = e

  finish_ack_answer :
      (r : Result IoError (AckOutcome × List Effect)) (sh : Shared V) (w : World) (out : AckOutcome)
      → (finish_ack c r sh w).0 ≡ ok out
      → (es : List Effect) × (r ≡ ok (out, es))
  finish_ack_answer (ok x) sh w out e = (x.1, ground arith)
  finish_ack_answer (err x) sh w out e = cc

  finish_ack_shared :
      (r : Result IoError (AckOutcome × List Effect)) (sh : Shared V) (w : World)
      → (finish_ack c r sh w).1.shared ≡ sh
  finish_ack_shared (ok x) sh w = refl
  finish_ack_shared (err x) sh w = refl

  ack_page_lem :
      (a : Activation V) (app : App V)
      → ((ack_page c a app).1.shared ≡ record app.shared { page_acked = true })
        × (on_disk c (ack_page c a app).1.world
            ≡ after
                (ack_page c a app).0
                (ack (load_state c app.world).0 a.current.active).0
                (on_disk c app.world))
        × ((out : AckOutcome)
            → (ack_page c a app).0 ≡ ok out
            → out ≡ (ack (load_state c app.world).0 a.current.active).1)
  unfolding ack_page ack_transition
  ack_page_lem a app =
      let updated = update c (ack_transition a.current.active) app.world in
      let facts = update_atomic c (ack_transition a.current.active) app.world in
      let sh : Shared V = record app.shared { page_acked = true } in
      (
        finish_ack_shared updated.0 sh updated.1,
        finish_ack_disk updated.0 sh updated.1 (ack (load_state c app.world).0 a.current.active).0
            (on_disk c app.world) facts.0,
        λ out e.
            let (es, r) = finish_ack_answer updated.0 sh updated.1 out e in
            ap (λ (x : AckOutcome × List Effect). x.0) (facts.2 (out, es) r),
      )

  pub notify_app_ready-active :
      (a : Activation V) (app : App V)
      → app.shared.activation ≡ some a
      → app.shared.reload_pending ≡ false
      → notify_app_ready c app ≡ ack_page c a app
  unfolding notify_app_ready
  notify_app_ready-active a app e n = ground arith

  -- An ack of an active process with no reload pending is recorded in the process, and acks the
  -- source in memory on the loaded state: if it succeeds the acked state is on disk and the answer
  -- is that of `ack`, and if it fails the state on disk is as before.
  pub notify_app_ready-acks :
      (a : Activation V) (app : App V)
      → app.shared.activation ≡ some a
      → app.shared.reload_pending ≡ false
      → ((notify_app_ready c app).1.shared ≡ record app.shared { page_acked = true })
        × (on_disk c (notify_app_ready c app).1.world
            ≡ after
                (notify_app_ready c app).0
                (ack (load_state c app.world).0 a.current.active).0
                (on_disk c app.world))
        × ((out : AckOutcome)
            → (notify_app_ready c app).0 ≡ ok out
            → out ≡ (ack (load_state c app.world).0 a.current.active).1)
  notify_app_ready-acks a app e n = rw (notify_app_ready-active a app e n) (ack_page_lem a app)

  -- While a reload is pending an ack is answered as stale, and nothing changes in the process or
  -- on disk.
  pub notify_app_ready-reload_pending :
      (a : Activation V) (app : App V)
      → app.shared.activation ≡ some a
      → app.shared.reload_pending ≡ true
      → (seq : ℕ) × (notify_app_ready c app ≡ (ok (stale seq), app))
  unfolding notify_app_ready
  notify_app_ready-reload_pending a app e n = (seq_or_zero a.current.active, ground arith)
