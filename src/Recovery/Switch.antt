-- ===== src/Recovery/Switch.antt =====
-- When boot recovery (src/recovery.rs) switches the process, and what an ack does after that.
use tauri_plugin_hot_update.Prelude.{
  ℕ, true, false, none, some, ◌≡◌, ◌≢◌, refl, arith, inl, inr, Option-cases, Bool-cases,
}
use tauri_plugin_hot_update.Prelude.Result.{Result, ok, err}
use tauri_plugin_hot_update.Version.{Order}
use tauri_plugin_hot_update.Error.{Error}
use tauri_plugin_hot_update.Machine.Session.{stale}
use tauri_plugin_hot_update.Store.{Codec}
use tauri_plugin_hot_update.Runtime.{
  Activation, App, ApplyOutcome, applied, nothing_staged, trial_pending, not_applicable,
  apply_staged, notify_app_ready,
}
use tauri_plugin_hot_update.Runtime.Calls.{notify_app_ready-reload_pending}
use tauri_plugin_hot_update.Runtime.Switching.{IsSwitched, apply_staged-persisted}
use tauri_plugin_hot_update.Update.{UpdateOutcome}
use tauri_plugin_hot_update.Update.Pipeline.{UpdateConfig, check_and_download}
use tauri_plugin_hot_update.Recovery.{
  switched, is_waiting, set_reload_pending, after_apply, Surroundings, switch, after_update,
  recover_once,
}

module _ {V : Type 0} ⦃o : Order V⦄ (c : Codec V) where
  -- `before` is the process as the gate finds it, after the download
  pub record IsRecovered (before after : App V) : Type 0 where
    pub seq : ℕ
    pub version : V
    pub activation : Activation V
    pub unacked : before.shared.page_acked ≡ false
    pub active : before.shared.activation ≡ some activation
    pub serves : IsSwitched c seq version activation before after
    pub pending : after.shared.reload_pending ≡ true

  after_apply-switched :
      (r : Result (Error V) (ApplyOutcome V)) (app : App V)
      → (after_apply (r, app)).0 ≡ switched
      → (seq : ℕ) × (version : V) × (r ≡ ok (applied seq version))
        × ((after_apply (r, app)).1 ≡ set_reload_pending true app)
  after_apply-switched (ok (applied seq version)) app h = (seq, version, refl, refl)
  after_apply-switched (ok nothing_staged) app h = absurd (ground arith)
  after_apply-switched (ok trial_pending) app h = absurd (ground arith)
  after_apply-switched (ok not_applicable) app h = absurd (ground arith)
  after_apply-switched (err e) app h = absurd (ground arith)

  IsSwitched-set_reload_pending :
      (seq : ℕ) (version : V) (a : Activation V) (before app : App V)
      → IsSwitched c seq version a before app
      → IsSwitched c seq version a before (set_reload_pending true app)
  IsSwitched-set_reload_pending seq version a before app h = record {
    on_trial = h.on_trial;
    served = h.served;
    acked = h.acked;
  }

  apply_staged_inactive :
      (app : App V) (seq : ℕ) (version : V)
      → app.shared.activation ≡ none
      → (apply_staged c app).0 ≢ ok (applied seq version)
  unfolding apply_staged
  apply_staged_inactive app seq version n h = ground arith

  switch-IsRecovered :
      (app : App V) → (switch c app).0 ≡ switched → IsRecovered app (switch c app).1
  unfolding switch
  switch-IsRecovered app h = elim (Bool-cases app.shared.page_acked) [
    | inl y ↦ absurd (ground arith)
    | inr n ↦
        let (r, app') = apply_staged c app in
        let (seq, version, answer, same) = after_apply-switched r app' (ground arith) in
        elim (Option-cases app.shared.activation) [
          | inl k ↦ absurd (apply_staged_inactive app seq version k answer)
          | inr (a, k) ↦
              let there : switch c app ≡ after_apply (r, app') = ground arith in
              rw (there, same)
                (record {
                  seq = seq;
                  version = version;
                  activation = a;
                  unacked = n;
                  active = k;
                  serves =
                      IsSwitched-set_reload_pending seq version a app app'
                        (apply_staged-persisted c seq version a app k answer);
                  pending = refl;
                })
        ]
  ]

  after_update-switched :
      (meanwhile : App V → App V) (r : Result (Error V) (UpdateOutcome V)) (app : App V)
      → (after_update c meanwhile (r, app)).0 ≡ switched
      → after_update c meanwhile (r, app) ≡ switch c (meanwhile app)
  after_update-switched meanwhile (err e) app h = cc
  after_update-switched meanwhile (ok out) app h = elim (Bool-cases (is_waiting out)) [
    | inl y ↦ rw y refl
    | inr n ↦ absurd (ground arith)
  ]

  -- Boot recovery switches only a page that has not acked, neither when the pass begins nor when the
  -- download is over. The bundle is then on trial on disk and served, and a reload is pending.
  pub recover_once-IsRecovered :
      (config : UpdateConfig) (s : Surroundings V) (app : App V)
      → (recover_once c config s app).0 ≡ switched
      → (app.shared.page_acked ≡ false)
        × IsRecovered
            (s.meanwhile (check_and_download c s.outside config s.names app).1)
            (recover_once c config s app).1
  unfolding recover_once
  recover_once-IsRecovered config s app h = elim (Bool-cases app.shared.page_acked) [
    | inl y ↦ absurd (ground arith)
    | inr n ↦
        let (r, app') = check_and_download c s.outside config s.names app in
        let there : recover_once c config s app ≡ after_update c s.meanwhile (r, app') =
          ground arith in
        let same = after_update-switched s.meanwhile r app' (rw there at h) in
        (n, rw (there, same) (switch-IsRecovered (s.meanwhile app') (rw (there, same) at h)))
  ]

  -- After boot recovery has switched a process, the old page's ack, the only one that can come
  -- before the webview loads again, is answered as stale: it commits nothing and changes nothing.
  pub notify_app_ready-recover_once :
      (config : UpdateConfig) (s : Surroundings V) (app : App V)
      → (recover_once c config s app).0 ≡ switched
      → (seq : ℕ) × (notify_app_ready c (recover_once c config s app).1
          ≡ (ok (stale seq), (recover_once c config s app).1))
  notify_app_ready-recover_once config s app h =
      let (_, r) = recover_once-IsRecovered config s app h in
      notify_app_ready-reload_pending c _ (recover_once c config s app).1 r.serves.served r.pending
