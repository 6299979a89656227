-- ===== src/Runtime/Switching.antt =====
-- `apply_staged` and `reset` (src/runtime.rs), with the state on disk.
use tauri_plugin_hot_update.Prelude.{
  ℕ, some, List, ◌≡◌, ◌≢◌, refl, arith, inl, inr, ◌∙◌, ap, sym, Option-cases,
}
use tauri_plugin_hot_update.Prelude.Result.{Result, ok, err}
use tauri_plugin_hot_update.Version.{Order}
use tauri_plugin_hot_update.Machine.{State, ota, Effect, fresh}
use tauri_plugin_hot_update.Machine.Session
use tauri_plugin_hot_update.Machine.Session.{ApplyDecision, promote_staged, reset}
use tauri_plugin_hot_update.Store.{Codec, load_state, update, present_seqs, apply_effects}
use tauri_plugin_hot_update.Store.Disk.{World, IoError}
use tauri_plugin_hot_update.Store.Names.{bundle_name}
use tauri_plugin_hot_update.Store.Persist.{on_disk, after, update_atomic, on_disk-load_state}
use tauri_plugin_hot_update.Runtime.{
  Activation, Shared, App, applied, apply_active, apply_staged, switch_to, after_promotion,
  finish_apply, reset_all, finish_reset,
}
use tauri_plugin_hot_update.Runtime.Booting.{on_disk-clean}
use tauri_plugin_hot_update.Runtime.Calls.{on_disk-apply_effects}

module _ {V : Type 0} ⦃o : Order V⦄ (c : Codec V) where
  -- the process after a switch to `seq`
  pub record IsSwitched (seq : ℕ) (version : V) (a : Activation V) (before after : App V)
      : Type 0 where
    pub on_trial : (on_disk c after.world).booting ≡ some seq
    pub served :
        after.shared.activation
        ≡ some (record a {
          current = record {
            active = ota seq;
            active_dir = some (bundle_name seq);
            active_version = version;
          };
        })
    pub acked : after.shared.page_acked ≡ before.shared.page_acked

  promotion_booting :
      (s : State V) (shell : V) (present : List ℕ) (seq : ℕ)
      → (promote_staged s shell present).1 ≡ Session.applied seq
      → (promote_staged s shell present).0.booting ≡ some seq
  unfolding promote_staged
  promotion_booting s shell present seq e = ground arith

  switch_to-IsSwitched :
      (seq q : ℕ) (version : V) (a : Activation V) (before app : App V)
      → app.shared ≡ before.shared
      → (on_disk c app.world).booting ≡ some q
      → (switch_to c q a app).0 ≡ applied seq version
      → IsSwitched seq version a before (switch_to c q a app).1
  unfolding switch_to
  switch_to-IsSwitched seq q version a before app s b e = record {
    on_trial = ground (arith, on_disk-load_state c app.world);
    served = ground arith;
    acked = ground arith;
  }

  finish_apply-IsSwitched :
      (d : ApplyDecision V) (seq : ℕ) (version : V) (a : Activation V) (before app : App V)
      → app.shared ≡ before.shared
      → ((q : ℕ) → d ≡ Session.applied q → (on_disk c app.world).booting ≡ some q)
      → (finish_apply c d a app).0 ≡ applied seq version
      → IsSwitched seq version a before (finish_apply c d a app).1
  finish_apply-IsSwitched (Session.applied q) seq version a before app s b e =
      switch_to-IsSwitched seq q version a before app s (b q refl) e
  finish_apply-IsSwitched Session.nothing_staged seq version a before app s b e = cc
  finish_apply-IsSwitched Session.trial_pending seq version a before app s b e = cc
  finish_apply-IsSwitched Session.discarded seq version a before app s b e = cc
  finish_apply-IsSwitched (Session.base_refused r) seq version a before app s b e = cc

  after_promotion-IsSwitched :
      (r : Result IoError (ApplyDecision V × List Effect)) (seq : ℕ) (version : V)
      (a : Activation V) (before : App V) (w : World)
      → ((q : ℕ) (es : List Effect)
          → r ≡ ok (Session.applied q, es)
          → (on_disk c w).booting ≡ some q)
      → (after_promotion c r a before.shared w).0 ≡ ok (applied seq version)
      → IsSwitched seq version a before (after_promotion c r a before.shared w).1
  after_promotion-IsSwitched (err x) seq version a before w b e = cc
  after_promotion-IsSwitched (ok (d, es)) seq version a before w b e =
      finish_apply-IsSwitched d seq version a before
        (record { shared = before.shared; world = apply_effects es w }) refl
        (λ q k. rw on_disk-apply_effects (b q es (ap (λ (x : ApplyDecision V). ok (x, es)) k)))
        (ground arith)

  promote_transition : V → List ℕ → State V → State V × (ApplyDecision V × List Effect)
  promote_transition shell present s =
      let promoted = promote_staged s shell present in (promoted.0, (promoted.1, promoted.2))

  apply_active-IsSwitched :
      (seq : ℕ) (version : V) (a : Activation V) (app : App V)
      → (apply_active c a app).0 ≡ ok (applied seq version)
      → IsSwitched seq version a app (apply_active c a app).1
  unfolding apply_active promote_transition
  apply_active-IsSwitched seq version a app e =
      let present = (present_seqs app.world).0 in
      let w = (present_seqs app.world).1 in
      let transition = promote_transition a.embedded_version present in
      let updated = update c transition w in
      let facts = update_atomic c transition w in
      after_promotion-IsSwitched updated.0 seq version a app updated.1
        (λ q es r.
          let out : (promote_staged (load_state c w).0 a.embedded_version present).1
              ≡ Session.applied q =
            sym (
              ap (λ (x : ApplyDecision V × List Effect). x.0)
                (facts.2 (Session.applied q, es) r)) in
          let disk : on_disk c updated.1
              ≡ (promote_staged (load_state c w).0 a.embedded_version present).0 =
            facts.0
            ∙ ap
                (λ (x : Result IoError (ApplyDecision V × List Effect)).
                  after x (transition (load_state c w).0).0 (on_disk c w))
                r in
          rw disk (promotion_booting (load_state c w).0 a.embedded_version present q out))
        e

  pub apply_staged-active :
      (a : Activation V) (app : App V)
      → app.shared.activation ≡ some a
      → apply_staged c app ≡ apply_active c a app
  unfolding apply_staged
  apply_staged-active a app n = ground arith

  -- `apply_staged` reports a switch only when the promotion is on disk: the bundle is on trial in
  -- the persisted state, and the process serves it from its own directory.
  pub apply_staged-persisted :
      (seq : ℕ) (version : V) (a : Activation V) (app : App V)
      → app.shared.activation ≡ some a
      → (apply_staged c app).0 ≡ ok (applied seq version)
      → IsSwitched seq version a app (apply_staged c app).1
  apply_staged-persisted seq version a app n e =
      rw (apply_staged-active a app n)
        (apply_active-IsSwitched seq version a app (rw (apply_staged-active a app n) at e))

  finish_apply_other :
      (d : ApplyDecision V) (a : Activation V) (app : App V)
      → ((q : ℕ) (v : V) → (finish_apply c d a app).0 ≢ applied q v)
      → (finish_apply c d a app).1.shared ≡ app.shared
  unfolding switch_to
  finish_apply_other (Session.applied q) a app n = absurd (n q _ refl)
  finish_apply_other Session.nothing_staged a app n = refl
  finish_apply_other Session.trial_pending a app n = refl
  finish_apply_other Session.discarded a app n = refl
  finish_apply_other (Session.base_refused r) a app n = refl

  after_promotion_other :
      (r : Result IoError (ApplyDecision V × List Effect)) (a : Activation V) (sh : Shared V)
      (w : World)
      → ((q : ℕ) (v : V) → (after_promotion c r a sh w).0 ≢ ok (applied q v))
      → (after_promotion c r a sh w).1.shared ≡ sh
  after_promotion_other (err x) a sh w n = refl
  after_promotion_other (ok (d, es)) a sh w n =
      finish_apply_other d a (record { shared = sh; world = apply_effects es w })
        (λ q v e. n q v (ap ok e))

  apply_active_other :
      (a : Activation V) (app : App V)
      → ((q : ℕ) (v : V) → (apply_active c a app).0 ≢ ok (applied q v))
      → (apply_active c a app).1.shared ≡ app.shared
  unfolding apply_active promote_transition
  apply_active_other a app n =
      let present = (present_seqs app.world).0 in
      let w = (present_seqs app.world).1 in
      let updated = update c (promote_transition a.embedded_version present) w in
      after_promotion_other updated.0 a app.shared updated.1 n

  -- Any other answer of `apply_staged`, an error included, leaves what the process serves alone.
  pub apply_staged-unswitched :
      (app : App V)
      → ((q : ℕ) (v : V) → (apply_staged c app).0 ≢ ok (applied q v))
      → (apply_staged c app).1.shared ≡ app.shared
  apply_staged-unswitched app n = elim (Option-cases app.shared.activation) [
    | inl e ↦ unfold apply_staged in ground arith
    | inr (a, e) ↦
        rw (apply_staged-active a app e)
          (apply_active_other a app (λ q v k. n q v (rw (apply_staged-active a app e) k)))
  ]

  finish_reset_disk :
      (r : Result IoError (List Effect)) (sh : Shared V) (w : World) (new old : State V)
      → on_disk c w ≡ after r new old
      → (on_disk c (finish_reset c r sh w).1.world ≡ after (finish_reset c r sh w).0 new old)
        × ((finish_reset c r sh w).1.shared ≡ sh)
  finish_reset_disk (ok es) sh w new old e = (on_disk-clean c es w ∙ e, refl)
  finish_reset_disk (err x) sh w new old e = (e, refl)

  pub reset_all-active :
      (a : Activation V) (app : App V)
      → app.shared.activation ≡ some a
      → reset_all c app
        ≡ finish_reset c
            (update c (λ s. reset s a.embedded_version a.current.active) app.world).0
            app.shared
            (update c (λ s. reset s a.embedded_version a.current.active) app.world).1
  unfolding reset_all
  reset_all-active a app n = ground arith

  -- A reset that succeeds leaves on disk the factory state with the watermark at the embedded
  -- version; one that fails leaves the state that was there. What the process serves stays.
  pub reset_all-factory :
      (a : Activation V) (app : App V)
      → app.shared.activation ≡ some a
      → (on_disk c (reset_all c app).1.world
          ≡ after
              (reset_all c app).0
              (record (fresh {V = V}) { max_version_seen = some a.embedded_version })
              (on_disk c app.world))
        × ((reset_all c app).1.shared ≡ app.shared)
  reset_all-factory a app n =
      let transition = λ (s : State V). reset s a.embedded_version a.current.active in
      let updated = update c transition app.world in
      rw (reset_all-active a app n) (
        finish_reset_disk updated.0 app.shared updated.1
          (record (fresh {V = V}) { max_version_seen = some a.embedded_version })
          (on_disk c app.world) (unfold reset in (update_atomic c transition app.world).0))
