-- ===== src/System/Calls.antt =====
-- What the calls of src/runtime.rs, src/recovery.rs and src/update.rs leave of the bundle that the
-- process serves.
use tauri_plugin_hot_update.Prelude.{
  ℕ, ◌^◌, ◌<◌, false, some, List, ◌≡◌, refl, arith, ◌==◌, inl, inr, Option-cases, Bool-cases, ap,
  sym, ◌∙◌,
}
use tauri_plugin_hot_update.Prelude.Lists.{text_eq}
use tauri_plugin_hot_update.Prelude.Result.{Result, ok, err}
use tauri_plugin_hot_update.Version.{Order}
use tauri_plugin_hot_update.Error.{Error}
use tauri_plugin_hot_update.Manifest.{Manifest}
use tauri_plugin_hot_update.Machine.{State, Effect, ota}
use tauri_plugin_hot_update.Machine.Boot.Sweep.{deletes}
use tauri_plugin_hot_update.Machine.Session
use tauri_plugin_hot_update.Machine.Session.{StageResult, refused, stage, reset}
use tauri_plugin_hot_update.Machine.Session.Spares.{stage-spares, reset-spares}
use tauri_plugin_hot_update.Store.{Codec, load_state, update, allocate_seq, present_seqs}
use tauri_plugin_hot_update.Store.Disk.{
  World, IoError, read_bundles, create_bundles, add_file, add_dir, rename_dir, remove_entry,
}
use tauri_plugin_hot_update.Store.Names.{bundle_name}
use tauri_plugin_hot_update.Store.Keeping.{
  holds-remove_entry, holds-add_file, holds-add_dir, holds-rename_dir, rename_dir-apart,
}
use tauri_plugin_hot_update.Store.Deletion.{bundle_name-eq}
use tauri_plugin_hot_update.Store.Persist.{on_disk_json}
use tauri_plugin_hot_update.Runtime.{
  App, Activation, ApplyOutcome, applied, nothing_staged, trial_pending, not_applicable,
  notify_app_ready, apply_staged, reset_all,
}
use tauri_plugin_hot_update.Runtime.Calls.{notify_app_ready-active, notify_app_ready-reload_pending}
use tauri_plugin_hot_update.Runtime.Switching.{reset_all-active, apply_staged-active}
use tauri_plugin_hot_update.Recovery.{after_apply, switch}
use tauri_plugin_hot_update.Update.{meta_of}
use tauri_plugin_hot_update.Update.Keeps.{AreKept}
use tauri_plugin_hot_update.Update.Pipeline.{
  Outside, TempNames, UpdateConfig, extract_name, part_name, finish_stage, after_rename,
  stage_bundle,
}
use tauri_plugin_hot_update.System.Kept.{
  IsKept, IsKept-same, IsKept-load_state, IsKept-apply_effects, update-IsKept, ack_page-IsKept,
  apply_active-IsKept, finish_reset-IsKept,
}

module _ {V : Type 0} ⦃o : Order V⦄ (c : Codec V) (q : ℕ) where
  pub notify_app_ready-IsKept :
      (a : Activation V) (app : App V)
      → app.shared.activation ≡ some a
      → a.current.active ≡ ota q
      → IsKept c q app.world
      → IsKept c q (notify_app_ready c app).1.world
  notify_app_ready-IsKept a app n served h = elim (Bool-cases app.shared.reload_pending) [
    | inl y ↦ let same = notify_app_ready-reload_pending c a app n y in rw same.1 h
    | inr f ↦ rw (notify_app_ready-active c a app n f) (ack_page-IsKept c q a app served h)
  ]

  pub apply_staged-IsKept :
      (app : App V) → IsKept c q app.world → IsKept c q (apply_staged c app).1.world
  apply_staged-IsKept app h = elim (Option-cases app.shared.activation) [
    | inl n ↦ unfold apply_staged in rw n h
    | inr (a, n) ↦ rw (apply_staged-active c a app n) (apply_active-IsKept c q a app h)
  ]

  pub reset_all-IsKept :
      (a : Activation V) (app : App V)
      → q < 2 ^ 64
      → app.shared.activation ≡ some a
      → a.current.active ≡ ota q
      → IsKept c q app.world
      → IsKept c q (reset_all c app).1.world
  reset_all-IsKept a app b n served h =
      let transition = λ (s : State V). reset s a.embedded_version a.current.active in
      let (r, w) = update c transition app.world in
      let (kept, answers) =
        update-IsKept c q transition app.world
          (λ s v. rw served (reset-spares q s a.embedded_version).0) h in
      rw (reset_all-active c a app n) (
        finish_reset-IsKept c q r app.shared w b
          (λ es e.
            let (s, _, k) = answers es e in
            ap (deletes q) k
            ∙ ap (λ x. deletes q (reset s a.embedded_version x).1) served
            ∙ (reset-spares q s a.embedded_version).1)
          kept)

  after_apply-IsKept :
      (r : Result (Error V) (ApplyOutcome V)) (app : App V)
      → IsKept c q app.world
      → IsKept c q (after_apply (r, app)).1.world
  after_apply-IsKept (err e) app h = h
  after_apply-IsKept (ok (applied r v)) app h = h
  after_apply-IsKept (ok nothing_staged) app h = h
  after_apply-IsKept (ok trial_pending) app h = h
  after_apply-IsKept (ok not_applicable) app h = h

  pub switch-IsKept : (app : App V) → IsKept c q app.world → IsKept c q (switch c app).1.world
  unfolding switch
  switch-IsKept app h = elim (Bool-cases app.shared.page_acked) [
    | inl y ↦ let idle : (switch c app).1 ≡ app = ground arith in rw idle h
    | inr n ↦
        let (r, app') = apply_staged c app in
        let there : switch c app ≡ after_apply (r, app') = ground arith in
        rw there (after_apply-IsKept r app' (apply_staged-IsKept app h))
  ]

  IsKept-remove_entry :
      (name : List ℕ) (w : World)
      → text_eq name (bundle_name q) ≡ false
      → IsKept c q w
      → IsKept c q (remove_entry name w)
  IsKept-remove_entry name w d h = record {
    held = holds-remove_entry (bundle_name q) name w d h.held;
    unstaged =
        rw (on_disk_json c (remove_entry name w) w (unfold remove_entry in ground arith))
          h.unstaged;
  }

  module _ (x : Outside V) where
    finish_stage-IsKept :
        (m : Manifest V) (seq : ℕ) (r : Result IoError (StageResult V)) (w : World)
        → (seq == q) ≡ false
        → ((es : List Effect) → r ≡ ok (Session.staged es) → deletes q es ≡ false)
        → IsKept c q w
        → IsKept c q (finish_stage c x m seq (r, w)).1
    finish_stage-IsKept m seq (err e) w d n h = h
    finish_stage-IsKept m seq (ok (Session.staged es)) w d n h =
        IsKept-apply_effects c q es w (n es refl) h
    finish_stage-IsKept m seq (ok (refused e)) w d n h =
        IsKept-remove_entry (bundle_name seq) w (bundle_name-eq seq q ∙ d) h

    after_rename-IsKept :
        (m : Manifest V) (seq : ℕ) (r : Result IoError (Unit {0})) (w : World)
        → ((u : Unit {0}) → r ≡ ok u → (seq == q) ≡ false)
        → IsKept c q w
        → IsKept c q (after_rename c x m seq (r, w)).1
    after_rename-IsKept m seq (err e) w d h = h
    after_rename-IsKept m seq (ok u) w d h =
        let transition = λ (s : State V). stage s seq (meta_of m) in
        let apart : (seq == q) ≡ false = d u refl in
        let (r, w') = update c transition w in
        let (kept, answers) =
          update-IsKept c q transition w (λ s v. (stage-spares q seq (meta_of m) s apart v).0) h in
        finish_stage-IsKept m seq r w' apart
          (λ es e.
            let (s, v, k) = answers (Session.staged es) e in
            (stage-spares q seq (meta_of m) s apart v).1 es (sym k))
          kept

    stage_bundle-IsKept :
        (m : Manifest V) (dir : List ℕ) (w : World)
        → text_eq dir (bundle_name q) ≡ false
        → IsKept c q w
        → IsKept c q (stage_bundle c x m dir w).1
    unfolding stage_bundle
    stage_bundle-IsKept m dir w d h =
        let (s, w₁) = load_state c w in
        let (seq, w₂) = allocate_seq s w₁ in
        let (r, w₃) = rename_dir dir (bundle_name seq) w₂ in
        let listed : IsKept c q w₂ =
          IsKept-same c q w₂ w₁ (unfold allocate_seq present_seqs read_bundles in refl)
            (unfold allocate_seq present_seqs read_bundles in refl) (IsKept-load_state c q w h) in
        after_rename-IsKept m seq r w₃ (λ u e. rename_dir-apart q seq dir w₂ u listed.held e)
          (record {
            held = holds-rename_dir (bundle_name q) dir (bundle_name seq) w₂ d listed.held;
            unstaged =
                rw (on_disk_json c w₃ w₂ (unfold rename_dir in ground arith)) listed.unstaged;
          })

    pub pipeline-IsKept :
        (names : TempNames) (config : UpdateConfig) → AreKept c x names config (IsKept c q)
    pipeline-IsKept names config =
        let part : text_eq (part_name names) (bundle_name q) ≡ false =
          unfold text_eq bundle_name in ground arith in
        let dir : text_eq (extract_name names) (bundle_name q) ≡ false =
          unfold text_eq bundle_name in ground arith in
        record {
          answers = λ w later h. IsKept-same c q (record w { answers = later }) w refl refl h;
          loads = λ w h. IsKept-load_state c q w h;
          creates = λ w h.
              IsKept-same c q (create_bundles w).1 w (unfold create_bundles in ground arith)
                (unfold create_bundles in ground arith) h;
          adds_part = λ w h. record {
            held = holds-add_file (bundle_name q) (part_name names) w part h.held;
            unstaged =
                rw
                  (on_disk_json c (add_file (part_name names) w).1 w
                    (unfold add_file in ground arith))
                  h.unstaged;
          };
          removes_part = λ w h. IsKept-remove_entry (part_name names) w part h;
          adds_dir = λ w h. record {
            held = holds-add_dir (bundle_name q) (extract_name names) w h.held;
            unstaged =
                rw
                  (on_disk_json c (add_dir (extract_name names) w).1 w
                    (unfold add_dir in ground arith))
                  h.unstaged;
          };
          removes_dir = λ w h. IsKept-remove_entry (extract_name names) w dir h;
          stages = λ m w f h. stage_bundle-IsKept m (extract_name names) w dir h;
        }
