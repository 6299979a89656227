-- ===== src/System/Staging.antt =====
-- What the staging of src/update.rs keeps of the state on disk, in any run of the pipeline.
use tauri_plugin_hot_update.Prelude.{ℕ, List, ◌≡◌, refl, arith}
use tauri_plugin_hot_update.Prelude.Result.{Result, ok, err}
use tauri_plugin_hot_update.Version.{Order}
use tauri_plugin_hot_update.Manifest.{Manifest}
use tauri_plugin_hot_update.Machine.{State, BundleMeta}
use tauri_plugin_hot_update.Machine.Session
use tauri_plugin_hot_update.Machine.Session.{StageResult, refused, stage}
use tauri_plugin_hot_update.Store.{Codec, load_state, update, allocate_seq, present_seqs}
use tauri_plugin_hot_update.Store.Disk.{
  World, IoError, read_state_file, read_bundles, create_bundles, add_file, add_dir, rename_dir,
  remove_entry,
}
use tauri_plugin_hot_update.Store.Names.{bundle_name}
use tauri_plugin_hot_update.Store.Persist.{on_disk_json}
use tauri_plugin_hot_update.Runtime.{App}
use tauri_plugin_hot_update.Runtime.Calls.{on_disk-apply_effects}
use tauri_plugin_hot_update.Update.{meta_of}
use tauri_plugin_hot_update.Update.Keeps.{AreKept, kept-check_and_download, kept-check_call}
use tauri_plugin_hot_update.Update.Pipeline.{
  Outside, TempNames, UpdateConfig, extract_name, part_name, finish_stage, after_rename,
  stage_bundle, check, check_and_download, fetch_with_client,
}
use tauri_plugin_hot_update.System.Stored.{AreClosed, IsStored, update-IsStored}

module _ {V : Type 0} ⦃o : Order V⦄ (c : Codec V) (A : BundleMeta V → Type 0) (K : State V → Type 0)
    (k : AreClosed A K) where
  -- a world with the same state file
  IsStored-same :
      (w w' : World) → w.state_json ≡ w'.state_json → IsStored c A K k w' → IsStored c A K k w
  IsStored-same w w' e h = rw (on_disk_json c w w' e) h

  IsStored-remove_entry :
      (name : List ℕ) (w : World) → IsStored c A K k w → IsStored c A K k (remove_entry name w)
  IsStored-remove_entry name w h =
      IsStored-same (remove_entry name w) w (unfold remove_entry in ground arith) h

  module _ (x : Outside V) (config : UpdateConfig)
      (allowed : (m : Manifest V) → fetch_with_client x config ≡ ok m → A (meta_of m)) where
    finish_stage-IsStored :
        (m : Manifest V) (seq : ℕ) (r : Result IoError (StageResult V)) (w : World)
        → IsStored c A K k w
        → IsStored c A K k (finish_stage c x m seq (r, w)).1
    finish_stage-IsStored m seq (err e) w h = h
    finish_stage-IsStored m seq (ok (Session.staged es)) w h = rw (on_disk-apply_effects c es w) h
    finish_stage-IsStored m seq (ok (refused e)) w h = IsStored-remove_entry (bundle_name seq) w h

    after_rename-IsStored :
        (m : Manifest V) (seq : ℕ) (r : Result IoError (Unit {0})) (w : World)
        → fetch_with_client x config ≡ ok m
        → IsStored c A K k w
        → IsStored c A K k (after_rename c x m seq (r, w)).1
    after_rename-IsStored m seq (err e) w f h = h
    after_rename-IsStored m seq (ok _) w f h =
        let transition = λ (s : State V). stage s seq (meta_of m) in
        let (r, w') = update c transition w in
        finish_stage-IsStored m seq r w' (
          update-IsStored c A K k transition w (λ s v. k.stages s seq (meta_of m) (allowed m f) v)
            h)

    stage_bundle-IsStored :
        (m : Manifest V) (dir : List ℕ) (w : World)
        → fetch_with_client x config ≡ ok m
        → IsStored c A K k w
        → IsStored c A K k (stage_bundle c x m dir w).1
    unfolding stage_bundle
    stage_bundle-IsStored m dir w f h =
        let (s, w₁) = load_state c w in
        let (seq, w₂) = allocate_seq s w₁ in
        let (r, w₃) = rename_dir dir (bundle_name seq) w₂ in
        after_rename-IsStored m seq r w₃ f (
          IsStored-same w₃ w
            (unfold rename_dir allocate_seq present_seqs read_bundles load_state read_state_file in
              ground arith)
            h)

    staging-IsStored : (names : TempNames) → AreKept c x names config (IsStored c A K k)
    staging-IsStored names = record {
      answers = λ w later h. IsStored-same (record w { answers = later }) w refl h;
      loads =
          λ w h. IsStored-same (load_state c w).1 w (unfold load_state read_state_file in refl) h;
      creates =
          λ w h. IsStored-same (create_bundles w).1 w (unfold create_bundles in ground arith) h;
      adds_part = λ w h.
          IsStored-same (add_file (part_name names) w).1 w (unfold add_file in ground arith) h;
      removes_part = λ w h. IsStored-remove_entry (part_name names) w h;
      adds_dir = λ w h.
          IsStored-same (add_dir (extract_name names) w).1 w (unfold add_dir in ground arith) h;
      removes_dir = λ w h. IsStored-remove_entry (extract_name names) w h;
      stages = λ m w f h. stage_bundle-IsStored m (extract_name names) w f h;
    }

    pub check_and_download-IsStored :
        (names : TempNames) (app : App V)
        → IsStored c A K k app.world
        → IsStored c A K k (check_and_download c x config names app).1.world
    check_and_download-IsStored names app h =
        kept-check_and_download c x names config (IsStored c A K k) (staging-IsStored names) app h

  pub check-IsStored :
      (x : Outside V) (config : UpdateConfig) (app : App V)
      → IsStored c A K k app.world
      → IsStored c A K k (check c x config app).1.world
  check-IsStored x config app h =
      kept-check_call c x (IsStored c A K k)
        (λ w v. IsStored-same (load_state c w).1 w (unfold load_state read_state_file in refl) v)
        config app h
