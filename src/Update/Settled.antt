-- ===== src/Update/Settled.antt =====
-- What a run of the update pipeline (src/update.rs) leaves on disk.
use tauri_plugin_hot_update.Prelude.{
  ℕ, true, some, List, [], ◌∷◌, ◌≡◌, ◌⊎◌, refl, arith, sym, ap, ◌∙◌, inl, inr,
}
use tauri_plugin_hot_update.Prelude.Map
use tauri_plugin_hot_update.Store.Names.{bundle_name}
use tauri_plugin_hot_update.Prelude.Result.{Result, ok, err}
use tauri_plugin_hot_update.Version.{Order}
use tauri_plugin_hot_update.Error.{Error, ExtractError}
use tauri_plugin_hot_update.Manifest.{Manifest}
use tauri_plugin_hot_update.Machine.{State, BundleMeta, fresh}
use tauri_plugin_hot_update.Machine.Session
use tauri_plugin_hot_update.Machine.Session.{StageResult, refused, stage}
use tauri_plugin_hot_update.Store.{Codec, load_state, update, allocate_seq, present_seqs}
use tauri_plugin_hot_update.Store.Disk.{
  World, IoError, read_state_file, read_bundles, create_bundles, add_file, add_dir, rename_dir,
  remove_entry,
}
use tauri_plugin_hot_update.Store.Seqs.{has_dir}
use tauri_plugin_hot_update.Store.Deletion.{apply_effects-spares}
use tauri_plugin_hot_update.Store.Persist.{
  on_disk, on_disk_json, after, update_atomic, load_state-cases,
}
use tauri_plugin_hot_update.Download.{download_archive}
use tauri_plugin_hot_update.Extract.Entries.{production_limits, extract_with_limits}
use tauri_plugin_hot_update.Runtime.Calls.{on_disk-apply_effects}
use tauri_plugin_hot_update.Update
use tauri_plugin_hot_update.Update.Fresh.{
  stage-fresh, stage_refused_state, stage_staged_state, loaded_versions, rename_dir-has_dir,
}
use tauri_plugin_hot_update.Update.{UpdateOutcome, meta_of, gate}
use tauri_plugin_hot_update.Update.Pipeline.{
  Outside, TempNames, part_name, extract_name, new_transfer, new_output, finish_stage, after_rename,
  stage_bundle, after_extract, after_add_dir, extract_bundle, after_download, after_add_file,
  after_create, receive_archive, download_bundle,
}

module _ {V : Type 0} (c : Codec V) where
  on_disk-remove_entry : (name : List ℕ) (w : World) → on_disk c (remove_entry name w) ≡ on_disk c w
  unfolding remove_entry
  on_disk-remove_entry name w = on_disk_json c (remove_entry name w) w (ground arith)

module _ {V : Type 0} ⦃o : Order V⦄ (c : Codec V) (x : Outside V) where
  -- A staged bundle is on disk under its seq, with the manifest's metadata and with its directory,
  -- and no other bundle has got metadata. Any other answer leaves the state on disk.
  abbrev pub Settled : State V → Manifest V → Result (Error V) (UpdateOutcome V) → World → Type 0
  Settled old m (err _) w = on_disk c w ≡ old
  Settled old m (ok (Update.staged seq version)) w =
      (version ≡ m.version)
      × ((on_disk c w).staged ≡ some seq)
      × (Map.get seq (on_disk c w).versions
          ≡ some (record {
            version = m.version;
            archive_sha256 = m.archive.sha256;
            base_version = m.base_version;
          }))
      × (has_dir (bundle_name seq) w.entries ≡ true)
      × ((q : ℕ) (meta : BundleMeta V)
          → Map.get q (on_disk c w).versions ≡ some meta
          → (q ≡ seq) ⊎ (Map.get q old.versions ≡ some meta))
  Settled old m (ok _) w = on_disk c w ≡ old

  finish_stage-Settled :
      (old : State V) (m : Manifest V) (seq : ℕ) (r : Result IoError (StageResult V)) (w : World)
      (s : State V)
      → on_disk c w ≡ after r (stage s seq (meta_of m)).0 old
      → ((out : StageResult V) → r ≡ ok out → out ≡ (stage s seq (meta_of m)).1)
      → (s ≡ old) ⊎ (s ≡ fresh)
      → has_dir (bundle_name seq) w.entries ≡ true
      → Settled old m (finish_stage c x m seq (r, w)).0 (finish_stage c x m seq (r, w)).1
  finish_stage-Settled old m seq (err e) w s d u l dir = d
  finish_stage-Settled old m seq (ok (Session.staged es)) w s d u l dir =
      let (staged, known, spared, others) =
        stage_staged_state s seq m es (sym (u (Session.staged es) refl)) in
      rw (on_disk-apply_effects c es w, d)
        (
          refl,
          staged,
          known,
          apply_effects-spares seq es w spared ∙ dir,
          λ q meta e. elim (others q meta e) [
            | inl same ↦ inl same
            | inr before ↦ inr (loaded_versions s old q meta l before)
          ],
        )
  finish_stage-Settled old m seq (ok (refused e)) w s d u l dir =
      let k = stage_refused_state s seq m e (sym (u (refused e) refl)) in
      let kept = on_disk-remove_entry c (bundle_name seq) w ∙ d ∙ k in
      elim l [
        | inl same ↦ kept ∙ same
        | inr new ↦ absurd (
            stage-fresh seq m e (
              ap (λ (t : State V). (stage t seq (meta_of m)).1) (sym new)
              ∙ sym (u (refused e) refl)))
      ]

  after_rename-Settled :
      (old : State V) (m : Manifest V) (seq : ℕ) (r : Result IoError (Unit {0})) (w : World)
      → on_disk c w ≡ old
      → (r ≡ ok tt → has_dir (bundle_name seq) w.entries ≡ true)
      → Settled old m (after_rename c x m seq (r, w)).0 (after_rename c x m seq (r, w)).1
  after_rename-Settled old m seq (err e) w d dir = d
  after_rename-Settled old m seq (ok _) w d dir =
      let transition = λ (s : State V). stage s seq (meta_of m) in
      let updated = update c transition w in
      let facts = update_atomic c transition w in
      finish_stage-Settled old m seq updated.0 updated.1 (load_state c w).0 (rw d at facts.0)
        facts.2 (rw d at (load_state-cases c w)) (ap (has_dir (bundle_name seq)) facts.1 ∙ dir refl)

  stage_bundle-Settled :
      (m : Manifest V) (dir : List ℕ) (w : World)
      → Settled (on_disk c w) m (stage_bundle c x m dir w).0 (stage_bundle c x m dir w).1
  unfolding stage_bundle
  stage_bundle-Settled m dir w =
      let (s, w₁) = load_state c w in
      let (seq, w₂) = allocate_seq s w₁ in
      let (r, w₃) = rename_dir dir (bundle_name seq) w₂ in
      after_rename-Settled (on_disk c w) m seq r w₃
        (on_disk_json c w₃ w (
          unfold rename_dir allocate_seq present_seqs read_bundles load_state read_state_file in
          ground arith))
        (rename_dir-has_dir dir (bundle_name seq) w₂)

  after_extract-Settled :
      (old : State V) (m : Manifest V) (names : TempNames) (r : Result ExtractError (Unit {0}))
      (w : World)
      → on_disk c w ≡ old
      → Settled old m (after_extract c x m names r w).0 (after_extract c x m names r w).1
  after_extract-Settled old m names (err e) w d =
      on_disk-remove_entry c (part_name names) (remove_entry (extract_name names) w)
      ∙ on_disk-remove_entry c (extract_name names) w
      ∙ d
  after_extract-Settled old m names (ok _) w d =
      let e = on_disk-remove_entry c (part_name names) w ∙ d in
      rw (← e) (stage_bundle-Settled m (extract_name names) (remove_entry (part_name names) w))

  after_add_dir-Settled :
      (old : State V) (m : Manifest V) (names : TempNames) (bytes : List ℕ)
      (r : Result IoError (Unit {0})) (w : World)
      → on_disk c w ≡ old
      → Settled old m
          (after_add_dir c x m names bytes (r, w)).0
          (after_add_dir c x m names bytes (r, w)).1
  after_add_dir-Settled old m names bytes (err e) w d =
      on_disk-remove_entry c (part_name names) w ∙ d
  after_add_dir-Settled old m names bytes (ok _) w d =
      let (r, out) =
        extract_with_limits production_limits (extract_name names ∷ []) (x.unpack bytes)
          (new_output w.answers) in
      after_extract-Settled old m names r (record w { answers = out.answers })
        (on_disk_json c (record w { answers = out.answers }) w refl ∙ d)

  extract_bundle-Settled :
      (m : Manifest V) (names : TempNames) (bytes : List ℕ) (w : World)
      → Settled
          (on_disk c w)
          m
          (extract_bundle c x m names bytes w).0
          (extract_bundle c x m names bytes w).1
  unfolding extract_bundle
  extract_bundle-Settled m names bytes w =
      let (r, w') = add_dir (extract_name names) w in
      after_add_dir-Settled (on_disk c w) m names bytes r w'
        (on_disk_json c w' w (unfold add_dir in ground arith))

  after_download-Settled :
      (old : State V) (m : Manifest V) (names : TempNames) (r : Result (Error V) (Unit {0}))
      (bytes : List ℕ) (w : World)
      → on_disk c w ≡ old
      → Settled old m
          (after_download c x m names r bytes w).0
          (after_download c x m names r bytes w).1
  after_download-Settled old m names (err e) bytes w d =
      on_disk-remove_entry c (part_name names) w ∙ d
  after_download-Settled old m names (ok _) bytes w d =
      rw (← d) (extract_bundle-Settled m names bytes w)

  receive_archive-Settled :
      (m : Manifest V) (names : TempNames) (w : World)
      → Settled (on_disk c w) m (receive_archive c x m names w).0 (receive_archive c x m names w).1
  unfolding receive_archive
  receive_archive-Settled m names w =
      let (r, t) = download_archive x.send x.sha256 m.archive (new_transfer w.answers) in
      let w' : World = record w { answers = t.answers } in
      after_download-Settled (on_disk c w) m names r t.written w' (on_disk_json c w' w refl)

  after_add_file-Settled :
      (old : State V) (m : Manifest V) (names : TempNames) (r : Result IoError (Unit {0}))
      (w : World)
      → on_disk c w ≡ old
      → Settled old m (after_add_file c x m names (r, w)).0 (after_add_file c x m names (r, w)).1
  after_add_file-Settled old m names (err e) w d = d
  after_add_file-Settled old m names (ok _) w d = rw (← d) (receive_archive-Settled m names w)

  after_create-Settled :
      (old : State V) (m : Manifest V) (names : TempNames) (r : Result IoError (Unit {0}))
      (w : World)
      → on_disk c w ≡ old
      → Settled old m (after_create c x m names (r, w)).0 (after_create c x m names (r, w)).1
  after_create-Settled old m names (err e) w d = d
  after_create-Settled old m names (ok _) w d =
      let (r, w') = add_file (part_name names) w in
      after_add_file-Settled old m names r w'
        (on_disk_json c w' w (unfold add_file in ground arith) ∙ d)

  pub download_bundle-Settled :
      (m : Manifest V) (names : TempNames) (w : World)
      → Settled (on_disk c w) m (download_bundle c x m names w).0 (download_bundle c x m names w).1
  unfolding download_bundle
  download_bundle-Settled m names w =
      let (r, w') = create_bundles w in
      after_create-Settled (on_disk c w) m names r w'
        (on_disk_json c w' w (unfold create_bundles in ground arith))
