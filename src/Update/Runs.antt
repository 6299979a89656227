-- ===== src/Update/Runs.antt =====
-- Whole runs of `check_and_download` (src/update.rs).
use tauri_plugin_hot_update.Prelude.{
  ℕ, true, ◌⊎◌, Option, none, some, ◌≡◌, ◌≢◌, refl, arith, ap, ◌∙◌, inl, inr, Option-cases,
}
use tauri_plugin_hot_update.Prelude.Map
use tauri_plugin_hot_update.Prelude.Result.{Result, ok, err}
use tauri_plugin_hot_update.Version.{Order}
use tauri_plugin_hot_update.Error.{Error}
use tauri_plugin_hot_update.Manifest.{Manifest}
use tauri_plugin_hot_update.Machine.{State, BundleMeta}
use tauri_plugin_hot_update.Store.{Codec, load_state}
use tauri_plugin_hot_update.Store.Seqs.{has_dir}
use tauri_plugin_hot_update.Store.Names.{bundle_name}
use tauri_plugin_hot_update.Store.Disk.{World}
use tauri_plugin_hot_update.Store.Persist.{on_disk, on_disk-load_state}
use tauri_plugin_hot_update.Runtime.{Activation, App}
use tauri_plugin_hot_update.Update
use tauri_plugin_hot_update.Update.{UpdateOutcome, gate}
use tauri_plugin_hot_update.Update.Gate.{gate-refusal}
use tauri_plugin_hot_update.Update.Pipeline.{
  UpdateConfig, Outside, TempNames, download_bundle, download_offered, fetch_with_client,
  after_fetch, download_active, check_and_download,
}
use tauri_plugin_hot_update.Update.Settled.{Settled, download_bundle-Settled}
use tauri_plugin_hot_update.Update.Fetch.{IsFetched, fetch_with_client-IsFetched}
use tauri_plugin_hot_update.Update.Unpacked.{IsUnpacked, download_bundle-IsUnpacked}

module _ {V : Type 0} ⦃o : Order V⦄ (c : Codec V) (x : Outside V) where
  Settled-unstaged :
      (old : State V) (m : Manifest V) (r : Result (Error V) (UpdateOutcome V)) (w : World)
      → ((seq : ℕ) (v : V) → r ≢ ok (Update.staged seq v))
      → Settled c x old m r w
      → on_disk c w ≡ old
  Settled-unstaged old m (err e) w n h = h
  Settled-unstaged old m (ok (Update.available _)) w n h = h
  Settled-unstaged old m (ok (Update.staged seq v)) w n h = absurd (n seq v refl)
  Settled-unstaged old m (ok (Update.up_to_date _ _)) w n h = h
  Settled-unstaged old m (ok (Update.blacklisted _)) w n h = h
  Settled-unstaged old m (ok (Update.shell_too_old _ _)) w n h = h
  Settled-unstaged old m (ok (Update.shell_newer_than_base _ _)) w n h = h
  Settled-unstaged old m (ok (Update.invalid_base_version _ _)) w n h = h
  Settled-unstaged old m (ok (Update.already_staged _ _)) w n h = h

  download_offered-unstaged :
      (m : Manifest V) (names : TempNames) (g : Option (UpdateOutcome V)) (w : World)
      → ((seq : ℕ) (v : V) → (download_offered c x m names g w).0 ≢ ok (Update.staged seq v))
      → on_disk c (download_offered c x m names g w).1 ≡ on_disk c w
  unfolding download_offered
  download_offered-unstaged m names (some refusal) w n = refl
  download_offered-unstaged m names none w n =
      Settled-unstaged (on_disk c w) m (download_bundle c x m names w).0
        (download_bundle c x m names w).1 n (download_bundle-Settled c x m names w)

  after_fetch-unstaged :
      (names : TempNames) (a : Activation V) (app : App V) (r : Result (Error V) (Manifest V))
      → ((seq : ℕ) (v : V) → (after_fetch c x names a app r).0 ≢ ok (Update.staged seq v))
      → (on_disk c (after_fetch c x names a app r).1.world ≡ on_disk c app.world)
        × ((after_fetch c x names a app r).1.shared ≡ app.shared)
  after_fetch-unstaged names a app (err e) n = (refl, refl)
  after_fetch-unstaged names a app (ok m) n =
      let (s, w) = load_state c app.world in
      (
        download_offered-unstaged m names (gate m s a.embedded_version) w n
            ∙ on_disk-load_state c app.world,
        refl,
      )

  download_active-unstaged :
      (config : UpdateConfig) (names : TempNames) (a : Activation V) (app : App V)
      → ((seq : ℕ) (v : V) → (download_active c x config names a app).0 ≢ ok (Update.staged seq v))
      → (on_disk c (download_active c x config names a app).1.world ≡ on_disk c app.world)
        × ((download_active c x config names a app).1.shared ≡ app.shared)
  unfolding download_active
  download_active-unstaged config names a app n =
      after_fetch-unstaged names a app (fetch_with_client x config) n

  -- Every run that does not stage a bundle, whatever fails and wherever, leaves the state on disk
  -- and the process as they were.
  pub check_and_download-unstaged :
      (config : UpdateConfig) (names : TempNames) (app : App V)
      → ((seq : ℕ) (v : V) → (check_and_download c x config names app).0 ≢ ok (Update.staged seq v))
      → (on_disk c (check_and_download c x config names app).1.world ≡ on_disk c app.world)
        × ((check_and_download c x config names app).1.shared ≡ app.shared)
  unfolding check_and_download
  check_and_download-unstaged config names app n = elim (Option-cases app.shared.activation) [
    | inl e ↦ ground arith
    | inr (a, e) ↦
        let active : check_and_download c x config names app
            ≡ download_active c x config names a app =
          ground arith in
        rw active (
          download_active-unstaged config names a app (λ seq v k.
            n seq v (ap (λ (r : Result (Error V) (UpdateOutcome V) × App V). r.0) active ∙ k)))
  ]

  -- what a run has done that stages a bundle
  pub record IsStaged (config : UpdateConfig) (names : TempNames) (a : Activation V)
      (before after : App V) (seq : ℕ) (version : V) : Type 0 where
    pub manifest : Manifest V
    pub verified : IsFetched x config manifest
    pub offered : gate manifest (load_state c before.world).0 a.embedded_version ≡ none
    pub unpacked : IsUnpacked x manifest names (load_state c before.world).1
    pub named : version ≡ manifest.version
    pub on_disk_staged : (on_disk c after.world).staged ≡ some seq
    pub on_disk_meta :
        Map.get seq (on_disk c after.world).versions
        ≡ some (record {
          version = manifest.version;
          archive_sha256 = manifest.archive.sha256;
          base_version = manifest.base_version;
        })
    pub others :
        (q : ℕ) (meta : BundleMeta V)
        → Map.get q (on_disk c after.world).versions ≡ some meta
        → (q ≡ seq) ⊎ (Map.get q (on_disk c before.world).versions ≡ some meta)
    pub directory : has_dir (bundle_name seq) after.world.entries ≡ true
    pub process : after.shared ≡ before.shared

  download_offered-staged :
      (m : Manifest V) (names : TempNames) (s : State V) (shell : V) (w : World) (seq : ℕ) (v : V)
      → (download_offered c x m names (gate m s shell) w).0 ≡ ok (Update.staged seq v)
      → (gate m s shell ≡ none)
        × IsUnpacked x m names w
        × Settled c x
            (on_disk c w)
            m
            (ok (Update.staged seq v))
            (download_offered c x m names (gate m s shell) w).1
  unfolding download_offered
  download_offered-staged m names s shell w seq v h = elim (Option-cases (gate m s shell)) [
    | inl n ↦ rw n (
      refl,
      download_bundle-IsUnpacked c x m names w (Update.staged seq v) (rw n at h),
      rw (rw n at h) at (download_bundle-Settled c x m names w),
    )
    | inr (out, n) ↦
        let same : out ≡ Update.staged seq v = ground arith in
        absurd (rw same at (gate-refusal m s shell out n))
  ]

  after_fetch-IsStaged :
      (config : UpdateConfig) (names : TempNames) (a : Activation V) (app : App V) (seq : ℕ) (v : V)
      (r : Result (Error V) (Manifest V))
      → ((m : Manifest V) → r ≡ ok m → IsFetched x config m)
      → (after_fetch c x names a app r).0 ≡ ok (Update.staged seq v)
      → IsStaged config names a app (after_fetch c x names a app r).1 seq v
  after_fetch-IsStaged config names a app seq v (err e) f h = cc
  after_fetch-IsStaged config names a app seq v (ok m) f h =
      let (s, w) = load_state c app.world in
      let (offered, unpacked, (named, staged, found, dir, others)) =
        download_offered-staged m names s a.embedded_version w seq v h in
      record {
        manifest = m;
        verified = f m refl;
        offered = offered;
        unpacked = unpacked;
        named = named;
        on_disk_staged = staged;
        on_disk_meta = found;
        others = rw (on_disk-load_state c app.world) at others;
        directory = dir;
        process = refl;
      }

  download_active-IsStaged :
      (config : UpdateConfig) (names : TempNames) (a : Activation V) (app : App V) (seq : ℕ) (v : V)
      → (download_active c x config names a app).0 ≡ ok (Update.staged seq v)
      → IsStaged config names a app (download_active c x config names a app).1 seq v
  unfolding download_active
  download_active-IsStaged config names a app seq v h =
      after_fetch-IsStaged config names a app seq v (fetch_with_client x config)
        (fetch_with_client-IsFetched x config) h

  -- A run in an active process answers that a bundle is staged only if its manifest was fetched
  -- and trusted, the gate offered it for the state that the run loaded, the transfer of its archive
  -- in this run was accepted, no entry of what was received has an error, and the extraction came
  -- to its end and has written each file of it, with its content. The bundle's directory is then in
  -- `bundles/`, and the bundle is staged on disk with the manifest's version, hash and base version.
  -- No other bundle has got metadata, and the process is as it was.
  pub check_and_download-IsStaged :
      (config : UpdateConfig) (names : TempNames) (a : Activation V) (app : App V) (seq : ℕ) (v : V)
      → app.shared.activation ≡ some a
      → (check_and_download c x config names app).0 ≡ ok (Update.staged seq v)
      → IsStaged config names a app (check_and_download c x config names app).1 seq v
  unfolding check_and_download
  check_and_download-IsStaged config names a app seq v n h =
      let active : check_and_download c x config names app
          ≡ download_active c x config names a app =
        ground arith in
      rw active (download_active-IsStaged config names a app seq v (rw active at h))
