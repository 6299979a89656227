-- ===== src/Update/Keeps.antt =====
-- What a run of the pipeline (src/update.rs) keeps of the world, from what its calls keep.
use tauri_plugin_hot_update.Prelude.{
  ℕ, Option, none, some, List, [], ◌∷◌, ◌≡◌, refl, arith, inl, inr, Option-cases,
}
use tauri_plugin_hot_update.Prelude.Result.{Result, ok, err}
use tauri_plugin_hot_update.Version.{Order}
use tauri_plugin_hot_update.Error.{Error, ExtractError}
use tauri_plugin_hot_update.Manifest.{Manifest}
use tauri_plugin_hot_update.Extract.Entries.{production_limits, extract_with_limits}
use tauri_plugin_hot_update.Download.{download_archive}
use tauri_plugin_hot_update.Store.{Codec, load_state}
use tauri_plugin_hot_update.Store.Disk.{
  Answer, World, IoError, create_bundles, add_file, add_dir, remove_entry,
}
use tauri_plugin_hot_update.Runtime.{Activation, App}
use tauri_plugin_hot_update.Update.{UpdateOutcome, gate}
use tauri_plugin_hot_update.Update.Pipeline.{
  UpdateConfig, Outside, TempNames, part_name, extract_name, new_transfer, new_output, stage_bundle,
  after_extract, after_add_dir, extract_bundle, after_download, receive_archive, after_add_file,
  after_create, download_bundle, download_offered, after_fetch, after_check, check_active, check,
  download_active, check_and_download, fetch_with_client,
}

module _ {V : Type 0} ⦃o : Order V⦄ (c : Codec V) (x : Outside V) (names : TempNames)
    (config : UpdateConfig) (J : World → Type 0) where
  -- a predicate that the calls of a run keep, up to the staging, and the staging as a whole
  pub record AreKept : Type 0 where
    pub answers : (w : World) (later : List Answer) → J w → J (record w { answers = later })
    pub loads : (w : World) → J w → J (load_state c w).1
    pub creates : (w : World) → J w → J (create_bundles w).1
    pub adds_part : (w : World) → J w → J (add_file (part_name names) w).1
    pub removes_part : (w : World) → J w → J (remove_entry (part_name names) w)
    pub adds_dir : (w : World) → J w → J (add_dir (extract_name names) w).1
    pub removes_dir : (w : World) → J w → J (remove_entry (extract_name names) w)
    pub stages :
        (m : Manifest V) (w : World)
        → fetch_with_client x config ≡ ok m
        → J w
        → J (stage_bundle c x m (extract_name names) w).1

  module _ (k : AreKept) (m : Manifest V) (f : fetch_with_client x config ≡ ok m) where
    kept-extract :
        (r : Result ExtractError (Unit {0})) (w : World) → J w → J (after_extract c x m names r w).1
    kept-extract (err e) w h =
        k.removes_part (remove_entry (extract_name names) w) (k.removes_dir w h)
    kept-extract (ok _) w h = k.stages m (remove_entry (part_name names) w) f (k.removes_part w h)

    kept-add_dir :
        (bytes : List ℕ) (r : Result IoError (Unit {0})) (w : World)
        → J w
        → J (after_add_dir c x m names bytes (r, w)).1
    kept-add_dir bytes (err e) w h = k.removes_part w h
    kept-add_dir bytes (ok _) w h =
        let (r, out) =
          extract_with_limits production_limits (extract_name names ∷ []) (x.unpack bytes)
            (new_output w.answers) in
        kept-extract r (record w { answers = out.answers }) (k.answers w out.answers h)

    kept-download :
        (r : Result (Error V) (Unit {0})) (bytes : List ℕ) (w : World)
        → J w
        → J (after_download c x m names r bytes w).1
    unfolding extract_bundle
    kept-download (err e) bytes w h = k.removes_part w h
    kept-download (ok _) bytes w h =
        let (r, w') = add_dir (extract_name names) w in kept-add_dir bytes r w' (k.adds_dir w h)

    kept-add_file :
        (r : Result IoError (Unit {0})) (w : World) → J w → J (after_add_file c x m names (r, w)).1
    unfolding receive_archive
    kept-add_file (err e) w h = h
    kept-add_file (ok _) w h =
        let (r, t) = download_archive {V = V} x.send x.sha256 m.archive (new_transfer w.answers) in
        kept-download r t.written (record w { answers = t.answers }) (k.answers w t.answers h)

    kept-create :
        (r : Result IoError (Unit {0})) (w : World) → J w → J (after_create c x m names (r, w)).1
    kept-create (err e) w h = h
    kept-create (ok _) w h =
        let (r, w') = add_file (part_name names) w in kept-add_file r w' (k.adds_part w h)

    kept-offered :
        (g : Option (UpdateOutcome V)) (w : World) → J w → J (download_offered c x m names g w).1
    unfolding download_offered download_bundle
    kept-offered (some refusal) w h = h
    kept-offered none w h = let (r, w') = create_bundles w in kept-create r w' (k.creates w h)

  module _ (k : AreKept) where
    kept-fetch :
        (a : Activation V) (app : App V) (r : Result (Error V) (Manifest V))
        → fetch_with_client x config ≡ r
        → J app.world
        → J (after_fetch c x names a app r).1.world
    kept-fetch a app (err e) f h = h
    kept-fetch a app (ok m) f h =
        let (s, w) = load_state c app.world in
        kept-offered k m f (gate m s a.embedded_version) w (k.loads app.world h)

    kept-download_active :
        (a : Activation V) (app : App V)
        → J app.world
        → J (download_active c x config names a app).1.world
    unfolding download_active
    kept-download_active a app h = kept-fetch a app (fetch_with_client x config) refl h

    pub kept-check_and_download :
        (app : App V) → J app.world → J (check_and_download c x config names app).1.world
    unfolding check_and_download
    kept-check_and_download app h = elim (Option-cases app.shared.activation) [
      | inl n ↦
          let idle : (check_and_download c x config names app).1 ≡ app = ground arith in rw idle h
      | inr (a, n) ↦
          let active : check_and_download c x config names app
              ≡ download_active c x config names a app =
            ground arith in
          rw active (kept-download_active a app h)
    ]

module _ {V : Type 0} ⦃o : Order V⦄ (c : Codec V) (x : Outside V) (J : World → Type 0)
    (loads : (w : World) → J w → J (load_state c w).1) where
  kept-check :
      (a : Activation V) (app : App V) (r : Result (Error V) (Manifest V))
      → J app.world
      → J (after_check c x a app r).1.world
  kept-check a app (err e) h = h
  kept-check a app (ok m) h = loads app.world h

  kept-check_active :
      (config : UpdateConfig) (a : Activation V) (app : App V)
      → J app.world
      → J (check_active c x config a app).1.world
  unfolding check_active
  kept-check_active config a app h = kept-check a app (fetch_with_client x config) h

  pub kept-check_call :
      (config : UpdateConfig) (app : App V) → J app.world → J (check c x config app).1.world
  unfolding check
  kept-check_call config app h = elim (Option-cases app.shared.activation) [
    | inl n ↦ let idle : (check c x config app).1 ≡ app = ground arith in rw idle h
    | inr (a, n) ↦
        let active : check c x config app ≡ check_active c x config a app = ground arith in
        rw active (kept-check_active config a app h)
  ]
