-- ===== src/Update/Unpacked.antt =====
-- What a run has done with an archive that it keeps (src/update.rs).
use tauri_plugin_hot_update.Prelude.{ℕ, List, [], ◌∷◌, ◌≡◌, refl}
use tauri_plugin_hot_update.Prelude.Result.{Result, ok, err}
use tauri_plugin_hot_update.Version.{Order}
use tauri_plugin_hot_update.Error.{Error, ExtractError}
use tauri_plugin_hot_update.Manifest.{Manifest}
use tauri_plugin_hot_update.Download.{Transfer, download_archive}
use tauri_plugin_hot_update.Extract.Entries.{Output, production_limits, extract_with_limits}
use tauri_plugin_hot_update.Extract.Whole.{unpacked, AreWhole, extract_with_limits-whole}
use tauri_plugin_hot_update.Store.{Codec}
use tauri_plugin_hot_update.Store.Disk.{World, IoError, add_dir, add_file, create_bundles}
use tauri_plugin_hot_update.Update.{UpdateOutcome}
use tauri_plugin_hot_update.Update.Pipeline.{
  Outside, TempNames, part_name, extract_name, new_transfer, new_output, after_extract,
  after_add_dir, extract_bundle, after_download, receive_archive, after_add_file, after_create,
  download_bundle,
}

module _ {V : Type 0} (x : Outside V) where
  -- the archive as a run receives it
  abbrev transfer : Manifest V → World → Result (Error V) (Unit {0}) × Transfer
  transfer m w = download_archive x.send x.sha256 m.archive (new_transfer w.answers)

  -- the extraction of what was received
  abbrev extraction : TempNames → List ℕ → World → Result ExtractError (Unit {0}) × Output
  extraction names bytes w =
      extract_with_limits production_limits (extract_name names ∷ []) (x.unpack bytes)
        (new_output (add_dir (extract_name names) w).1.answers)

  -- The archive that is received in this world was accepted, its extraction came to its end, no
  -- entry of it has an error, and the extraction has written its files, each with its content.
  pub record IsReceived (m : Manifest V) (names : TempNames) (w : World) : Type 0 where
    pub accepted : (transfer m w).0 ≡ ok tt
    pub extracted :
        (extraction names
          (transfer m w).1.written
          (record w { answers = (transfer m w).1.answers })).0
        ≡ ok tt
    pub whole : AreWhole (extract_name names ∷ []) (x.unpack (transfer m w).1.written)
    pub files :
        (extraction names
          (transfer m w).1.written
          (record w { answers = (transfer m w).1.answers })).1.files
        ≡ unpacked (extract_name names ∷ []) (x.unpack (transfer m w).1.written) []

  -- the run from this world on does so, once `bundles/` and the temporary file are there
  abbrev pub IsUnpacked : Manifest V → TempNames → World → Type 0
  IsUnpacked m names w = IsReceived m names (add_file (part_name names) (create_bundles w).1).1

module _ {V : Type 0} ⦃o : Order V⦄ (c : Codec V) (x : Outside V) where
  after_extract-ok :
      (m : Manifest V) (names : TempNames) (r : Result ExtractError (Unit {0})) (w : World)
      (out : UpdateOutcome V)
      → (after_extract c x m names r w).0 ≡ ok out
      → r ≡ ok tt
  after_extract-ok m names (err e) w out h = cc
  after_extract-ok m names (ok _) w out h = refl

  after_add_dir-ok :
      (m : Manifest V) (names : TempNames) (bytes : List ℕ) (r : Result IoError (Unit {0}))
      (w : World) (out : UpdateOutcome V)
      → (after_add_dir c x m names bytes (r, w)).0 ≡ ok out
      → (extract_with_limits production_limits
          (extract_name names ∷ [])
          (x.unpack bytes)
          (new_output w.answers)).0
        ≡ ok tt
  after_add_dir-ok m names bytes (err e) w out h = cc
  after_add_dir-ok m names bytes (ok _) w out h =
      let (r, done) =
        extract_with_limits production_limits (extract_name names ∷ []) (x.unpack bytes)
          (new_output w.answers) in
      after_extract-ok m names r (record w { answers = done.answers }) out h

  after_download-ok :
      (m : Manifest V) (names : TempNames) (r : Result (Error V) (Unit {0})) (bytes : List ℕ)
      (w : World) (out : UpdateOutcome V)
      → (after_download c x m names r bytes w).0 ≡ ok out
      → (r ≡ ok tt) × ((extraction x names bytes w).0 ≡ ok tt)
  unfolding extract_bundle
  after_download-ok m names (err e) bytes w out h = cc
  after_download-ok m names (ok _) bytes w out h =
      let (r, w') = add_dir (extract_name names) w in
      (refl, after_add_dir-ok m names bytes r w' out h)

  after_add_file-ok :
      (m : Manifest V) (names : TempNames) (r : Result IoError (Unit {0})) (w : World)
      (out : UpdateOutcome V)
      → (after_add_file c x m names (r, w)).0 ≡ ok out
      → IsReceived x m names w
  unfolding receive_archive
  after_add_file-ok m names (err e) w out h = cc
  after_add_file-ok m names (ok _) w out h =
      let (r, t) = transfer x m w in
      let w' : World = record w { answers = t.answers } in
      let (accepted, extracted) = after_download-ok m names r t.written w' out h in
      let (whole, files) =
        extract_with_limits-whole production_limits (extract_name names ∷ []) (x.unpack t.written)
          (new_output (add_dir (extract_name names) w').1.answers) tt extracted in
      record { accepted = accepted; extracted = extracted; whole = whole; files = files }

  after_create-ok :
      (m : Manifest V) (names : TempNames) (r : Result IoError (Unit {0})) (w : World)
      (out : UpdateOutcome V)
      → (after_create c x m names (r, w)).0 ≡ ok out
      → IsReceived x m names (add_file (part_name names) w).1
  after_create-ok m names (err e) w out h = cc
  after_create-ok m names (ok _) w out h =
      let (r, w') = add_file (part_name names) w in after_add_file-ok m names r w' out h

  pub download_bundle-IsUnpacked :
      (m : Manifest V) (names : TempNames) (w : World) (out : UpdateOutcome V)
      → (download_bundle c x m names w).0 ≡ ok out
      → IsUnpacked x m names w
  unfolding download_bundle
  download_bundle-IsUnpacked m names w out h =
      let (r, w') = create_bundles w in after_create-ok m names r w' out h
