-- ===== src/Update/Pipeline.antt =====
-- `check` and `check_and_download` (src/update.rs). What the program does not implement is the
-- record `Outside`; the random part of a temporary name is an argument.
use Prim.Native.String.{◌++◌ as ◌<>◌}
use tauri_plugin_hot_update.Prelude.{
  ℕ, String, Bool, Option, none, some, List, [], ◌∷◌, ◌++◌, if◌then◌else◌,
}
use tauri_plugin_hot_update.Prelude.Result.{Result, ok, err, ◌>>=◌}
use tauri_plugin_hot_update.Prelude.Utf8.{is_utf8}
use tauri_plugin_hot_update.Version.{Order}
use tauri_plugin_hot_update.Error.{
  Error, ExtractError, not_active, http, manifest_signature, stage_refused, extract,
}
use tauri_plugin_hot_update.Manifest.{Manifest}
use tauri_plugin_hot_update.Manifest.Verify.{Minisign, verify_and_parse}
use tauri_plugin_hot_update.Machine.Session
use tauri_plugin_hot_update.Machine.Session.{StageResult, refused, stage}
use tauri_plugin_hot_update.Download.{
  Response, Transfer, manifest_max_bytes, signature_max_bytes, fetch_capped, download_archive,
}
use tauri_plugin_hot_update.Extract.Entries.{Item, Output, production_limits, extract_with_limits}
use tauri_plugin_hot_update.Store.{Codec, load_state, update, allocate_seq, apply_effects}
use tauri_plugin_hot_update.Store.Disk.{
  Answer, World, IoError, create_bundles, add_file, add_dir, rename_dir, remove_entry,
}
use tauri_plugin_hot_update.Store.Names.{bundle_name}
use tauri_plugin_hot_update.Runtime.{Activation, App}
use tauri_plugin_hot_update.Update.{UpdateOutcome, available, staged, gate, meta_of}

pub record UpdateConfig : Type 0 where
  pub manifest_url : String
  pub pubkeys : List String

-- Whether a client can be built, the network, the digest, gzip and tar, minisign and JSON.
pub record Outside (V : Type 0) : Type 1 where
  pub builds : Bool
  pub send : String → Option Response
  pub sha256 : List ℕ → List ℕ
  pub unpack : List ℕ → List Item
  pub mini : Minisign
  pub parse_json : List ℕ → Option (Manifest V)

-- the random parts of the two temporary names
pub record TempNames : Type 0 where
  pub part : List ℕ
  pub dir : List ℕ

-- `dl-*.part` and `extract-*`
abbrev pub part_name : TempNames → List ℕ
part_name t = b'd' ∷ b'l' ∷ b'-' ∷ (t.part ++ (b'.' ∷ b'p' ∷ b'a' ∷ b'r' ∷ b't' ∷ []))

abbrev pub extract_name : TempNames → List ℕ
extract_name t = b'e' ∷ b'x' ∷ b't' ∷ b'r' ∷ b'a' ∷ b'c' ∷ b't' ∷ b'-' ∷ t.dir

abbrev pub new_transfer : List Answer → Transfer
new_transfer answers = record {
  written = [];
  hashed = [];
  downloaded = 0;
  reports = [];
  answers = answers;
}

abbrev pub new_output : List Answer → Output
new_output answers = record { files = []; answers = answers }

module _ {V : Type 0} (x : Outside V) where
  unfoldable pub fetch_verified_manifest : UpdateConfig → Result (Error V) (Manifest V)
  fetch_verified_manifest config =
      fetch_capped x.send config.manifest_url manifest_max_bytes >>= λ bytes.
      fetch_capped x.send (config.manifest_url <> ".minisig") signature_max_bytes >>= λ signature.
      if is_utf8 signature
      then verify_and_parse x.mini x.parse_json bytes signature config.pubkeys
      else err (manifest_signature "signature file is not UTF-8")

  -- `http_client()?` and the fetch
  unfoldable pub fetch_with_client : UpdateConfig → Result (Error V) (Manifest V)
  fetch_with_client config = if x.builds then fetch_verified_manifest config else err http

-- `none` of the gate is an offer
abbrev pub offer : {V : Type 0} → Manifest V → Option (UpdateOutcome V) → UpdateOutcome V
offer m none = available m
offer m (some refusal) = refusal

module _ {V : Type 0} ⦃o : Order V⦄ (c : Codec V) (x : Outside V) where
  abbrev pub after_check :
      Activation V
      → App V
      → Result (Error V) (Manifest V)
      → Result (Error V) (UpdateOutcome V) × App V
  after_check a app (err e) = (err e, app)
  after_check a app (ok m) =
      let (s, w) = load_state c app.world in
      (ok (offer m (gate m s a.embedded_version)), record app { world = w })

  -- `check` of an activated process
  unfoldable pub check_active :
      UpdateConfig → Activation V → App V → Result (Error V) (UpdateOutcome V) × App V
  check_active config a app = after_check a app (fetch_with_client x config)

  unfoldable pub check : UpdateConfig → App V → Result (Error V) (UpdateOutcome V) × App V
  unfolding check_active
  check config app = elim app.shared.activation [
    | none ↦ (err not_active, app)
    | some a ↦ check_active config a app
  ]

  -- what the answer of `stage` leads to
  abbrev pub finish_stage :
      Manifest V
      → ℕ
      → Result IoError (StageResult V) × World
      → Result (Error V) (UpdateOutcome V) × World
  finish_stage m seq (err _, w) = (err Error.io, w)
  finish_stage m seq (ok (Session.staged effects), w) =
      (ok (staged seq m.version), apply_effects effects w)
  finish_stage m seq (ok (refused r), w) = (err (stage_refused r), remove_entry (bundle_name seq) w)

  abbrev pub after_rename :
      Manifest V
      → ℕ
      → Result IoError (Unit {0}) × World
      → Result (Error V) (UpdateOutcome V) × World
  after_rename m seq (err _, w) = (err Error.io, w)
  after_rename m seq (ok _, w) = finish_stage m seq (update c (λ s. stage s seq (meta_of m)) w)

  -- The extracted directory becomes that of a new seq, which is then staged.
  unfoldable pub stage_bundle :
      Manifest V → List ℕ → World → Result (Error V) (UpdateOutcome V) × World
  stage_bundle m dir w =
      let (s, w₁) = load_state c w in
      let (seq, w₂) = allocate_seq s w₁ in after_rename m seq (rename_dir dir (bundle_name seq) w₂)

  -- Both temporaries are removed when the extraction fails, and the archive when it is done.
  abbrev pub after_extract :
      Manifest V
      → TempNames
      → Result ExtractError (Unit {0})
      → World
      → Result (Error V) (UpdateOutcome V) × World
  after_extract m names (err e) w =
      (err (extract e), remove_entry (part_name names) (remove_entry (extract_name names) w))
  after_extract m names (ok _) w =
      stage_bundle m (extract_name names) (remove_entry (part_name names) w)

  abbrev pub after_add_dir :
      Manifest V
      → TempNames
      → List ℕ
      → Result IoError (Unit {0}) × World
      → Result (Error V) (UpdateOutcome V) × World
  after_add_dir m names bytes (err _, w) = (err Error.io, remove_entry (part_name names) w)
  after_add_dir m names bytes (ok _, w) =
      let (r, out) =
        extract_with_limits production_limits (extract_name names ∷ []) (x.unpack bytes)
          (new_output w.answers) in
      after_extract m names r (record w { answers = out.answers })

  -- Extraction into a temporary directory.
  unfoldable pub extract_bundle :
      Manifest V → TempNames → List ℕ → World → Result (Error V) (UpdateOutcome V) × World
  unfolding stage_bundle
  extract_bundle m names bytes w = after_add_dir m names bytes (add_dir (extract_name names) w)

  abbrev pub after_download :
      Manifest V
      → TempNames
      → Result (Error V) (Unit {0})
      → List ℕ
      → World
      → Result (Error V) (UpdateOutcome V) × World
  after_download m names (err e) bytes w = (err e, remove_entry (part_name names) w)
  after_download m names (ok _) bytes w = extract_bundle m names bytes w

  -- The download into a temporary file, which is removed when it fails.
  unfoldable pub receive_archive :
      Manifest V → TempNames → World → Result (Error V) (UpdateOutcome V) × World
  unfolding extract_bundle
  receive_archive m names w =
      let (r, t) = download_archive x.send x.sha256 m.archive (new_transfer w.answers) in
      after_download m names r t.written (record w { answers = t.answers })

  abbrev pub after_add_file :
      Manifest V
      → TempNames
      → Result IoError (Unit {0}) × World
      → Result (Error V) (UpdateOutcome V) × World
  after_add_file m names (err _, w) = (err Error.io, w)
  after_add_file m names (ok _, w) = receive_archive m names w

  abbrev pub after_create :
      Manifest V
      → TempNames
      → Result IoError (Unit {0}) × World
      → Result (Error V) (UpdateOutcome V) × World
  after_create m names (err _, w) = (err Error.io, w)
  after_create m names (ok _, w) = after_add_file m names (add_file (part_name names) w)

  unfoldable pub download_bundle :
      Manifest V → TempNames → World → Result (Error V) (UpdateOutcome V) × World
  unfolding receive_archive
  download_bundle m names w = after_create m names (create_bundles w)

  -- what the gate decides about a verified manifest
  unfoldable pub download_offered :
      Manifest V
      → TempNames
      → Option (UpdateOutcome V)
      → World
      → Result (Error V) (UpdateOutcome V) × World
  unfolding download_bundle
  download_offered m names (some refusal) w = (ok refusal, w)
  download_offered m names none w = download_bundle m names w

  abbrev pub after_fetch :
      TempNames
      → Activation V
      → App V
      → Result (Error V) (Manifest V)
      → Result (Error V) (UpdateOutcome V) × App V
  after_fetch names a app (err e) = (err e, app)
  after_fetch names a app (ok m) =
      let (s, w) = load_state c app.world in
      let (r, w') = download_offered m names (gate m s a.embedded_version) w in
      (r, record app { world = w' })

  -- `check_and_download` of an activated process
  unfoldable pub download_active :
      UpdateConfig → TempNames → Activation V → App V → Result (Error V) (UpdateOutcome V) × App V
  unfolding download_offered
  download_active config names a app = after_fetch names a app (fetch_with_client x config)

  unfoldable pub check_and_download :
      UpdateConfig → TempNames → App V → Result (Error V) (UpdateOutcome V) × App V
  unfolding download_active
  check_and_download config names app = elim app.shared.activation [
    | none ↦ (err not_active, app)
    | some a ↦ download_active config names a app
  ]
