-- ===== src/System/Signed.antt =====
-- Where a bundle that an app serves comes from, through any life of an install: src/machine.rs,
-- src/update.rs and src/manifest.rs together.
use tauri_plugin_hot_update.Prelude.{
  ℕ, some, List, [], ◌∷◌, ◌≡◌, refl, sym, ◌∙◌, ◌⊎◌, inl, inr, arith, ◌≢◌, Option-cases,
}
use tauri_plugin_hot_update.Prelude.Map
use tauri_plugin_hot_update.Prelude.Map.{Map}
use tauri_plugin_hot_update.Version.{Order}
use tauri_plugin_hot_update.Manifest.{Manifest}
use tauri_plugin_hot_update.Machine.{State, BundleMeta, fresh}
use tauri_plugin_hot_update.Machine.Invariant.{IsValid}
use tauri_plugin_hot_update.Machine.Metadata.{
  get-resolve_boot, get-promote_staged, get-stage, pointed_meta,
}
use tauri_plugin_hot_update.Machine.Session.{reset}
use tauri_plugin_hot_update.Machine.Session.Committed.{get-ack}
use tauri_plugin_hot_update.Store.{Codec}
use tauri_plugin_hot_update.Store.Persist.{on_disk}
use tauri_plugin_hot_update.Runtime.{App}
use tauri_plugin_hot_update.Runtime.Booting.{initialize-persisted}
use tauri_plugin_hot_update.Runtime.{Activation}
use tauri_plugin_hot_update.Error.{Error}
use tauri_plugin_hot_update.Prelude.Result.{Result, ok}
use tauri_plugin_hot_update.Update
use tauri_plugin_hot_update.Update.{UpdateOutcome}
use tauri_plugin_hot_update.Update.Pipeline.{Outside, UpdateConfig, TempNames, check_and_download}
use tauri_plugin_hot_update.Update.Runs.{
  IsStaged, check_and_download-unstaged, check_and_download-IsStaged,
}
use tauri_plugin_hot_update.System.{
  downloads, Step, calls, launches, new_shared, advance, live, perform,
}
use tauri_plugin_hot_update.System.Stored.{AreClosed}
use tauri_plugin_hot_update.System.Lives.{
  IsFetchedBy, advance-IsStored, advance-IsValid, live-IsValid,
}
use tauri_plugin_hot_update.System.Serving.{IsServing}

module _ {V : Type 0} where
  -- an answer is that a bundle is staged, or another
  staged-cases :
      (r : Result (Error V) (UpdateOutcome V))
      → ((seq : ℕ) × (v : V) × (r ≡ ok (Update.staged seq v)))
        ⊎ ((seq : ℕ) (v : V) → r ≢ ok (Update.staged seq v))
  staged-cases (ok (Update.staged seq v)) = inl (seq, v, refl)
  staged-cases r = inr (λ seq v e. cc)

module _ {V : Type 0} ⦃o : Order V⦄ (c : Codec V) (q : ℕ) where
  -- the bundle has this metadata on disk
  abbrev HasMeta : BundleMeta V → App V → Type 0
  HasMeta meta app = Map.get q (on_disk c app.world).versions ≡ some meta

  versions-closed :
      (meta : BundleMeta V) (P : Type 0)
      → AreClosed (λ new. new ≡ meta → P) (λ (s : State V). Map.get q s.versions ≡ some meta → P)
  versions-closed meta P = record {
    starts = λ e. absurd (unfold fresh Map.get in ground arith);
    boots = λ s shell present h e. h (get-resolve_boot q meta s shell present e);
    promotes = λ s shell present h e. h (get-promote_staged q meta s shell present e);
    stages = λ s seq new allowed h e. elim (get-stage q meta s seq new e) [
      | inl before ↦ h before
      | inr same ↦ allowed same
    ];
    resets = λ s shell a h e. absurd (unfold reset fresh Map.get in ground arith);
  }

  -- The step is a download that stages the bundle: all that `IsStaged` says holds of it. The metadata
  -- is that of the manifest which it fetched.
  abbrev pub IsDownload : BundleMeta V → Step V → App V → Type 0
  IsDownload meta (calls (downloads x config names)) app =
      (a : Activation V) × (v : V) × (app.shared.activation ≡ some a)
      × (staged : IsStaged c x config names a app (check_and_download c x config names app).1 q v)
      × (meta ≡ record {
        version = staged.manifest.version;
        archive_sha256 = staged.manifest.archive.sha256;
        base_version = staged.manifest.base_version;
      })
  IsDownload meta _ app = ⊥

  -- one of the steps is, at its place in the life
  abbrev pub IsDownloadedIn : BundleMeta V → List (Step V) → App V → Type 0
  IsDownloadedIn meta [] app = ⊥
  IsDownloadedIn meta (s ∷ steps) app =
      IsDownload meta s app ⊎ IsDownloadedIn meta steps (advance c s app)

  -- a step that is no download gives no metadata
  advance_other-versions :
      (s : Step V) (app : App V) (meta : BundleMeta V)
      → ((m : Manifest V) → IsFetchedBy m s → ⊥)
      → HasMeta meta (advance c s app)
      → HasMeta meta app
  advance_other-versions s app meta n =
      advance-IsStored c (λ new. new ≡ meta → HasMeta meta app)
        (λ t. Map.get q t.versions ≡ some meta → HasMeta meta app)
        (versions-closed meta (HasMeta meta app)) s app
        (λ _ a t _ h e. h (get-ack q t a.current.active meta e)) (λ m f. absurd (n m f)) (λ e. e)

  downloads-versions :
      (x : Outside V) (config : UpdateConfig) (names : TempNames) (app : App V)
      (meta : BundleMeta V)
      → HasMeta meta (check_and_download c x config names app).1
      → HasMeta meta app ⊎ IsDownload meta (calls (downloads x config names)) app
  downloads-versions x config names app meta known =
      elim (staged-cases (check_and_download c x config names app).0) [
        | inr other ↦
            let kept = check_and_download-unstaged c x config names app other in
            inl (rw kept.0 at known)
        | inl (seq, v, r) ↦ elim (Option-cases app.shared.activation) [
          | inl n ↦ absurd (unfold check_and_download in ground arith)
          | inr (a, n) ↦
              let staged = check_and_download-IsStaged c x config names a app seq v n r in
              elim (staged.others q meta known) [
                | inr before ↦ inl before
                | inl same ↦
                    let served =
                      check_and_download-IsStaged c x config names a app q v n (rw same r) in
                    let found = sym known ∙ served.on_disk_meta in
                    inr (a, v, n, served, ground arith)
              ]
        ]
      ]

  advance-versions :
      (s : Step V) (app : App V) (meta : BundleMeta V)
      → HasMeta meta (advance c s app)
      → HasMeta meta app ⊎ IsDownload meta s app
  unfolding advance perform
  advance-versions (calls (downloads x config names)) app meta e =
      downloads-versions x config names app meta e
  advance-versions s app meta e = inl (advance_other-versions s app meta (λ m f. f) e)

  live-versions :
      (steps : List (Step V)) (app : App V) (meta : BundleMeta V)
      → HasMeta meta (live c steps app)
      → HasMeta meta app ⊎ IsDownloadedIn meta steps app
  unfolding live
  live-versions [] app meta e = inl e
  live-versions (s ∷ steps) app meta e = elim (live-versions steps (advance c s app) meta e) [
    | inr later ↦ inr (inr later)
    | inl now ↦ elim (advance-versions s app meta now) [
      | inl before ↦ inl before
      | inr here ↦ inr (inl here)
    ]
  ]

  no_meta :
      (known : Map (BundleMeta V)) (meta : BundleMeta V)
      → known ≡ []
      → Map.get q known ≡ some meta
      → ⊥
  unfolding Map.get
  no_meta known meta n e = ground arith

  -- A bundle that a launch serves, at the end of any life of an install, was downloaded in one of the
  -- steps of that life: by a run in an active process that fetched a manifest which a configured key
  -- signed, was offered it by the gate, accepted the transfer of its archive, unpacked that whole
  -- and left the bundle staged in its directory. On disk the bundle has the version, the hash and the
  -- base version of that manifest. At the start the state on disk was well formed, with metadata of
  -- no bundle.
  pub launched-IsSigned :
      (steps : List (Step V)) (app : App V) (shell : V)
      → IsValid (on_disk c app.world)
      → (on_disk c app.world).versions ≡ []
      → IsServing q (advance c (launches shell) (live c steps app))
      → (meta : BundleMeta V) × IsDownloadedIn meta steps app
        × (Map.get q (on_disk c (advance c (launches shell) (live c steps app)).world).versions
            ≡ some meta)
  unfolding advance
  launched-IsSigned steps app shell v n s =
      let before = live c steps app in
      let final = advance c (launches shell) before in
      let (_, pointed) =
        initialize-persisted c shell (record before { shared = new_shared }) s.activation q refl
          s.active s.serves in
      let valid : IsValid (on_disk c final.world) =
        advance-IsValid c (launches shell) before (live-IsValid c steps app v) in
      let (meta, known) = pointed_meta q (on_disk c final.world) valid pointed in
      elim (advance-versions (launches shell) before meta known) [
        | inr never ↦ absurd never
        | inl e ↦ elim (live-versions steps app meta e) [
          | inl first ↦ absurd (no_meta (on_disk c app.world).versions meta n first)
          | inr downloaded ↦ (meta, downloaded, known)
        ]
      ]
