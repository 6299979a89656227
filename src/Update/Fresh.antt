-- ===== src/Update/Fresh.antt =====
-- What `stage` (src/machine.rs) leaves of the state, and a rename (src/store.rs) of the directories,
-- for a bundle that the pipeline (src/update.rs) stages.
use tauri_plugin_hot_update.Prelude.{
  ℕ, true, false, ◌==◌, some, List, ◌≡◌, ◌≢◌, ◌⊎◌, arith, inl, inr, Bool-cases,
}
use tauri_plugin_hot_update.Prelude.Map
use tauri_plugin_hot_update.Prelude.Set
use tauri_plugin_hot_update.Prelude.Hashes
use tauri_plugin_hot_update.Prelude.Result.{ok}
use tauri_plugin_hot_update.Version.{Order}
use tauri_plugin_hot_update.Manifest.{Manifest}
use tauri_plugin_hot_update.Machine.{State, BundleMeta, Effect, fresh, referenced}
use tauri_plugin_hot_update.Machine.Session
use tauri_plugin_hot_update.Machine.Session.{StageResult, refused, stage}
use tauri_plugin_hot_update.Machine.Session.Staging.{passes_gates, stage-accepted, stage-refusal}
use tauri_plugin_hot_update.Store.Disk.{World, rename_dir}
use tauri_plugin_hot_update.Machine.Boot.Sweep.{deletes}
use tauri_plugin_hot_update.Machine.Invariant.{contains-referenced}
use tauri_plugin_hot_update.Store.Seqs.{has_dir}
use tauri_plugin_hot_update.Prelude.Lists.{text_eq_iff}
use tauri_plugin_hot_update.Update.{meta_of}

pub rename_dir-has_dir :
    (from to : List ℕ) (w : World)
    → (rename_dir from to w).0 ≡ ok tt
    → has_dir to (rename_dir from to w).1.entries ≡ true
unfolding rename_dir has_dir
rename_dir-has_dir from to w h = ground (arith, text_eq_iff to to)

module _ {V : Type 0} ⦃o : Order V⦄ where
  pub stage-fresh :
      (seq : ℕ) (m : Manifest V) (e : Session.StageError V)
      → (stage fresh seq (meta_of m)).1 ≢ refused e
  unfolding stage fresh referenced Set.contains Hashes.contains Map.get
  stage-fresh seq m e h = cc

  pub stage_refused_state :
      (s : State V) (seq : ℕ) (m : Manifest V) (e : Session.StageError V)
      → (stage s seq (meta_of m)).1 ≡ refused e
      → (stage s seq (meta_of m)).0 ≡ s
  stage_refused_state s seq m e h =
      let meta = meta_of m in
      elim (Bool-cases (passes_gates s seq meta)) [
        | inl y ↦
            let (es, r, _, _, _, _, _, _, _, _) = stage-accepted s seq meta y in
            absurd (ground (arith, r))
        | inr n ↦ let (_, r, _) = stage-refusal s seq meta n in rw r
      ]

  -- what an accepted `stage` leaves, and spares
  pub stage_staged_state :
      (s : State V) (seq : ℕ) (m : Manifest V) (es : List Effect)
      → (stage s seq (meta_of m)).1 ≡ Session.staged es
      → ((stage s seq (meta_of m)).0.staged ≡ some seq)
        × (Map.get seq (stage s seq (meta_of m)).0.versions ≡ some (meta_of m))
        × (deletes seq es ≡ false)
        × ((q : ℕ) (meta : BundleMeta V)
            → Map.get q (stage s seq (meta_of m)).0.versions ≡ some meta
            → (q ≡ seq) ⊎ (Map.get q s.versions ≡ some meta))
  stage_staged_state s seq m es h =
      let meta = meta_of m in
      elim (Bool-cases (passes_gates s seq meta)) [
        | inl y ↦
            let (_, r, gone, k, _, _, _, _, _, v) = stage-accepted s seq meta y in
            (
              k,
              ground (arith, v seq),
              ground (arith, gone seq, contains-referenced seq s),
              λ q known e. elim (Bool-cases (seq == q)) [
                | inl same ↦ inl (ground arith)
                | inr apart ↦ inr (ground (arith, v q))
              ],
            )
        | inr n ↦ let (_, r, _) = stage-refusal s seq meta n in absurd (ground (arith, r))
      ]

  -- no bundle has metadata in the fresh state
  pub loaded_versions :
      (s old : State V) (q : ℕ) (meta : BundleMeta V)
      → (s ≡ old) ⊎ (s ≡ fresh)
      → Map.get q s.versions ≡ some meta
      → Map.get q old.versions ≡ some meta
  unfolding fresh Map.get
  loaded_versions s old q meta (inl same) e = rw same at e
  loaded_versions s old q meta (inr new) e =
      let none_known : Map.get q fresh.versions ≡ some meta = rw new at e in absurd (ground arith)
