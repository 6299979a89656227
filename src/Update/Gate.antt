-- ===== src/Update/Gate.antt =====
-- What a manifest that passes the gate of src/update.rs is sure of, in `stage` and at the launch.
use tauri_plugin_hot_update.Prelude.{
  ℕ, Bool, true, false, not, ◌||◌, Option, none, some, List, ◌≡◌, arith, ◌∙◌,
}
use tauri_plugin_hot_update.Prelude.Set
use tauri_plugin_hot_update.Prelude.Map
use tauri_plugin_hot_update.Prelude.Hashes
use tauri_plugin_hot_update.Version.{Order, at_most, newer, newer-max, newer_trans}
use tauri_plugin_hot_update.Manifest.{Manifest, valid, invalid}
use tauri_plugin_hot_update.Machine.{BundleMeta, State, base_refusal, ota}
use tauri_plugin_hot_update.Machine.Boot.{above_watermark, raise_watermark, resolve_boot}
use tauri_plugin_hot_update.Machine.Session.{stage, in_use, staged, refused, StageResult}
use tauri_plugin_hot_update.Machine.Invariant.{at_most_watermark}
use tauri_plugin_hot_update.Machine.Session.Staging.{stage-accepted}
use tauri_plugin_hot_update.Update
use tauri_plugin_hot_update.Update.{
  UpdateOutcome, available, up_to_date, blacklisted, shell_too_old, shell_newer_than_base,
  invalid_base_version, already_staged, meta_of, gate, watermark_gate, same_archive,
}

abbrev pub is_accepted : {V : Type 0} → StageResult V → Bool
is_accepted (staged _) = true
is_accepted (refused _) = false

module _ {V : Type 0} ⦃o : Order V⦄ where
  -- one of the first three gates refuses
  abbrev pub blocked : Manifest V → State V → V → Bool
  blocked m s shell =
      not (above_watermark s.max_version_seen m.version)
      || Hashes.contains m.archive.sha256 s.failed
      || newer m.min_shell_version shell

  -- what a manifest has that passes each gate
  gate-none :
      (m : Manifest V) (s : State V) (shell : V)
      → gate m s shell ≡ none
      → (above_watermark s.max_version_seen m.version ≡ true)
        × (Hashes.contains m.archive.sha256 s.failed ≡ false)
        × (newer m.min_shell_version shell ≡ false)
        × ((seq : ℕ) → base_refusal seq (meta_of m) shell ≡ none)
  unfolding gate base_refusal
  gate-none m s shell e = (ground arith, ground arith, ground arith, λ seq. ground arith)

  above-raise :
      (seen : Option V) (v shell : V)
      → at_most_watermark seen shell ≡ true
      → above_watermark seen v ≡ true
      → newer v (raise_watermark seen shell) ≡ true
  above-raise none v shell w a = absurd (ground arith)
  above-raise (some x) v shell w a = ground (arith, newer-max v x shell, newer_trans v x shell)

  -- a launch with no trial under way arms a staged bundle that passes the gates
  launch-arms :
      (s : State V) (seq : ℕ) (m : BundleMeta V) (shell : V) (present : List ℕ)
      → s.booting ≡ none
      → s.staged ≡ some seq
      → Map.get seq s.versions ≡ some m
      → base_refusal seq m shell ≡ none
      → Set.contains seq present ≡ true
      → Hashes.contains m.archive_sha256 s.failed ≡ false
      → at_most_watermark s.max_version_seen shell ≡ true
      → above_watermark s.max_version_seen m.version ≡ true
      → ((resolve_boot s shell present).active ≡ ota seq)
        × ((resolve_boot s shell present).state.booting ≡ some seq)
        × ((resolve_boot s shell present).state.booting_strikes ≡ 0)
        × ((resolve_boot s shell present).base_refused ≡ none)
  unfolding resolve_boot
  launch-arms s seq m shell present b p g r c f w a =
      ground (arith, above-raise s.max_version_seen m.version shell w a)

  -- A manifest that the gate offers is accepted by `stage` under any seq that is free, and the next
  -- launch of the same shell serves it on trial, if its directory is there, no other bundle is on
  -- trial and the watermark covers the shell.
  pub gate-stage-resolve_boot :
      (m : Manifest V) (s : State V) (seq : ℕ) (shell : V) (present : List ℕ)
      → gate m s shell ≡ none
      → in_use seq s ≡ false
      → s.booting ≡ none
      → at_most_watermark s.max_version_seen shell ≡ true
      → Set.contains seq present ≡ true
      → let next = stage s seq (meta_of m) in
        (is_accepted next.1 ≡ true)
        × ((resolve_boot next.0 shell present).active ≡ ota seq)
        × ((resolve_boot next.0 shell present).state.booting ≡ some seq)
        × ((resolve_boot next.0 shell present).state.booting_strikes ≡ 0)
  gate-stage-resolve_boot m s seq shell present g u b w c =
      let (a, f, _, r) = gate-none m s shell g in
      let (es, e, _, k, b', _, _, f', w', v) = stage-accepted s seq (meta_of m) (ground arith) in
      let arms =
        launch-arms (stage s seq (meta_of m)).0 seq (meta_of m) shell present (b' ∙ b) k
          (v seq ∙ ground arith) (r seq) c (rw f' f) (rw w' w) (rw w' a) in
      (ground arith, arms.0, arms.1, arms.2)

  -- the gate that an answer names refuses, and those before it let the manifest pass
  abbrev pub IsGround : Manifest V → State V → V → UpdateOutcome V → Type 0
  IsGround m s shell (available _) = ⊥
  IsGround m s shell (Update.staged _ _) = ⊥
  IsGround m s shell (up_to_date v w) =
      (v ≡ m.version) × (s.max_version_seen ≡ some w) × (at_most v w ≡ true)
  IsGround m s shell (blacklisted v) =
      (v ≡ m.version)
      × (above_watermark s.max_version_seen v ≡ true)
      × (Hashes.contains m.archive.sha256 s.failed ≡ true)
  IsGround m s shell (shell_too_old r v) =
      (r ≡ m.min_shell_version)
      × (v ≡ shell)
      × (newer r v ≡ true)
      × (above_watermark s.max_version_seen m.version ≡ true)
      × (Hashes.contains m.archive.sha256 s.failed ≡ false)
  IsGround m s shell (shell_newer_than_base b v) =
      (m.base_version ≡ some (valid b))
      × (v ≡ shell)
      × (newer v b ≡ true)
      × (blocked m s shell ≡ false)
  IsGround m s shell (invalid_base_version b v) =
      (m.base_version ≡ some (invalid b)) × (v ≡ shell) × (blocked m s shell ≡ false)
  IsGround m s shell (already_staged q v) =
      (v ≡ m.version)
      × (s.staged ≡ some q)
      × (same_archive m (Map.get q s.versions) ≡ true)
      × (base_refusal q (meta_of m) shell ≡ none)
      × (blocked m s shell ≡ false)

  -- A refusal of the gate is that of the first gate that fails, in the order watermark, blacklist,
  -- shell version, base version, bundle already staged.
  pub gate-refusal :
      (m : Manifest V) (s : State V) (shell : V) (out : UpdateOutcome V)
      → gate m s shell ≡ some out
      → IsGround m s shell out
  unfolding gate base_refusal
  gate-refusal m s shell (available _) e = ground arith
  gate-refusal m s shell (Update.staged _ _) e = ground arith
  gate-refusal m s shell (up_to_date v w) e = ground arith
  gate-refusal m s shell (blacklisted v) e = ground arith
  gate-refusal m s shell (shell_too_old r v) e = ground arith
  gate-refusal m s shell (shell_newer_than_base b v) e = ground arith
  gate-refusal m s shell (invalid_base_version b v) e = ground arith
  gate-refusal m s shell (already_staged q v) e = ground arith
