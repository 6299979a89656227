-- ===== src/Machine/Boot.antt =====
-- `resolve_boot` (src/machine.rs): its numbered steps are functions of their own, composed in the
-- order of the source.
pub mod Sweep
pub mod Valid
pub mod Serving
pub mod Trials
use tauri_plugin_hot_update.Prelude.{
  ℕ, suc, String, Bool, true, false, not, ◌&&◌, ◌||◌, Option, none, some, List, [], ◌∷◌, ◌==◌,
  if◌then◌else◌, is_some, is_some_and, or_else,
}
use tauri_plugin_hot_update.Prelude.Set
use tauri_plugin_hot_update.Prelude.Map
use tauri_plugin_hot_update.Prelude.Map.{Map}
use tauri_plugin_hot_update.Prelude.Hashes
use tauri_plugin_hot_update.Version.{Order, at_most, newer, max_version}
use tauri_plugin_hot_update.Machine.{
  BundleMeta, BaseRefusal, State, Active, embedded, ota, Effect, delete_bundle, referenced,
  base_refusal,
}

pub record BootOutcome (V : Type 0) : Type 0 where
  pub state : State V
  pub active : Active
  pub rolled_back : Option ℕ
  pub base_refused : Option (BaseRefusal V)
  pub effects : List Effect

abbrev pub keep_if : (ℕ → Bool) → Option ℕ → Option ℕ
keep_if p none = none
keep_if p (some q) = if p q then some q else none

-- Step 5.
abbrev pub source_of : Option ℕ → Active
source_of none = embedded
source_of (some seq) = ota seq

module _ {V : Type 0} ⦃o : Order V⦄ where
  -- `failed.insert`, when the bundle has metadata
  abbrev pub blacklist : Option (BundleMeta V) → List String → List String
  blacklist none failed = failed
  blacklist (some m) failed = Hashes.insert m.archive_sha256 failed

  abbrev pub superseded : V → Option (BundleMeta V) → Bool
  superseded shell = is_some_and (λ m. at_most m.version shell)

  -- Step 1, with a `booting` pointer at `seq`: superseded, strike 1, or strike 2.
  unfoldable pub judge_trial : ℕ → Option (BundleMeta V) → State V → V → List ℕ → State V × Option ℕ
  judge_trial seq meta s shell present =
      if superseded shell meta
      then (record s { booting = none; booting_strikes = 0 }, none)
      else if s.booting_strikes == 0 && Set.contains seq present && is_some meta
      then (record s { booting = some seq; booting_strikes = 1 }, none)
      else (
        record s { booting = none; booting_strikes = 0; failed = blacklist meta s.failed },
        some seq,
      )

  abbrev settle_pointer : Option ℕ → State V → V → List ℕ → State V × Option ℕ
  settle_pointer none s shell present = (s, none)
  settle_pointer (some seq) s shell present =
      judge_trial seq (Map.get seq s.versions) s shell present

  -- Step 1.
  unfoldable pub settle_trial : State V → V → List ℕ → State V × Option ℕ
  unfolding judge_trial
  settle_trial s shell present = settle_pointer s.booting s shell present

  abbrev pub raise_watermark : Option V → V → V
  raise_watermark none v = v
  raise_watermark (some seen) v = max_version seen v

  -- Step 2.
  unfoldable pub fold_watermark : State V → V → State V
  fold_watermark s shell = record s {
    max_version_seen = some (raise_watermark s.max_version_seen shell);
  }

  unfoldable pub ota_beats_embedded : V → List ℕ → Map (BundleMeta V) → ℕ → Bool
  ota_beats_embedded shell present versions seq =
      Set.contains seq present && is_some_and (λ m. newer m.version shell) (Map.get seq versions)

  -- Step 3.
  unfoldable pub discard_beaten : State V → V → List ℕ → State V
  unfolding ota_beats_embedded
  discard_beaten s shell present = record s {
    committed = keep_if (ota_beats_embedded shell present s.versions) s.committed;
    last_good = keep_if (ota_beats_embedded shell present s.versions) s.last_good;
  }

  abbrev pub above_watermark : Option V → V → Bool
  above_watermark none v = true
  above_watermark (some seen) v = newer v seen

  abbrev pub refusal_of : ℕ → Option (BundleMeta V) → V → Option (BaseRefusal V)
  refusal_of seq none shell = none
  refusal_of seq (some m) shell = base_refusal seq m shell

  -- the arming gates of step 4
  unfoldable pub may_arm : ℕ → Option (BundleMeta V) → State V → V → List ℕ → Bool
  may_arm seq meta s shell present =
      not (is_some (refusal_of seq meta shell))
      && Set.contains seq present
      && is_some_and
          (λ m.
            not (Hashes.contains m.archive_sha256 s.failed)
            && above_watermark s.max_version_seen m.version)
          meta

  -- Step 4, with a staged bundle taken out of `staged`.
  unfoldable pub try_arm : ℕ → State V → V → List ℕ → State V × Option (BaseRefusal V)
  unfolding may_arm
  try_arm seq s shell present = (
    if may_arm seq (Map.get seq s.versions) s shell present
        then record s { staged = none; booting = some seq; booting_strikes = 0 }
        else record s { staged = none },
    refusal_of seq (Map.get seq s.versions) shell,
  )

  abbrev promote_pointers :
      Option ℕ → Option ℕ → State V → V → List ℕ → State V × Option (BaseRefusal V)
  promote_pointers (some _) _ s shell present = (s, none)
  promote_pointers none none s shell present = (s, none)
  promote_pointers none (some seq) s shell present = try_arm seq s shell present

  -- Step 4: nothing is promoted while `booting` is occupied.
  unfoldable pub promote : State V → V → List ℕ → State V × Option (BaseRefusal V)
  unfolding try_arm
  promote s shell present = promote_pointers s.booting s.staged s shell present

  -- Step 6: the loop over the union of the directories and the metadata.
  unfoldable pub sweep :
      List ℕ → List ℕ → List ℕ → Map (BundleMeta V) → Map (BundleMeta V) × List Effect
  sweep [] kept present versions = (versions, [])
  sweep (q ∷ qs) kept present versions =
      let removed = sweep qs kept present (Map.remove q versions) in
      let same = sweep qs kept present versions in
      if Set.contains q kept
      then same
      else (removed.0, if Set.contains q present then delete_bundle q ∷ removed.1 else removed.1)

  unfoldable pub collect_garbage : State V → List ℕ → State V × List Effect
  unfolding sweep
  collect_garbage s present =
      let swept =
        sweep (Set.union present (Map.keys s.versions)) (referenced s) present s.versions in
      (record s { versions = swept.0 }, swept.1)

  -- the state that steps 1 to 3 leave
  unfoldable pub before_promotion : State V → V → List ℕ → State V
  unfolding settle_trial fold_watermark discard_beaten
  before_promotion s shell present =
      discard_beaten (fold_watermark (settle_trial s shell present).0 shell) shell present

  unfoldable pub resolve_boot : State V → V → List ℕ → BootOutcome V
  unfolding before_promotion promote collect_garbage settle_trial
  resolve_boot s shell present =
      let promoted = promote (before_promotion s shell present) shell present in
      let swept = collect_garbage promoted.0 present in
      record {
        state = swept.0;
        active = source_of (or_else promoted.0.booting promoted.0.committed);
        rolled_back = (settle_trial s shell present).1;
        base_refused = promoted.1;
        effects = swept.1;
      }
