-- ===== src/Machine/Session.antt =====
-- The transitions of src/machine.rs that happen while the app runs: `ack`, `promote_staged`,
-- `stage` and `reset`.
pub mod Valid
pub mod Laws
pub mod Staging
pub mod Spares
pub mod Committed
use tauri_plugin_hot_update.Prelude.{
  ℕ, String, Bool, false, not, ◌&&◌, ◌||◌, Option, none, some, List, [], ◌∷◌, ◌==◌, if◌then◌else◌,
  is_some, is_some_and,
}
use tauri_plugin_hot_update.Prelude.Set
use tauri_plugin_hot_update.Prelude.Map
use tauri_plugin_hot_update.Prelude.Hashes
use tauri_plugin_hot_update.Version.{Order, at_most, newer}
use tauri_plugin_hot_update.Machine.{
  BundleMeta, BaseRefusal, State, fresh, Active, embedded, ota, Effect, delete_bundle, referenced,
}
use tauri_plugin_hot_update.Machine.Boot.{raise_watermark, refusal_of}

pub data AckOutcome : Type 0 where
  committed already_committed stale : ℕ → AckOutcome
  embedded_noop : AckOutcome

pub data ApplyDecision (V : Type 0) : Type 0 where
  applied : ℕ → ApplyDecision V
  nothing_staged trial_pending discarded : ApplyDecision V
  base_refused : BaseRefusal V → ApplyDecision V

pub data StageError (V : Type 0) : Type 0 where
  version_not_newer : (version watermark : V) → StageError V
  hash_blacklisted : String → StageError V
  seq_in_use : ℕ → StageError V

pub data StageResult (V : Type 0) : Type 0 where
  staged : List Effect → StageResult V
  refused : StageError V → StageResult V

-- `pointer == Some(seq)`
abbrev pub points_to : Option ℕ → ℕ → Bool
points_to none seq = false
points_to (some q) seq = q == seq

abbrev pub delete_all_but : Active → List ℕ → List Effect
delete_all_but keep [] = []
delete_all_but embedded (q ∷ qs) = delete_bundle q ∷ delete_all_but embedded qs
delete_all_but (ota k) (q ∷ qs) =
    let rest = delete_all_but (ota k) qs in if q == k then rest else delete_bundle q ∷ rest

module _ {V : Type 0} ⦃o : Order V⦄ where
  abbrev raise_by : Option (BundleMeta V) → Option V → Option V
  raise_by none seen = seen
  raise_by (some m) seen = some (raise_watermark seen m.version)

  -- the assignments of a commit, before the replaced bundle is dropped
  abbrev commit : ℕ → State V → State V
  commit seq s = record s {
    booting = none;
    booting_strikes = 0;
    committed = some seq;
    last_good = some seq;
    max_version_seen = raise_by (Map.get seq s.versions) s.max_version_seen;
  }

  -- the bundle that a commit replaces is dropped, unless a pointer still names it
  unfoldable pub drop_previous : Option ℕ → State V → State V × List Effect
  drop_previous none s = (s, [])
  drop_previous (some prev) s =
      if Set.contains prev (referenced s)
      then (s, [])
      else (record s { versions = Map.remove prev s.versions }, delete_bundle prev ∷ [])

  unfoldable pub ack_ota : ℕ → State V → State V × AckOutcome × List Effect
  unfolding drop_previous
  ack_ota seq s =
      let dropped = drop_previous s.committed (commit seq s) in
      if points_to s.booting seq
      then (dropped.0, committed seq, dropped.1)
      else if points_to s.committed seq
      then (s, already_committed seq, [])
      else (s, stale seq, [])

  unfoldable pub ack : State V → Active → State V × AckOutcome × List Effect
  unfolding ack_ota
  ack s embedded = (s, embedded_noop, [])
  ack s (ota seq) = ack_ota seq s

  -- the arming gates of `promote_staged`
  unfoldable pub may_apply : ℕ → Option (BundleMeta V) → State V → V → List ℕ → Bool
  may_apply seq meta s shell present =
      not (is_some (refusal_of seq meta shell))
      && Set.contains seq present
      && is_some_and
          (λ m.
            not (Hashes.contains m.archive_sha256 s.failed)
            && newer m.version (raise_watermark s.max_version_seen shell))
          meta

  abbrev decision_of : Option (BaseRefusal V) → ApplyDecision V
  decision_of none = discarded
  decision_of (some r) = base_refused r

  unfoldable pub apply_or_drop : ℕ → State V → V → List ℕ → State V × ApplyDecision V × List Effect
  unfolding may_apply
  apply_or_drop seq s shell present =
      if may_apply seq (Map.get seq s.versions) s shell present
      then (record s { staged = none; booting = some seq; booting_strikes = 0 }, applied seq, [])
      else (
        record s { staged = none; versions = Map.remove seq s.versions },
        decision_of (refusal_of seq (Map.get seq s.versions) shell),
        if Set.contains seq present then delete_bundle seq ∷ [] else [],
      )

  abbrev promote_pointers :
      Option ℕ → Option ℕ → State V → V → List ℕ → State V × ApplyDecision V × List Effect
  promote_pointers (some _) _ s shell present = (s, trial_pending, [])
  promote_pointers none none s shell present = (s, nothing_staged, [])
  promote_pointers none (some seq) s shell present = apply_or_drop seq s shell present

  unfoldable pub promote_staged : State V → V → List ℕ → State V × ApplyDecision V × List Effect
  unfolding apply_or_drop
  promote_staged s shell present = promote_pointers s.booting s.staged s shell present

  -- the watermark gate of `stage`: the watermark that the version does not pass
  abbrev pub not_newer : Option V → V → Option V
  not_newer none v = none
  not_newer (some seen) v = if at_most v seen then some seen else none

  -- an earlier staged bundle loses its metadata and its directory
  abbrev replace_staged : Option ℕ → ℕ → BundleMeta V → State V → State V × StageResult V
  replace_staged none seq meta s =
      (record s { staged = some seq; versions = Map.put seq meta s.versions }, staged [])
  replace_staged (some prev) seq meta s = (
    record s { staged = some seq; versions = Map.put seq meta (Map.remove prev s.versions) },
    staged (delete_bundle prev ∷ []),
  )

  abbrev pub in_use : ℕ → State V → Bool
  in_use seq s = Set.contains seq (referenced s) || is_some (Map.get seq s.versions)

  abbrev stage_unless : Option V → ℕ → BundleMeta V → State V → State V × StageResult V
  stage_unless (some watermark) seq meta s = (s, refused (version_not_newer meta.version watermark))
  stage_unless none seq meta s =
      if Hashes.contains meta.archive_sha256 s.failed
      then (s, refused (hash_blacklisted meta.archive_sha256))
      else if in_use seq s
      then (s, refused (seq_in_use seq))
      else replace_staged s.staged seq meta s

  unfoldable pub stage : State V → ℕ → BundleMeta V → State V × StageResult V
  stage s seq meta = stage_unless (not_newer s.max_version_seen meta.version) seq meta s

  unfoldable pub reset : State V → V → Active → State V × List Effect
  unfolding fresh
  reset s shell active = (
    record (fresh {V = V}) { max_version_seen = some shell },
    delete_all_but active (Map.keys s.versions),
  )
