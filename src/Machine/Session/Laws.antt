-- ===== src/Machine/Session/Laws.antt =====
-- What `ack`, `promote_staged`, `stage` and `reset` (src/machine.rs) do on each of their branches.
use tauri_plugin_hot_update.Prelude.{
  ℕ, true, ◌&&◌, Option, none, some, List, [], ◌≡◌, ◌≢◌, refl, arith, Option-cases, inl, inr, ◌↔◌,
}
use tauri_plugin_hot_update.Prelude.Map
use tauri_plugin_hot_update.Version.{Order}
use tauri_plugin_hot_update.Machine.{BundleMeta, State, Active, embedded, ota}
use tauri_plugin_hot_update.Machine.Boot.{raise_watermark, may_arm, before_promotion, resolve_boot}
use tauri_plugin_hot_update.Machine.Boot.Sweep.{deletes}
use tauri_plugin_hot_update.Machine.Boot.Valid.{at_most-raise_self}
use tauri_plugin_hot_update.Machine.Boot.Trials.{trial_apart}
use tauri_plugin_hot_update.Machine.Session.{
  points_to, ack, ack_ota, drop_previous, AckOutcome, already_committed, stale, embedded_noop,
  promote_staged, may_apply, applied, commit,
}
use tauri_plugin_hot_update.Machine.Invariant.{IsValid, contains-referenced, at_most_watermark}

-- what a second ack of the same source answers
abbrev pub again : AckOutcome → AckOutcome
again (AckOutcome.committed q) = already_committed q
again (already_committed q) = already_committed q
again (stale q) = stale q
again embedded_noop = embedded_noop

module _ {V : Type 0} ⦃o : Order V⦄ where
  pub drop_previous_pointers :
      (p : Option ℕ) (s : State V)
      → ((drop_previous p s).0.committed ≡ s.committed)
        × ((drop_previous p s).0.last_good ≡ s.last_good)
        × ((drop_previous p s).0.staged ≡ s.staged)
        × ((drop_previous p s).0.booting ≡ s.booting)
        × ((drop_previous p s).0.booting_strikes ≡ s.booting_strikes)
        × ((drop_previous p s).0.failed ≡ s.failed)
        × ((drop_previous p s).0.max_version_seen ≡ s.max_version_seen)
  unfolding drop_previous
  drop_previous_pointers p s = ground arith

  -- A second ack of the same source changes nothing and deletes nothing; it reports a commit as
  -- already made, and repeats any other answer.
  pub ack_twice :
      (s : State V) (a : Active) → ack (ack s a).0 a ≡ ((ack s a).0, again (ack s a).1, [])
  unfolding ack ack_ota
  ack_twice s embedded = refl
  ack_twice s (ota q) = ground (arith, drop_previous_pointers s.committed (commit q s))

  -- An ack of the bundle on trial, which has metadata, commits it: it becomes the committed and
  -- the last good bundle, the trial ends with no strike, the watermark is at least its version,
  -- and the staged pointer and the blacklist stay as they were.
  pub ack-commits :
      (q : ℕ) (m : BundleMeta V) (s : State V)
      → s.booting ≡ some q
      → Map.get q s.versions ≡ some m
      → ((ack s (ota q)).1 ≡ AckOutcome.committed q)
        × ((ack s (ota q)).0.committed ≡ some q)
        × ((ack s (ota q)).0.last_good ≡ some q)
        × ((ack s (ota q)).0.booting ≡ none)
        × ((ack s (ota q)).0.booting_strikes ≡ 0)
        × ((ack s (ota q)).0.staged ≡ s.staged)
        × ((ack s (ota q)).0.failed ≡ s.failed)
        × (at_most_watermark (ack s (ota q)).0.max_version_seen m.version ≡ true)
  unfolding ack drop_previous
  ack-commits q m s e k = ground (arith, at_most-raise_self s.max_version_seen m.version)

  -- An ack of a bundle that is not on trial leaves the state alone and deletes nothing.
  pub ack-unarmed :
      (q : ℕ) (s : State V)
      → s.booting ≢ some q
      → ((ack s (ota q)).0 ≡ s) × ((ack s (ota q)).2 ≡ [])
  unfolding ack
  ack-unarmed q s n = ground arith

  -- In a well-formed state, the directories that an ack deletes: the bundle committed before, and
  -- only if the ack commits.
  pub deletes-ack :
      (q p : ℕ) (s : State V)
      → IsValid s
      → deletes p (ack s (ota q)).2 ≡ (points_to s.booting q && points_to s.committed p)
  unfolding ack drop_previous
  deletes-ack q p s h = ground (arith, trial_apart q s, contains-referenced p (commit q s))

  may_apply-eq-may_arm :
      (q : ℕ) (s t : State V) (shell : V) (present : List ℕ)
      → t.failed ≡ s.failed
      → t.max_version_seen ≡ some (raise_watermark s.max_version_seen shell)
      → may_apply q (Map.get q s.versions) s shell present
        ≡ may_arm q (Map.get q s.versions) t shell present
  unfolding may_apply may_arm
  may_apply-eq-may_arm q s t shell present f w = ground arith

  -- With no trial under way, `promote_staged` arms exactly the bundle that a launch would arm.
  pub promote_staged-resolve_boot :
      (q : ℕ) (s : State V) (shell : V) (present : List ℕ)
      → s.booting ≡ none
      → ((promote_staged s shell present).1 ≡ applied q)
        ↔ ((resolve_boot s shell present).state.booting ≡ some q)
  unfolding promote_staged resolve_boot
  promote_staged-resolve_boot q s shell present e = elim (Option-cases s.staged) [
    | inl n ↦ ground arith
    | inr (r, n) ↦
        ground (arith, may_apply-eq-may_arm r s (before_promotion s shell present) shell present)
  ]
