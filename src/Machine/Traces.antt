-- ===== src/Machine/Traces.antt =====
-- The transitions of src/machine.rs in any order: launches, acks, in-process switches, downloads
-- and resets, as a list of events.
pub mod Trials
use tauri_plugin_hot_update.Prelude.{
  ℕ, String, ◌≤◌, Bool, true, false, not, ◌&&◌, ◌||◌, Option, none, some, List, [], ◌∷◌, ◌==◌, ◌≡◌,
  ◌≢◌, refl, sym, arith, if◌then◌else◌, is_some, is_some_and, Option-cases, inl, inr, Bool-cases,
  or_else, ◌⊎◌, ◌∙◌, eq_iff,
}
use tauri_plugin_hot_update.Prelude.Set
use tauri_plugin_hot_update.Prelude.Map
use tauri_plugin_hot_update.Prelude.Hashes
use tauri_plugin_hot_update.Version.{Order, at_most, newer, at_most_refl, at_most-max_left}
use tauri_plugin_hot_update.Machine.{BundleMeta, State, fresh, referenced, Active, embedded, ota}
use tauri_plugin_hot_update.Machine.Boot.{
  resolve_boot, before_promotion, promote, collect_garbage, raise_watermark,
}
use tauri_plugin_hot_update.Machine.Boot.Valid.{resolve_boot-IsValid, at_most-raise}
use tauri_plugin_hot_update.Machine.Boot.Trials.{
  went_on, goes_on, ended_trial_forgotten, forgotten_stays,
}
use tauri_plugin_hot_update.Machine.Session.{
  points_to, ack, promote_staged, stage, reset, drop_previous,
}
use tauri_plugin_hot_update.Machine.Session.Valid.{
  ack-IsValid, promote_staged-IsValid, stage-IsValid,
}
use tauri_plugin_hot_update.Machine.Session.Laws.{drop_previous_pointers}
use tauri_plugin_hot_update.Machine.Invariant.{
  IsValid, fresh-IsValid, reset-IsValid, at_most_watermark, contains-referenced,
}

pub data Event (V : Type 0) : Type 0 where
  launch : V → List ℕ → Event V
  acked : Active → Event V
  switch : V → List ℕ → Event V
  download : ℕ → BundleMeta V → Event V
  wipe : V → Active → Event V

module _ {V : Type 0} ⦃o : Order V⦄ where
  unfoldable pub step : State V → Event V → State V
  step s (launch shell present) = (resolve_boot s shell present).state
  step s (acked a) = (ack s a).0
  step s (switch shell present) = (promote_staged s shell present).0
  step s (download seq meta) = (stage s seq meta).0
  step s (wipe shell a) = (reset s shell a).0

  unfoldable pub run : State V → List (Event V) → State V
  unfolding step
  run s [] = s
  run s (e ∷ es) = run (step s e) es

  pub step-IsValid : (s : State V) (e : Event V) → IsValid s → IsValid (step s e)
  unfolding step
  step-IsValid s (launch shell present) h = resolve_boot-IsValid s shell present h
  step-IsValid s (acked a) h = ack-IsValid s a h
  step-IsValid s (switch shell present) h = promote_staged-IsValid s shell present h
  step-IsValid s (download seq meta) h = stage-IsValid s seq meta h
  step-IsValid s (wipe shell a) h = reset-IsValid s shell a

  -- Whatever happens, in whatever order, a well-formed state stays well formed.
  pub run-IsValid : (s : State V) (es : List (Event V)) → IsValid s → IsValid (run s es)
  unfolding run
  run-IsValid s [] h = h
  run-IsValid s (e ∷ es) h = run-IsValid (step s e) es (step-IsValid s e h)

  -- no reset among the events
  abbrev pub IsKept : Event V → Type 0
  IsKept (wipe _ _) = ⊥
  IsKept _ = Unit

  abbrev pub IsUnwiped : List (Event V) → Type 0
  IsUnwiped [] = Unit
  IsUnwiped (e ∷ es) = IsKept e × IsUnwiped es

  failed-launch :
      (h : String) (s : State V) (shell : V) (present : List ℕ)
      → Hashes.contains h s.failed ≡ true
      → Hashes.contains h (resolve_boot s shell present).state.failed ≡ true
  unfolding resolve_boot
  failed-launch h s shell present c = elim (Option-cases s.booting) [
    | inl n ↦ ground arith
    | inr (q, n) ↦ elim (Option-cases (Map.get q s.versions)) [
      | inl k ↦ ground arith
      | inr (m, k) ↦ ground (arith, Hashes.contains-insert h m.archive_sha256 s.failed)
    ]
  ]

  failed-ack : (s : State V) (a : Active) → (ack s a).0.failed ≡ s.failed
  unfolding ack
  failed-ack s a = ground (arith, drop_previous_pointers s.committed)

  failed-promote_staged :
      (s : State V) (shell : V) (present : List ℕ)
      → (promote_staged s shell present).0.failed ≡ s.failed
  unfolding promote_staged
  failed-promote_staged s shell present = ground arith

  failed-stage :
      (s : State V) (seq : ℕ) (meta : BundleMeta V) → (stage s seq meta).0.failed ≡ s.failed
  unfolding stage
  failed-stage s seq meta = ground arith

  failed-step :
      (h : String) (s : State V) (e : Event V)
      → IsKept e
      → Hashes.contains h s.failed ≡ true
      → Hashes.contains h (step s e).failed ≡ true
  unfolding step
  failed-step h s (launch shell present) u c = failed-launch h s shell present c
  failed-step h s (acked a) u c = rw failed-ack c
  failed-step h s (switch shell present) u c = rw failed-promote_staged c
  failed-step h s (download seq meta) u c = rw failed-stage c
  failed-step h s (wipe shell a) u c = absurd u

  -- A hash that failed a trial stays blacklisted through any events but a reset.
  failed-run :
      (h : String) (s : State V) (es : List (Event V))
      → IsUnwiped es
      → Hashes.contains h s.failed ≡ true
      → Hashes.contains h (run s es).failed ≡ true
  unfolding run
  failed-run h s [] u c = c
  failed-run h s (e ∷ es) u c = failed-run h (step s e) es u.1 (failed-step h s e u.0 c)

  candidate_hash :
      (q : ℕ) (m : BundleMeta V) (s : State V)
      → IsValid s
      → s.booting ≡ some q
      → Map.get q s.versions ≡ some m
      → Hashes.contains m.archive_sha256 s.failed ≡ false
  candidate_hash q m s h b g = ground arith

  -- From a well-formed state with a blacklisted hash, after any list of launches, acks, stagings and
  -- switches in process, each on the state that the one before left, and with no reset, a bundle on
  -- trial has another hash. A state that is lost between two of them is not covered.
  pub blacklisted_never_on_trial :
      (h : String) (s : State V) (es : List (Event V)) (q : ℕ) (m : BundleMeta V)
      → IsValid s
      → IsUnwiped es
      → Hashes.contains h s.failed ≡ true
      → (run s es).booting ≡ some q
      → Map.get q (run s es).versions ≡ some m
      → m.archive_sha256 ≢ h
  blacklisted_never_on_trial h s es q m v u c b g = λ e.
      ground (arith, failed-run h s es u c, candidate_hash q m (run s es) (run-IsValid s es v) b g)

  seen-launch :
      (v : V) (s : State V) (shell : V) (present : List ℕ)
      → at_most_watermark s.max_version_seen v ≡ true
      → at_most_watermark (resolve_boot s shell present).state.max_version_seen v ≡ true
  unfolding resolve_boot
  seen-launch v s shell present c = ground (arith, at_most-raise s.max_version_seen v shell)

  seen-ack :
      (v : V) (s : State V) (a : Active)
      → at_most_watermark s.max_version_seen v ≡ true
      → at_most_watermark (ack s a).0.max_version_seen v ≡ true
  unfolding ack drop_previous
  seen-ack v s embedded c = c
  seen-ack v s (ota q) c = elim (Option-cases (Map.get q s.versions)) [
    | inl k ↦ ground arith
    | inr (m, k) ↦ ground (arith, at_most-raise s.max_version_seen v m.version)
  ]

  seen-promote_staged :
      (s : State V) (shell : V) (present : List ℕ)
      → (promote_staged s shell present).0.max_version_seen ≡ s.max_version_seen
  unfolding promote_staged
  seen-promote_staged s shell present = ground arith

  seen-stage :
      (s : State V) (seq : ℕ) (meta : BundleMeta V)
      → (stage s seq meta).0.max_version_seen ≡ s.max_version_seen
  unfolding stage
  seen-stage s seq meta = ground arith

  seen-step :
      (v : V) (s : State V) (e : Event V)
      → IsKept e
      → at_most_watermark s.max_version_seen v ≡ true
      → at_most_watermark (step s e).max_version_seen v ≡ true
  unfolding step
  seen-step v s (launch shell present) u c = seen-launch v s shell present c
  seen-step v s (acked a) u c = seen-ack v s a c
  seen-step v s (switch shell present) u c = rw seen-promote_staged c
  seen-step v s (download seq meta) u c = rw seen-stage c
  seen-step v s (wipe shell a) u c = absurd u

  -- The watermark only rises: a version at or below it stays so through any events but a reset.
  pub watermark_rises :
      (v : V) (s : State V) (es : List (Event V))
      → IsUnwiped es
      → at_most_watermark s.max_version_seen v ≡ true
      → at_most_watermark (run s es).max_version_seen v ≡ true
  unfolding run
  watermark_rises v s [] u c = c
  watermark_rises v s (e ∷ es) u c = watermark_rises v (step s e) es u.1 (seen-step v s e u.0 c)
