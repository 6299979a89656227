-- ===== src/Machine/Traces/Trials.antt =====
-- How often a bundle on trial is served (src/machine.rs), with other events in between.
use tauri_plugin_hot_update.Prelude.{
  ℕ, none, some, List, [], ◌∷◌, ◌≡◌, ◌≢◌, refl, arith, inl, inr, Bool-cases, Option-cases, ◌⊎◌,
}
use tauri_plugin_hot_update.Prelude.Map
use tauri_plugin_hot_update.Version.{Order}
use tauri_plugin_hot_update.Machine.{BundleMeta, State, fresh, Active, embedded, ota}
use tauri_plugin_hot_update.Machine.Boot.{resolve_boot}
use tauri_plugin_hot_update.Machine.Boot.Valid.{resolve_boot-IsValid}
use tauri_plugin_hot_update.Machine.Boot.Trials.{
  went_on, goes_on, ended_trial_forgotten, forgotten_stays,
}
use tauri_plugin_hot_update.Machine.Session.{ack, drop_previous, promote_staged, stage, reset}
use tauri_plugin_hot_update.Machine.Session.Staging.{get-stage_ne}
use tauri_plugin_hot_update.Machine.Invariant.{IsValid}
use tauri_plugin_hot_update.Machine.Traces.{
  Event, launch, acked, switch, download, wipe, step, run, step-IsValid,
}

module _ {V : Type 0} ⦃o : Order V⦄ (q : ℕ) where
  -- events that neither ack the bundle nor give its seq to another one
  abbrev pub IsQuiet : Event V → Type 0
  IsQuiet (launch _ _) = Unit
  IsQuiet (acked a) = a ≢ ota q
  IsQuiet (switch _ _) = Unit
  IsQuiet (download seq _) = seq ≢ q
  IsQuiet (wipe _ _) = Unit

  abbrev pub AreQuiet : List (Event V) → Type 0
  AreQuiet [] = Unit
  AreQuiet (e ∷ es) = IsQuiet e × AreQuiet es

  -- on the last trial, or gone
  LastTrial : State V → Type 0
  LastTrial s = (s.booting ≡ some q) × (s.booting_strikes ≡ 1) ⊎ (Map.get q s.versions ≡ none)

  LastTrial-launch :
      (s : State V) (shell : V) (present : List ℕ)
      → IsValid s
      → LastTrial s
      → ((resolve_boot s shell present).active ≢ ota q)
        × (Map.get q (resolve_boot s shell present).state.versions ≡ none)
  unfolding LastTrial
  LastTrial-launch s shell present v (inl (b, k)) =
      ended_trial_forgotten q s shell present b v (ground arith)
  LastTrial-launch s shell present v (inr n) = forgotten_stays s shell present q n

  launch-LastTrial :
      (s : State V) (shell : V) (present : List ℕ)
      → IsValid s
      → s.booting ≡ some q
      → LastTrial (resolve_boot s shell present).state
  unfolding LastTrial
  launch-LastTrial s shell present v b = elim (Bool-cases (goes_on q s shell present)) [
    | inl y ↦ inl (went_on q s shell present b y)
    | inr n ↦ inr (ended_trial_forgotten q s shell present b v n).1
  ]

  ack-LastTrial : (s : State V) (a : Active) → a ≢ ota q → LastTrial s → LastTrial (ack s a).0
  unfolding LastTrial ack drop_previous
  ack-LastTrial s embedded d h = h
  ack-LastTrial s (ota r) d (inl (b, k)) = inl (ground arith)
  ack-LastTrial s (ota r) d (inr n) = elim (Option-cases s.committed) [
    | inl c ↦ inr (ground arith)
    | inr (p, c) ↦ inr (ground (arith, Map.get-remove q p s.versions))
  ]

  switch-LastTrial :
      (s : State V) (shell : V) (present : List ℕ)
      → LastTrial s
      → LastTrial (promote_staged s shell present).0
  unfolding LastTrial promote_staged
  switch-LastTrial s shell present (inl (b, k)) = inl (ground arith)
  switch-LastTrial s shell present (inr n) = elim (Option-cases s.staged) [
    | inl c ↦ inr (ground arith)
    | inr (p, c) ↦ inr (ground (arith, Map.get-remove q p s.versions))
  ]

  stage-LastTrial :
      (s : State V) (seq : ℕ) (meta : BundleMeta V)
      → seq ≢ q
      → LastTrial s
      → LastTrial (stage s seq meta).0
  unfolding LastTrial stage
  stage-LastTrial s seq meta d (inl (b, k)) = inl (ground arith)
  stage-LastTrial s seq meta d (inr n) = inr (get-stage_ne q seq meta s d n)

  step-LastTrial :
      (s : State V) (e : Event V) → IsValid s → IsQuiet e → LastTrial s → LastTrial (step s e)
  unfolding step LastTrial
  step-LastTrial s (launch shell present) v u h = inr (LastTrial-launch s shell present v h).1
  step-LastTrial s (acked a) v u h = ack-LastTrial s a u h
  step-LastTrial s (switch shell present) v u h = switch-LastTrial s shell present h
  step-LastTrial s (download seq meta) v u h = stage-LastTrial s seq meta u h
  step-LastTrial s (wipe shell a) v u h = inr (unfold reset fresh Map.get in refl)

  run-LastTrial :
      (s : State V) (es : List (Event V))
      → IsValid s
      → AreQuiet es
      → LastTrial s
      → IsValid (run s es) × LastTrial (run s es)
  unfolding run
  run-LastTrial s [] v u h = (v, h)
  run-LastTrial s (e ∷ es) v u h =
      run-LastTrial (step s e) es (step-IsValid s e v) u.1 (step-LastTrial s e v u.0 h)

  -- In a well-formed state, a bundle that is on trial is served by at most one more launch: after
  -- that launch and any events that neither ack it nor give its seq to a new download, further
  -- launches included, no launch serves it.
  pub unacked_served_once_more :
      (s : State V) (shell shell' : V) (present present' : List ℕ) (es : List (Event V))
      → IsValid s
      → s.booting ≡ some q
      → AreQuiet es
      → (resolve_boot (run (resolve_boot s shell present).state es) shell' present').active ≢ ota q
  unacked_served_once_more s shell shell' present present' es v b u =
      let (v', h) =
        run-LastTrial (resolve_boot s shell present).state es
          (resolve_boot-IsValid s shell present v) u (launch-LastTrial s shell present v b) in
      (LastTrial-launch (run (resolve_boot s shell present).state es) shell' present' v' h).0
