-- ===== src/Machine/Boot/Trials.antt =====
-- The two strikes of `resolve_boot` (src/machine.rs): what becomes of a bundle on trial.
use tauri_plugin_hot_update.Prelude.{
  ℕ, Bool, true, false, not, ◌&&◌, none, some, List, ◌==◌, ◌≡◌, ◌≢◌, arith, if◌then◌else◌, is_some,
  eq_iff, Option-cases, inl, inr,
}
use tauri_plugin_hot_update.Prelude.Set
use tauri_plugin_hot_update.Prelude.Map
use tauri_plugin_hot_update.Prelude.Hashes
use tauri_plugin_hot_update.Version.{Order, at_most, newer}
use tauri_plugin_hot_update.Machine.{BundleMeta, State, referenced, ota}
use tauri_plugin_hot_update.Machine.Boot.{
  ota_beats_embedded, promote, before_promotion, resolve_boot, superseded,
}
use tauri_plugin_hot_update.Machine.Boot.Sweep.{get-collect_garbage}
use tauri_plugin_hot_update.Machine.Boot.Serving.{
  resolve_boot-serves_present, versions-before_promotion, versions-promote,
}
use tauri_plugin_hot_update.Machine.Session.{points_to}
use tauri_plugin_hot_update.Machine.Invariant.{IsValid, contains-referenced}

module _ {V : Type 0} ⦃o : Order V⦄ where
  -- strike 1: the trial may go on
  abbrev pub goes_on : ℕ → State V → V → List ℕ → Bool
  goes_on q s shell present =
      not (superseded shell (Map.get q s.versions))
      && (s.booting_strikes == 0 && Set.contains q present && is_some (Map.get q s.versions))

  -- the final metadata is that of the seqs which the promoted state names
  get-resolve_boot :
      (s : State V) (shell : V) (present : List ℕ) (q : ℕ)
      → Map.get q (resolve_boot s shell present).state.versions ≡ (
          if Set.contains q
            (referenced (promote (before_promotion s shell present) shell present).0)
          then Map.get q s.versions
          else none)
  unfolding resolve_boot
  get-resolve_boot s shell present q = ground (
    arith,
    get-collect_garbage q (promote (before_promotion s shell present) shell present).0 present,
    versions-promote (before_promotion s shell present) shell present,
    versions-before_promotion s shell present,
  )

  -- A bundle without metadata is not served, and gets none.
  pub forgotten_stays :
      (s : State V) (shell : V) (present : List ℕ) (q : ℕ)
      → Map.get q s.versions ≡ none
      → ((resolve_boot s shell present).active ≢ ota q)
        × (Map.get q (resolve_boot s shell present).state.versions ≡ none)
  forgotten_stays s shell present q n = (
    λ e.
        let (m, found, _, _, _) = resolve_boot-serves_present s shell present q e in
        ground (arith, get-resolve_boot s shell present q),
    ground (arith, get-resolve_boot s shell present q),
  )

  pub trial_apart :
      (q : ℕ) (s : State V)
      → s.booting ≡ some q
      → IsValid s
      → (points_to s.committed q ≡ false) × (points_to s.staged q ≡ false)
  trial_apart q s e h = elim (Option-cases s.max_version_seen) [
    | inl n ↦ ground arith
    | inr (w, n) ↦ ground arith
  ]

  -- a trial that does not go on leaves no pointer to its bundle
  ended_trial_unnamed :
      (q : ℕ) (s : State V) (shell : V) (present : List ℕ)
      → s.booting ≡ some q
      → IsValid s
      → goes_on q s shell present ≡ false
      → Set.contains q (referenced (promote (before_promotion s shell present) shell present).0)
        ≡ false
  unfolding before_promotion promote
  ended_trial_unnamed q s shell present e h n = ground (
    arith,
    trial_apart q s e h,
    contains-referenced q (promote (before_promotion s shell present) shell present).0,
  )

  pub ended_trial_forgotten :
      (q : ℕ) (s : State V) (shell : V) (present : List ℕ)
      → s.booting ≡ some q
      → IsValid s
      → goes_on q s shell present ≡ false
      → ((resolve_boot s shell present).active ≢ ota q)
        × (Map.get q (resolve_boot s shell present).state.versions ≡ none)
  ended_trial_forgotten q s shell present e h n =
      let gone : Map.get q (resolve_boot s shell present).state.versions ≡ none =
        ground (
          arith,
          get-resolve_boot s shell present q,
          ended_trial_unnamed q s shell present e h n,
        ) in
      (
        λ a.
            let (m, found, _, _, _) = resolve_boot-serves_present s shell present q a in
            ground (arith, gone),
        gone,
      )

  -- A launch that finds a bundle on trial with no strike, on disk and newer than the embedded
  -- frontend, serves it again with one strike. Nothing is blacklisted, reported or promoted.
  pub first_strike :
      (q : ℕ) (m : BundleMeta V) (s : State V) (shell : V) (present : List ℕ)
      → s.booting ≡ some q
      → Map.get q s.versions ≡ some m
      → newer m.version shell ≡ true
      → s.booting_strikes ≡ 0
      → Set.contains q present ≡ true
      → ((resolve_boot s shell present).active ≡ ota q)
        × ((resolve_boot s shell present).rolled_back ≡ none)
        × ((resolve_boot s shell present).state.booting ≡ some q)
        × ((resolve_boot s shell present).state.booting_strikes ≡ 1)
        × ((resolve_boot s shell present).state.staged ≡ s.staged)
        × ((resolve_boot s shell present).state.failed ≡ s.failed)
  unfolding resolve_boot
  first_strike q m s shell present e k f z p = ground arith

  -- In a well-formed state, a launch that finds a bundle on trial with one strike, newer than the
  -- embedded frontend, reports it, blacklists its hash, drops its metadata and does not serve it.
  pub second_strike :
      (q : ℕ) (m : BundleMeta V) (s : State V) (shell : V) (present : List ℕ)
      → IsValid s
      → s.booting ≡ some q
      → Map.get q s.versions ≡ some m
      → newer m.version shell ≡ true
      → s.booting_strikes ≡ 1
      → ((resolve_boot s shell present).rolled_back ≡ some q)
        × (Hashes.contains m.archive_sha256 (resolve_boot s shell present).state.failed ≡ true)
        × (Map.get q (resolve_boot s shell present).state.versions ≡ none)
        × ((resolve_boot s shell present).active ≢ ota q)
  second_strike q m s shell present h e k f z =
      let (out, gone) = ended_trial_forgotten q s shell present e h (ground arith) in
      (
        unfold resolve_boot in ground arith,
        unfold resolve_boot in
            ground (
              arith,
              Hashes.contains-insert m.archive_sha256 m.archive_sha256 s.failed,
              eq_iff m.archive_sha256 m.archive_sha256,
            ),
        gone,
        out,
      )

  -- In a well-formed state, a launch that finds a bundle on trial at or below the embedded version
  -- does not serve it, drops its metadata, and neither reports nor blacklists it.
  pub superseded_trial :
      (q : ℕ) (m : BundleMeta V) (s : State V) (shell : V) (present : List ℕ)
      → IsValid s
      → s.booting ≡ some q
      → Map.get q s.versions ≡ some m
      → at_most m.version shell ≡ true
      → ((resolve_boot s shell present).rolled_back ≡ none)
        × ((resolve_boot s shell present).state.failed ≡ s.failed)
        × (Map.get q (resolve_boot s shell present).state.versions ≡ none)
        × ((resolve_boot s shell present).active ≢ ota q)
  superseded_trial q m s shell present h e k f =
      let (out, gone) = ended_trial_forgotten q s shell present e h (ground arith) in
      (unfold resolve_boot in ground arith, unfold resolve_boot in ground arith, gone, out)

  pub went_on :
      (q : ℕ) (s : State V) (shell : V) (present : List ℕ)
      → s.booting ≡ some q
      → goes_on q s shell present ≡ true
      → ((resolve_boot s shell present).state.booting ≡ some q)
        × ((resolve_boot s shell present).state.booting_strikes ≡ 1)
  unfolding resolve_boot
  went_on q s shell present e y = ground arith

  -- After a second strike with nothing staged the launch serves the committed bundle, if that is
  -- on disk and newer than the embedded frontend, and keeps it as the committed one.
  pub second_strike-serves_committed :
      (q c : ℕ) (m : BundleMeta V) (s : State V) (shell : V) (present : List ℕ)
      → s.booting ≡ some q
      → s.booting_strikes ≡ 1
      → s.staged ≡ none
      → s.committed ≡ some c
      → Map.get c s.versions ≡ some m
      → newer m.version shell ≡ true
      → Set.contains c present ≡ true
      → ((resolve_boot s shell present).active ≡ ota c)
        × ((resolve_boot s shell present).state.committed ≡ some c)
  unfolding resolve_boot ota_beats_embedded
  second_strike-serves_committed q c m s shell present e z n k g f p = ground arith
