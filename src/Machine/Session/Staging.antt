-- ===== src/Machine/Session/Staging.antt =====
-- The gates and the result of `stage`, and what `reset` leaves (src/machine.rs).
use tauri_plugin_hot_update.Prelude.{
  ℕ, Bool, true, false, not, ◌&&◌, ◌||◌, Option, none, some, List, [], ◌∷◌, ◌==◌, ◌≡◌, ◌≢◌, refl,
  arith, if◌then◌else◌, is_some, Option-cases, inl, inr, Bool-cases, ◌∙◌,
}
use tauri_plugin_hot_update.Prelude.Set
use tauri_plugin_hot_update.Prelude.Map
use tauri_plugin_hot_update.Prelude.Hashes
use tauri_plugin_hot_update.Version.{Order, at_most}
use tauri_plugin_hot_update.Machine.{
  BundleMeta, State, referenced, Active, embedded, ota, Effect, delete_bundle,
}
use tauri_plugin_hot_update.Machine.Boot.{above_watermark, before_promotion, resolve_boot}
use tauri_plugin_hot_update.Machine.Boot.Sweep.{deletes, deletes-collect_garbage}
use tauri_plugin_hot_update.Machine.Session.{
  points_to, stage, StageError, staged, refused, version_not_newer, hash_blacklisted, seq_in_use,
  in_use, not_newer, replace_staged, reset, delete_all_but,
}

abbrev orphaned : Option ℕ → List Effect
orphaned none = []
orphaned (some p) = delete_bundle p ∷ []

deletes-orphaned : (p : Option ℕ) (q : ℕ) → deletes q (orphaned p) ≡ points_to p q
deletes-orphaned p q = ground arith

deletes-delete_all_but :
    (q : ℕ) (a : Active) (qs : List ℕ)
    → deletes q (delete_all_but a qs)
      ≡ (Set.contains q qs && not (elim a [ embedded ↦ false | ota k ↦ k == q ]))
unfolding Set.contains
deletes-delete_all_but q embedded [] = refl
deletes-delete_all_but q (ota k) [] = refl
deletes-delete_all_but q embedded (x ∷ qs) = ground (arith, deletes-delete_all_but q embedded qs)
deletes-delete_all_but q (ota k) (x ∷ qs) = ground (arith, deletes-delete_all_but q (ota k) qs)

module _ {V : Type 0} ⦃o : Order V⦄ where
  -- the three gates of `stage`
  abbrev pub passes_gates : State V → ℕ → BundleMeta V → Bool
  passes_gates s seq meta =
      above_watermark s.max_version_seen meta.version
      && not (Hashes.contains meta.archive_sha256 s.failed)
      && not (Set.contains seq (referenced s) || is_some (Map.get seq s.versions))

  not_newer_iff :
      (seen : Option V) (v : V) → is_some (not_newer seen v) ≡ not (above_watermark seen v)
  not_newer_iff none v = refl
  not_newer_iff (some w) v = ground arith

  -- the gate that a refusal names fails, and those before it pass
  abbrev pub IsReason : State V → ℕ → BundleMeta V → StageError V → Type 0
  IsReason s seq meta (version_not_newer v w) =
      (v ≡ meta.version) × (s.max_version_seen ≡ some w) × (at_most v w ≡ true)
  IsReason s seq meta (hash_blacklisted h) =
      (h ≡ meta.archive_sha256)
      × (Hashes.contains h s.failed ≡ true)
      × (above_watermark s.max_version_seen meta.version ≡ true)
  IsReason s seq meta (seq_in_use q) =
      (q ≡ seq)
      × (in_use q s ≡ true)
      × (above_watermark s.max_version_seen meta.version ≡ true)
      × (Hashes.contains meta.archive_sha256 s.failed ≡ false)

  not_newer_reason :
      (seen : Option V) (v w : V)
      → not_newer seen v ≡ some w
      → (seen ≡ some w) × (at_most v w ≡ true)
  not_newer_reason none v w e = absurd (ground arith)
  not_newer_reason (some x) v w e = ground arith

  -- A bundle that fails a gate is refused by the first gate that fails, in the order watermark,
  -- blacklist, seq, and the state stays as it was.
  pub stage-refusal :
      (s : State V) (seq : ℕ) (meta : BundleMeta V)
      → passes_gates s seq meta ≡ false
      → (e : StageError V) × (stage s seq meta ≡ (s, refused e)) × IsReason s seq meta e
  unfolding stage
  stage-refusal s seq meta h = elim (Option-cases (not_newer s.max_version_seen meta.version)) [
    | inr (w, e) ↦ (
      version_not_newer meta.version w,
      rw e,
      (
        refl,
        (not_newer_reason s.max_version_seen meta.version w e).0,
        (not_newer_reason s.max_version_seen meta.version w e).1,
      ),
    )
    | inl e ↦
        let above : above_watermark s.max_version_seen meta.version ≡ true =
          ground (arith, not_newer_iff s.max_version_seen meta.version) in
        elim (Bool-cases (Hashes.contains meta.archive_sha256 s.failed)) [
          | inl f ↦ (hash_blacklisted meta.archive_sha256, rw (e, f), (refl, f, above))
          | inr f ↦
              let used : in_use seq s ≡ true = ground arith in
              (seq_in_use seq, rw (e, f, used), (refl, used, above, f))
        ]
  ]

  get-replace_staged :
      (q : ℕ) (p : Option ℕ) (seq : ℕ) (meta : BundleMeta V) (s : State V)
      → Map.get q (replace_staged p seq meta s).0.versions
        ≡ (if seq == q then some meta else if points_to p q then none else Map.get q s.versions)
  get-replace_staged q none seq meta s = Map.get-put q seq meta s.versions
  get-replace_staged q (some prev) seq meta s =
      ground (
        arith,
        Map.get-put q seq meta (Map.remove prev s.versions),
        Map.get-remove q prev s.versions,
      )

  -- An accepted `stage` points `staged` at the new seq with its metadata, deletes the bundle that
  -- was staged before and forgets its metadata, and leaves all else as it was.
  pub stage-accepted :
      (s : State V) (seq : ℕ) (meta : BundleMeta V)
      → passes_gates s seq meta ≡ true
      → (es : List Effect) × ((stage s seq meta).1 ≡ staged es)
        × ((q : ℕ) → deletes q es ≡ points_to s.staged q)
        × ((stage s seq meta).0.staged ≡ some seq)
        × ((stage s seq meta).0.booting ≡ s.booting)
        × ((stage s seq meta).0.committed ≡ s.committed)
        × ((stage s seq meta).0.last_good ≡ s.last_good)
        × ((stage s seq meta).0.failed ≡ s.failed)
        × ((stage s seq meta).0.max_version_seen ≡ s.max_version_seen)
        × ((q : ℕ)
            → Map.get q (stage s seq meta).0.versions ≡ (
                if seq == q
                then some meta
                else if points_to s.staged q
                then none
                else Map.get q s.versions))
  unfolding stage
  stage-accepted s seq meta h = (
    orphaned s.staged,
    ground (arith, not_newer_iff s.max_version_seen meta.version),
    deletes-orphaned s.staged,
    ground (arith, not_newer_iff s.max_version_seen meta.version),
    ground (arith, not_newer_iff s.max_version_seen meta.version),
    ground (arith, not_newer_iff s.max_version_seen meta.version),
    ground (arith, not_newer_iff s.max_version_seen meta.version),
    ground (arith, not_newer_iff s.max_version_seen meta.version),
    ground (arith, not_newer_iff s.max_version_seen meta.version),
    λ q. ground (
      arith,
      not_newer_iff s.max_version_seen meta.version,
      get-replace_staged q s.staged seq meta s,
    ),
  )

  -- A bundle without metadata gets none from a `stage` under another seq.
  pub get-stage_ne :
      (q seq : ℕ) (meta : BundleMeta V) (s : State V)
      → seq ≢ q
      → Map.get q s.versions ≡ none
      → Map.get q (stage s seq meta).0.versions ≡ none
  unfolding stage
  get-stage_ne q seq meta s d n = ground (arith, get-replace_staged q s.staged seq meta s)

  -- A reset deletes every bundle with metadata but the one that is being served.
  pub deletes-reset :
      (q : ℕ) (s : State V) (shell : V) (a : Active)
      → deletes q (reset s shell a).1
        ≡ (is_some (Map.get q s.versions) && not (elim a [ embedded ↦ false | ota k ↦ k == q ]))
  unfolding reset
  deletes-reset q s shell a =
      ground
        (arith, deletes-delete_all_but q a (Map.keys s.versions), Map.contains-keys q s.versions)

  -- The launch after a reset serves the embedded frontend, and deletes every bundle directory.
  pub reset-resolve_boot :
      (s : State V) (shell shell' : V) (a : Active) (present : List ℕ) (q : ℕ)
      → ((resolve_boot (reset s shell a).0 shell' present).active ≡ embedded)
        × (deletes q (resolve_boot (reset s shell a).0 shell' present).effects
            ≡ Set.contains q present)
  unfolding reset resolve_boot Set.contains referenced
  reset-resolve_boot s shell shell' a present q = (
    refl,
    deletes-collect_garbage q (before_promotion (reset s shell a).0 shell' present) present
        ∙ ground arith,
  )
