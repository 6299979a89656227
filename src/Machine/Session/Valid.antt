-- ===== src/Machine/Session/Valid.antt =====
-- The transitions of a running app keep the state of src/machine.rs well formed.
use tauri_plugin_hot_update.Prelude.{
  ℕ, true, false, Option, none, some, List, ◌≡◌, refl, arith, Option-cases, inl, inr, Bool-cases,
}
use tauri_plugin_hot_update.Prelude.Set
use tauri_plugin_hot_update.Prelude.Map
use tauri_plugin_hot_update.Prelude.Map.{Map}
use tauri_plugin_hot_update.Prelude.Hashes
use tauri_plugin_hot_update.Version.{Order, at_most_refl, at_most-max_right, newer-max}
use tauri_plugin_hot_update.Machine.{BundleMeta, State, Active, embedded, ota, referenced}
use tauri_plugin_hot_update.Machine.Session.{
  points_to, commit, in_use, promote_pointers, not_newer, replace_staged, ack, ack_ota,
  drop_previous, promote_staged, apply_or_drop, may_apply, stage,
}
use tauri_plugin_hot_update.Machine.Invariant.{
  IsValid, contains-referenced, every_mono, is_candidate,
}

points_to-eq : (p : Option ℕ) (q : ℕ) → points_to p q ≡ true → p ≡ some q
points_to-eq p q h = ground arith

module _ {V : Type 0} ⦃o : Order V⦄ where
  commit-IsValid :
      (seq : ℕ) (s : State V) → s.booting ≡ some seq → IsValid s → IsValid (commit seq s)
  commit-IsValid seq s b h = elim (Option-cases (Map.get seq s.versions)) [
    | inl e ↦ ground arith
    | inr (m, e) ↦ elim (Option-cases s.max_version_seen) [
      | inl n ↦ ground (arith, at_most_refl m.version)
      | inr (w, n) ↦ ground (arith, at_most-max_right w m.version)
    ]
  ]

  module _ (prev : ℕ) (s : State V) (unnamed : Set.contains prev (referenced s) ≡ false)
      (h : IsValid s) where
    unnamed_lem :
        (points_to s.committed prev ≡ false)
        × (points_to s.booting prev ≡ false)
        × (points_to s.staged prev ≡ false)
    unnamed_lem = ground (arith, contains-referenced prev s)

    remove-IsValid : IsValid (record s { versions = Map.remove prev s.versions })
    remove-IsValid = record {
      moves_together = h.moves_together;
      committed_past =
          every_mono s.committed _ _ h.committed_past
            λ q e k. ground (arith, unnamed_lem, Map.get-remove q prev s.versions);
      booting_candidate =
          every_mono s.booting _ _ h.booting_candidate
            λ q e k. ground (arith, unnamed_lem, Map.get-remove q prev s.versions);
      staged_known =
          every_mono s.staged _ _ h.staged_known
            λ q e k. ground (arith, unnamed_lem, Map.get-remove q prev s.versions);
      staged_apart = h.staged_apart;
      strikes_bound = h.strikes_bound;
      strikes_idle = h.strikes_idle;
    }

  drop_previous-IsValid : (p : Option ℕ) (s : State V) → IsValid s → IsValid (drop_previous p s).0
  unfolding drop_previous
  drop_previous-IsValid none s h = h
  drop_previous-IsValid (some q) s h = elim (Bool-cases (Set.contains q (referenced s))) [
    | inl e ↦ rw e h
    | inr e ↦ rw e (remove-IsValid q s e h)
  ]

  ack_ota-IsValid : (seq : ℕ) (s : State V) → IsValid s → IsValid (ack_ota seq s).0
  unfolding ack_ota
  ack_ota-IsValid seq s h = elim (Bool-cases (points_to s.booting seq)) [
    | inl e ↦ rw e (
        drop_previous-IsValid s.committed (commit seq s)
          (commit-IsValid seq s (points_to-eq s.booting seq e) h))
    | inr e ↦
        rw e (elim (Bool-cases (points_to s.committed seq)) [ inl c ↦ rw c h | inr c ↦ rw c h ])
  ]

  -- An ack of any source keeps the state well formed.
  pub ack-IsValid : (s : State V) (a : Active) → IsValid s → IsValid (ack s a).0
  unfolding ack
  ack-IsValid s embedded h = h
  ack-IsValid s (ota seq) h = ack_ota-IsValid seq s h

  -- A staged bundle that is dropped takes only its own metadata along.
  pub drop_staged-IsValid :
      (seq : ℕ) (s : State V)
      → s.staged ≡ some seq
      → IsValid s
      → IsValid (record s { staged = none; versions = Map.remove seq s.versions })
  drop_staged-IsValid seq s e h = record {
    moves_together = h.moves_together;
    committed_past =
        every_mono s.committed _ _ h.committed_past
          λ q p k. ground (arith, h.staged_apart, Map.get-remove q seq s.versions);
    booting_candidate =
        every_mono s.booting _ _ h.booting_candidate
          λ q p k. ground (arith, h.staged_apart, Map.get-remove q seq s.versions);
    staged_known = refl;
    staged_apart = refl;
    strikes_bound = h.strikes_bound;
    strikes_idle = h.strikes_idle;
  }

  -- A staged bundle that is a candidate may start its trial.
  pub arm-IsValid :
      (seq : ℕ) (s : State V)
      → is_candidate s.max_version_seen s.failed s.versions seq ≡ true
      → IsValid s
      → IsValid (record s { staged = none; booting = some seq; booting_strikes = 0 })
  arm-IsValid seq s c h = ground arith

  may_apply-candidate :
      (seq : ℕ) (s : State V) (shell : V) (present : List ℕ)
      → may_apply seq (Map.get seq s.versions) s shell present ≡ true
      → is_candidate s.max_version_seen s.failed s.versions seq ≡ true
  unfolding may_apply
  may_apply-candidate seq s shell present h = elim (Option-cases (Map.get seq s.versions)) [
    | inl e ↦ ground arith
    | inr (m, e) ↦ elim (Option-cases s.max_version_seen) [
      | inl n ↦ ground arith
      | inr (w, n) ↦ ground (arith, newer-max m.version w shell)
    ]
  ]

  apply_or_drop-IsValid :
      (seq : ℕ) (s : State V) (shell : V) (present : List ℕ)
      → s.staged ≡ some seq
      → IsValid s
      → IsValid (apply_or_drop seq s shell present).0
  unfolding apply_or_drop
  apply_or_drop-IsValid seq s shell present e h =
      elim (Bool-cases (may_apply seq (Map.get seq s.versions) s shell present)) [
        | inl y ↦ rw y (arm-IsValid seq s (may_apply-candidate seq s shell present y) h)
        | inr n ↦ rw n (drop_staged-IsValid seq s e h)
      ]

  promote_pointers-IsValid :
      (b p : Option ℕ) (s : State V) (shell : V) (present : List ℕ)
      → s.staged ≡ p
      → IsValid s
      → IsValid (promote_pointers b p s shell present).0
  promote_pointers-IsValid (some _) p s shell present e h = h
  promote_pointers-IsValid none none s shell present e h = h
  promote_pointers-IsValid none (some seq) s shell present e h =
      apply_or_drop-IsValid seq s shell present e h

  -- `promote_staged` keeps the state well formed, whatever it decides.
  pub promote_staged-IsValid :
      (s : State V) (shell : V) (present : List ℕ)
      → IsValid s
      → IsValid (promote_staged s shell present).0
  unfolding promote_staged
  promote_staged-IsValid s shell present h =
      promote_pointers-IsValid s.booting s.staged s shell present refl h

  put_staged-IsValid :
      (seq : ℕ) (meta : BundleMeta V) (s : State V)
      → in_use seq s ≡ false
      → IsValid s
      → IsValid (record s { staged = some seq; versions = Map.put seq meta s.versions })
  put_staged-IsValid seq meta s u h = record {
    moves_together = h.moves_together;
    committed_past =
        every_mono s.committed _ _ h.committed_past
          λ q p k. ground (arith, contains-referenced seq s, Map.get-put q seq meta s.versions);
    booting_candidate =
        every_mono s.booting _ _ h.booting_candidate
          λ q p k. ground (arith, contains-referenced seq s, Map.get-put q seq meta s.versions);
    staged_known = ground (arith, Map.get-put seq seq meta s.versions);
    staged_apart = ground (arith, contains-referenced seq s);
    strikes_bound = h.strikes_bound;
    strikes_idle = h.strikes_idle;
  }

  in_use-drop :
      (seq prev : ℕ) (s : State V)
      → in_use seq s ≡ false
      → in_use seq (record s { staged = none; versions = Map.remove prev s.versions }) ≡ false
  in_use-drop seq prev s u = ground (
    arith,
    contains-referenced seq s,
    contains-referenced seq (record s { staged = none; versions = Map.remove prev s.versions }),
    Map.get-remove seq prev s.versions,
  )

  replace_staged-IsValid :
      (seq : ℕ) (meta : BundleMeta V) (s : State V)
      → in_use seq s ≡ false
      → IsValid s
      → IsValid (replace_staged s.staged seq meta s).0
  replace_staged-IsValid seq meta s u h = elim (Option-cases s.staged) [
    | inl e ↦ rw e (put_staged-IsValid seq meta s u h)
    | inr (prev, e) ↦ rw e (
        put_staged-IsValid seq meta
          (record s { staged = none; versions = Map.remove prev s.versions })
          (in_use-drop seq prev s u) (drop_staged-IsValid prev s e h))
  ]

  -- `stage` keeps the state well formed, accepted or refused.
  pub stage-IsValid :
      (s : State V) (seq : ℕ) (meta : BundleMeta V) → IsValid s → IsValid (stage s seq meta).0
  unfolding stage
  stage-IsValid s seq meta h = elim (Option-cases (not_newer s.max_version_seen meta.version)) [
    | inr (w, e) ↦ rw e h
    | inl e ↦ rw e (elim (Bool-cases (Hashes.contains meta.archive_sha256 s.failed)) [
      | inl f ↦ rw f h
      | inr f ↦ rw f (elim (Bool-cases (in_use seq s)) [
        | inl u ↦ rw u h
        | inr u ↦ rw u (replace_staged-IsValid seq meta s u h)
      ])
    ])
  ]
