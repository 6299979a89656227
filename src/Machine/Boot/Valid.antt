-- ===== src/Machine/Boot/Valid.antt =====
-- `resolve_boot` keeps the state of src/machine.rs well formed.
use tauri_plugin_hot_update.Prelude.{
  ℕ, Bool, true, false, Option, none, some, List, ◌≡◌, refl, arith, if◌then◌else◌, Option-cases,
  inl, inr, Bool-cases,
}
use tauri_plugin_hot_update.Prelude.Map
use tauri_plugin_hot_update.Version.{
  Order, at_most, newer, at_most-max_left, newer-max, max_version,
}
use tauri_plugin_hot_update.Machine.{State}
use tauri_plugin_hot_update.Machine.Boot.{
  above_watermark, raise_watermark, judge_trial, settle_pointer, fold_watermark, discard_beaten,
  ota_beats_embedded, may_arm, try_arm, promote_pointers, promote, collect_garbage,
  before_promotion, resolve_boot,
}
use tauri_plugin_hot_update.Machine.Boot.Sweep.{get-collect_garbage}
use tauri_plugin_hot_update.Machine.Session.Valid.{arm-IsValid}
use tauri_plugin_hot_update.Machine.Invariant.{
  IsValid, contains-referenced, every, every_mono, is_candidate, at_most_watermark,
}

module _ {V : Type 0} ⦃o : Order V⦄ where
  -- a bundle that can be served: on disk, with metadata, newer than the embedded frontend
  abbrev pub is_servable : V → List ℕ → State V → ℕ → Bool
  is_servable shell present s q = ota_beats_embedded shell present s.versions q

  judge_trial-IsValid :
      (seq : ℕ) (s : State V) (shell : V) (present : List ℕ)
      → s.booting ≡ some seq
      → IsValid s
      → IsValid (judge_trial seq (Map.get seq s.versions) s shell present).0
  unfolding judge_trial
  judge_trial-IsValid seq s shell present e h = ground arith

  judge_trial-servable :
      (seq : ℕ) (s : State V) (shell : V) (present : List ℕ)
      → every
          (judge_trial seq (Map.get seq s.versions) s shell present).0.booting
          (is_servable shell present s)
        ≡ true
  unfolding judge_trial ota_beats_embedded
  judge_trial-servable seq s shell present = ground arith

  settle_pointer-IsValid :
      (b : Option ℕ) (s : State V) (shell : V) (present : List ℕ)
      → s.booting ≡ b
      → IsValid s
      → IsValid (settle_pointer b s shell present).0
  settle_pointer-IsValid none s shell present e h = h
  settle_pointer-IsValid (some q) s shell present e h = judge_trial-IsValid q s shell present e h

  pub settle_pointer-servable :
      (b : Option ℕ) (s : State V) (shell : V) (present : List ℕ)
      → s.booting ≡ b
      → every
          (settle_pointer b s shell present).0.booting
          (is_servable shell present (settle_pointer b s shell present).0)
        ≡ true
  unfolding judge_trial ota_beats_embedded
  settle_pointer-servable none s shell present e = ground arith
  settle_pointer-servable (some q) s shell present e = ground arith

  pub at_most-raise :
      (seen : Option V) (v shell : V)
      → at_most_watermark seen v ≡ true
      → at_most v (raise_watermark seen shell) ≡ true
  at_most-raise none v shell h = ground arith
  at_most-raise (some w) v shell h =
      ground (arith, at_most-max_left w shell, o.leb_trans v w (max_version w shell))

  pub at_most-raise_self :
      (seen : Option V) (shell : V) → at_most shell (raise_watermark seen shell) ≡ true
  at_most-raise_self none shell = ground (arith, o.leb_total shell shell)
  at_most-raise_self (some w) shell = ground (arith, o.leb_total shell shell, o.leb_total w shell)

  pub above-raise :
      (seen : Option V) (v shell : V)
      → newer v (raise_watermark seen shell)
        ≡ (if above_watermark seen v then newer v shell else false)
  above-raise none v shell = refl
  above-raise (some w) v shell = newer-max v w shell

  fold_watermark-IsValid :
      (s : State V) (shell : V) (present : List ℕ)
      → every s.booting (is_servable shell present s) ≡ true
      → IsValid s
      → IsValid (fold_watermark s shell)
  unfolding fold_watermark ota_beats_embedded
  fold_watermark-IsValid s shell present b h = record {
    moves_together = h.moves_together;
    committed_past = every_mono s.committed _ _ h.committed_past λ q e k.
        elim (Option-cases (Map.get q s.versions)) [
          | inl n ↦ ground arith
          | inr (m, n) ↦ ground (arith, at_most-raise s.max_version_seen m.version shell)
        ];
    booting_candidate = every_mono s.booting _ _ h.booting_candidate λ q e k.
        elim (Option-cases (Map.get q s.versions)) [
          | inl n ↦ ground arith
          | inr (m, n) ↦ ground (arith, above-raise s.max_version_seen m.version shell)
        ];
    staged_known = h.staged_known;
    staged_apart = h.staged_apart;
    strikes_bound = h.strikes_bound;
    strikes_idle = h.strikes_idle;
  }

  discard_beaten-IsValid :
      (s : State V) (shell : V) (present : List ℕ)
      → IsValid s
      → IsValid (discard_beaten s shell present)
  unfolding discard_beaten
  discard_beaten-IsValid s shell present h = ground arith

  -- Steps 1 to 3 keep the state well formed.
  pub before_promotion-IsValid :
      (s : State V) (shell : V) (present : List ℕ)
      → IsValid s
      → IsValid (before_promotion s shell present)
  unfolding before_promotion
  before_promotion-IsValid s shell present h =
      let settled = (settle_pointer s.booting s shell present).0 in
      discard_beaten-IsValid (fold_watermark settled shell) shell present (
        fold_watermark-IsValid settled shell present
          (settle_pointer-servable s.booting s shell present refl)
          (settle_pointer-IsValid s.booting s shell present refl h))

  may_arm-candidate :
      (seq : ℕ) (s : State V) (shell : V) (present : List ℕ)
      → may_arm seq (Map.get seq s.versions) s shell present ≡ true
      → is_candidate s.max_version_seen s.failed s.versions seq ≡ true
  unfolding may_arm
  may_arm-candidate seq s shell present h = elim (Option-cases (Map.get seq s.versions)) [
    | inl e ↦ ground arith
    | inr (m, e) ↦ ground arith
  ]

  try_arm-IsValid :
      (seq : ℕ) (s : State V) (shell : V) (present : List ℕ)
      → IsValid s
      → IsValid (try_arm seq s shell present).0
  unfolding try_arm
  try_arm-IsValid seq s shell present h =
      elim (Bool-cases (may_arm seq (Map.get seq s.versions) s shell present)) [
        | inl y ↦ rw y (arm-IsValid seq s (may_arm-candidate seq s shell present y) h)
        | inr n ↦ rw n (ground arith)
      ]

  promote_pointers-IsValid :
      (b p : Option ℕ) (s : State V) (shell : V) (present : List ℕ)
      → IsValid s
      → IsValid (promote_pointers b p s shell present).0
  promote_pointers-IsValid (some _) p s shell present h = h
  promote_pointers-IsValid none none s shell present h = h
  promote_pointers-IsValid none (some seq) s shell present h = try_arm-IsValid seq s shell present h

  collect_garbage-IsValid :
      (s : State V) (present : List ℕ) → IsValid s → IsValid (collect_garbage s present).0
  collect_garbage-IsValid s present h = record {
    moves_together = unfold collect_garbage in h.moves_together;
    committed_past =
        unfold collect_garbage in
        every_mono s.committed _ _ h.committed_past
          λ q e k. ground (arith, get-collect_garbage q s present, contains-referenced q s);
    booting_candidate =
        unfold collect_garbage in
        every_mono s.booting _ _ h.booting_candidate
          λ q e k. ground (arith, get-collect_garbage q s present, contains-referenced q s);
    staged_known =
        unfold collect_garbage in
        every_mono s.staged _ _ h.staged_known
          λ q e k. ground (arith, get-collect_garbage q s present, contains-referenced q s);
    staged_apart = unfold collect_garbage in h.staged_apart;
    strikes_bound = unfold collect_garbage in h.strikes_bound;
    strikes_idle = unfold collect_garbage in h.strikes_idle;
  }

  -- `resolve_boot` keeps the state well formed, whatever the shell and the directories on disk.
  pub resolve_boot-IsValid :
      (s : State V) (shell : V) (present : List ℕ)
      → IsValid s
      → IsValid (resolve_boot s shell present).state
  unfolding resolve_boot promote
  resolve_boot-IsValid s shell present h =
      let before = before_promotion s shell present in
      collect_garbage-IsValid (promote before shell present).0 present (
        promote_pointers-IsValid before.booting before.staged before shell present
          (before_promotion-IsValid s shell present h))
