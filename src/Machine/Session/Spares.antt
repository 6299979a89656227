-- ===== src/Machine/Session/Spares.antt =====
-- What the transitions of a running app (src/machine.rs) do to the bundle that it serves, once that
-- bundle is not the staged one.
use tauri_plugin_hot_update.Prelude.{
  ℕ, Bool, true, false, not, Option, none, some, List, ◌≡◌, refl, arith, ◌==◌, inl, inr, Bool-cases,
}
use tauri_plugin_hot_update.Prelude.Set
use tauri_plugin_hot_update.Version.{Order}
use tauri_plugin_hot_update.Machine.{
  State, BundleMeta, Active, embedded, ota, Effect, fresh, referenced,
}
use tauri_plugin_hot_update.Machine.Boot.Sweep.{deletes}
use tauri_plugin_hot_update.Machine.Invariant.{contains-referenced}
use tauri_plugin_hot_update.Machine.Session.{
  points_to, commit, ack, drop_previous, promote_staged, stage, staged, reset,
}
use tauri_plugin_hot_update.Machine.Session.Staging.{
  passes_gates, stage-accepted, stage-refusal, deletes-reset,
}

-- the bundle is not the staged one
abbrev pub is_unstaged : {V : Type 0} → ℕ → State V → Bool
is_unstaged q s = not (points_to s.staged q)

module _ {V : Type 0} ⦃o : Order V⦄ where
  drop_previous-unstaged :
      (p : Option ℕ) (q : ℕ) (s : State V)
      → is_unstaged q s ≡ true
      → is_unstaged q (drop_previous p s).0 ≡ true
  unfolding drop_previous
  drop_previous-unstaged none q s h = h
  drop_previous-unstaged (some p) q s h = ground arith

  pub ack-unstaged :
      (q : ℕ) (s : State V) (a : Active) → is_unstaged q s ≡ true → is_unstaged q (ack s a).0 ≡ true
  unfolding ack
  ack-unstaged q s embedded h = h
  ack-unstaged q s (ota r) h = ground (arith, drop_previous-unstaged s.committed q (commit r s) h)

  drop_previous-spares :
      (p : Option ℕ) (q : ℕ) (s : State V)
      → Set.contains q (referenced s) ≡ true
      → deletes q (drop_previous p s).1 ≡ false
  unfolding drop_previous
  drop_previous-spares none q s h = refl
  drop_previous-spares (some p) q s h = ground arith

  -- An ack never deletes the bundle that it acks.
  pub ack-spares : (q : ℕ) (s : State V) → deletes q (ack s (ota q)).2 ≡ false
  unfolding ack
  ack-spares q s =
      ground
        (arith, drop_previous-spares s.committed q (commit q s), contains-referenced q (commit q s))

  -- A promotion neither stages nor deletes a bundle that is not staged.
  pub promote_staged-spares :
      (q : ℕ) (s : State V) (shell : V) (present : List ℕ)
      → is_unstaged q s ≡ true
      → (is_unstaged q (promote_staged s shell present).0 ≡ true)
        × (deletes q (promote_staged s shell present).2 ≡ false)
  unfolding promote_staged
  promote_staged-spares q s shell present h = ground arith

  -- Staging another bundle neither stages nor deletes one that is not staged.
  pub stage-spares :
      (q seq : ℕ) (meta : BundleMeta V) (s : State V)
      → (seq == q) ≡ false
      → is_unstaged q s ≡ true
      → (is_unstaged q (stage s seq meta).0 ≡ true)
        × ((es : List Effect) → (stage s seq meta).1 ≡ staged es → deletes q es ≡ false)
  stage-spares q seq meta s d h = elim (Bool-cases (passes_gates s seq meta)) [
    | inl y ↦
        let (fs, r, gone, k, _, _, _, _, _, _) = stage-accepted s seq meta y in
        (ground arith, λ es e. ground (arith, gone q))
    | inr n ↦ let (e, r, same) = stage-refusal s seq meta n in (ground arith, λ es k. ground arith)
  ]

  pub reset-spares :
      (q : ℕ) (s : State V) (shell : V)
      → (is_unstaged q (reset s shell (ota q)).0 ≡ true)
        × (deletes q (reset s shell (ota q)).1 ≡ false)
  reset-spares q s shell =
      (unfold reset fresh in refl, ground (arith, deletes-reset q s shell (ota q)))
