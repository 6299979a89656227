-- ===== src/Machine/Invariant.antt =====
-- The well-formedness of the state of src/machine.rs, between two transitions.
use tauri_plugin_hot_update.Prelude.{
  ℕ, String, ◌≤◌, Bool, true, false, not, ◌&&◌, ◌||◌, Option, none, some, List, ◌==◌, ◌≡◌, refl,
  arith, is_some, is_some_and,
}
use tauri_plugin_hot_update.Prelude.Set
use tauri_plugin_hot_update.Prelude.Map
use tauri_plugin_hot_update.Prelude.Map.{Map}
use tauri_plugin_hot_update.Prelude.Hashes
use tauri_plugin_hot_update.Version.{Order, at_most}
use tauri_plugin_hot_update.Machine.{BundleMeta, State, fresh, Active, referenced}
use tauri_plugin_hot_update.Machine.Boot.{above_watermark}
use tauri_plugin_hot_update.Machine.Session.{points_to, reset}

-- a condition on the seq that a pointer names, if it names one
abbrev pub every : Option ℕ → (ℕ → Bool) → Bool
every none p = true
every (some q) p = p q

module _ {V : Type 0} where
  -- A seq is referenced exactly if one of the four pointers names it.
  pub contains-referenced :
      (q : ℕ) (s : State V)
      → Set.contains q (referenced s) ≡ (
          points_to s.committed q
          || points_to s.last_good q
          || points_to s.staged q
          || points_to s.booting q)
  unfolding referenced Set.contains Set.insert
  contains-referenced q s = ground (arith)

module _ {V : Type 0} ⦃o : Order V⦄ where
  abbrev pub at_most_watermark : Option V → V → Bool
  at_most_watermark none v = false
  at_most_watermark (some seen) v = at_most v seen

  -- a committed bundle has metadata, at or below the watermark
  abbrev pub is_past : Option V → Map (BundleMeta V) → ℕ → Bool
  is_past seen versions q = is_some_and (λ m. at_most_watermark seen m.version) (Map.get q versions)

  -- a bundle on trial has metadata, above the watermark, and a hash that did not fail
  abbrev pub is_candidate : Option V → List String → Map (BundleMeta V) → ℕ → Bool
  is_candidate seen failed versions q =
      is_some_and
        (λ m. above_watermark seen m.version && not (Hashes.contains m.archive_sha256 failed))
        (Map.get q versions)

  pub record IsValid (s : State V) : Type 0 where
    pub moves_together : s.last_good ≡ s.committed
    pub committed_past : every s.committed (is_past s.max_version_seen s.versions) ≡ true
    pub booting_candidate :
        every s.booting (is_candidate s.max_version_seen s.failed s.versions) ≡ true
    pub staged_known : every s.staged (λ q. is_some (Map.get q s.versions)) ≡ true
    pub staged_apart :
        every s.staged (λ q. not (points_to s.committed q) && not (points_to s.booting q)) ≡ true
    pub strikes_bound : s.booting_strikes ≤ 1
    pub strikes_idle : (is_some s.booting || s.booting_strikes == 0) ≡ true

  pub fresh-IsValid : IsValid (fresh {V = V})
  unfolding fresh
  fresh-IsValid = ground arith

  pub reset-IsValid : (s : State V) (shell : V) (a : Active) → IsValid (reset s shell a).0
  unfolding reset
  reset-IsValid s shell a = ground arith

-- A condition on the named seq is carried over pointwise.
pub every_mono :
    (p : Option ℕ) (f g : ℕ → Bool)
    → every p f ≡ true
    → ((q : ℕ) → p ≡ some q → f q ≡ true → g q ≡ true)
    → every p g ≡ true
every_mono none f g h k = refl
every_mono (some q) f g h k = k q refl h
