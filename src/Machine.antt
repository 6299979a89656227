-- ===== src/Machine.antt =====
-- The data of the rollback state machine (src/machine.rs). Its transitions are in the modules
-- below: `Boot` is `resolve_boot`, `Session` what happens while the app runs.
pub mod Boot
pub mod Session
pub mod Invariant
pub mod Metadata
pub mod Traces
use tauri_plugin_hot_update.Prelude.{
  ℕ, String, Bool, true, false, Option, none, some, List, [], ◌∷◌, if◌then◌else◌,
}
use tauri_plugin_hot_update.Prelude.Set
use tauri_plugin_hot_update.Prelude.Map.{Map}
use tauri_plugin_hot_update.Version.{Order, newer}
use tauri_plugin_hot_update.Manifest.{BaseVersion, valid, invalid}

pub record BundleMeta (V : Type 0) : Type 0 where
  pub version : V
  pub archive_sha256 : String
  pub base_version : Option (BaseVersion V)

pub data BaseRefusal (V : Type 0) : Type 0 where
  shell_newer_than_base : (seq : ℕ) (base shell : V) → BaseRefusal V
  invalid_base_version : (seq : ℕ) (base : String) (shell : V) → BaseRefusal V

-- The contents of `state.json`.
pub record State (V : Type 0) : Type 0 where
  pub committed : Option ℕ
  pub last_good : Option ℕ
  pub staged : Option ℕ
  pub booting : Option ℕ
  pub booting_strikes : ℕ
  pub failed : List String
  pub max_version_seen : Option V
  pub versions : Map (BundleMeta V)

-- `State::default()`
unfoldable pub fresh : {V : Type 0} → State V
fresh = record {
  committed = none;
  last_good = none;
  staged = none;
  booting = none;
  booting_strikes = 0;
  failed = [];
  max_version_seen = none;
  versions = [];
}

pub data Active : Type 0 where
  embedded : Active
  ota : ℕ → Active

pub data Effect : Type 0 where
  delete_bundle : ℕ → Effect

abbrev pub insert_some : Option ℕ → List ℕ → List ℕ
insert_some none xs = xs
insert_some (some q) xs = Set.insert q xs

module _ {V : Type 0} where
  unfoldable pub referenced : State V → List ℕ
  referenced s =
      insert_some s.committed
        (insert_some s.last_good (insert_some s.staged (insert_some s.booting [])))

  -- the base gate for a staged bundle, against the running shell
  abbrev base_gate : ⦃o : Order V⦄ → ℕ → Option (BaseVersion V) → V → Option (BaseRefusal V)
  base_gate seq none shell = none
  base_gate seq (some (valid base)) shell =
      if newer shell base then some (shell_newer_than_base seq base shell) else none
  base_gate seq (some (invalid raw)) shell = some (invalid_base_version seq raw shell)

  unfoldable pub base_refusal : ⦃o : Order V⦄ → ℕ → BundleMeta V → V → Option (BaseRefusal V)
  base_refusal seq meta shell = base_gate seq meta.base_version shell
