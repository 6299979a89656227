-- ===== src/Store/Persist.antt =====
-- Loading and saving `state.json` (src/store.rs) under every pattern of failures.
use tauri_plugin_hot_update.Prelude.{
  ℕ, Option, none, some, List, ◌≡◌, refl, arith, ◌⊎◌, inl, inr, Bool-cases, if◌then◌else◌,
  Option-cases,
}
use tauri_plugin_hot_update.Prelude.Result.{Result, ok, err}
use tauri_plugin_hot_update.Machine.{State, fresh}
use tauri_plugin_hot_update.Store.{Codec, load_state, save_state, replace_state_file, update}
use tauri_plugin_hot_update.Store.Disk.{
  World, answer, succeeds, read_state_file, create_root, create_tmp, write_tmp, sync_tmp,
  rename_tmp,
}

-- the new value after a success, the old one after an error
abbrev pub after {ℓ κ μ} : {E : Type ℓ} {A : Type κ} {B : Type μ} → Result E A → B → B → B
after (ok _) new old = new
after (err _) new old = old

-- A file that is replaced by way of a temporary file holds the new bytes or the old ones, at
-- whatever call the replacement fails, and nothing under `bundles/` changes.
replace_state_file_atomic :
    (bytes : List ℕ) (w : World)
    → ((replace_state_file bytes w).1.state_json
        ≡ after (replace_state_file bytes w).0 (some bytes) w.state_json)
      × ((replace_state_file bytes w).1.entries ≡ w.entries)
unfolding replace_state_file create_tmp write_tmp sync_tmp rename_tmp
replace_state_file_atomic bytes w = ground arith

module _ {V : Type 0} (c : Codec V) where
  abbrev decoded : Option (State V) → State V
  decoded none = fresh
  decoded (some s) = s

  -- the state that `state.json` holds, to a reader who is not disturbed
  unfoldable pub on_disk : World → State V
  on_disk w = elim w.state_json [ none ↦ fresh | some b ↦ decoded (c.decode b) ]

  -- `load_state` returns the state on disk, or the fresh state where the file cannot be read, and
  -- writes nothing.
  pub load_state-on_disk :
      (w : World)
      → ((load_state c w).0 ≡ (if succeeds (answer w) then on_disk w else fresh))
        × ((load_state c w).1.state_json ≡ w.state_json)
        × ((load_state c w).1.entries ≡ w.entries)
  unfolding load_state on_disk read_state_file
  load_state-on_disk w = ground arith

  pub load_state-cases :
      (w : World) → ((load_state c w).0 ≡ on_disk w) ⊎ ((load_state c w).0 ≡ fresh)
  load_state-cases w = elim (Bool-cases (succeeds (answer w))) [
    | inl y ↦ inl (ground (arith, (load_state-on_disk w).0))
    | inr n ↦ inr (ground (arith, (load_state-on_disk w).0))
  ]

  -- A save that succeeds puts the state on disk; one that fails, at whatever call, leaves the state
  -- that was there. The bundles stay as they were.
  pub save_state_atomic :
      (s : State V) (w : World)
      → (on_disk (save_state c s w).1 ≡ after (save_state c s w).0 s (on_disk w))
        × ((save_state c s w).1.entries ≡ w.entries)
  unfolding save_state on_disk create_root
  save_state_atomic s w = elim (Option-cases (c.encode s)) [
    | inl n ↦ ground arith
    | inr (b, n) ↦
        ground (arith, replace_state_file_atomic b (create_root w).1, c.decode-encode s b n)
  ]

  pub on_disk_json : (w w' : World) → w.state_json ≡ w'.state_json → on_disk w ≡ on_disk w'
  unfolding on_disk
  on_disk_json w w' e = rw e

  pub on_disk-load_state : (w : World) → on_disk (load_state c w).1 ≡ on_disk w
  unfolding on_disk load_state read_state_file
  on_disk-load_state w = refl

  -- `update` runs the transition on the loaded state: if it succeeds, its result is the
  -- transition's and the new state is on disk; if not, the state on disk is as before.
  pub update_atomic {ℓ} :
      {T : Type ℓ} (transition : State V → State V × T) (w : World)
      → (on_disk (update c transition w).1
          ≡ after (update c transition w).0 (transition (load_state c w).0).0 (on_disk w))
        × ((update c transition w).1.entries ≡ w.entries)
        × ((out : T) → (update c transition w).0 ≡ ok out → out ≡ (transition (load_state c w).0).1)
  unfolding update
  update_atomic transition w =
      let loaded = load_state c w in
      let facts = save_state_atomic (transition loaded.0).0 loaded.1 in
      (
        ground (arith, facts, on_disk-load_state w),
        ground (arith, facts, load_state-on_disk w),
        λ out e. ground arith,
      )
