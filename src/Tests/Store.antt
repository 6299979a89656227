-- ===== src/Tests/Store.antt =====
-- The theorems about the store at concrete worlds.
use tauri_plugin_hot_update.Prelude.{
  ℕ, ◌^◌, ◌<◌, ◌≢◌, true, false, some, List, [], ◌∷◌, ◌≡◌, refl, arith,
}
use tauri_plugin_hot_update.Prelude.Set
use tauri_plugin_hot_update.Prelude.Map
use tauri_plugin_hot_update.Prelude.Lists.{text_eq}
use tauri_plugin_hot_update.Prelude.Result.{ok}
use tauri_plugin_hot_update.Machine.{State, Effect, delete_bundle}
use tauri_plugin_hot_update.Store.{
  load_state, update, seqs_of, present_seqs, state_seqs, allocate_seq, apply_effects, foreign,
  remove_all, sweep_foreign_entries,
}
use tauri_plugin_hot_update.Store.Disk.{
  World, done, torn, answer, without, remove_entry, read_bundles, read_state_file, create_root,
  create_tmp, write_tmp, sync_tmp, rename_tmp,
}
use tauri_plugin_hot_update.Store.Names.{
  bundle_name, parse_seq, print_u64, parse_u64, padded_name, padded_name_alias,
}
use tauri_plugin_hot_update.Store.Persist.{on_disk, after, update_atomic}
use tauri_plugin_hot_update.Store.Seqs.{has_dir, allocate_seq-no_dir}
use tauri_plugin_hot_update.Store.Deletion.{has_file, padded_dir_survives}
use tauri_plugin_hot_update.Machine.Session.{stage, StageResult}
use tauri_plugin_hot_update.Tests.Data.{number_order, waiting, newest_meta}
use tauri_plugin_hot_update.Tests.Codec.{codec}
use tauri_plugin_hot_update.Tests.Data.{two_bundles}

unfoldable pub code : Unit {0}
unfolding bundle_name parse_seq print_u64 parse_u64 padded_name without remove_entry read_bundles
    read_state_file create_root create_tmp write_tmp sync_tmp rename_tmp text_eq has_dir has_file
    seqs_of present_seqs state_seqs allocate_seq apply_effects foreign remove_all
    sweep_foreign_entries Set.contains Set.insert Set.max_or_zero Map.keys load_state answer
code = tt

bundle_names : parse_seq (bundle_name 1205) ≡ some 1205
unfolding code
bundle_names = refl

padded_name_alias_example :
    (parse_seq (padded_name 7) ≡ some 7) × ((m : ℕ) → m < 2 ^ 64 → bundle_name m ≢ padded_name 7)
padded_name_alias_example = padded_name_alias 7 (omega arith)

-- the write is cut off in the middle
abbrev torn_write : World
torn_write = record two_bundles { answers = done ∷ done ∷ torn (123 ∷ []) ∷ [] }

abbrev put_newest : State ℕ → State ℕ × StageResult ℕ
put_newest s = stage s 3 newest_meta

update_atomic_example :
    (on_disk codec (update codec put_newest two_bundles).1
      ≡ after
          (update codec put_newest two_bundles).0
          (put_newest (load_state codec two_bundles).0).0
          (on_disk codec two_bundles))
    × ((update codec put_newest two_bundles).1.entries ≡ two_bundles.entries)
    × ((out : StageResult ℕ)
        → (update codec put_newest two_bundles).0 ≡ ok out
        → out ≡ (put_newest (load_state codec two_bundles).0).1)
update_atomic_example = update_atomic codec put_newest two_bundles

allocate_seq-no_dir_example :
    has_dir (bundle_name (allocate_seq waiting two_bundles).0) two_bundles.entries ≡ false
unfolding code
allocate_seq-no_dir_example = allocate_seq-no_dir waiting two_bundles (omega arith) refl

abbrev drop_one : List Effect
drop_one = delete_bundle 1 ∷ []

-- `bundles/seq-07` beside the two bundles
abbrev padded : World
padded = record two_bundles {
  entries = record { name = padded_name 7; is_dir = true } ∷ two_bundles.entries;
}

padded_dir_survives_example :
    has_dir (padded_name 7) (sweep_foreign_entries (apply_effects drop_one padded)).entries ≡ true
unfolding code
padded_dir_survives_example =
    padded_dir_survives 7 drop_one padded (omega arith) (omega arith, tt) refl refl
