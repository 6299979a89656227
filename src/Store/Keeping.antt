-- ===== src/Store/Keeping.antt =====
-- What the calls of src/store.rs and src/update.rs under `bundles/` leave of a bundle's directory.
use tauri_plugin_hot_update.Prelude.{
  ℕ, ◌^◌, ◌<◌, Bool, true, false, not, ◌&&◌, List, [], ◌∷◌, ◌≡◌, refl, arith, ◌==◌,
}
use tauri_plugin_hot_update.Prelude.Lists.{text_eq}
use tauri_plugin_hot_update.Prelude.Result.{ok}
use tauri_plugin_hot_update.Machine.{Effect, delete_bundle}
use tauri_plugin_hot_update.Machine.Boot.Sweep.{deletes}
use tauri_plugin_hot_update.Store.{apply_effects, foreign, remove_all, sweep_foreign_entries}
use tauri_plugin_hot_update.Store.Names.{bundle_name, parse_seq-bundle_name}
use tauri_plugin_hot_update.Store.Disk.{
  World, Entry, answered, without, remove_entry, read_bundles, add_file, add_dir, rename_dir,
  has_entry,
}
use tauri_plugin_hot_update.Store.Seqs.{has_dir}
use tauri_plugin_hot_update.Store.Deletion.{
  has_file, has_dir-without, bundle_name-eq, names, names-foreign,
}

-- the bundle's directory is there, and no file has its name
abbrev pub holds : List ℕ → List Entry → Bool
holds name es = has_dir name es && not (has_file name es)

has_file-without :
    (name gone : List ℕ) (es : List Entry)
    → has_file name es ≡ false
    → has_file name (without gone es) ≡ false
unfolding has_file without
has_file-without name gone [] h = refl
has_file-without name gone (e ∷ es) h = ground (arith, has_file-without name gone es)

holds-without :
    (name gone : List ℕ) (es : List Entry)
    → text_eq gone name ≡ false
    → holds name es ≡ true
    → holds name (without gone es) ≡ true
holds-without name gone es d h =
    ground (arith, has_dir-without name gone es, has_file-without name gone es)

pub holds-remove_entry :
    (name gone : List ℕ) (w : World)
    → text_eq gone name ≡ false
    → holds name w.entries ≡ true
    → holds name (remove_entry gone w).entries ≡ true
unfolding remove_entry
holds-remove_entry name gone w d h = ground (arith, holds-without name gone w.entries d h)

pub holds-add_file :
    (name new : List ℕ) (w : World)
    → text_eq new name ≡ false
    → holds name w.entries ≡ true
    → holds name (add_file new w).1.entries ≡ true
unfolding add_file has_dir has_file
holds-add_file name new w d h = ground arith

pub holds-add_dir :
    (name new : List ℕ) (w : World)
    → holds name w.entries ≡ true
    → holds name (add_dir new w).1.entries ≡ true
unfolding add_dir has_dir has_file
holds-add_dir name new w h = ground arith

pub holds-rename_dir :
    (name from to : List ℕ) (w : World)
    → text_eq from name ≡ false
    → holds name w.entries ≡ true
    → holds name (rename_dir from to w).1.entries ≡ true
unfolding rename_dir has_dir has_file
holds-rename_dir name from to w d h = ground (arith, holds-without name from w.entries d h)

has_dir-has_entry :
    (name : List ℕ) (es : List Entry) → has_dir name es ≡ true → has_entry name es ≡ true
unfolding has_dir has_entry
has_dir-has_entry name [] h = h
has_dir-has_entry name (e ∷ es) h = ground (arith, has_dir-has_entry name es)

-- A bundle that is there is not overwritten.
pub rename_dir-apart :
    (q seq : ℕ) (from : List ℕ) (w : World) (u : Unit {0})
    → holds (bundle_name q) w.entries ≡ true
    → (rename_dir from (bundle_name seq) w).0 ≡ ok u
    → (seq == q) ≡ false
unfolding rename_dir
rename_dir-apart q seq from w u h e =
    ground (arith, has_dir-has_entry (bundle_name q) w.entries, bundle_name-eq seq q)

pub holds-apply_effects :
    (q : ℕ) (es : List Effect) (w : World)
    → deletes q es ≡ false
    → holds (bundle_name q) w.entries ≡ true
    → holds (bundle_name q) (apply_effects es w).entries ≡ true
unfolding apply_effects
holds-apply_effects q [] w d h = h
holds-apply_effects q (delete_bundle r ∷ es) w d h = ground (
  arith,
  holds-apply_effects q es (remove_entry (bundle_name r) w),
  holds-remove_entry (bundle_name q) (bundle_name r) w,
  bundle_name-eq r q,
)

holds-remove_all :
    (name : List ℕ) (gone : List (List ℕ)) (w : World)
    → names name gone ≡ false
    → holds name w.entries ≡ true
    → holds name (remove_all gone w).entries ≡ true
unfolding remove_all names
holds-remove_all name [] w n h = h
holds-remove_all name (g ∷ gs) w n h =
    ground (arith, holds-remove_all name gs (remove_entry g w), holds-remove_entry name g w)

pub holds-sweep_foreign_entries :
    (q : ℕ) (w : World)
    → q < 2 ^ 64
    → holds (bundle_name q) w.entries ≡ true
    → holds (bundle_name q) (sweep_foreign_entries w).entries ≡ true
unfolding sweep_foreign_entries read_bundles
holds-sweep_foreign_entries q w b h =
    let name = bundle_name q in
    ground (
      arith,
      names-foreign name q w.entries (parse_seq-bundle_name q b),
      holds-remove_all name (foreign w.entries) (answered w),
      holds-remove_all name [] (answered w),
    )
