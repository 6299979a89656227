-- ===== src/Store/Deletion.antt =====
-- What the deletions of src/store.rs remove, and what they leave.
use tauri_plugin_hot_update.Prelude.{
  ℕ, ◌^◌, ◌<◌, Bool, true, false, some, not, ◌&&◌, ◌||◌, List, [], ◌∷◌, ◌≡◌, refl, ap, arith,
  if◌then◌else◌, ◌==◌,
}
use tauri_plugin_hot_update.Prelude.Lists.{text_eq, text_eq_iff}
use tauri_plugin_hot_update.Machine.{Effect, delete_bundle}
use tauri_plugin_hot_update.Machine.Boot.Sweep.{deletes}
use tauri_plugin_hot_update.Store.{apply_effects, foreign, remove_all, sweep_foreign_entries}
use tauri_plugin_hot_update.Store.Names.{
  bundle_name, parse_seq, bundle_name-injective, padded_name, padded_name_alias,
}
use tauri_plugin_hot_update.Store.Disk.{World, Entry, answered, without, remove_entry, read_bundles}
use tauri_plugin_hot_update.Store.Seqs.{has_dir, parse_seq-text_eq}

pub has_dir-without :
    (name gone : List ℕ) (es : List Entry)
    → has_dir name (without gone es) ≡ (if text_eq gone name then false else has_dir name es)
unfolding has_dir without
has_dir-without name gone [] = ground arith
has_dir-without name gone (e ∷ es) = ground (
  arith,
  has_dir-without name gone es,
  text_eq_iff e.name gone,
  text_eq_iff e.name name,
  text_eq_iff gone name,
)

-- the effects name `u64` seqs
abbrev pub AreSeqs : List Effect → Type 0
AreSeqs [] = Unit
AreSeqs (delete_bundle r ∷ es) = (r < 2 ^ 64) × AreSeqs es

pub bundle_name-eq : (r q : ℕ) → text_eq (bundle_name r) (bundle_name q) ≡ (r == q)
bundle_name-eq r q = ground (
  arith,
  text_eq_iff (bundle_name r) (bundle_name q),
  bundle_name-injective r q,
  ap bundle_name {x = r} {y = q},
)

has_dir-remove_entry :
    (name gone : List ℕ) (w : World)
    → text_eq gone name ≡ false
    → has_dir name (remove_entry gone w).entries ≡ has_dir name w.entries
unfolding remove_entry
has_dir-remove_entry name gone w n = ground (arith, has_dir-without name gone w.entries)

-- A bundle that the effects do not name keeps its directory, whatever calls fail.
pub apply_effects-spares :
    (q : ℕ) (es : List Effect) (w : World)
    → deletes q es ≡ false
    → has_dir (bundle_name q) (apply_effects es w).entries ≡ has_dir (bundle_name q) w.entries
unfolding apply_effects
apply_effects-spares q [] w n = refl
apply_effects-spares q (delete_bundle r ∷ es) w n = ground (
  arith,
  apply_effects-spares q es (remove_entry (bundle_name r) w),
  has_dir-remove_entry (bundle_name q) (bundle_name r) w,
  bundle_name-eq r q,
)

-- Where every deletion succeeds, exactly the bundles that the effects name lose their directories.
pub apply_effects-deletes :
    (q : ℕ) (es : List Effect) (w : World)
    → w.answers ≡ []
    → has_dir (bundle_name q) (apply_effects es w).entries
      ≡ (has_dir (bundle_name q) w.entries && not (deletes q es))
unfolding apply_effects remove_entry
apply_effects-deletes q [] w n = ground arith
apply_effects-deletes q (delete_bundle r ∷ es) w n = ground (
  arith,
  apply_effects-deletes q es (remove_entry (bundle_name r) w),
  has_dir-without (bundle_name q) (bundle_name r) w.entries,
  bundle_name-eq r q,
)

-- an entry with this name that is no directory
unfoldable pub has_file : List ℕ → List Entry → Bool
has_file name [] = false
has_file name (e ∷ es) = text_eq e.name name && not e.is_dir || has_file name es

unfoldable pub names : List ℕ → List (List ℕ) → Bool
names name [] = false
names name (n ∷ ns) = text_eq n name || names name ns

-- a name that is read as a seq is no foreign entry, unless a file has it
pub names-foreign :
    (name : List ℕ) (n : ℕ) (es : List Entry)
    → parse_seq name ≡ some n
    → has_file name es ≡ false
    → names name (foreign es) ≡ false
unfolding has_file names foreign
names-foreign name n [] b h = refl
names-foreign name n (e ∷ es) b h =
    ground (arith, names-foreign name n es b, parse_seq-text_eq e.name name)

has_dir-remove_all :
    (name : List ℕ) (gone : List (List ℕ)) (w : World)
    → names name gone ≡ false
    → has_dir name (remove_all gone w).entries ≡ has_dir name w.entries
unfolding remove_all names
has_dir-remove_all name [] w n = refl
has_dir-remove_all name (g ∷ gs) w n =
    ground (arith, has_dir-remove_all name gs (remove_entry g w), has_dir-remove_entry name g w)

apply_effects-padded :
    (n : ℕ) (es : List Effect) (w : World)
    → n < 2 ^ 64
    → AreSeqs es
    → has_dir (padded_name n) (apply_effects es w).entries ≡ has_dir (padded_name n) w.entries
unfolding apply_effects
apply_effects-padded n [] w b s = refl
apply_effects-padded n (delete_bundle r ∷ es) w b s = ground (
  arith,
  apply_effects-padded n es (remove_entry (bundle_name r) w) b s.1,
  has_dir-remove_entry (padded_name n) (bundle_name r) w,
  text_eq_iff (bundle_name r) (padded_name n),
  (padded_name_alias n b).1 r s.0,
)

-- A directory whose number has a zero in front, such as `seq-07`, survives the clean-up of a
-- launch, whatever bundles the launch deletes and whatever calls fail, provided no plain file has
-- its name: it is no foreign entry, and no deletion names it.
pub padded_dir_survives :
    (n : ℕ) (es : List Effect) (w : World)
    → n < 2 ^ 64
    → AreSeqs es
    → has_dir (padded_name n) w.entries ≡ true
    → has_file (padded_name n) (apply_effects es w).entries ≡ false
    → has_dir (padded_name n) (sweep_foreign_entries (apply_effects es w)).entries ≡ true
unfolding sweep_foreign_entries read_bundles
padded_dir_survives n es w b s h k =
    let w' = apply_effects es w in
    ground (
      arith,
      names-foreign (padded_name n) n w'.entries (padded_name_alias n b).0 k,
      has_dir-remove_all (padded_name n) (foreign w'.entries) (answered w'),
      has_dir-remove_all (padded_name n) [] (answered w'),
      apply_effects-padded n es w b s,
    )

-- Deletions leave `state.json` alone.
pub state_json-apply_effects :
    (es : List Effect) (w : World) → (apply_effects es w).state_json ≡ w.state_json
unfolding apply_effects remove_entry
state_json-apply_effects [] w = refl
state_json-apply_effects (delete_bundle r ∷ es) w =
    ground (arith, state_json-apply_effects es (remove_entry (bundle_name r) w))

state_json-remove_all :
    (gone : List (List ℕ)) (w : World) → (remove_all gone w).state_json ≡ w.state_json
unfolding remove_all remove_entry
state_json-remove_all [] w = refl
state_json-remove_all (g ∷ gs) w = ground (arith, state_json-remove_all gs (remove_entry g w))

pub state_json-sweep_foreign_entries :
    (w : World) → (sweep_foreign_entries w).state_json ≡ w.state_json
unfolding sweep_foreign_entries read_bundles
state_json-sweep_foreign_entries w = ground (
  arith,
  state_json-remove_all (foreign w.entries) (answered w),
  state_json-remove_all [] (answered w),
)
