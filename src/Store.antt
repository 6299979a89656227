-- ===== src/Store.antt =====
-- The on-disk store (src/store.rs): every function takes and returns the world.
pub mod Names
pub mod Disk
pub mod Persist
pub mod Seqs
pub mod Deletion
pub mod Keeping
use tauri_plugin_hot_update.Prelude.{
  ℕ, ◌+◌, ◌%◌, ◌^◌, Bool, true, false, not, ◌&&◌, ◌||◌, Option, none, some, List, [], ◌∷◌, ◌≡◌, max,
  if◌then◌else◌, is_some,
}
use tauri_plugin_hot_update.Prelude.Set
use tauri_plugin_hot_update.Prelude.Map
use tauri_plugin_hot_update.Prelude.Result.{Result, ok, err}
use tauri_plugin_hot_update.Machine.{State, fresh, Effect, delete_bundle, insert_some}
use Disk.{
  World, Entry, IoError, other, read_state_file, create_root, create_tmp, write_tmp, sync_tmp,
  rename_tmp, read_bundles, remove_entry,
}
use Names.{bundle_name, parse_seq, u64_mod}

-- `serde_json` on the state: what is written is read back.
pub record Codec (V : Type 0) : Type 0 where
  pub encode : State V → Option (List ℕ)
  pub decode : List ℕ → Option (State V)
  pub decode-encode : (s : State V) (b : List ℕ) → encode s ≡ some b → decode b ≡ some s

-- `?` on a call of the operating system
abbrev and_then {ℓ} :
    {A : Type ℓ}
    → Result IoError (Unit {0}) × World
    → (World → Result IoError A × World)
    → Result IoError A × World
and_then (ok _, w) next = next w
and_then (err e, w) next = (err e, w)

-- The file is created, written, synced and renamed, each step only after the one before it.
unfoldable pub replace_state_file : List ℕ → World → Result IoError (Unit {0}) × World
replace_state_file bytes w =
    and_then (create_tmp w)
      λ w₁. and_then (write_tmp bytes w₁) λ w₂. and_then (sync_tmp w₂) λ w₃. rename_tmp w₃

module _ {V : Type 0} (c : Codec V) where
  unfoldable pub load_state : World → State V × World
  load_state w =
      let (bytes, w') = read_state_file w in
      (elim bytes [ err _ ↦ fresh | ok b ↦ elim (c.decode b) [ none ↦ fresh | some s ↦ s ] ], w')

  unfoldable pub save_state : State V → World → Result IoError (Unit {0}) × World
  unfolding replace_state_file
  save_state s w =
      and_then (create_root w) λ w'. elim (c.encode s) [
        | none ↦ (err other, w')
        | some bytes ↦ replace_state_file bytes w'
      ]

  -- load, transition, persist
  unfoldable pub update {ℓ} :
      {T : Type ℓ} → (State V → State V × T) → World → Result IoError T × World
  update transition w =
      let (s, w') = load_state w in
      let (s', out) = transition s in and_then (save_state s' w') λ w''. (ok out, w'')

-- the seqs of the directories in a listing
unfoldable pub seqs_of : List Entry → List ℕ
seqs_of [] = []
seqs_of (e ∷ es) =
    let rest = seqs_of es in if e.is_dir then insert_some (parse_seq e.name) rest else rest

unfoldable pub present_seqs : World → List ℕ × World
unfolding seqs_of
present_seqs w =
    let (listing, w') = read_bundles w in (elim listing [ none ↦ [] | some es ↦ seqs_of es ], w')

-- entries that are not the directory of a seq
unfoldable pub foreign : List Entry → List (List ℕ)
foreign [] = []
foreign (e ∷ es) =
    let rest = foreign es in
    if not (is_some (parse_seq e.name)) || not e.is_dir then e.name ∷ rest else rest

unfoldable pub foreign_entries : World → List (List ℕ) × World
unfolding foreign
foreign_entries w =
    let (listing, w') = read_bundles w in (elim listing [ none ↦ [] | some es ↦ foreign es ], w')

-- every seq that the state names
unfoldable pub state_seqs : {V : Type 0} → State V → List ℕ
state_seqs s =
    insert_some s.committed
      (insert_some s.last_good (insert_some s.staged (insert_some s.booting (Map.keys s.versions))))

-- `+ 1` of a `u64`
unfoldable pub allocate_seq : {V : Type 0} → State V → World → ℕ × World
unfolding present_seqs state_seqs
allocate_seq s w =
    let (present, w') = present_seqs w in
    ((max (Set.max_or_zero present) (Set.max_or_zero (state_seqs s)) + 1) % u64_mod, w')

unfoldable pub apply_effects : List Effect → World → World
apply_effects [] w = w
apply_effects (delete_bundle seq ∷ es) w = apply_effects es (remove_entry (bundle_name seq) w)

unfoldable pub remove_all : List (List ℕ) → World → World
remove_all [] w = w
remove_all (name ∷ names) w = remove_all names (remove_entry name w)

unfoldable pub sweep_foreign_entries : World → World
unfolding foreign_entries remove_all
sweep_foreign_entries w = let (names, w') = foreign_entries w in remove_all names w'
