-- ===== src/Store/Disk.antt =====
-- The part of the file system that src/store.rs works on, and the calls that it makes of the
-- operating system. Each call takes one of the answers that the world has in store, so a theorem
-- about all worlds covers every pattern of failures; when none is left, calls succeed.
use tauri_plugin_hot_update.Prelude.{
  ℕ, Bool, true, false, not, ◌&&◌, ◌||◌, Option, none, some, List, [], ◌∷◌, if◌then◌else◌,
}
use tauri_plugin_hot_update.Prelude.Lists.{text_eq}
use tauri_plugin_hot_update.Prelude.Result.{Result, ok, err}

-- `torn` is a write that stopped after some bytes
pub data Answer : Type 0 where
  done failed : Answer
  torn : List ℕ → Answer

pub data IoError : Type 0 where
  not_found other : IoError

-- an entry of `bundles/`
pub record Entry : Type 0 where
  pub name : List ℕ
  pub is_dir : Bool

pub record World : Type 0 where
  pub state_json : Option (List ℕ)
  pub state_tmp : Option (List ℕ)
  pub entries : List Entry
  pub answers : List Answer

abbrev head_answer : List Answer → Answer
head_answer [] = done
head_answer (a ∷ _) = a

abbrev rest_answers : List Answer → List Answer
rest_answers [] = []
rest_answers (_ ∷ as') = as'

-- the answer to the next call
unfoldable pub answer : World → Answer
answer w = head_answer w.answers

unfoldable pub answered : World → World
answered w = record w { answers = rest_answers w.answers }

abbrev pub succeeds : Answer → Bool
succeeds done = true
succeeds _ = false

-- `fs::read(state.json)`
unfoldable pub read_state_file : World → Result IoError (List ℕ) × World
unfolding answer answered
read_state_file w = (
  elim w.state_json [
    | none ↦ err not_found
    | some bytes ↦ if succeeds (answer w) then ok bytes else err other
  ],
  answered w,
)

-- `fs::create_dir_all(root)`: the directory is there afterwards, as nothing else here depends on.
unfoldable pub create_root : World → Result IoError (Unit {0}) × World
unfolding answer answered
create_root w = (if succeeds (answer w) then ok tt else err other, answered w)

-- `fs::File::create(tmp)` truncates.
unfoldable pub create_tmp : World → Result IoError (Unit {0}) × World
unfolding answer answered
create_tmp w =
    if succeeds (answer w)
    then (ok tt, record (answered w) { state_tmp = some [] })
    else (err other, answered w)

-- `write_all`: a write that fails may leave a part.
unfoldable pub write_tmp : List ℕ → World → Result IoError (Unit {0}) × World
unfolding answer answered
write_tmp bytes w = elim (answer w) [
  | done ↦ (ok tt, record (answered w) { state_tmp = some bytes })
  | failed ↦ (err other, answered w)
  | torn part ↦ (err other, record (answered w) { state_tmp = some part })
]

unfoldable pub sync_tmp : World → Result IoError (Unit {0}) × World
unfolding answer answered
sync_tmp w = (if succeeds (answer w) then ok tt else err other, answered w)

-- `fs::rename(tmp, state.json)`: all or nothing.
unfoldable pub rename_tmp : World → Result IoError (Unit {0}) × World
unfolding answer answered
rename_tmp w =
    if succeeds (answer w)
    then (ok tt, record (answered w) { state_json = w.state_tmp; state_tmp = none })
    else (err other, answered w)

-- `fs::read_dir(bundles)`, listed whole or not at all
unfoldable pub read_bundles : World → Option (List Entry) × World
unfolding answer answered
read_bundles w = (if succeeds (answer w) then some w.entries else none, answered w)

unfoldable pub without : List ℕ → List Entry → List Entry
without name [] = []
without name (e ∷ es) = let rest = without name es in if text_eq e.name name then rest else e ∷ rest

-- `remove_dir_all` or `remove_file`; a failure leaves the entry
unfoldable pub remove_entry : List ℕ → World → World
unfolding answer answered without
remove_entry name w =
    if succeeds (answer w)
    then record (answered w) { entries = without name w.entries }
    else answered w

-- a directory that is renamed into `bundles/`
unfoldable pub add_dir : List ℕ → World → Result IoError (Unit {0}) × World
unfolding answer answered
add_dir name w =
    if succeeds (answer w)
    then (
      ok tt,
      record (answered w) { entries = record { name = name; is_dir = true } ∷ w.entries },
    )
    else (err other, answered w)

-- `fs::create_dir_all(bundles)`
unfoldable pub create_bundles : World → Result IoError (Unit {0}) × World
unfolding answer answered
create_bundles w = (if succeeds (answer w) then ok tt else err other, answered w)

-- a new file in `bundles/`
unfoldable pub add_file : List ℕ → World → Result IoError (Unit {0}) × World
unfolding answer answered
add_file name w =
    if succeeds (answer w)
    then (
      ok tt,
      record (answered w) { entries = record { name = name; is_dir = false } ∷ w.entries },
    )
    else (err other, answered w)

unfoldable pub has_entry : List ℕ → List Entry → Bool
has_entry name [] = false
has_entry name (e ∷ es) = text_eq e.name name || has_entry name es

-- `fs::rename` of a directory in `bundles/`: all or nothing, and not onto an entry that is there,
-- since a bundle's directory is not empty.
unfoldable pub rename_dir : List ℕ → List ℕ → World → Result IoError (Unit {0}) × World
unfolding answer answered without has_entry
rename_dir from to w =
    if succeeds (answer w) && not (has_entry to w.entries)
    then (
      ok tt,
      record (answered w) {
        entries = record { name = to; is_dir = true } ∷ without from w.entries;
      },
    )
    else (err other, answered w)
