-- ===== src/Extract/Entries.antt =====
-- The loop over the entries of an archive (src/extract.rs). The gzip decoder and the tar reader are
-- third-party: what they yield is a list of items. An error of theirs carries whether the reader's
-- cap had been exceeded when it came up.
use tauri_plugin_hot_update.Prelude.{
  ℕ, ◌+◌, ◌-◌, ◌^◌, min, String, Bool, true, false, Option, none, some, List, [], ◌∷◌, ltb,
  if◌then◌else◌,
}
use tauri_plugin_hot_update.Prelude.Result.{Result, ok, err}
use tauri_plugin_hot_update.Error.{ExtractError, forbidden_entry_type, too_many_entries, too_large}
use tauri_plugin_hot_update.Store.Disk.{Answer, done, failed, torn, succeeds}
use tauri_plugin_hot_update.Extract.{safe_join}

-- `tar::EntryType`
pub data EntryType : Type 0 where
  regular directory symlink link char_device block fifo continuous : EntryType
  gnu_sparse x_global_header x_header unknown : EntryType

-- An entry: its header, the bytes that can be read, and the error that ends them, if one does.
pub record Entry : Type 0 where
  pub path : List ℕ
  pub entry_type : EntryType
  pub size : Option ℕ
  pub bytes : List ℕ
  pub fault : Option Bool

pub data Item : Type 0 where
  entry : Entry → Item
  broken : (exceeded : Bool) → Item

pub record Limits : Type 0 where
  pub max_entries : ℕ
  pub max_total_bytes : ℕ

-- `MAX_FILES` and `MAX_UNCOMPRESSED_BYTES`, which `extract_tar_gz` passes
abbrev pub max_files : ℕ
max_files = 10000

abbrev pub max_uncompressed_bytes : ℕ
max_uncompressed_bytes = 524288000

abbrev pub production_limits : Limits
production_limits = record { max_entries = max_files; max_total_bytes = max_uncompressed_bytes }

-- The files written so far, and the answers to the calls to come.
pub record Output : Type 0 where
  pub files : List (List (List ℕ) × List ℕ)
  pub answers : List Answer

-- what an entry that passes the checks asks for, with the new total
pub data Task : Type 0 where
  make_dir : (dest : List (List ℕ)) → Task
  write_file : (dest : List (List ℕ)) (total : ℕ) → Task

abbrev pub describe_entry_type : EntryType → String
describe_entry_type symlink = "symlink"
describe_entry_type link = "hardlink"
describe_entry_type char_device = "char device"
describe_entry_type block = "block device"
describe_entry_type fifo = "fifo"
describe_entry_type continuous = "contiguous file"
describe_entry_type gnu_sparse = "sparse file"
describe_entry_type x_global_header = "pax global header"
describe_entry_type x_header = "pax header"
describe_entry_type _ = "unsupported"

abbrev pub map_stream_error : Bool → Limits → ExtractError
map_stream_error exceeded l = if exceeded then too_large l.max_total_bytes else ExtractError.io

-- `u64::saturating_add`
abbrev pub saturating_add : ℕ → ℕ → ℕ
saturating_add a b = min (a + b) (2 ^ 64 - 1)

-- the budget of a file, from its declared size
abbrev pub budget : Limits → ℕ → Option ℕ → List (List ℕ) → Result ExtractError Task
budget l total none dest = err ExtractError.io
budget l total (some size) dest =
    if ltb l.max_total_bytes (saturating_add total size)
    then err (too_large l.max_total_bytes)
    else ok (write_file dest (saturating_add total size))

abbrev pub task_of :
    Limits → ℕ → Entry → Result ExtractError (List (List ℕ)) → Result ExtractError Task
task_of l total e (err x) = err x
task_of l total e (ok dest) = elim e.entry_type [
  | directory ↦ ok (make_dir dest)
  | _ ↦ budget l total e.size dest
]

abbrev pub is_allowed : EntryType → Bool
is_allowed regular = true
is_allowed directory = true
is_allowed _ = false

-- The checks of an entry, before any I/O; `count` entries came before it.
unfoldable pub check_entry : Limits → List (List ℕ) → ℕ → ℕ → Entry → Result ExtractError Task
check_entry l target count total e =
    if ltb l.max_entries (count + 1)
    then err (too_many_entries l.max_entries)
    else if is_allowed e.entry_type
    then task_of l total e (safe_join target e.path)
    else err (forbidden_entry_type e.path (describe_entry_type e.entry_type))

abbrev pub next_answer : List Answer → Answer
next_answer [] = done
next_answer (a ∷ _) = a

abbrev later_answers : List Answer → List Answer
later_answers [] = []
later_answers (_ ∷ as') = as'

-- a call that changes no file: `create_dir_all`, `File::create` of an empty file, `sync_all`
unfoldable pub call : Output → Bool × Output
call out = (succeeds (next_answer out.answers), record out { answers = later_answers out.answers })

-- as many bytes as a write that stopped half way took
unfoldable pub prefix : List ℕ → List ℕ → List ℕ
prefix [] bytes = []
prefix (_ ∷ part) [] = []
prefix (_ ∷ part) (b ∷ bytes) = b ∷ prefix part bytes

abbrev pub taken : Answer → List ℕ → List ℕ
taken done bytes = bytes
taken failed bytes = []
taken (torn part) bytes = prefix part bytes

-- `io::copy` of what can be read
unfoldable pub copy : List (List ℕ) → List ℕ → Output → Bool × Output
unfolding prefix
copy dest bytes out = (
  succeeds (next_answer out.answers),
  record out {
    files = (dest, taken (next_answer out.answers) bytes) ∷ out.files;
    answers = later_answers out.answers;
  },
)

abbrev pub finish_copy :
    Limits → Option Bool → Bool × Output → Result ExtractError (Unit {0}) × Output
finish_copy l fault (false, out) = (err (map_stream_error false l), out)
finish_copy l (some exceeded) (true, out) = (err (map_stream_error exceeded l), out)
finish_copy l none (true, out) =
    let (synced, out') = call out in (if synced then ok tt else err ExtractError.io, out')

-- The I/O of a task: for a file, its parent, its creation, the copy and the sync.
unfoldable pub perform : Limits → Entry → Task → Output → Result ExtractError (Unit {0}) × Output
unfolding call copy
perform l e (make_dir dest) out =
    let (made, out') = call out in (if made then ok tt else err ExtractError.io, out')
perform l e (write_file dest total) out =
    let (parent, out₁) = call out in
    let (created, out₂) = call out₁ in
    if parent
    then if created
      then finish_copy l e.fault (copy dest e.bytes out₂)
      else (err ExtractError.io, out₂)
    else (err ExtractError.io, out₁)

abbrev pub total_after : Task → ℕ → ℕ
total_after (make_dir _) total = total
total_after (write_file _ total') total = total'

-- The loop of `extract_with_limits`.
unfoldable pub extract_entries :
    Limits → List (List ℕ) → ℕ → ℕ → List Item → Output → Result ExtractError (Unit {0}) × Output
unfolding check_entry perform
extract_entries l target count total [] out = (ok tt, out)
extract_entries l target count total (broken exceeded ∷ _) out =
    (err (map_stream_error exceeded l), out)
extract_entries l target count total (entry e ∷ items) out =
    elim (check_entry l target count total e) [
      | err x ↦ (err x, out)
      | ok task ↦
          let (result, out') = perform l e task out in
          elim result [
            | err x ↦ (err x, out')
            | ok _ ↦ extract_entries l target (count + 1) (total_after task total) items out'
          ]
    ]

-- `extract_with_limits`: the archive is opened first.
unfoldable pub extract_with_limits :
    Limits → List (List ℕ) → List Item → Output → Result ExtractError (Unit {0}) × Output
unfolding call extract_entries
extract_with_limits l target items out =
    let (opened, out') = call out in
    if opened then extract_entries l target 0 0 items out' else (err ExtractError.io, out')
