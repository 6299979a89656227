-- ===== src/Extract/Caps.antt =====
-- The caps of src/extract.rs, and where its files land, whatever the archive holds.
use tauri_plugin_hot_update.Prelude.{
  ℕ, ◌+◌, ◌-◌, ◌^◌, ◌≤◌, ◌<◌, Bool, true, false, Option, none, some, List, [], ◌∷◌, ◌++◌, ◌≡◌, refl,
  arith, inl, inr, ◌⊎◌, Option-cases, Bool-cases,
}
use tauri_plugin_hot_update.Prelude.Lists.{length}
use tauri_plugin_hot_update.Prelude.Result.{Result, ok, err, Result-cases}
use tauri_plugin_hot_update.Error.{ExtractError}
use tauri_plugin_hot_update.Store.Disk.{Answer, done, failed, torn}
use tauri_plugin_hot_update.Paths.{is_name, are_names}
use tauri_plugin_hot_update.Extract.{safe_join}
use tauri_plugin_hot_update.Extract.Inside.{safe_join-inside}
use tauri_plugin_hot_update.Extract.Entries.{
  Entry, Item, entry, broken, Limits, Output, Task, make_dir, write_file, task_of, check_entry,
  next_answer, prefix, taken, copy, call, perform, finish_copy, total_after, extract_entries,
}

abbrev pub bytes_of : List (List (List ℕ) × List ℕ) → ℕ
bytes_of [] = 0
bytes_of ((path, bytes) ∷ files) = length bytes + bytes_of files

-- the target followed by at least one name
abbrev pub IsInside : List (List ℕ) → List (List ℕ) → Type 0
IsInside target path =
    (name : List ℕ) × (names : List (List ℕ)) × (path ≡ target ++ name ∷ names)
    × (is_name name ≡ true)
    × (are_names names ≡ true)

abbrev pub AreInside : List (List ℕ) → List (List (List ℕ) × List ℕ) → Type 0
AreInside target [] = Unit
AreInside target ((path, bytes) ∷ files) = IsInside target path × AreInside target files

-- What the tar reader yields in all, and what it yields beyond the sizes that the headers declare:
-- for an entry whose header says 0, a size in a PAX record counts in place of it.
abbrev pub yielded : List Item → ℕ
yielded [] = 0
yielded (broken _ ∷ items) = yielded items
yielded (entry e ∷ items) = length e.bytes + yielded items

abbrev pub beyond : Option ℕ → List ℕ → ℕ
beyond none bytes = length bytes
beyond (some size) bytes = length bytes - size

abbrev pub undeclared : List Item → ℕ
undeclared [] = 0
undeclared (broken _ ∷ items) = undeclared items
undeclared (entry e ∷ items) = beyond e.size e.bytes + undeclared items

-- what the loop keeps, after `count` entries with `total` declared bytes, which yielded `seen`
-- bytes, `extra` of them undeclared
record IsCapped (l : Limits) (target : List (List ℕ)) (count total extra seen : ℕ) (out : Output)
    : Type 0 where
  inside : AreInside target out.files
  within : bytes_of out.files ≤ total + extra
  read : bytes_of out.files ≤ seen
  total_within : total ≤ l.max_total_bytes
  few : length out.files ≤ count
  count_within : count ≤ l.max_entries

length-prefix : (part bytes : List ℕ) → length (prefix part bytes) ≤ length bytes
unfolding prefix
length-prefix [] bytes = omega arith
length-prefix (x ∷ part) [] = omega arith
length-prefix (x ∷ part) (b ∷ bytes) = omega (arith, length-prefix part bytes)

length-taken : (a : Answer) (bytes : List ℕ) → length (taken a bytes) ≤ length bytes
length-taken done bytes = omega arith
length-taken failed bytes = omega arith
length-taken (torn part) bytes = length-prefix part bytes

-- a task writes nothing, or a part of the entry to its own path
Wrote : Entry → Task → Output → Output → Type 0
Wrote e task out out' =
    (out'.files ≡ out.files)
    ⊎ ((dest : List (List ℕ)) × (total : ℕ) × (b : List ℕ) × (task ≡ write_file dest total)
        × (out'.files ≡ (dest, b) ∷ out.files)
        × (length b ≤ length e.bytes))

-- what a check that lets a file through has found
record IsCleared (l : Limits) (total : ℕ) (e : Entry) (total' : ℕ) : Type 0 where
  size : ℕ
  declared : e.size ≡ some size
  sum : total' ≡ total + size
  within : total' ≤ l.max_total_bytes

task_of-write_file :
    (l : Limits) (total : ℕ) (e : Entry) (joined : Result ExtractError (List (List ℕ)))
    (dest : List (List ℕ)) (total' : ℕ)
    → task_of l total e joined ≡ ok (write_file dest total')
    → l.max_total_bytes < 2 ^ 64 - 1
    → (joined ≡ ok dest) × IsCleared l total e total'
task_of-write_file l total e (err x) dest total' h k = absurd (ground arith)
task_of-write_file l total e (ok d) dest total' h k = elim (Option-cases e.size) [
  | inl n ↦ absurd (ground arith)
  | inr (size, n) ↦ (
    ground arith,
    record { size = size; declared = n; sum = ground arith; within = ground arith },
  )
]

check_entry-write_file :
    (l : Limits) (target : List (List ℕ)) (count total : ℕ) (e : Entry) (dest : List (List ℕ))
    (total' : ℕ)
    → check_entry l target count total e ≡ ok (write_file dest total')
    → l.max_total_bytes < 2 ^ 64 - 1
    → (safe_join target e.path ≡ ok dest) × IsCleared l total e total'
unfolding check_entry
check_entry-write_file l target count total e dest total' h k =
    task_of-write_file l total e (safe_join target e.path) dest total' (ground arith) k

check_entry-count :
    (l : Limits) (target : List (List ℕ)) (count total : ℕ) (e : Entry) (task : Task)
    → check_entry l target count total e ≡ ok task
    → count + 1 ≤ l.max_entries
unfolding check_entry
check_entry-count l target count total e task h = ground arith

finish_copy-files :
    (l : Limits) (fault : Option Bool) (x : Bool × Output)
    → (finish_copy l fault x).1.files ≡ x.1.files
unfolding call
finish_copy-files l fault (false, out) = refl
finish_copy-files l (some exceeded) (true, out) = refl
finish_copy-files l none (true, out) = refl

perform-Wrote :
    (l : Limits) (e : Entry) (task : Task) (out : Output)
    → Wrote e task out (perform l e task out).1
unfolding perform Wrote
perform-Wrote l e (make_dir dest) out = inl (ground arith)
perform-Wrote l e (write_file dest total) out =
    let out₁ = (call out).1 in
    let out₂ = (call out₁).1 in
    let a = next_answer out₂.answers in
    let copied = finish_copy-files l e.fault (copy dest e.bytes out₂) in
    elim (Bool-cases (call out).0) [
      | inr n ↦ inl (ground arith)
      | inl y ↦ elim (Bool-cases (call out₁).0) [
        | inr n ↦ inl (ground arith)
        | inl z ↦
            inr (dest, total, taken a e.bytes, refl, ground (arith, copied), length-taken a e.bytes)
      ]
    ]

perform-IsCapped :
    (l : Limits) (target : List (List ℕ)) (count total extra seen : ℕ) (e : Entry) (task : Task)
    (out : Output)
    → l.max_total_bytes < 2 ^ 64 - 1
    → IsCapped l target count total extra seen out
    → check_entry l target count total e ≡ ok task
    → IsCapped l target
        (count + 1)
        (total_after task total)
        (extra + beyond e.size e.bytes)
        (seen + length e.bytes)
        (perform l e task out).1
unfolding Wrote
perform-IsCapped l target count total extra seen e (make_dir dest) out k i h =
    elim (perform-Wrote l e (make_dir dest) out) [
      | inl same ↦ record {
        inside = rw same i.inside;
        within = rw same (omega (arith, i.within));
        read = rw same (omega (arith, i.read));
        total_within = i.total_within;
        few = ground (arith, i.few);
        count_within = check_entry-count l target count total e (make_dir dest) h;
      }
      | inr (_, _, _, t, _, _) ↦ absurd (ground arith)
    ]
perform-IsCapped l target count total extra seen e (write_file dest total') out k i h =
    let (joins, cleared) = check_entry-write_file l target count total e dest total' h k in
    elim (perform-Wrote l e (write_file dest total') out) [
      | inl same ↦ record {
        inside = rw same i.inside;
        within = ground (arith, i.within, cleared.sum);
        read = ground (arith, i.read);
        total_within = cleared.within;
        few = ground (arith, i.few);
        count_within = check_entry-count l target count total e (write_file dest total') h;
      }
      | inr (dest', total'', b, t, grown, short) ↦
          let same : dest ≡ dest' = ground arith in
          record {
            inside = rw grown (rw same at (safe_join-inside target e.path dest joins), i.inside);
            within = ground (arith, i.within, cleared.sum, cleared.declared);
            read = ground (arith, i.read);
            total_within = cleared.within;
            few = ground (arith, i.few);
            count_within = check_entry-count l target count total e (write_file dest total') h;
          }
    ]

-- The files are inside the target and within the cap on entries. Their bytes are within the cap on
-- bytes but for `extra`, and are at most `seen`.
pub record AreCapped (l : Limits) (target : List (List ℕ)) (extra seen : ℕ) (out : Output)
    : Type 0 where
  pub inside : AreInside target out.files
  pub within : bytes_of out.files ≤ l.max_total_bytes + extra
  pub read : bytes_of out.files ≤ seen
  pub few : length out.files ≤ l.max_entries

IsCapped-AreCapped :
    (l : Limits) (target : List (List ℕ)) (count total extra seen extra' seen' : ℕ) (out : Output)
    → IsCapped l target count total extra seen out
    → extra ≤ extra'
    → seen ≤ seen'
    → AreCapped l target extra' seen' out
IsCapped-AreCapped l target count total extra seen extra' seen' out i m n = record {
  inside = i.inside;
  within = omega (arith, i.within, i.total_within);
  read = omega (arith, i.read);
  few = omega (arith, i.few, i.count_within);
}

extract_entries-AreCapped :
    (l : Limits) (target : List (List ℕ)) (count total extra seen extra' seen' : ℕ)
    (items : List Item) (out : Output)
    → l.max_total_bytes < 2 ^ 64 - 1
    → extra + undeclared items ≤ extra'
    → seen + yielded items ≤ seen'
    → IsCapped l target count total extra seen out
    → AreCapped l target extra' seen' (extract_entries l target count total items out).1
unfolding extract_entries
extract_entries-AreCapped l target count total extra seen extra' seen' [] out k d y i =
    IsCapped-AreCapped l target count total extra seen extra' seen' out i (omega arith)
      (omega arith)
extract_entries-AreCapped l target count total extra seen extra' seen' (broken x ∷ items) out k d y
      i =
    IsCapped-AreCapped l target count total extra seen extra' seen' out i (omega arith)
      (omega arith)
extract_entries-AreCapped l target count total extra seen extra' seen' (entry e ∷ items) out k d y
      i =
    elim (Result-cases (check_entry l target count total e)) [
      | inl (task, h) ↦
          let after = perform-IsCapped l target count total extra seen e task out k i h in
          elim (Result-cases (perform l e task out).0) [
            | inl (_, p) ↦
                rw (h, p, extract_entries)
                  ((extract_entries-AreCapped l target (count + 1) (total_after task total)
                    (extra + beyond e.size e.bytes) (seen + length e.bytes) extra' seen' items
                    (perform l e task out).1 k (omega arith) (omega arith) after))
            | inr (x, p) ↦
                rw (h, p, extract_entries)
                  ((IsCapped-AreCapped l target (count + 1) (total_after task total)
                    (extra + beyond e.size e.bytes) (seen + length e.bytes) extra' seen'
                    (perform l e task out).1 after (omega arith) (omega arith)))
          ]
      | inr (x, h) ↦
          rw (h, extract_entries)
            (IsCapped-AreCapped l target count total extra seen extra' seen' out i (omega arith)
              (omega arith))
    ]

-- Whatever an archive holds and whatever calls fail, the files that its extraction writes lie
-- inside the target and are at most as many as the cap on entries. Their bytes together are at most
-- those that the tar reader yields, and at most the cap on bytes and what the tar reader yields
-- beyond the sizes in the headers. The cap is below 2 ^ 64 - 1.
pub extract_entries-capped :
    (l : Limits) (target : List (List ℕ)) (items : List Item) (out : Output)
    → l.max_total_bytes < 2 ^ 64 - 1
    → out.files ≡ []
    → AreCapped l target
        (undeclared items)
        (yielded items)
        (extract_entries l target 0 0 items out).1
extract_entries-capped l target items out k n =
    extract_entries-AreCapped l target 0 0 0 0 (undeclared items) (yielded items) items out k
      (omega arith) (omega arith)
      (record {
        inside = rw n tt;
        within = ground arith;
        read = ground arith;
        total_within = omega arith;
        few = ground arith;
        count_within = omega arith;
      })
