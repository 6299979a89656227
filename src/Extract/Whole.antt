-- ===== src/Extract/Whole.antt =====
-- What an extraction that succeeds has written (src/extract.rs).
use tauri_plugin_hot_update.Prelude.{
  ℕ, ◌+◌, ap, ◌∙◌, Option-cases, Bool, true, false, Option, none, some, List, [], ◌∷◌, ◌≡◌, refl,
  sym, arith, ◌⊎◌, inl, inr, Bool-cases,
}
use tauri_plugin_hot_update.Prelude.Result.{ok, err, Result-cases}
use tauri_plugin_hot_update.Store.Disk.{Answer, done, failed, torn, succeeds}
use tauri_plugin_hot_update.Extract.{safe_join}
use tauri_plugin_hot_update.Extract.Entries.{
  Entry, Item, entry, broken, EntryType, is_allowed, saturating_add, next_answer, regular,
  directory, Limits, Output, Task, make_dir, write_file, check_entry, copy, call, perform,
  finish_copy, total_after, extract_entries, extract_with_limits,
}

-- the files of an archive, the last one first: the content of each regular entry, at its path below
-- the target
unfoldable pub unpacked :
    List (List ℕ) → List Item → List (List (List ℕ) × List ℕ) → List (List (List ℕ) × List ℕ)
unpacked target [] files = files
unpacked target (broken _ ∷ items) files = unpacked target items files
unpacked target (entry e ∷ items) files = elim e.entry_type [
  | directory ↦ unpacked target items files
  | _ ↦ elim (safe_join target e.path) [
    | err _ ↦ unpacked target items files
    | ok dest ↦ unpacked target items ((dest, e.bytes) ∷ files)
  ]
]

-- no entry has an error, and none is but a file or a directory with a path below the target
abbrev pub AreWhole : List (List ℕ) → List Item → Type 0
AreWhole target [] = Unit
AreWhole target (broken _ ∷ items) = ⊥
AreWhole target (entry e ∷ items) =
    ((dest : List (List ℕ)) × (safe_join target e.path ≡ ok dest))
    × ((e.entry_type ≡ directory) ⊎ ((e.entry_type ≡ regular) × (e.fault ≡ none)))
    × AreWhole target items

Answer-cases : (a : Answer) → (a ≡ done) ⊎ (succeeds a ≡ false)
Answer-cases done = inl refl
Answer-cases failed = inr refl
Answer-cases (torn part) = inr refl

EntryType-cases : (t : EntryType) → (t ≡ directory) ⊎ (t ≡ regular) ⊎ (is_allowed t ≡ false)
EntryType-cases directory = inl refl
EntryType-cases regular = inr (inl refl)
EntryType-cases t = inr (inr refl)

-- what a check that passes has found
check_entry-type :
    (l : Limits) (target : List (List ℕ)) (count total : ℕ) (e : Entry) (task : Task)
    → check_entry l target count total e ≡ ok task
    → (dest : List (List ℕ)) × (safe_join target e.path ≡ ok dest)
      × (((e.entry_type ≡ directory) × (task ≡ make_dir dest))
          ⊎ ((e.entry_type ≡ regular) × ((total' : ℕ) × (task ≡ write_file dest total'))))
unfolding check_entry
check_entry-type l target count total e task h = elim (Result-cases (safe_join target e.path)) [
  | inr (x, n) ↦ absurd (ground arith)
  | inl (dest, n) ↦ (
    dest,
    n,
    elim (EntryType-cases e.entry_type) [
      | inl d ↦ inl (d, ground arith)
      | inr (inr x) ↦ absurd (ground arith)
      | inr (inl r) ↦ elim (Option-cases e.size) [
        | inl k ↦ absurd (ground arith)
        | inr (size, k) ↦ inr (r, (saturating_add total size, ground arith))
      ]
    ],
  )
]

finish_copy-ok :
    (l : Limits) (fault : Option Bool) (x : Bool × Output) (u : Unit {0})
    → (finish_copy l fault x).0 ≡ ok u
    → (fault ≡ none) × (x.0 ≡ true) × ((finish_copy l fault x).1.files ≡ x.1.files)
unfolding call
finish_copy-ok l fault (false, out) u h = absurd (ground arith)
finish_copy-ok l (some exceeded) (true, out) u h = absurd (ground arith)
finish_copy-ok l none (true, out) u h = (refl, refl, refl)

copy-ok :
    (dest : List (List ℕ)) (bytes : List ℕ) (out : Output)
    → (copy dest bytes out).0 ≡ true
    → (copy dest bytes out).1.files ≡ (dest, bytes) ∷ out.files
unfolding copy
copy-ok dest bytes out h = elim (Answer-cases (next_answer out.answers)) [
  | inl d ↦ rw d refl
  | inr f ↦ absurd (ground arith)
]

perform-file :
    (l : Limits) (e : Entry) (dest : List (List ℕ)) (total : ℕ) (out : Output) (u : Unit {0})
    → (perform l e (write_file dest total) out).0 ≡ ok u
    → (e.fault ≡ none)
      × ((perform l e (write_file dest total) out).1.files ≡ (dest, e.bytes) ∷ out.files)
unfolding perform
perform-file l e dest total out u h = elim (Bool-cases (call out).0) [
  | inr n ↦ absurd (ground arith)
  | inl y ↦ elim (Bool-cases (call (call out).1).0) [
    | inr n ↦ absurd (ground arith)
    | inl z ↦
        let out₂ = (call (call out).1).1 in
        let copied = copy dest e.bytes out₂ in
        let there : perform l e (write_file dest total) out ≡ finish_copy l e.fault copied =
          rw (y, z) refl in
        let (whole, written, kept) = finish_copy-ok l e.fault copied u (rw there at h) in
        let same : out₂.files ≡ out.files = unfold call in refl in
        (
          whole,
          rw there (
              kept
              ∙ copy-ok dest e.bytes out₂ written
              ∙ ap (λ (fs : List (List (List ℕ) × List ℕ)). (dest, e.bytes) ∷ fs) same),
        )
  ]
]

perform-dir :
    (l : Limits) (e : Entry) (dest : List (List ℕ)) (out : Output)
    → (perform l e (make_dir dest) out).1.files ≡ out.files
unfolding perform call
perform-dir l e dest out = refl

unpacked-directory :
    (target : List (List ℕ)) (e : Entry) (items : List Item) (files : List (List (List ℕ) × List ℕ))
    → e.entry_type ≡ directory
    → unpacked target (entry e ∷ items) files ≡ unpacked target items files
unfolding unpacked
unpacked-directory target e items files d = rw d refl

unpacked-regular :
    (target dest : List (List ℕ)) (e : Entry) (items : List Item)
    (files : List (List (List ℕ) × List ℕ))
    → e.entry_type ≡ regular
    → safe_join target e.path ≡ ok dest
    → unpacked target (entry e ∷ items) files ≡ unpacked target items ((dest, e.bytes) ∷ files)
unfolding unpacked
unpacked-regular target dest e items files r joins = rw (r, joins) refl

extract_entries-whole :
    (l : Limits) (target : List (List ℕ)) (count total : ℕ) (items : List Item) (out : Output)
    (u : Unit {0})
    → (extract_entries l target count total items out).0 ≡ ok u
    → AreWhole target items
      × ((extract_entries l target count total items out).1.files ≡ unpacked target items out.files)
unfolding extract_entries
extract_entries-whole l target count total [] out u h = (tt, unfold unpacked in refl)
extract_entries-whole l target count total (broken x ∷ items) out u h = absurd (ground arith)
extract_entries-whole l target count total (entry e ∷ items) out u h =
    elim (Result-cases (check_entry l target count total e)) [
      | inr (x, n) ↦ absurd (ground arith)
      | inl (task, n) ↦ elim (Result-cases (perform l e task out).0) [
        | inr (x, k) ↦ absurd (ground arith)
        | inl (v, k) ↦
            let out' = (perform l e task out).1 in
            let next : extract_entries l target count total (entry e ∷ items) out
                ≡ extract_entries l target (count + 1) (total_after task total) items out' =
              rw (n, k, extract_entries) refl in
            let (rest, files) =
              extract_entries-whole l target (count + 1) (total_after task total) items out' u
                (rw next at h) in
            let (dest, joins, kind) = check_entry-type l target count total e task n in
            elim kind [
              | inl (d, made) ↦
                  let kept : out'.files ≡ out.files = rw made (perform-dir l e dest out) in
                  let same = unpacked-directory target e items out.files d in
                  (
                    ((dest, joins), inl d, rest),
                    rw next (files ∙ ap (unpacked target items) kept ∙ sym same),
                  )
              | inr (r, (total', wrote)) ↦
                  let (whole, grown) = perform-file l e dest total' out v (rw wrote at k) in
                  let kept : out'.files ≡ (dest, e.bytes) ∷ out.files = rw wrote grown in
                  let same = unpacked-regular target dest e items out.files r joins in
                  (
                    ((dest, joins), inr (r, whole), rest),
                    rw next (files ∙ ap (unpacked target items) kept ∙ sym same),
                  )
            ]
      ]
    ]

pub extract_with_limits-whole :
    (l : Limits) (target : List (List ℕ)) (items : List Item) (out : Output) (u : Unit {0})
    → (extract_with_limits l target items out).0 ≡ ok u
    → AreWhole target items
      × ((extract_with_limits l target items out).1.files ≡ unpacked target items out.files)
unfolding extract_with_limits
extract_with_limits-whole l target items out u h = elim (Bool-cases (call out).0) [
  | inr n ↦ absurd (ground arith)
  | inl y ↦
      let out' = (call out).1 in
      let there : extract_with_limits l target items out ≡ extract_entries l target 0 0 items out' =
        rw y refl in
      let same : out'.files ≡ out.files = unfold call in refl in
      let (whole, files) = extract_entries-whole l target 0 0 items out' u (rw there at h) in
      (whole, rw there (files ∙ ap (unpacked target items) same))
]
