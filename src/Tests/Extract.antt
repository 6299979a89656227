-- ===== src/Tests/Extract.antt =====
-- The theorems about archive entries at a concrete path and a concrete archive.
use tauri_plugin_hot_update.Prelude.{ℕ, List, [], ◌∷◌, ◌≡◌, refl, arith, some, none}
use tauri_plugin_hot_update.Prelude.Lists.{codes, text_eq}
use tauri_plugin_hot_update.Prelude.Result.{ok}
use tauri_plugin_hot_update.Paths.{components}
use tauri_plugin_hot_update.Extract.{safe_join}
use tauri_plugin_hot_update.Extract.Entries.{
  Item, entry, regular, symlink, Output, production_limits, extract_entries,
}
use tauri_plugin_hot_update.Extract.Entries.{Limits}
use tauri_plugin_hot_update.Extract.Reader.{
  Source, stream_cap, new_reader, read_all, length-read_all,
}
use tauri_plugin_hot_update.Prelude.{Option, true, ◌≤◌, ◌==◌, if◌then◌else◌, List-cases, inl, inr}
use tauri_plugin_hot_update.Prelude.Lists.{length}
use tauri_plugin_hot_update.Extract.Caps.{AreCapped, extract_entries-capped}

abbrev target : List (List ℕ)
target = codes "tmp" ∷ []

abbrev inside : List (List ℕ)
inside = codes "tmp" ∷ codes "js" ∷ codes "app.js" ∷ []

joins : safe_join target (codes "js/./app.js") ≡ ok inside
unfolding safe_join components text_eq
joins = refl

-- a script, and a symbolic link behind it
abbrev items : List Item
items =
    entry (record {
      path = codes "app.js";
      entry_type = regular;
      size = some 3;
      bytes = 1 ∷ 2 ∷ 3 ∷ [];
      fault = none;
    })
    ∷ entry (record {
      path = codes "keys";
      entry_type = symlink;
      size = some 0;
      bytes = [];
      fault = none;
    })
    ∷ []

abbrev nothing : Output
nothing = record { files = []; answers = [] }

-- a header that says 0, of an entry with two bytes
abbrev hostile : List Item
hostile =
    entry (record {
      path = codes "big.js";
      entry_type = regular;
      size = some 0;
      bytes = 8 ∷ 9 ∷ [];
      fault = none;
    })
    ∷ items

extract_entries-capped_example :
    AreCapped production_limits target 2 5
      (extract_entries production_limits target 0 0 hostile nothing).1
extract_entries-capped_example =
    extract_entries-capped production_limits target hostile nothing (omega arith) refl

-- a decoder that yields one byte for each call that asks for some
abbrev one_byte : ℕ → Unit {0} → Option (List ℕ) × Unit {0}
one_byte size inner = (some (if size == 0 then [] else 7 ∷ []), inner)

one_byte_few :
    (size : ℕ) (inner : Unit {0}) (bytes : List ℕ)
    → (one_byte size inner).0 ≡ some bytes
    → length bytes ≤ size
one_byte_few size inner bytes e = elim (List-cases bytes) [
  | inl n ↦ rw n (omega arith)
  | inr (b, rest, n) ↦ ground arith
]

abbrev decoder : Source
decoder = record { Inner = Unit {0}; read = one_byte; read_few = one_byte_few }

abbrev tiny : Limits
tiny = record { max_entries = 1; max_total_bytes = 2 }

length-read_all_example :
    let (bytes, last) =
      read_all decoder (8 ∷ 8 ∷ 8 ∷ 8 ∷ []) (new_reader decoder tt (stream_cap tiny)) in
    (length bytes ≤ stream_cap tiny) × (last.exceeded ≡ true → length bytes ≡ stream_cap tiny)
length-read_all_example = length-read_all decoder (8 ∷ 8 ∷ 8 ∷ 8 ∷ []) tt tiny
