-- ===== src/Prelude/Hashes.antt =====
-- `BTreeSet<String>`, as far as the program uses it: members are inserted and tested, so the order
-- in which they are kept is left out.
use tauri_plugin_hot_update.Prelude.Tests.{if◌then◌else◌}
use Prim.Native.String.{String}
use mathlib.Core.Path.{◌≡◌}
use mathlib.Core.Bool.{Bool, false, ◌||◌}
use mathlib.Core.List.{List, [], ◌∷◌}
use native.Mathlib.Omega.{arith}
use text.Mathlib.Text.{◌==◌ as str_eq}
use text.Mathlib.TextEquality.{eq_iff}

unfoldable pub contains : String → List String → Bool
contains a [] = false
contains a (x ∷ xs) = str_eq x a || contains a xs

unfoldable pub insert : String → List String → List String
unfolding contains
insert a xs = if contains a xs then xs else a ∷ xs

pub contains-insert :
    (a x : String) (xs : List String) → contains a (insert x xs) ≡ (str_eq x a || contains a xs)
unfolding contains insert
contains-insert a x xs = ground (arith, eq_iff x a)
