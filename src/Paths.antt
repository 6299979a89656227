-- ===== src/Paths.antt =====
-- `Path::components` of the standard library on Unix, for src/extract.rs and src/assets.rs. A path
-- text is a list of code points, a directory path the list of its names.
use tauri_plugin_hot_update.Prelude.{
  ℕ, Bool, true, not, ◌&&◌, List, [], ◌∷◌, ◌≡◌, ◌==◌, if◌then◌else◌, arith, refl,
}
use tauri_plugin_hot_update.Prelude.Lists.{text_eq}

pub data Component : Type 0 where
  root_dir cur_dir parent_dir : Component
  normal : List ℕ → Component

abbrev pub on_first : ℕ → List (List ℕ) → List (List ℕ)
on_first c [] = (c ∷ []) ∷ []
on_first c (p ∷ ps) = (c ∷ p) ∷ ps

-- the pieces between slashes
unfoldable pub split : List ℕ → List (List ℕ)
split [] = [] ∷ []
split (c ∷ cs) = let rest = split cs in if c == b'/' then [] ∷ rest else on_first c rest

abbrev pub is_dots : List ℕ → Bool
is_dots piece = text_eq piece (b'.' ∷ b'.' ∷ [])

abbrev pub is_dot : List ℕ → Bool
is_dot piece = text_eq piece (b'.' ∷ [])

-- Empty pieces and `.` are dropped.
unfoldable pub inner : List (List ℕ) → List Component
inner [] = []
inner (p ∷ ps) =
    let rest = inner ps in
    if text_eq p []
    then rest
    else if is_dot p
    then rest
    else if is_dots p
    then parent_dir ∷ rest
    else normal p ∷ rest

-- A `.` in front of a relative path stays.
abbrev pub relative : List (List ℕ) → List Component
relative [] = []
relative (p ∷ ps) = if is_dot p then cur_dir ∷ inner ps else inner (p ∷ ps)

unfoldable pub components : List ℕ → List Component
unfolding split inner
components [] = []
components (c ∷ cs) = if c == b'/' then root_dir ∷ inner (split cs) else relative (split (c ∷ cs))

-- no slash
unfoldable pub is_flat : List ℕ → Bool
is_flat [] = true
is_flat (c ∷ cs) = not (c == b'/') && is_flat cs

-- A name that is one step down: not empty, without a slash, neither `.` nor `..`.
abbrev pub is_name : List ℕ → Bool
is_name p = not (text_eq p []) && not (is_dot p) && not (is_dots p) && is_flat p

abbrev pub are_flat : List (List ℕ) → Bool
are_flat [] = true
are_flat (p ∷ ps) = is_flat p && are_flat ps

abbrev pub are_names : List (List ℕ) → Bool
are_names [] = true
are_names (p ∷ ps) = is_name p && are_names ps

-- every normal component is a name
unfoldable pub are_sound : List Component → Bool
are_sound [] = true
are_sound (normal p ∷ cs) = is_name p && are_sound cs
are_sound (root_dir ∷ cs) = are_sound cs
are_sound (cur_dir ∷ cs) = are_sound cs
are_sound (parent_dir ∷ cs) = are_sound cs

split_flat : (cs : List ℕ) → are_flat (split cs) ≡ true
unfolding split is_flat
split_flat [] = refl
split_flat (c ∷ cs) = ground (arith, split_flat cs)

inner_sound : (ps : List (List ℕ)) → are_flat ps ≡ true → are_sound (inner ps) ≡ true
unfolding inner are_sound
inner_sound [] h = refl
inner_sound (p ∷ ps) h = ground (arith, inner_sound ps)

relative_sound : (ps : List (List ℕ)) → are_flat ps ≡ true → are_sound (relative ps) ≡ true
unfolding are_sound
relative_sound [] h = refl
relative_sound (p ∷ ps) h = ground (arith, inner_sound ps, inner_sound (p ∷ ps))

pub components_sound : (cs : List ℕ) → are_sound (components cs) ≡ true
unfolding components are_sound
components_sound [] = refl
components_sound (c ∷ cs) = ground (
  arith,
  inner_sound (split cs),
  relative_sound (split (c ∷ cs)),
  split_flat cs,
  split_flat (c ∷ cs),
)
