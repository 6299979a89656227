-- ===== src/Extract/Inside.antt =====
-- Where the entries of an archive may land (src/extract.rs).
use tauri_plugin_hot_update.Prelude.{
  ℕ, Bool, true, false, Option, none, some, List, [], ◌∷◌, ◌++◌, ◌≡◌, refl, ap, arith,
  if◌then◌else◌, Option-cases, inl, inr,
}
use tauri_plugin_hot_update.Prelude.Result.{ok}
use tauri_plugin_hot_update.Paths.{
  Component, root_dir, cur_dir, parent_dir, normal, components, is_name, are_names, are_sound,
  components_sound,
}
use tauri_plugin_hot_update.Extract.{push_components, safe_join}

-- the names of components that are all normal
unfoldable pub names_of : List Component → Option (List (List ℕ))
names_of [] = some []
names_of (normal p ∷ cs) =
    let rest = names_of cs in elim rest [ none ↦ none | some ps ↦ some (p ∷ ps) ]
names_of (_ ∷ cs) = none

abbrev some_name : List (List ℕ) → Bool
some_name [] = false
some_name (_ ∷ _) = true

pub names_append_nil : (xs : List (List ℕ)) → xs ++ [] ≡ xs
names_append_nil [] = refl
names_append_nil (x ∷ xs) = ap (λ (l : List (List ℕ)). x ∷ l) (names_append_nil xs)

pub names_append_assoc : (xs ys zs : List (List ℕ)) → (xs ++ ys) ++ zs ≡ xs ++ (ys ++ zs)
names_append_assoc [] ys zs = refl
names_append_assoc (x ∷ xs) ys zs = ap (λ (l : List (List ℕ)). x ∷ l) (names_append_assoc xs ys zs)

abbrev pushed_names : List (List ℕ) → Bool → Option (List (List ℕ)) → Option (List (List ℕ) × Bool)
pushed_names out pushed none = none
pushed_names out pushed (some ps) = some (out ++ ps, if some_name ps then true else pushed)

push_components-names_of :
    (out : List (List ℕ)) (pushed : Bool) (cs : List Component)
    → push_components out pushed cs ≡ pushed_names out pushed (names_of cs)
unfolding push_components names_of
push_components-names_of out pushed [] = ground (arith, names_append_nil out)
push_components-names_of out pushed (normal p ∷ cs) = elim (Option-cases (names_of cs)) [
  | inl n ↦ ground (arith, push_components-names_of (out ++ p ∷ []) true cs)
  | inr (ps, n) ↦
      ground (
        arith,
        push_components-names_of (out ++ p ∷ []) true cs,
        names_append_assoc out (p ∷ []) ps,
      )
]
push_components-names_of out pushed (root_dir ∷ cs) = refl
push_components-names_of out pushed (cur_dir ∷ cs) = refl
push_components-names_of out pushed (parent_dir ∷ cs) = refl

pub names_of_names :
    (cs : List Component) (ps : List (List ℕ))
    → are_sound cs ≡ true
    → names_of cs ≡ some ps
    → are_names ps ≡ true
unfolding names_of are_sound
names_of_names [] ps h e = ground arith
names_of_names (normal p ∷ cs) ps h e = elim (Option-cases (names_of cs)) [
  | inl n ↦ absurd (ground arith)
  | inr (qs, n) ↦ ground (arith, names_of_names cs qs)
]
names_of_names (root_dir ∷ cs) ps h e = absurd (ground arith)
names_of_names (cur_dir ∷ cs) ps h e = absurd (ground arith)
names_of_names (parent_dir ∷ cs) ps h e = absurd (ground arith)

-- A path that `safe_join` gives out lies strictly inside the target: it is the target followed by
-- at least one name, and no name is empty, `.` or `..`, or has a slash.
pub safe_join-inside :
    (target : List (List ℕ)) (raw : List ℕ) (path : List (List ℕ))
    → safe_join target raw ≡ ok path
    → (name : List ℕ) × (names : List (List ℕ)) × (path ≡ target ++ name ∷ names)
      × (is_name name ≡ true)
      × (are_names names ≡ true)
unfolding safe_join
safe_join-inside target raw path e =
    let facts = push_components-names_of target false (components raw) in
    elim (Option-cases (names_of (components raw))) [
      | inl n ↦ absurd (ground (arith, facts))
      | inr ([], n) ↦ absurd (ground (arith, facts))
      | inr (p ∷ ps, n) ↦
          let sound = names_of_names (components raw) (p ∷ ps) (components_sound raw) n in
          (p, ps, ground (arith, facts), ground (arith, sound), ground (arith, sound))
    ]
