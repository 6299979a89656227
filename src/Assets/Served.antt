-- ===== src/Assets/Served.antt =====
-- Where the content of a key comes from (src/assets.rs).
use tauri_plugin_hot_update.Prelude.{
  ℕ, true, Option, none, some, List, [], ◌∷◌, ◌++◌, ◌≡◌, ◌≢◌, ◌⊎◌, refl, arith, Option-cases,
  List-cases, inl, inr,
}
use tauri_plugin_hot_update.Prelude.Lists.{text_eq, text_eq_iff}
use tauri_plugin_hot_update.Paths.{
  Component, root_dir, cur_dir, parent_dir, normal, components, split, inner, relative, is_name,
  are_names, components_sound, on_first,
}
use tauri_plugin_hot_update.Extract.Inside.{
  names_of, names_of_names, names_append_nil, names_append_assoc,
}
use tauri_plugin_hot_update.Prelude.Result.{ok}
use tauri_plugin_hot_update.Version.{Order}
use tauri_plugin_hot_update.Store.{Codec}
use tauri_plugin_hot_update.Store.Names.{bundle_name}
use tauri_plugin_hot_update.Store.Persist.{on_disk}
use tauri_plugin_hot_update.Runtime.{
  Shared, Activation, App, active_dir, current_of, boot_from, initialize, apply_staged, applied,
}
use tauri_plugin_hot_update.Runtime.Booting.{Active-cases, boot_from-persisted}
use tauri_plugin_hot_update.Runtime.Switching.{apply_staged-persisted}
use tauri_plugin_hot_update.Assets.{
  Files, Embedded, trim_slashes, push_names, safe_join, ota_file, get, csp_hashes,
}

-- a path strictly inside a directory
pub record IsInside (dir path : List (List ℕ)) : Type 0 where
  pub name : List ℕ
  pub names : List (List ℕ)
  pub below : path ≡ dir ++ name ∷ names
  pub is_name : is_name name ≡ true
  pub are_names : are_names names ≡ true

abbrev appended : List (List ℕ) → Option (List (List ℕ)) → Option (List (List ℕ))
appended out none = none
appended out (some ps) = some (out ++ ps)

push_names-names_of :
    (out : List (List ℕ)) (cs : List Component) → push_names out cs ≡ appended out (names_of cs)
unfolding push_names names_of
push_names-names_of out [] = ground (arith, names_append_nil out)
push_names-names_of out (normal p ∷ cs) = elim (Option-cases (names_of cs)) [
  | inl n ↦ ground (arith, push_names-names_of (out ++ p ∷ []) cs)
  | inr (ps, n) ↦
      ground (arith, push_names-names_of (out ++ p ∷ []) cs, names_append_assoc out (p ∷ []) ps)
]
push_names-names_of out (root_dir ∷ cs) = refl
push_names-names_of out (cur_dir ∷ cs) = refl
push_names-names_of out (parent_dir ∷ cs) = refl

-- a relative path has a component
names_of-on_first : (c : ℕ) (ps : List (List ℕ)) → names_of (relative (on_first c ps)) ≢ some []
unfolding names_of inner text_eq
names_of-on_first c [] h = ground arith
names_of-on_first c (p ∷ ps) h = ground arith

trim_slashes_first : (key : List ℕ) (c : ℕ) (cs : List ℕ) → trim_slashes key ≡ c ∷ cs → c ≢ b'/'
unfolding trim_slashes
trim_slashes_first [] c cs e h = cc
trim_slashes_first (k ∷ ks) c cs e h = ground (arith, trim_slashes_first ks c cs)

names_of_first : (c : ℕ) (cs : List ℕ) → c ≢ b'/' → names_of (components (c ∷ cs)) ≢ some []
unfolding components split
names_of_first c cs n h = ground (arith, names_of-on_first c (split cs))

safe_join-IsInside :
    (dir path : List (List ℕ)) (key : List ℕ) → safe_join dir key ≡ some path → IsInside dir path
unfolding safe_join
safe_join-IsInside dir path key e = elim (List-cases (trim_slashes key)) [
  | inl n ↦ absurd (ground (arith, text_eq_iff (trim_slashes key) []))
  | inr (c, cs, n) ↦
      let facts = push_names-names_of dir (components (c ∷ cs)) in
      let slash = trim_slashes_first key c cs n in
      elim (Option-cases (names_of (components (c ∷ cs)))) [
        | inl k ↦ absurd (ground (arith, facts))
        | inr ([], k) ↦ absurd (names_of_first c cs slash k)
        | inr (p ∷ ps, k) ↦
            let sound =
              names_of_names (components (c ∷ cs)) (p ∷ ps) (components_sound (c ∷ cs)) k in
            record {
              name = p;
              names = ps;
              below = ground (arith, facts);
              is_name = ground (arith, sound);
              are_names = ground (arith, sound);
            }
      ]
]

module _ {V : Type 0} (files : Files) (embedded : Embedded) where
  -- what is known of a file that the provider reads
  pub record IsServed (shared : Shared V) (path : List (List ℕ)) : Type 0 where
    pub dir : List ℕ
    pub active : active_dir shared ≡ some dir
    pub inside : IsInside (dir ∷ []) path
    pub exists : files.is_file path ≡ true

  -- A file that the provider reads exists, and lies strictly inside the directory of the active
  -- bundle, whatever the key: no step of its path below that directory is empty, `.` or `..`, or has
  -- a slash.
  pub ota_file-IsServed :
      (shared : Shared V) (key : List ℕ) (path : List (List ℕ))
      → ota_file files embedded shared key ≡ some path
      → IsServed shared path
  unfolding ota_file
  ota_file-IsServed shared key path e = elim (Option-cases (active_dir shared)) [
    | inl n ↦ absurd (ground arith)
    | inr (dir, n) ↦ elim (Option-cases (safe_join (dir ∷ []) key)) [
      | inl k ↦ absurd (ground arith)
      | inr (p, k) ↦
          let same : p ≡ path = ground arith in
          record {
            dir = dir;
            active = n;
            inside = safe_join-IsInside (dir ∷ []) path key (rw same at k);
            exists = ground arith;
          }
    ]
  ]

  -- A key whose content differs from the embedded one has no hashes: the hashes that were made for
  -- the embedded content are never given out for other content. While nothing is active the
  -- provider answers as the embedded assets do.
  pub get-csp_hashes :
      (shared : Shared V) (key : List ℕ)
      → (get files embedded shared key ≢ embedded.get key
          → csp_hashes files embedded shared key ≡ [])
        × (active_dir shared ≡ none
            → (get files embedded shared key ≡ embedded.get key)
              × (csp_hashes files embedded shared key ≡ embedded.csp_hashes key))
  unfolding get csp_hashes ota_file
  get-csp_hashes shared key = elim (Option-cases (ota_file files embedded shared key)) [
    | inl n ↦ (λ d. absurd (ground arith), λ k. ground arith)
    | inr (path, n) ↦
        let served = ota_file-IsServed shared key path n in
        (λ d. ground arith, λ k. absurd (cc (served.active, k)))
  ]

  module _ ⦃o : Order V⦄ (c : Codec V) where
    -- A file that the provider reads after `initialize`, in a process that was not active before,
    -- lies in the directory of a bundle that is on trial or committed in the state on disk,
    -- whatever calls failed.
    pub ota_file-initialize :
        (shell : V) (app : App V) (key : List ℕ) (path : List (List ℕ))
        → app.shared.activation ≡ none
        → ota_file files embedded (initialize c shell app).shared key ≡ some path
        → (seq : ℕ) × IsInside (bundle_name seq ∷ []) path
          × (((on_disk c (initialize c shell app).world).booting ≡ some seq)
              ⊎ ((on_disk c (initialize c shell app).world).committed ≡ some seq))
    unfolding initialize current_of active_dir
    ota_file-initialize shell app key path n e =
        let served = ota_file-IsServed (initialize c shell app).shared key path e in
        elim (Active-cases (boot_from c shell app.world).0) [
          | inl k ↦ absurd (ground (arith, served.active))
          | inr (seq, k) ↦
              let same : served.dir ≡ bundle_name seq = ground (arith, served.active) in
              (seq, rw same at served.inside, boot_from-persisted c shell app.world seq k)
        ]

    -- After a switch of an active process, every file that the provider reads lies in the
    -- directory of the bundle that the switch reported, and that bundle is on trial in the state
    -- on disk.
    pub ota_file-apply_staged :
        (a : Activation V) (app : App V) (seq : ℕ) (version : V) (key : List ℕ)
        (path : List (List ℕ))
        → app.shared.activation ≡ some a
        → (apply_staged c app).0 ≡ ok (applied seq version)
        → ota_file files embedded (apply_staged c app).1.shared key ≡ some path
        → IsInside (bundle_name seq ∷ []) path
          × ((on_disk c (apply_staged c app).1.world).booting ≡ some seq)
    unfolding active_dir
    ota_file-apply_staged a app seq version key path n h e =
        let switched = apply_staged-persisted c seq version a app n h in
        let served = ota_file-IsServed (apply_staged c app).1.shared key path e in
        let same : served.dir ≡ bundle_name seq = ground (arith, served.active, switched.served) in
        (rw same at served.inside, switched.on_trial)
