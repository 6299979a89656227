-- ===== src/Sign/Sorting.antt =====
-- The order of the files in an archive (src/sign.rs) does not depend on the order in which the
-- directories are listed.
use mathlib.Core.List.{Permᴰ}
use tauri_plugin_hot_update.Prelude.{ℕ, true, false, List, [], ◌∷◌, ◌≡◌, refl, ap, arith, ◌∙◌}
use tauri_plugin_hot_update.Prelude.Result.{ok}
use tauri_plugin_hot_update.Sign.{
  DistFile, Listing, TarEntry, SignOptions, SignedRelease, Publisher, name_before, path_before,
  put_in, sorted, collect_files, tar_entries, build_archive, sign_release,
}
use tauri_plugin_hot_update.Sign.Verified.{sign_release-IsReleased}
use tauri_plugin_hot_update.Prelude.{some, Option-cases, List-cases, inl, inr}

-- a name does not come before itself or before one that it follows, and names that neither comes
-- before the other are equal
name_before_asym : (x y : List ℕ) → name_before x y ≡ true → name_before y x ≡ false
unfolding name_before
name_before_asym [] [] h = refl
name_before_asym [] (y ∷ ys) h = refl
name_before_asym (x ∷ xs) [] h = absurd (ground arith)
name_before_asym (x ∷ xs) (y ∷ ys) h = ground (arith, name_before_asym xs ys)

name_before-same : (x y : List ℕ) → name_before x y ≡ false → name_before y x ≡ false → x ≡ y
unfolding name_before
name_before-same [] [] h k = refl
name_before-same [] (y ∷ ys) h k = absurd (ground arith)
name_before-same (x ∷ xs) [] h k = absurd (ground arith)
name_before-same (x ∷ xs) (y ∷ ys) h k = ground (arith, name_before-same xs ys)

-- what follows a later name follows an earlier one
name_before_trans :
    (x y z : List ℕ) → name_before y x ≡ false → name_before y z ≡ true → name_before x z ≡ true
unfolding name_before
name_before_trans [] [] z h k = k
name_before_trans (x ∷ xs) [] z h k = absurd (ground arith)
name_before_trans x (y ∷ ys) [] h k = absurd (ground arith)
name_before_trans [] (y ∷ ys) (z ∷ zs) h k = refl
name_before_trans (x ∷ xs) (y ∷ ys) (z ∷ zs) h k = ground (arith, name_before_trans xs ys zs)

path_before_asym : (x y : List (List ℕ)) → path_before x y ≡ true → path_before y x ≡ false
unfolding path_before
path_before_asym [] [] h = refl
path_before_asym [] (y ∷ ys) h = refl
path_before_asym (x ∷ xs) [] h = absurd (ground arith)
path_before_asym (x ∷ xs) (y ∷ ys) h =
    ground (arith, path_before_asym xs ys, name_before_asym x y, name_before_asym y x)

path_before-same : (x y : List (List ℕ)) → path_before x y ≡ false → path_before y x ≡ false → x ≡ y
unfolding path_before
path_before-same [] [] h k = refl
path_before-same [] (y ∷ ys) h k = absurd (ground arith)
path_before-same (x ∷ xs) [] h k = absurd (ground arith)
path_before-same (x ∷ xs) (y ∷ ys) h k =
    ground (arith, path_before-same xs ys, name_before-same x y)

path_before_trans :
    (x y z : List (List ℕ))
    → path_before y x ≡ false
    → path_before y z ≡ true
    → path_before x z ≡ true
unfolding path_before
path_before_trans [] [] z h k = k
path_before_trans (x ∷ xs) [] z h k = absurd (ground arith)
path_before_trans x (y ∷ ys) [] h k = absurd (ground arith)
path_before_trans [] (y ∷ ys) (z ∷ zs) h k = refl
path_before_trans (x ∷ xs) (y ∷ ys) (z ∷ zs) h k = ground (
  arith,
  path_before_trans xs ys zs,
  name_before_trans x y z,
  name_before_trans y z x,
  name_before_trans x z y,
  name_before_trans z y x,
  name_before-same x y,
  name_before-same y z,
)

put_in_comm :
    (f g : DistFile) (xs : List DistFile)
    → (f.relative ≡ g.relative → f ≡ g)
    → put_in f (put_in g xs) ≡ put_in g (put_in f xs)
unfolding put_in
put_in_comm f g [] e =
    ground (arith, path_before_asym f.relative g.relative, path_before-same f.relative g.relative)
put_in_comm f g (x ∷ xs) e = ground (
  arith,
  put_in_comm f g xs e,
  path_before_asym f.relative g.relative,
  path_before-same f.relative g.relative,
  path_before_trans f.relative x.relative g.relative,
  path_before_trans g.relative x.relative f.relative,
)

-- the files are those of one file system: a path has one content
abbrev pub AreOf : (List (List ℕ) → List ℕ) → List DistFile → Type 0
AreOf contents [] = Unit
AreOf contents (f ∷ fs) = (f.content ≡ contents f.relative) × AreOf contents fs

DistFile-same :
    (contents : List (List ℕ) → List ℕ) (f g : DistFile)
    → f.content ≡ contents f.relative
    → g.content ≡ contents g.relative
    → f.relative ≡ g.relative
    → f ≡ g
DistFile-same contents f g a b e = cc

AreOf-Perm :
    (contents : List (List ℕ) → List ℕ) {xs ys : List DistFile}
    → Permᴰ xs ys
    → AreOf contents xs
    → AreOf contents ys
AreOf-Perm contents Permᴰ.nil h = tt
AreOf-Perm contents (Permᴰ.cons e p) h = (rw (← e) h.0, AreOf-Perm contents p h.1)
AreOf-Perm contents (Permᴰ.swap e k) h = (rw (← k) h.1.0, (rw (← e) h.0, h.1.1))
AreOf-Perm contents (Permᴰ.trans p r) h = AreOf-Perm contents r (AreOf-Perm contents p h)

-- The files of one file system, in whatever order they are found, are sorted to one list.
sorted-Perm :
    (contents : List (List ℕ) → List ℕ) {xs ys : List DistFile}
    → Permᴰ xs ys
    → AreOf contents xs
    → sorted xs ≡ sorted ys
unfolding sorted
sorted-Perm contents Permᴰ.nil h = refl
sorted-Perm contents (Permᴰ.cons {b = b} e p) h = rw e (ap (put_in b) (sorted-Perm contents p h.1))
sorted-Perm contents (Permᴰ.swap {a} {b} {a'} {b'} {l} e k) h =
    rw (← e, ← k) (put_in_comm a b (sorted l) (DistFile-same contents a b h.0 h.1.0))
sorted-Perm contents (Permᴰ.trans p r) h =
    sorted-Perm contents p h ∙ sorted-Perm contents r (AreOf-Perm contents p h)

module _ {V : Type 0} (p : Publisher V) where
  build_archive-pack :
      (l : Listing) (archive : List ℕ)
      → build_archive p l ≡ ok archive
      → p.pack (tar_entries (sorted (collect_files [] l))) ≡ some archive
  unfolding build_archive
  build_archive-pack l archive e = elim (List-cases (collect_files [] l)) [
    | inl n ↦ absurd (ground arith)
    | inr (f, fs, n) ↦ elim (Option-cases (p.pack (tar_entries (sorted (collect_files [] l))))) [
      | inl k ↦ absurd (ground arith)
      | inr (b, k) ↦ ground arith
    ]
  ]

module _ {V : Type 0} (p p' : Publisher V) where
  -- Two releases of the same files have the same archive, in whatever order the directories were
  -- listed, and whatever else about the two signings differs: the time, the versions, the keys. tar
  -- with gzip is one function of the entries and their headers, and a path has one content.
  pub sign_release-Perm :
      (contents : List (List ℕ) → List ℕ) (options options' : SignOptions V)
      (r r' : SignedRelease V)
      → ((entries : List TarEntry) → p'.pack entries ≡ p.pack entries)
      → AreOf contents (collect_files [] options.dist)
      → Permᴰ (collect_files [] options.dist) (collect_files [] options'.dist)
      → sign_release p options ≡ ok r
      → sign_release p' options' ≡ ok r'
      → r.archive ≡ r'.archive
  sign_release-Perm contents options options' r r' same h e k k' =
      let first =
        build_archive-pack p options.dist r.archive (sign_release-IsReleased p options r k).built in
      let second =
        build_archive-pack p' options'.dist r'.archive
          (sign_release-IsReleased p' options' r' k').built in
      let files = sorted-Perm contents e h in
      let packed = ap (λ (fs : List DistFile). p.pack (tar_entries fs)) files in
      let again = same (tar_entries (sorted (collect_files [] options'.dist))) in
      ground (arith, first, second, packed, again)
