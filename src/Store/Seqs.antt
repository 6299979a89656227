-- ===== src/Store/Seqs.antt =====
-- Listing, allocating and deleting bundle directories (src/store.rs).
use tauri_plugin_hot_update.Prelude.{
  ℕ, ◌+◌, ◌^◌, ◌<◌, Bool, true, false, ◌&&◌, ◌||◌, Option, none, some, List, [], ◌∷◌, ◌≡◌, refl, ap,
  arith, inl, inr, is_some, Bool-cases, max,
}
use tauri_plugin_hot_update.Prelude.Set
use tauri_plugin_hot_update.Prelude.Map
use tauri_plugin_hot_update.Prelude.Lists.{text_eq, text_eq_iff}
use tauri_plugin_hot_update.Machine.{State, referenced, insert_some}
use tauri_plugin_hot_update.Machine.Session.{points_to}
use tauri_plugin_hot_update.Machine.Invariant.{contains-referenced}
use tauri_plugin_hot_update.Store.{seqs_of, present_seqs, state_seqs, allocate_seq}
use tauri_plugin_hot_update.Store.Names.{bundle_name, parse_seq, parse_seq-bundle_name}
use tauri_plugin_hot_update.Store.Disk.{World, Entry, Answer, answer, read_bundles}

-- a directory with this name is listed
unfoldable pub has_dir : List ℕ → List Entry → Bool
has_dir name [] = false
has_dir name (e ∷ es) = text_eq e.name name && e.is_dir || has_dir name es

contains-insert_some :
    (q : ℕ) (p : Option ℕ) (xs : List ℕ)
    → Set.contains q (insert_some p xs) ≡ (points_to p q || Set.contains q xs)
contains-insert_some q none xs = refl
contains-insert_some q (some r) xs = Set.contains-insert q r xs

pub parse_seq-text_eq : (a b : List ℕ) → text_eq a b ≡ true → parse_seq a ≡ parse_seq b
parse_seq-text_eq a b h = ap parse_seq ((text_eq_iff a b).0 h)

-- The directory of a bundle is listed among the present seqs.
pub has_dir-seqs_of :
    (q : ℕ) (es : List Entry)
    → q < 2 ^ 64
    → has_dir (bundle_name q) es ≡ true
    → Set.contains q (seqs_of es) ≡ true
unfolding has_dir seqs_of
has_dir-seqs_of q [] b h = ground arith
has_dir-seqs_of q (e ∷ es) b h = ground (
  arith,
  parse_seq-bundle_name q b,
  contains-insert_some q (parse_seq e.name) (seqs_of es),
  has_dir-seqs_of q es b,
  parse_seq-text_eq e.name (bundle_name q),
)

contains-state_seqs :
    {V : Type 0} (q : ℕ) (s : State V)
    → Set.contains q (state_seqs s)
      ≡ (Set.contains q (referenced s) || is_some (Map.get q s.versions))
unfolding state_seqs
contains-state_seqs q s = ground (
  arith,
  contains-referenced q s,
  contains-insert_some q s.committed (
      insert_some s.last_good (insert_some s.staged (insert_some s.booting (Map.keys s.versions)))),
  contains-insert_some q s.last_good
      (insert_some s.staged (insert_some s.booting (Map.keys s.versions))),
  contains-insert_some q s.staged (insert_some s.booting (Map.keys s.versions)),
  contains-insert_some q s.booting (Map.keys s.versions),
  Map.contains-keys q s.versions,
)

max-bound : (q : ℕ) (xs : List ℕ) → Set.max_or_zero xs < q → Set.contains q xs ≡ false
max-bound q xs h = elim (Bool-cases (Set.contains q xs)) [
  | inr n ↦ n
  | inl y ↦ absurd (omega (arith, Set.contains-le-max q xs y))
]

-- the largest seq in sight
abbrev pub largest_seq : {V : Type 0} → State V → World → ℕ
largest_seq s w = max (Set.max_or_zero (present_seqs w).0) (Set.max_or_zero (state_seqs s))

allocate_seq-exact :
    {V : Type 0} (s : State V) (w : World)
    → largest_seq s w + 1 < 2 ^ 64
    → (allocate_seq s w).0 ≡ largest_seq s w + 1
unfolding allocate_seq
allocate_seq-exact s w b = omega arith

present_seqs-done : (w : World) → answer w ≡ Answer.done → (present_seqs w).0 ≡ seqs_of w.entries
unfolding present_seqs read_bundles
present_seqs-done w d = ground arith

-- While the largest seq in sight is not the last `u64`, the allocated seq is new: no pointer names
-- it, it has no metadata, and it is not among the directories that were listed.
pub allocate_seq-fresh :
    {V : Type 0} (s : State V) (w : World)
    → largest_seq s w + 1 < 2 ^ 64
    → (Set.contains (allocate_seq s w).0 (referenced s) ≡ false)
      × (Map.get (allocate_seq s w).0 s.versions ≡ none)
      × (Set.contains (allocate_seq s w).0 (present_seqs w).0 ≡ false)
allocate_seq-fresh s w b =
    let q = (allocate_seq s w).0 in
    let exact : q ≡ largest_seq s w + 1 = allocate_seq-exact s w b in
    let unlisted = max-bound q (present_seqs w).0 (omega arith) in
    let unnamed = max-bound q (state_seqs s) (omega arith) in
    (
      ground (arith, unnamed, contains-state_seqs q s),
      ground (arith, unnamed, contains-state_seqs q s),
      unlisted,
    )

-- If the listing succeeds and the largest seq in sight is not the last `u64`, no directory has the
-- name of the allocated seq.
pub allocate_seq-no_dir :
    {V : Type 0} (s : State V) (w : World)
    → largest_seq s w + 1 < 2 ^ 64
    → answer w ≡ Answer.done
    → has_dir (bundle_name (allocate_seq s w).0) w.entries ≡ false
allocate_seq-no_dir s w b d =
    let q = (allocate_seq s w).0 in
    let exact : q ≡ largest_seq s w + 1 = allocate_seq-exact s w b in
    ground (
      arith,
      allocate_seq-fresh s w b,
      has_dir-seqs_of q w.entries (omega arith),
      present_seqs-done w d,
    )
