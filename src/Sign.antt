-- ===== src/Sign.antt =====
-- The signing of a release (src/sign.rs). What a call of the file system or of a library comes to is
-- the record `Publisher`; the release is the contents of its three files.
pub mod Verified
pub mod Sorting
use Prim.Native.String.{◌++◌ as ◌<>◌}
use Prim.Native.Char.{code}
use tauri_plugin_hot_update.Prelude.{
  ℕ, String, Bool, true, false, ◌&&◌, Option, none, some, List, [], ◌∷◌, ◌++◌, ◌==◌, ltb,
  if◌then◌else◌,
}
use tauri_plugin_hot_update.Prelude.Lists.{length}
use tauri_plugin_hot_update.Prelude.Hex.{hex_text}
use tauri_plugin_hot_update.Prelude.Texts.{is_empty}
use tauri_plugin_hot_update.Prelude.Result.{Result, ok, err, ◌>>=◌}
use tauri_plugin_hot_update.Manifest.{Manifest, BaseVersion, from_version}
use tauri_plugin_hot_update.Manifest.Verify.{or_err}

-- what `read_dir` lists, with what `fs::read` reads; a symbolic link is what it points to
mutual
  pub data Node : Type 0 where
    leaf : (content : List ℕ) → Node
    folder : Listing → Node

  pub data Listing : Type 0 where
    finished : Listing
    listed : (name : List ℕ) → Node → Listing → Listing

pub record DistFile : Type 0 where
  pub relative : List (List ℕ)
  pub content : List ℕ

pub data SignError : Type 0 where
  io minisign : SignError
  empty_dist : SignError

pub record SignOptions (V : Type 0) : Type 0 where
  pub dist : Listing
  pub version : V
  pub min_shell_version : V
  pub base_version : Option V
  pub base_url : String

pub record SignedRelease (V : Type 0) : Type 0 where
  pub archive : List ℕ
  pub manifest_bytes : List ℕ
  pub signature : List ℕ
  pub manifest : Manifest V

-- an entry of the archive: its path, the fields of its header that are set, and its bytes
pub record TarEntry : Type 0 where
  pub path : List (List ℕ)
  pub size : ℕ
  pub mode : ℕ
  pub mtime : ℕ
  pub bytes : List ℕ

-- `create_dir_all`, the reading of the dist directory, tar with gzip into the archive file, the
-- reading of it, the clock, the digest, the printers, the two writes and `minisign::sign`
pub record Publisher (V : Type 0) : Type 0 where
  pub makes_out : Bool
  pub reads_dist : Bool
  pub pack : List TarEntry → Option (List ℕ)
  pub reads_archive : Bool
  pub now : String
  pub sha256 : List ℕ → List ℕ
  pub print_version : V → String
  pub print_json : Manifest V → Option (List ℕ)
  pub writes_manifest : Bool
  pub sign : List ℕ → Option (List ℕ)
  pub writes_signature : Bool

-- The files below a directory, each with its path from the root.
unfoldable mutual
  collect_node : List (List ℕ) → Node → List DistFile
  collect_node path (leaf content) = record { relative = path; content = content } ∷ []
  collect_node path (folder entries) = collect_files path entries

  pub collect_files : List (List ℕ) → Listing → List DistFile
  collect_files dir finished = []
  collect_files dir (listed name node rest) =
      collect_node (dir ++ name ∷ []) node ++ collect_files dir rest

-- the order of names, and of paths
unfoldable pub name_before : List ℕ → List ℕ → Bool
name_before [] [] = false
name_before [] (_ ∷ _) = true
name_before (_ ∷ _) [] = false
name_before (x ∷ xs) (y ∷ ys) = let rest = name_before xs ys in if x == y then rest else ltb x y

unfoldable pub path_before : List (List ℕ) → List (List ℕ) → Bool
unfolding name_before
path_before [] [] = false
path_before [] (_ ∷ _) = true
path_before (_ ∷ _) [] = false
path_before (p ∷ ps) (q ∷ qs) =
    let rest = path_before ps qs in
    if name_before p q then true else if name_before q p then false else rest

-- `files.sort()`
unfoldable pub put_in : DistFile → List DistFile → List DistFile
unfolding path_before
put_in f [] = f ∷ []
put_in f (g ∷ gs) =
    let rest = put_in f gs in if path_before g.relative f.relative then g ∷ rest else f ∷ g ∷ gs

unfoldable pub sorted : List DistFile → List DistFile
unfolding put_in
sorted [] = []
sorted (f ∷ fs) = put_in f (sorted fs)

-- `trim_end_matches('/')`
unfoldable pub trim_end_slashes : String → String
trim_end_slashes String.[] = ""
trim_end_slashes (String.◌∷◌ c s) =
    let rest = trim_end_slashes s in
    if is_empty rest && code c == b'/' then "" else String.◌∷◌ c rest

-- the header of a file: its size, mode 0o644 and no time
unfoldable pub tar_entry : DistFile → TarEntry
tar_entry f = record {
  path = f.relative;
  size = length f.content;
  mode = 420;
  mtime = 0;
  bytes = f.content;
}

-- the loop over the sorted files
unfoldable pub tar_entries : List DistFile → List TarEntry
unfolding tar_entry
tar_entries [] = []
tar_entries (f ∷ fs) = tar_entry f ∷ tar_entries fs

abbrev pub ensure : Bool → Result SignError (Unit {0})
ensure done = if done then ok tt else err SignError.io

module _ {V : Type 0} (p : Publisher V) where
  abbrev pub pack_files : List DistFile → Result SignError (List ℕ)
  pack_files [] = err empty_dist
  pack_files (f ∷ fs) = or_err SignError.io (p.pack (tar_entries (sorted (f ∷ fs))))

  unfoldable pub build_archive : Listing → Result SignError (List ℕ)
  unfolding collect_files sorted tar_entries
  build_archive dist = do done ← ensure p.reads_dist; pack_files (collect_files [] dist)

  abbrev base_of : Option V → Option (BaseVersion V)
  base_of none = none
  base_of (some v) = some (from_version v)

  unfoldable pub manifest_of : SignOptions V → List ℕ → Manifest V
  unfolding hex_text trim_end_slashes
  manifest_of options archive = record {
    version = options.version;
    created_at = p.now;
    min_shell_version = options.min_shell_version;
    base_version = base_of options.base_version;
    archive = record {
      url =
          trim_end_slashes options.base_url
          <> "/bundle-"
          <> p.print_version options.version
          <> ".tar.gz";
      sha256 = hex_text (p.sha256 archive);
      size = length archive;
    };
  }

  unfoldable pub sign_release : SignOptions V → Result SignError (SignedRelease V)
  unfolding build_archive manifest_of
  sign_release options = do
    made ← ensure p.makes_out
    archive ← build_archive options.dist
    read ← ensure p.reads_archive
    bytes ← or_err SignError.io (p.print_json (manifest_of options archive))
    wrote ← ensure p.writes_manifest
    signature ← or_err SignError.minisign (p.sign bytes)
    signed ← ensure p.writes_signature
    ok (record {
      archive = archive;
      manifest_bytes = bytes;
      signature = signature;
      manifest = manifest_of options archive;
    })
