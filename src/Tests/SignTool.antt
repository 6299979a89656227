-- ===== src/Tests/SignTool.antt =====
-- The theorems about the arguments of the signing tool, and the order of its files, at a release.
use mathlib.Core.List.{Permᴰ}
use tauri_plugin_hot_update.Prelude.{
  ℕ, String, none, some, List, [], ◌∷◌, ◌≡◌, refl, if◌then◌else◌, str_eq, ◌==◌,
}
use tauri_plugin_hot_update.Prelude.Lists.{codes, text_eq}
use tauri_plugin_hot_update.Prelude.Result.{ok, err}
use tauri_plugin_hot_update.Sign.{
  Listing, Publisher, SignedRelease, leaf, folder, finished, listed, sign_release, collect_files,
}
use tauri_plugin_hot_update.Sign.Sorting.{sign_release-Perm}
use tauri_plugin_hot_update.SignTool.{
  Args, Host, unknown_flag, missing_value, missing_flag, not_semver, usage, set_flag, parse_version,
  parse_flags, required, parse_args, run_tool,
}
use tauri_plugin_hot_update.SignTool.Read.{
  IsDescribed, arguments, run_tool-IsDescribed, parse_args-arguments,
}
use tauri_plugin_hot_update.Tests.Sign.{options, publisher, signed, sign_code}

-- two versions are known
abbrev print : ℕ → String
print v = if v == 30 then "1.2.0" else "1.1.0"

abbrev host : Host ℕ
host = record {
  parse =
      λ text. if str_eq text "1.2.0" then some 30 else if str_eq text "1.1.0" then some 4 else none;
  dist_at = λ path. options.dist;
  publisher = λ key out. some publisher;
}

abbrev args : Args ℕ
args = record {
  dist = "dist";
  version = 30;
  min_shell = 4;
  base_version = none;
  key = "k";
  base_url = "https://a//";
  out = "release";
}

abbrev code : Unit {0}
unfolding parse_version set_flag parse_flags required parse_args run_tool
code = tt

-- the flags in another order, and one of them twice
abbrev argv : List String
argv =
    "--out" ∷ "old" ∷ "--key" ∷ "k" ∷ "--min-shell" ∷ "1.1.0" ∷ "--dist" ∷ "dist" ∷ "--out"
    ∷ "release" ∷ "--base-url" ∷ "https://a//" ∷ "--version" ∷ "1.2.0" ∷ []

run_tool-IsDescribed_example :
    (used : Args ℕ) × IsDescribed host argv used
    × ((p : Publisher ℕ) × (host.publisher used.key used.out ≡ some p)
        × (sign_release p (record {
          dist = host.dist_at used.dist;
          version = used.version;
          min_shell_version = used.min_shell;
          base_version = used.base_version;
          base_url = used.base_url;
        })
            ≡ ok signed))
unfolding code sign_code
run_tool-IsDescribed_example = run_tool-IsDescribed host argv signed refl

unknown : parse_args host ("--quiet" ∷ "yes" ∷ []) ≡ err (unknown_flag "--quiet")
unfolding code
unknown = refl

no_value : parse_args host ("--dist" ∷ []) ≡ err (missing_value "--dist")
unfolding code
no_value = refl

no_version : parse_args host ("--dist" ∷ "dist" ∷ []) ≡ err (missing_flag "--version")
unfolding code
no_version = refl

bad_version : parse_args host ("--version" ∷ "one" ∷ []) ≡ err (not_semver "--version" "one")
unfolding code
bad_version = refl

helps : parse_args host ("--dist" ∷ "dist" ∷ "-h" ∷ []) ≡ err usage
unfolding code
helps = refl

parse_args-arguments_example : parse_args host (arguments print args) ≡ ok args
parse_args-arguments_example = parse_args-arguments host print args refl refl λ v e. cc

-- the two files in the other order
abbrev relisted : Listing
relisted =
    listed (codes "index.html") (leaf (2 ∷ []))
      (listed (codes "js") (folder (listed (codes "app.js") (leaf (1 ∷ [])) finished)) finished)

abbrev contents : List (List ℕ) → List ℕ
contents [] = []
contents (name ∷ _) = if text_eq name (codes "js") then 1 ∷ [] else 2 ∷ []

-- another day
abbrev later : Publisher ℕ
later = record publisher { now = "2026-01-02T00:00:00Z"; print_json = λ m. some (6 ∷ []) }

abbrev resigned : SignedRelease ℕ
resigned = record signed {
  manifest_bytes = 6 ∷ [];
  manifest = record signed.manifest { created_at = "2026-01-02T00:00:00Z" };
}

sign_release-Perm_example : signed.archive ≡ resigned.archive
unfolding code sign_code collect_files text_eq
sign_release-Perm_example =
    sign_release-Perm publisher later contents options (record options { dist = relisted }) signed
      resigned (λ entries. refl) (refl, (refl, tt)) (Permᴰ.swap refl refl) refl refl
