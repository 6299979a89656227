-- ===== src/SignTool.antt =====
-- The command line of the signing tool (src/bin/hot-update-sign.rs). The parser of semver and what is
-- found at a path are the record `Host`; a path is its text, and an error is what its message names.
pub mod Read
use tauri_plugin_hot_update.Prelude.{
  String, Bool, ◌||◌, Option, none, some, List, [], ◌∷◌, if◌then◌else◌, str_eq,
}
use tauri_plugin_hot_update.Prelude.Result.{Result, ok, err, ◌>>=◌}
use tauri_plugin_hot_update.Manifest.Verify.{or_err}
use tauri_plugin_hot_update.Sign.{
  Listing, SignError, SignOptions, SignedRelease, Publisher, sign_release,
}

pub record Args (V : Type 0) : Type 0 where
  pub dist : String
  pub version : V
  pub min_shell : V
  pub base_version : Option V
  pub key : String
  pub base_url : String
  pub out : String

-- the variables of `parse_args`
pub record Parsed (V : Type 0) : Type 0 where
  pub dist : Option String
  pub version : Option V
  pub min_shell : Option V
  pub base_version : Option V
  pub key : Option String
  pub base_url : Option String
  pub out : Option String

pub data ToolError : Type 0 where
  usage : ToolError
  missing_value unknown_flag missing_flag : (flag : String) → ToolError
  not_semver : (flag value : String) → ToolError
  no_key : (path : String) → ToolError
  not_signed : SignError → ToolError

abbrev pub nothing_parsed : {V : Type 0} → Parsed V
nothing_parsed = record {
  dist = none;
  version = none;
  min_shell = none;
  base_version = none;
  key = none;
  base_url = none;
  out = none;
}

-- `Version::parse`, the directory at a path, and the signing with the key at a path into the
-- directory at a path, if the key can be loaded
pub record Host (V : Type 0) : Type 0 where
  pub parse : String → Option V
  pub dist_at : String → Listing
  pub publisher : String → String → Option (Publisher V)

abbrev pub asks_help : String → Bool
asks_help flag = str_eq flag "--help" || str_eq flag "-h"

module _ {V : Type 0} (h : Host V) where
  unfoldable pub parse_version : String → String → Result ToolError V
  parse_version flag value = or_err (not_semver flag value) (h.parse value)

  -- the `match` on a flag
  unfoldable pub set_flag : String → String → Parsed V → Result ToolError (Parsed V)
  unfolding parse_version
  set_flag flag value p =
      if str_eq flag "--dist"
      then ok (record p { dist = some value })
      else if str_eq flag "--version"
      then (parse_version flag value >>= λ v. ok (record p { version = some v }))
      else if str_eq flag "--min-shell"
      then (parse_version flag value >>= λ v. ok (record p { min_shell = some v }))
      else if str_eq flag "--base-version"
      then (parse_version flag value >>= λ v. ok (record p { base_version = some v }))
      else if str_eq flag "--key"
      then ok (record p { key = some value })
      else if str_eq flag "--base-url"
      then ok (record p { base_url = some value })
      else if str_eq flag "--out"
      then ok (record p { out = some value })
      else err (unknown_flag flag)

  -- the loop over the arguments
  unfoldable pub parse_flags : List String → Parsed V → Result ToolError (Parsed V)
  unfolding set_flag
  parse_flags [] p = ok p
  parse_flags (flag ∷ []) p = if asks_help flag then err usage else err (missing_value flag)
  parse_flags (flag ∷ value ∷ argv) p =
      if asks_help flag then err usage else set_flag flag value p >>= λ p'. parse_flags argv p'

  -- the flags that have to be there
  unfoldable pub required : Parsed V → Result ToolError (Args V)
  required p = do
    dist ← or_err (missing_flag "--dist") p.dist
    version ← or_err (missing_flag "--version") p.version
    min_shell ← or_err (missing_flag "--min-shell") p.min_shell
    key ← or_err (missing_flag "--key") p.key
    base_url ← or_err (missing_flag "--base-url") p.base_url
    out ← or_err (missing_flag "--out") p.out
    ok (record {
      dist = dist;
      version = version;
      min_shell = min_shell;
      base_version = p.base_version;
      key = key;
      base_url = base_url;
      out = out;
    })

  -- the arguments after the name of the program
  unfoldable pub parse_args : List String → Result ToolError (Args V)
  unfolding parse_flags required
  parse_args argv = do p ← parse_flags argv nothing_parsed; required p

  abbrev pub options_of : Args V → SignOptions V
  options_of args = record {
    dist = h.dist_at args.dist;
    version = args.version;
    min_shell_version = args.min_shell;
    base_version = args.base_version;
    base_url = args.base_url;
  }

  abbrev pub not_signed_of : Result SignError (SignedRelease V) → Result ToolError (SignedRelease V)
  not_signed_of (ok release) = ok release
  not_signed_of (err e) = err (not_signed e)

  -- `run`: the release, whose files are then listed
  unfoldable pub run_tool : List String → Result ToolError (SignedRelease V)
  unfolding parse_args
  run_tool argv = do
    args ← parse_args argv
    publisher ← or_err (no_key args.key) (h.publisher args.key args.out)
    not_signed_of (sign_release publisher (options_of args))
