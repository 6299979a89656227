-- ===== src/Manifest.antt =====
-- The schema of the signed manifest (src/manifest.rs).
pub mod Verify
pub mod Trust
pub mod Base
use tauri_plugin_hot_update.Prelude.{ℕ, String, Option, none, some, ◌≡◌, refl, arith}

-- A `baseVersion`: a semver, or the raw text when it does not parse.
pub data BaseVersion (V : Type 0) : Type 0 where
  valid : V → BaseVersion V
  invalid : String → BaseVersion V

-- `From<Version>`
abbrev pub from_version : {V : Type 0} → V → BaseVersion V
from_version v = valid v

-- Where the archive lives, and what it must hash to.
pub record ArchiveInfo : Type 0 where
  pub url : String
  pub sha256 : String
  pub size : ℕ

pub record Manifest (V : Type 0) : Type 0 where
  pub version : V
  pub created_at : String
  pub min_shell_version : V
  pub base_version : Option (BaseVersion V)
  pub archive : ArchiveInfo

-- A JSON value, as far as `baseVersion` tells one from another: a text, or the JSON text of
-- anything else.
pub data JsonValue : Type 0 where
  text : String → JsonValue
  other : (json : String) → JsonValue

-- The parser and the printer of `semver::Version`, which reads back what it prints.
pub record Semver (V : Type 0) : Type 0 where
  pub parse : String → Option V
  pub print : V → String
  pub parse-print : (v : V) → parse (print v) ≡ some v

module _ {V : Type 0} (semver : Semver V) where
  -- `BaseVersion::parse`
  unfoldable pub parse_base : String → BaseVersion V
  parse_base raw = elim (semver.parse raw) [ none ↦ invalid raw | some v ↦ valid v ]

  -- `Deserialize`
  unfoldable pub deserialize : JsonValue → BaseVersion V
  unfolding parse_base
  deserialize (text raw) = parse_base raw
  deserialize (other json) = invalid json

  -- `Display`, and `Serialize` through it
  unfoldable pub display : BaseVersion V → String
  display (valid v) = semver.print v
  display (invalid raw) = raw
