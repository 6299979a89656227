-- ===== src/Manifest/Verify.antt =====
-- `verify_and_parse` and the checks around it (src/manifest.rs). `minisign_verify` and the JSON
-- parser are parameters. A signature text is its bytes.
use tauri_plugin_hot_update.Prelude.{
  ℕ, String, Bool, true, false, not, ◌||◌, Option, none, some, List, [], ◌∷◌, ◌==◌, ltb,
  if◌then◌else◌,
}
use tauri_plugin_hot_update.Prelude.Texts.{
  trim, line_count, utf8_length, all_codes, is_hexdigit, to_ascii_lowercase,
}
use tauri_plugin_hot_update.Prelude.Result.{Result, ok, err, ◌>>=◌}
use tauri_plugin_hot_update.Error.{
  Error, invalid_public_key, manifest_signature, manifest_parse, manifest_invalid,
}
use tauri_plugin_hot_update.Extract.Entries.{max_uncompressed_bytes}
use tauri_plugin_hot_update.Manifest.{Manifest}

-- `PublicKey::decode`, `PublicKey::from_base64`, `Signature::decode` and `PublicKey::verify`
pub record Minisign : Type 1 where
  pub Key : Type 0
  pub Signature : Type 0
  pub decode : String → Option Key
  pub from_base64 : String → Option Key
  pub decode_signature : List ℕ → Option Signature
  pub verify : Key → List ℕ → Signature → Bool

abbrev pub or_err {ℓ κ} : {E : Type ℓ} {A : Type κ} → E → Option A → Result E A
or_err e none = err e
or_err e (some a) = ok a

abbrev pub no_keys : List String → Bool
no_keys [] = true
no_keys (_ ∷ _) = false

abbrev pub is_malformed : String → Bool
is_malformed sha = not (utf8_length sha == 64) || not (all_codes is_hexdigit sha)

module _ {V : Type 0} where
  abbrev pub lower_sha : Manifest V → Manifest V
  lower_sha m = record m {
    archive = record m.archive { sha256 = to_ascii_lowercase m.archive.sha256 };
  }

  -- The hash is 64 hex characters, and the size is in range.
  unfoldable pub validate : Manifest V → Result (Error V) (Manifest V)
  unfolding utf8_length all_codes to_ascii_lowercase
  validate m =
      if is_malformed m.archive.sha256
      then err manifest_invalid
      else if m.archive.size == 0 || ltb max_uncompressed_bytes m.archive.size
      then err manifest_invalid
      else ok (lower_sha m)

module _ (mini : Minisign) where
  -- the raw base64 key, or the contents of `minisign.pub`
  unfoldable pub decode_key : String → Option mini.Key
  unfolding trim line_count
  decode_key key =
      if ltb 1 (line_count false (trim key))
      then mini.decode (trim key)
      else mini.from_base64 (trim key)

  unfoldable pub any_verifies : List mini.Key → List ℕ → mini.Signature → Bool
  any_verifies [] bytes signature = false
  any_verifies (key ∷ keys) bytes signature =
      mini.verify key bytes signature || any_verifies keys bytes signature

module _ {V : Type 0} (mini : Minisign) where
  unfoldable pub parse_public_key : String → Result (Error V) mini.Key
  parse_public_key key = or_err invalid_public_key (decode_key mini key)

  -- `collect::<Result<Vec<_>>>`
  unfoldable pub parse_keys : List String → Result (Error V) (List mini.Key)
  parse_keys [] = ok []
  parse_keys (k ∷ ks) = do key ← parse_public_key k; keys ← parse_keys ks; ok (key ∷ keys)

  -- `try_for_each`
  unfoldable pub validate_pubkeys : List String → Result (Error V) (Unit {0})
  validate_pubkeys [] = ok tt
  validate_pubkeys (k ∷ ks) = do key ← parse_public_key k; validate_pubkeys ks

module _ {V : Type 0} (mini : Minisign) (parse_json : List ℕ → Option (Manifest V)) where
  -- what follows once the signature is decoded
  unfoldable pub check_signed :
      List ℕ → List mini.Key → mini.Signature → Result (Error V) (Manifest V)
  unfolding any_verifies validate
  check_signed bytes keys signature =
      if any_verifies mini keys bytes signature
      then or_err manifest_parse (parse_json bytes) >>= validate
      else err (manifest_signature "no trusted public key verified the manifest")

  -- Every key parses, then the signature, then the verification, then the JSON.
  unfoldable pub verify_and_parse : List ℕ → List ℕ → List String → Result (Error V) (Manifest V)
  unfolding parse_keys check_signed
  verify_and_parse bytes signature pubkeys =
      if no_keys pubkeys
      then err invalid_public_key
      else (parse_keys mini pubkeys >>= λ keys.
          or_err (manifest_signature "undecodable .minisig data") (mini.decode_signature signature)
          >>= check_signed bytes keys)
