-- ===== src/Manifest/Trust.antt =====
-- Which manifests src/manifest.rs lets through.
use tauri_plugin_hot_update.Prelude.{
  ℕ, String, ◌≤◌, ◌<◌, true, false, Option, some, List, [], ◌∷◌, ◌≡◌, ◌≢◌, refl, arith, ◌⊎◌, inl,
  inr, Bool-cases, Option-cases,
}
use tauri_plugin_hot_update.Prelude.Texts.{
  utf8_length, all_codes, is_lower_hexdigit, is_lower_hexdigit-lower, utf8_length-lower,
  lower_fixed, all_lower_hex,
}
use tauri_plugin_hot_update.Prelude.Result.{ok, err, Result-cases}
use tauri_plugin_hot_update.Error.{Error, invalid_public_key}
use tauri_plugin_hot_update.Extract.Entries.{max_uncompressed_bytes}
use tauri_plugin_hot_update.Manifest.{Manifest}
use tauri_plugin_hot_update.Manifest.Verify.{
  Minisign, validate, lower_sha, any_verifies, decode_key, parse_public_key, parse_keys,
  validate_pubkeys, check_signed, verify_and_parse, no_keys,
}

-- 64 lowercase hex characters, and a size that an archive may have
pub record IsCanonical {V : Type 0} (m : Manifest V) : Type 0 where
  pub length : utf8_length m.archive.sha256 ≡ 64
  pub digits : all_codes is_lower_hexdigit m.archive.sha256 ≡ true
  pub positive : 0 < m.archive.size
  pub bounded : m.archive.size ≤ max_uncompressed_bytes

module _ {V : Type 0} where
  validate_lower : (m m' : Manifest V) → validate m ≡ ok m' → m' ≡ lower_sha m
  unfolding validate
  validate_lower m m' h = ground arith

  IsCanonical-validate : (m m' : Manifest V) → validate m ≡ ok m' → IsCanonical m'
  unfolding validate
  IsCanonical-validate m m' h =
      let e = validate_lower m m' h in
      let sha = m.archive.sha256 in
      record {
        length = ground (arith, e, utf8_length-lower sha);
        digits = ground (arith, e, is_lower_hexdigit-lower sha);
        positive = ground (arith, e);
        bounded = ground (arith, e);
      }

  pub validate_fixed : (m : Manifest V) → IsCanonical m → validate m ≡ ok m
  unfolding validate
  validate_fixed m h =
      let sha = m.archive.sha256 in
      ground (arith, h.length, h.digits, h.positive, h.bounded, lower_fixed sha, all_lower_hex sha)

  -- What the manifest check lets through is canonical: its hash has 64 lowercase hex characters and
  -- its size is between 1 and the cap. A second check changes nothing.
  pub validate-IsCanonical :
      (m m' : Manifest V)
      → validate m ≡ ok m'
      → IsCanonical m' × (m' ≡ lower_sha m) × (validate m' ≡ ok m')
  validate-IsCanonical m m' h =
      let canonical = IsCanonical-validate m m' h in
      (canonical, validate_lower m m' h, validate_fixed m' canonical)

module _ (mini : Minisign) where
  -- a key of the list parses and verifies the bytes
  abbrev pub IsSigned : List ℕ → mini.Signature → List String → Type 0
  IsSigned bytes signature [] = ⊥
  IsSigned bytes signature (k ∷ ks) =
      ((key : mini.Key) × (decode_key mini k ≡ some key) × (mini.verify key bytes signature ≡ true))
      ⊎ IsSigned bytes signature ks

module _ {V : Type 0} (mini : Minisign) where
  parse_keys-IsSigned :
      (bytes : List ℕ) (signature : mini.Signature) (texts : List String) (keys : List mini.Key)
      → parse_keys {V = V} mini texts ≡ ok keys
      → any_verifies mini keys bytes signature ≡ true
      → IsSigned mini bytes signature texts
  unfolding parse_keys parse_public_key any_verifies
  parse_keys-IsSigned bytes signature [] keys h v = absurd (ground arith)
  parse_keys-IsSigned bytes signature (k ∷ ks) keys h v = elim (Option-cases (decode_key mini k)) [
    | inl p ↦ absurd (ground arith)
    | inr (key, p) ↦ elim (Result-cases (parse_keys {V = V} mini ks)) [
      | inr (e, q) ↦ absurd (ground arith)
      | inl (rest, q) ↦ elim (Bool-cases (mini.verify key bytes signature)) [
        | inl y ↦ inl (key, p, y)
        | inr n ↦ inr (parse_keys-IsSigned bytes signature ks rest q (ground arith))
      ]
    ]
  ]

  -- the two readers of the key list agree
  pub validate_pubkeys-parse_keys :
      (texts : List String)
      → validate_pubkeys {V = V} mini texts
        ≡ (elim (parse_keys {V = V} mini texts) [ ok _ ↦ ok tt | err e ↦ err e ])
  unfolding validate_pubkeys parse_keys
  validate_pubkeys-parse_keys [] = refl
  validate_pubkeys-parse_keys (k ∷ ks) = ground (arith, validate_pubkeys-parse_keys ks)

  parse_keys_error :
      (texts : List String) (e : Error V)
      → parse_keys {V = V} mini texts ≡ err e
      → e ≡ invalid_public_key
  unfolding parse_keys parse_public_key
  parse_keys_error [] e h = absurd (ground arith)
  parse_keys_error (k ∷ ks) e h = ground (arith, parse_keys_error ks e)

module _ {V : Type 0} (mini : Minisign) (parse_json : List ℕ → Option (Manifest V)) where
  -- where a manifest that is let through comes from
  pub record IsTrusted (bytes signature : List ℕ) (pubkeys : List String) (m : Manifest V)
      : Type 0 where
    pub decoded : mini.Signature
    pub raw : Manifest V
    pub decodes : mini.decode_signature signature ≡ some decoded
    pub signed : IsSigned mini bytes decoded pubkeys
    pub parses : parse_json bytes ≡ some raw
    pub lowered : m ≡ lower_sha raw
    pub canonical : IsCanonical m
    pub all_keys : validate_pubkeys {V = V} mini pubkeys ≡ ok tt

  check_signed-validate :
      (bytes : List ℕ) (keys : List mini.Key) (signature : mini.Signature) (m : Manifest V)
      → check_signed mini parse_json bytes keys signature ≡ ok m
      → (any_verifies mini keys bytes signature ≡ true)
        × ((raw : Manifest V) × (parse_json bytes ≡ some raw) × (validate raw ≡ ok m))
  unfolding check_signed
  check_signed-validate bytes keys signature m h = elim (Option-cases (parse_json bytes)) [
    | inl n ↦ absurd (ground arith)
    | inr (raw, n) ↦ (ground arith, (raw, n, ground arith))
  ]

  -- A manifest is accepted only if every trusted key parses, one of them verifies the signature over
  -- the very bytes that are then parsed, and the parsed manifest is canonical but for the case of
  -- its hash.
  pub verify_and_parse-IsTrusted :
      (bytes signature : List ℕ) (pubkeys : List String) (m : Manifest V)
      → verify_and_parse mini parse_json bytes signature pubkeys ≡ ok m
      → IsTrusted bytes signature pubkeys m
  unfolding verify_and_parse
  verify_and_parse-IsTrusted bytes signature pubkeys m h =
      elim (Result-cases (parse_keys {V = V} mini pubkeys)) [
        | inr (e, p) ↦ absurd (ground arith)
        | inl (keys, p) ↦ elim (Option-cases (mini.decode_signature signature)) [
          | inl n ↦ absurd (ground arith)
          | inr (s, n) ↦
              let (v, (raw, j, c)) = check_signed-validate bytes keys s m (ground arith) in
              let (canonical, lowered, _) = validate-IsCanonical raw m c in
              record {
                decoded = s;
                raw = raw;
                decodes = n;
                signed = parse_keys-IsSigned {V = V} mini bytes s pubkeys keys p v;
                parses = j;
                lowered = lowered;
                canonical = canonical;
                all_keys = ground (arith, validate_pubkeys-parse_keys {V = V} mini pubkeys);
              }
        ]
      ]

  -- A malformed key anywhere in the list refuses every manifest, also one that another key of the
  -- list verifies, and the answer is the error for a malformed key.
  pub verify_and_parse-malformed :
      (bytes signature : List ℕ) (pubkeys : List String) (e : Error V)
      → validate_pubkeys {V = V} mini pubkeys ≡ err e
      → verify_and_parse mini parse_json bytes signature pubkeys ≡ err invalid_public_key
  unfolding verify_and_parse
  verify_and_parse-malformed bytes signature pubkeys e h =
      elim (Result-cases (parse_keys {V = V} mini pubkeys)) [
        | inl (keys, p) ↦ absurd (ground (arith, validate_pubkeys-parse_keys {V = V} mini pubkeys))
        | inr (x, p) ↦ ground (arith, parse_keys_error {V = V} mini pubkeys x)
      ]

  check_signed_keys :
      (bytes : List ℕ) (keys : List mini.Key) (signature : mini.Signature)
      → check_signed mini parse_json bytes keys signature ≢ err invalid_public_key
  unfolding check_signed validate
  check_signed_keys bytes keys signature h = ground arith

  -- With a list of keys that parse, no manifest is refused for a malformed key.
  pub verify_and_parse-known_keys :
      (bytes signature : List ℕ) (pubkeys : List String)
      → no_keys pubkeys ≡ false
      → validate_pubkeys {V = V} mini pubkeys ≡ ok tt
      → verify_and_parse mini parse_json bytes signature pubkeys ≢ err invalid_public_key
  unfolding verify_and_parse
  verify_and_parse-known_keys bytes signature pubkeys n k h =
      elim (Result-cases (parse_keys {V = V} mini pubkeys)) [
        | inr (e, p) ↦ absurd (ground (arith, validate_pubkeys-parse_keys {V = V} mini pubkeys))
        | inl (keys, p) ↦ elim (Option-cases (mini.decode_signature signature)) [
          | inl q ↦ absurd (ground arith)
          | inr (s, q) ↦ check_signed_keys bytes keys s (ground arith)
        ]
      ]
