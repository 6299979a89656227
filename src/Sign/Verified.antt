-- ===== src/Sign/Verified.antt =====
-- A release that is signed (src/sign.rs) against the check of an app (src/manifest.rs).
use tauri_plugin_hot_update.Prelude.{
  ℕ, ◌/◌, ◌%◌, ◌≤◌, ◌<◌, String, Bool, true, false, Option, none, some, List, [], ◌∷◌, ◌≡◌, ◌⊎◌,
  refl, ap, arith, ◌∙◌, ltb, Option-cases, inl, inr,
}
use tauri_plugin_hot_update.Prelude.Lists.{length, codes}
use tauri_plugin_hot_update.Prelude.Hex.{
  hex_text, code-hex_char, high, and_both, are_bytes, utf8_length-hex_text, all_codes-hex_text,
}
use tauri_plugin_hot_update.Prelude.Result.{ok, Result-cases}
use tauri_plugin_hot_update.Manifest.{Manifest, BaseVersion, valid, invalid}
use tauri_plugin_hot_update.Extract.Entries.{max_uncompressed_bytes}
use tauri_plugin_hot_update.Manifest.Verify.{
  Minisign, any_verifies, decode_key, parse_public_key, parse_keys, validate_pubkeys, check_signed,
  verify_and_parse, no_keys,
}
use tauri_plugin_hot_update.Manifest.Trust.{
  IsCanonical, IsSigned, validate_fixed, validate_pubkeys-parse_keys,
}
use tauri_plugin_hot_update.Download.{to_hex}
use tauri_plugin_hot_update.Sign.{
  SignOptions, SignedRelease, Publisher, build_archive, manifest_of, sign_release,
}

-- a base version that is a semver, which is printed as it is read
abbrev pub has_semver : {V : Type 0} → Option (BaseVersion V) → Bool
has_semver none = true
has_semver (some (valid v)) = true
has_semver (some (invalid raw)) = false

codes-hex_text : (bs : List ℕ) → are_bytes bs ≡ true → codes (hex_text bs) ≡ to_hex bs
unfolding hex_text to_hex
codes-hex_text [] h = refl
codes-hex_text (b ∷ bs) h =
    let (byte, rest) = and_both (ltb b 256) (are_bytes bs) h in
    rw
      (
        code-hex_char (b / 16) (high b byte),
        code-hex_char (b % 16) (omega arith),
        codes-hex_text bs rest,
      )
      refl

module _ {V : Type 0} (p : Publisher V) where
  -- what the files of a release hold
  pub record IsReleased (options : SignOptions V) (r : SignedRelease V) : Type 0 where
    pub printed : p.print_json r.manifest ≡ some r.manifest_bytes
    pub signed : p.sign r.manifest_bytes ≡ some r.signature
    pub described : r.manifest ≡ manifest_of p options r.archive
    pub built : build_archive p options.dist ≡ ok r.archive

  pub sign_release-IsReleased :
      (options : SignOptions V) (r : SignedRelease V)
      → sign_release p options ≡ ok r
      → IsReleased options r
  unfolding sign_release
  sign_release-IsReleased options r e = elim (Result-cases (build_archive p options.dist)) [
    | inr (x, n) ↦ absurd (ground arith)
    | inl (archive, n) ↦ elim (Option-cases (p.print_json (manifest_of p options archive))) [
      | inl k ↦ absurd (ground arith)
      | inr (bytes, k) ↦ elim (Option-cases (p.sign bytes)) [
        | inl q ↦ absurd (ground arith)
        | inr (signature, q) ↦ record {
          printed = ground arith;
          signed = ground arith;
          described = ground arith;
          built = ground arith;
        }
      ]
    ]
  ]

abbrev pub IsListed : String → List String → Type 0
IsListed text [] = ⊥
IsListed text (t ∷ ts) = (t ≡ text) ⊎ IsListed text ts

no_keys-IsListed :
    (text : String) (texts : List String) → IsListed text texts → no_keys texts ≡ false
no_keys-IsListed text [] l = absurd l
no_keys-IsListed text (t ∷ ts) l = refl

module _ (mini : Minisign) where
  -- a key of the list that verifies
  IsSigned-IsListed :
      (bytes : List ℕ) (signature : mini.Signature) (text : String) (key : mini.Key)
      (texts : List String)
      → IsListed text texts
      → decode_key mini text ≡ some key
      → mini.verify key bytes signature ≡ true
      → IsSigned mini bytes signature texts
  IsSigned-IsListed bytes signature text key [] l d v = absurd l
  IsSigned-IsListed bytes signature text key (t ∷ ts) l d v = elim l [
    | inl same ↦ inl (key, rw same d, v)
    | inr rest ↦ inr (IsSigned-IsListed bytes signature text key ts rest d v)
  ]

module _ {V : Type 0} (mini : Minisign) where
  -- the list of a key's text has the key verify
  IsSigned-any_verifies :
      (bytes : List ℕ) (signature : mini.Signature) (texts : List String) (keys : List mini.Key)
      → IsSigned mini bytes signature texts
      → parse_keys {V = V} mini texts ≡ ok keys
      → any_verifies mini keys bytes signature ≡ true
  unfolding parse_keys parse_public_key any_verifies
  IsSigned-any_verifies bytes signature [] keys s h = absurd s
  IsSigned-any_verifies bytes signature (t ∷ ts) keys s h =
      elim (Option-cases (decode_key mini t)) [
        | inl n ↦ absurd (ground arith)
        | inr (k, n) ↦ elim (Result-cases (parse_keys {V = V} mini ts)) [
          | inr (x, m) ↦ absurd (ground arith)
          | inl (ks, m) ↦ elim s [
            | inl (key, d, v) ↦ ground arith
            | inr rest ↦ ground (arith, IsSigned-any_verifies bytes signature ts ks rest m)
          ]
        ]
      ]

  module _ (parse_json : List ℕ → Option (Manifest V)) where
    verify_and_parse-IsSigned :
        (bytes signature : List ℕ) (pubkeys : List String) (decoded : mini.Signature)
        (m : Manifest V)
        → no_keys pubkeys ≡ false
        → validate_pubkeys {V = V} mini pubkeys ≡ ok tt
        → mini.decode_signature signature ≡ some decoded
        → IsSigned mini bytes decoded pubkeys
        → parse_json bytes ≡ some m
        → IsCanonical m
        → verify_and_parse mini parse_json bytes signature pubkeys ≡ ok m
    unfolding verify_and_parse check_signed
    verify_and_parse-IsSigned bytes signature pubkeys decoded m n known d v j canonical =
        elim (Result-cases (parse_keys {V = V} mini pubkeys)) [
          | inr (x, k) ↦ absurd (ground (arith, validate_pubkeys-parse_keys {V = V} mini pubkeys))
          | inl (keys, k) ↦
              let any = IsSigned-any_verifies bytes decoded pubkeys keys v k in
              rw (n, k, d, any, j) (validate_fixed m canonical)
        ]

-- The key pair of a publisher: the text of its public key, and what minisign documents of `sign`.
pub record KeyPair {V : Type 0} (mini : Minisign) (p : Publisher V) : Type 0 where
  pub text : String
  pub key : mini.Key
  pub decodes : decode_key mini text ≡ some key
  pub signs :
      (bytes signature : List ℕ)
      → p.sign bytes ≡ some signature
      → (decoded : mini.Signature) × (mini.decode_signature signature ≡ some decoded)
        × (mini.verify key bytes decoded ≡ true)

module _ {V : Type 0} (mini : Minisign) (p : Publisher V) (pair : KeyPair mini p) where
  manifest_of-IsCanonical :
      (options : SignOptions V) (archive : List ℕ)
      → are_bytes (p.sha256 archive) ≡ true
      → length (p.sha256 archive) ≡ 32
      → 0 < length archive
      → length archive ≤ max_uncompressed_bytes
      → IsCanonical (manifest_of p options archive)
  unfolding manifest_of
  manifest_of-IsCanonical options archive b l s m =
      let digest = p.sha256 archive in
      record {
        length = utf8_length-hex_text digest b ∙ omega (arith, l);
        digits = all_codes-hex_text digest b;
        positive = s;
        bounded = m;
      }

  manifest_of-has_semver :
      (options : SignOptions V) (archive : List ℕ)
      → has_semver (manifest_of p options archive).base_version ≡ true
  unfolding manifest_of
  manifest_of-has_semver options archive = elim (Option-cases options.base_version) [
    | inl n ↦ rw n refl
    | inr (v, n) ↦ rw n refl
  ]

  manifest_of_size :
      (options : SignOptions V) (archive : List ℕ)
      → (manifest_of p options archive).archive.size ≡ length archive
  unfolding manifest_of
  manifest_of_size options archive = refl

  manifest_of_sha :
      (options : SignOptions V) (archive : List ℕ)
      → are_bytes (p.sha256 archive) ≡ true
      → codes (manifest_of p options archive).archive.sha256 ≡ to_hex (p.sha256 archive)
  unfolding manifest_of
  manifest_of_sha options archive b = codes-hex_text (p.sha256 archive) b

  -- A release that is signed passes the check of every app whose keys all parse and include the
  -- publisher's, and the app reads the manifest that was signed, which has the size and the digest
  -- of the archive. It is assumed that the publisher's key verifies what its secret key signs,
  -- that JSON reads back what it prints where the base version is a semver, that the digest is 32
  -- bytes, and that the archive is neither empty nor above the limit of the extraction.
  pub verify_and_parse-sign_release :
      (parse_json : List ℕ → Option (Manifest V)) (options : SignOptions V) (r : SignedRelease V)
      (pubkeys : List String)
      → ((m : Manifest V) (bytes : List ℕ)
          → has_semver m.base_version ≡ true
          → p.print_json m ≡ some bytes
          → parse_json bytes ≡ some m)
      → are_bytes (p.sha256 r.archive) ≡ true
      → length (p.sha256 r.archive) ≡ 32
      → 0 < length r.archive
      → length r.archive ≤ max_uncompressed_bytes
      → IsListed pair.text pubkeys
      → validate_pubkeys {V = V} mini pubkeys ≡ ok tt
      → sign_release p options ≡ ok r
      → (verify_and_parse mini parse_json r.manifest_bytes r.signature pubkeys ≡ ok r.manifest)
        × (r.manifest.archive.size ≡ length r.archive)
        × (codes r.manifest.archive.sha256 ≡ to_hex (p.sha256 r.archive))
  verify_and_parse-sign_release parse_json options r pubkeys json b l s m listed known e =
      let released = sign_release-IsReleased p options r e in
      let (decoded, reads, verifies) = pair.signs r.manifest_bytes r.signature released.signed in
      let described = released.described in
      let canonical : IsCanonical r.manifest =
        rw described (manifest_of-IsCanonical options r.archive b l s m) in
      let semver : has_semver r.manifest.base_version ≡ true =
        rw described (manifest_of-has_semver options r.archive) in
      (
        verify_and_parse-IsSigned {V = V} mini parse_json r.manifest_bytes r.signature pubkeys
            decoded r.manifest (no_keys-IsListed pair.text pubkeys listed) known reads
            (IsSigned-IsListed mini r.manifest_bytes decoded pair.text pair.key pubkeys listed
              pair.decodes verifies)
            (json r.manifest r.manifest_bytes semver released.printed) canonical,
        ap (λ (n : Manifest V). n.archive.size) described ∙ manifest_of_size options r.archive,
        ap (λ (n : Manifest V). codes n.archive.sha256) described
            ∙ manifest_of_sha options r.archive b,
      )
