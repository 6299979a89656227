-- ===== src/Update/Fetch.antt =====
-- Where the manifest of a run comes from (src/update.rs).
use Prim.Native.String.{◌++◌ as ◌<>◌}
use tauri_plugin_hot_update.Prelude.{ℕ, String, ◌≤◌, some, List, ◌≡◌, arith, inl, inr, Option-cases}
use tauri_plugin_hot_update.Prelude.Lists.{length}
use tauri_plugin_hot_update.Prelude.Result.{ok, Result-cases}
use tauri_plugin_hot_update.Manifest.{Manifest}
use tauri_plugin_hot_update.Manifest.Trust.{IsTrusted, verify_and_parse-IsTrusted}
use tauri_plugin_hot_update.Download.{fetch_capped, manifest_max_bytes, signature_max_bytes}
use tauri_plugin_hot_update.Download.Archive.{arrived, value-fetch_capped}
use tauri_plugin_hot_update.Update.Pipeline.{
  UpdateConfig, Outside, fetch_verified_manifest, fetch_with_client,
}

module _ {V : Type 0} (x : Outside V) where
  -- where a fetched manifest comes from
  pub record IsFetched (config : UpdateConfig) (m : Manifest V) : Type 0 where
    pub bytes : List ℕ
    pub signature : List ℕ
    pub fetched : arrived (x.send config.manifest_url) ≡ some bytes
    pub small : length bytes ≤ manifest_max_bytes
    pub signed : arrived (x.send (config.manifest_url <> ".minisig")) ≡ some signature
    pub trusted : IsTrusted x.mini x.parse_json bytes signature config.pubkeys m

  fetched_body :
      (url : String) (limit : ℕ) (bytes : List ℕ)
      → fetch_capped {V = V} x.send url limit ≡ ok bytes
      → (arrived (x.send url) ≡ some bytes) × (length bytes ≤ limit)
  fetched_body url limit bytes e =
      let v = value-fetch_capped V x.send url limit in
      elim (Option-cases (arrived (x.send url))) [
        | inl n ↦ absurd (ground (arith, v))
        | inr (b, n) ↦ (ground (arith, v), ground (arith, v))
      ]

  -- A manifest that the pipeline acts on is the whole body of the response for its URL, within the
  -- cap, and is trusted through the signature at that URL with `.minisig`.
  pub fetch_verified_manifest-IsFetched :
      (config : UpdateConfig) (m : Manifest V)
      → fetch_verified_manifest x config ≡ ok m
      → IsFetched config m
  unfolding fetch_verified_manifest
  fetch_verified_manifest-IsFetched config m e =
      let url = config.manifest_url in
      elim (Result-cases (fetch_capped {V = V} x.send url manifest_max_bytes)) [
        | inr (y, n) ↦ absurd (ground arith)
        | inl (bytes, n) ↦
            elim (Result-cases
              (fetch_capped {V = V} x.send (url <> ".minisig") signature_max_bytes)) [
                | inr (y, k) ↦ absurd (ground arith)
                | inl (signature, k) ↦
                    let (body, small) = fetched_body url manifest_max_bytes bytes n in
                    record {
                      bytes = bytes;
                      signature = signature;
                      fetched = body;
                      small = small;
                      signed = (fetched_body (url <> ".minisig") signature_max_bytes signature k).0;
                      trusted =
                          verify_and_parse-IsTrusted x.mini x.parse_json bytes signature
                            config.pubkeys m (ground arith);
                    }
              ]
      ]

  pub fetch_with_client-IsFetched :
      (config : UpdateConfig) (m : Manifest V)
      → fetch_with_client x config ≡ ok m
      → IsFetched config m
  unfolding fetch_with_client
  fetch_with_client-IsFetched config m e = fetch_verified_manifest-IsFetched config m (ground arith)
