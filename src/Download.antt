-- ===== src/Download.antt =====
-- HTTP downloads (src/download.rs). `reqwest` is a parameter, `send`: what comes of a request is no
-- response, or a status and the chunks of the body, where `none` is a transport error. `sha256` is
-- the digest of the bytes that were fed to the hasher, one chunk after the other.
pub mod Archive
pub mod Progress
use tauri_plugin_hot_update.Prelude.{
  ℕ, ◌+◌, ◌/◌, ◌%◌, ◌^◌, String, Bool, not, Option, none, some, List, [], ◌∷◌, ◌++◌, ltb, ◌==◌,
  if◌then◌else◌, str_eq,
}
use tauri_plugin_hot_update.Prelude.Lists.{length, codes, text_eq}
use tauri_plugin_hot_update.Prelude.Result.{Result, ok, err}
use tauri_plugin_hot_update.Manifest.{ArchiveInfo}
use tauri_plugin_hot_update.Error.{
  Error, http, http_status, response_too_large, archive_size, archive_sha256,
}
use tauri_plugin_hot_update.Store.Disk.{Answer, done, failed, torn, succeeds}
use tauri_plugin_hot_update.Store.Names.{u64_mod}

abbrev pub manifest_max_bytes : ℕ
manifest_max_bytes = 65536

abbrev pub signature_max_bytes : ℕ
signature_max_bytes = 8192

-- the response of `reqwest` to a request
pub record Response : Type 0 where
  pub success : Bool
  pub status : ℕ
  pub chunks : List (Option (List ℕ))

-- a digit of `{b:02x}`
abbrev pub hex_digit : ℕ → ℕ
hex_digit n = if ltb n 10 then 48 + n else 87 + n

unfoldable pub to_hex : List ℕ → List ℕ
to_hex [] = []
to_hex (b ∷ bs) = hex_digit (b / 16) ∷ hex_digit (b % 16) ∷ to_hex bs

-- the file that the archive is written to, the hasher, the count and the calls of `on_progress`
pub record Transfer : Type 0 where
  pub written : List ℕ
  pub hashed : List ℕ
  pub downloaded : ℕ
  pub reports : List (ℕ × ℕ)
  pub answers : List Answer

-- the body of `fetch_capped`'s loop
unfoldable pub read_capped :
    {V : Type 0} → String → ℕ → List ℕ → List (Option (List ℕ)) → Result (Error V) (List ℕ)
read_capped url limit body [] = ok body
read_capped url limit body (none ∷ _) = err http
read_capped url limit body (some chunk ∷ chunks) =
    let rest = read_capped url limit (body ++ chunk) chunks in
    if ltb limit (length body + length chunk) then err (response_too_large url limit) else rest

abbrev first_answer : List Answer → Answer
first_answer [] = done
first_answer (a ∷ _) = a

abbrev other_answers : List Answer → List Answer
other_answers [] = []
other_answers (_ ∷ as') = as'

-- `write_all`, which may write a part before it fails
unfoldable pub write_chunk : List ℕ → Transfer → Bool × Transfer
write_chunk chunk t = (
  succeeds (first_answer t.answers),
  record t {
    written = elim (first_answer t.answers) [
      | done ↦ t.written ++ chunk
      | failed ↦ t.written
      | torn part ↦ t.written ++ part
    ];
    answers = other_answers t.answers;
  },
)

-- the count and the hash of a chunk
abbrev pub count_chunk : List ℕ → Transfer → Transfer
count_chunk chunk t = record t { downloaded = (t.downloaded + length chunk) % u64_mod }

abbrev pub hash_chunk : List ℕ → Transfer → Transfer
hash_chunk chunk t = record t { hashed = t.hashed ++ chunk }

abbrev pub report : ℕ → Transfer → Transfer
report size t = record t { reports = t.reports ++ (t.downloaded, size) ∷ [] }

-- the loop of `download_archive`
unfoldable pub read_archive :
    {V : Type 0} → ℕ → List (Option (List ℕ)) → Transfer → Result (Error V) (Unit {0}) × Transfer
unfolding write_chunk
read_archive size [] t = (ok tt, t)
read_archive size (none ∷ _) t = (err http, t)
read_archive size (some chunk ∷ chunks) t =
    let counted = count_chunk chunk t in
    let (wrote, t') = write_chunk chunk (hash_chunk chunk counted) in
    let rest = read_archive size chunks (report size t') in
    if ltb size counted.downloaded
    then (err (archive_size size counted.downloaded), counted)
    else if wrote
    then rest
    else (err Error.io, t')

module _ {V : Type 0} (send : String → Option Response) where
  unfoldable pub checked_get : String → Result (Error V) Response
  checked_get url = elim (send url) [
    | none ↦ err http
    | some r ↦ if r.success then ok r else err (http_status r.status url)
  ]

  unfoldable pub fetch_capped : String → ℕ → Result (Error V) (List ℕ)
  unfolding checked_get read_capped
  fetch_capped url limit = elim (checked_get url) [
    | err e ↦ err e
    | ok r ↦ read_capped url limit [] r.chunks
  ]

module _ {V : Type 0} (send : String → Option Response) (sha256 : List ℕ → List ℕ) where
  -- what `download_archive` checks when the body is complete
  abbrev pub finish_archive :
      ArchiveInfo → Result (Error V) (Unit {0}) × Transfer → Result (Error V) (Unit {0}) × Transfer
  finish_archive archive (err e, t) = (err e, t)
  finish_archive archive (ok _, t) =
      if not (t.downloaded == archive.size)
      then (err (archive_size archive.size t.downloaded), t)
      else if not (text_eq (to_hex (sha256 t.hashed)) (codes archive.sha256))
      then (err (archive_sha256 (codes archive.sha256) (to_hex (sha256 t.hashed))), t)
      else if succeeds (first_answer t.answers)
      then (ok tt, record t { answers = other_answers t.answers })
      else (err Error.io, record t { answers = other_answers t.answers })

  -- `dest` and the hasher are new
  unfoldable pub download_archive : ArchiveInfo → Transfer → Result (Error V) (Unit {0}) × Transfer
  unfolding checked_get read_archive to_hex
  download_archive archive t = elim (checked_get {V = V} send archive.url) [
    | err e ↦ (err e, t)
    | ok r ↦ finish_archive archive (read_archive archive.size r.chunks t)
  ]
