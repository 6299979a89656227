-- ===== src/Download/Archive.antt =====
-- What src/download.rs accepts.
use tauri_plugin_hot_update.Prelude.{
  ℕ, ◌+◌, ◌≤◌, ◌<◌, ◌^◌, ◌%◌, String, true, Option, none, some, List, [], ◌∷◌, ◌++◌, ◌≡◌, refl, ap,
  sym, arith, ◌∙◌, ltb, if◌then◌else◌, Option-cases, inl, inr,
}
use tauri_plugin_hot_update.Prelude.Lists.{length, length-append, codes, text_eq_iff}
use tauri_plugin_hot_update.Prelude.Result.{Result, ok, err}
use tauri_plugin_hot_update.Manifest.{ArchiveInfo}
use tauri_plugin_hot_update.Error.{Error}
use tauri_plugin_hot_update.Download.{
  Response, Transfer, read_capped, fetch_capped, read_archive, download_archive, finish_archive,
  to_hex, write_chunk, count_chunk, hash_chunk, report,
}

-- the bytes of a body, if no transport error cuts it short
unfoldable pub body_of : List (Option (List ℕ)) → Option (List ℕ)
body_of [] = some []
body_of (none ∷ _) = none
body_of (some chunk ∷ chunks) =
    let rest = body_of chunks in elim rest [ none ↦ none | some bytes ↦ some (chunk ++ bytes) ]

append_nil : (xs : List ℕ) → xs ++ [] ≡ xs
append_nil [] = refl
append_nil (x ∷ xs) = ap (λ (l : List ℕ). x ∷ l) (append_nil xs)

append_assoc : (xs ys zs : List ℕ) → (xs ++ ys) ++ zs ≡ xs ++ (ys ++ zs)
append_assoc [] ys zs = refl
append_assoc (x ∷ xs) ys zs = ap (λ (l : List ℕ). x ∷ l) (append_assoc xs ys zs)

-- what the body after some bytes is read as
abbrev pub capped : ℕ → List ℕ → Option (List ℕ) → Option (List ℕ)
capped limit body none = none
capped limit body (some bytes) =
    if ltb limit (length body + length bytes) then none else some (body ++ bytes)

abbrev pub value {ℓ κ} : {E : Type ℓ} {A : Type κ} → Result E A → Option A
value (ok a) = some a
value (err _) = none

value-read_capped :
    (V : Type 0) (url : String) (limit : ℕ) (body : List ℕ) (chunks : List (Option (List ℕ)))
    → length body ≤ limit
    → value (read_capped {V = V} url limit body chunks) ≡ capped limit body (body_of chunks)
unfolding read_capped body_of
value-read_capped V url limit body [] h = ground (arith, append_nil body)
value-read_capped V url limit body (none ∷ chunks) h = refl
value-read_capped V url limit body (some chunk ∷ chunks) h = elim (Option-cases (body_of chunks)) [
  | inl n ↦
      ground (arith, value-read_capped V url limit (body ++ chunk) chunks, length-append body chunk)
  | inr (bytes, n) ↦ ground (
    arith,
    value-read_capped V url limit (body ++ chunk) chunks,
    length-append body chunk,
    length-append chunk bytes,
    length-append (body ++ chunk) bytes,
    append_assoc body chunk bytes,
  )
]

-- what the response of a successful request carries
abbrev pub arrived : Option Response → Option (List ℕ)
arrived none = none
arrived (some r) = if r.success then body_of r.chunks else none

-- A fetch returns the whole body exactly if the request succeeds, no chunk fails to arrive, and
-- the body is within the limit; in any other case it is an error.
pub value-fetch_capped :
    (V : Type 0) (send : String → Option Response) (url : String) (limit : ℕ)
    → value (fetch_capped {V = V} send url limit) ≡ capped limit [] (arrived (send url))
unfolding fetch_capped
value-fetch_capped V send url limit = elim (Option-cases (send url)) [
  | inl n ↦ ground arith
  | inr (r, n) ↦ ground (arith, value-read_capped V url limit [] r.chunks)
]

-- no chunk is longer than a buffer can be
abbrev pub AreShort : List (Option (List ℕ)) → Type 0
AreShort [] = Unit
AreShort (none ∷ chunks) = AreShort chunks
AreShort (some chunk ∷ chunks) = (length chunk < 2 ^ 63) × AreShort chunks

-- the count and the hasher have what the file has
pub record IsInStep (t : Transfer) : Type 0 where
  pub counted : t.downloaded ≡ length t.written
  pub hashed : t.hashed ≡ t.written

-- the transfer after a chunk that is counted, hashed, written and reported
abbrev took : ℕ → List ℕ → Transfer → Transfer
took size chunk t = report size (write_chunk chunk (hash_chunk chunk (count_chunk chunk t))).1

read_archive-took :
    (V : Type 0) (size : ℕ) (chunk : List ℕ) (chunks : List (Option (List ℕ))) (t : Transfer)
    → (read_archive {V = V} size (some chunk ∷ chunks) t).0 ≡ ok tt
    → (read_archive {V = V} size (some chunk ∷ chunks) t
        ≡ read_archive {V = V} size chunks (took size chunk t))
      × ((t.downloaded + length chunk) % 2 ^ 64 ≤ size)
      × ((took size chunk t).written ≡ t.written ++ chunk)
unfolding read_archive write_chunk
read_archive-took V size chunk chunks t e = ground arith

IsInStep-took :
    (size : ℕ) (chunk : List ℕ) (t : Transfer)
    → size < 2 ^ 63
    → length chunk < 2 ^ 63
    → t.downloaded ≤ size
    → IsInStep t
    → (took size chunk t).written ≡ t.written ++ chunk
    → IsInStep (took size chunk t)
unfolding write_chunk
IsInStep-took size chunk t h k l i w = record {
  counted = ground (arith, length-append t.written chunk);
  hashed = ground arith;
}

read_archive_lem :
    (V : Type 0) (size : ℕ) (chunks : List (Option (List ℕ))) (t : Transfer)
    → size < 2 ^ 63
    → AreShort chunks
    → t.downloaded ≤ size
    → IsInStep t
    → (read_archive {V = V} size chunks t).0 ≡ ok tt
    → IsInStep (read_archive {V = V} size chunks t).1
      × ((read_archive {V = V} size chunks t).1.downloaded ≤ size)
      × ((b : List ℕ) × (body_of chunks ≡ some b)
          × ((read_archive {V = V} size chunks t).1.written ≡ t.written ++ b))
unfolding read_archive body_of write_chunk
read_archive_lem V size [] t h k l i e = (i, l, ([], refl, sym (append_nil t.written)))
read_archive_lem V size (none ∷ chunks) t h k l i e = absurd (ground arith)
read_archive_lem V size (some chunk ∷ chunks) t h k l i e =
    let (same, within, w) = read_archive-took V size chunk chunks t e in
    let (i', l', (b, arrives, w')) =
      read_archive_lem V size chunks (took size chunk t) h k.1 (unfold write_chunk in within)
        (IsInStep-took size chunk t h k.0 l i w) (rw same at e) in
    rw same (
      i',
      l',
      (
        chunk ++ b,
        ground arith,
        w' ∙ ap (λ (x : List ℕ). x ++ b) w ∙ append_assoc t.written chunk b,
      ),
    )

-- a transfer that has not begun
abbrev pub IsNew : Transfer → Type 0
IsNew t = (t.written ≡ []) × (t.hashed ≡ []) × (t.downloaded ≡ 0)

module _ (V : Type 0) (send : String → Option Response) (sha256 : List ℕ → List ℕ) where
  finish_archive_lem :
      (archive : ArchiveInfo) (x : Result (Error V) (Unit {0}) × Transfer)
      → (finish_archive send sha256 archive x).0 ≡ ok tt
      → (x.0 ≡ ok tt)
        × (x.1.downloaded ≡ archive.size)
        × (to_hex (sha256 x.1.hashed) ≡ codes archive.sha256)
        × ((finish_archive send sha256 archive x).1.written ≡ x.1.written)
  finish_archive_lem archive (err e, t) h = absurd (ground arith)
  finish_archive_lem archive (ok _, t) h =
      ground (arith, text_eq_iff (to_hex (sha256 t.hashed)) (codes archive.sha256))

  -- An archive is accepted into a new file only if the file holds the whole body of the response,
  -- with the size and the hash that the manifest declares. The size and the chunks are below 2 ^
  -- 63.
  pub download_archive-exact :
      (archive : ArchiveInfo) (r : Response) (t : Transfer)
      → send archive.url ≡ some r
      → archive.size < 2 ^ 63
      → AreShort r.chunks
      → IsNew t
      → (download_archive {V = V} send sha256 archive t).0 ≡ ok tt
      → let file = (download_archive {V = V} send sha256 archive t).1.written in
        (body_of r.chunks ≡ some file)
        × (length file ≡ archive.size)
        × (to_hex (sha256 file) ≡ codes archive.sha256)
  unfolding download_archive
  download_archive-exact archive r t n b k f h =
      let read = read_archive {V = V} archive.size r.chunks t in
      let finish : (download_archive {V = V} send sha256 archive t
          ≡ finish_archive send sha256 archive read) =
        ground arith in
      let (fine, size, hash, same) = finish_archive_lem archive read (rw finish at h) in
      let (step, _, (bytes, arrives, w)) =
        read_archive_lem V archive.size r.chunks t b k (ground arith) (ground arith) fine in
      rw finish ((ground (arith), ground arith, ground arith))

  read_archive-whole :
      (size : ℕ) (chunks : List (Option (List ℕ))) (b : List ℕ) (t : Transfer)
      → size < 2 ^ 63
      → body_of chunks ≡ some b
      → t.downloaded + length b ≤ size
      → t.answers ≡ []
      → (read_archive {V = V} size chunks t).0 ≡ ok tt
        × ((read_archive {V = V} size chunks t).1.answers ≡ [])
        × ((read_archive {V = V} size chunks t).1.downloaded ≡ t.downloaded + length b)
        × ((read_archive {V = V} size chunks t).1.hashed ≡ t.hashed ++ b)
  unfolding read_archive body_of write_chunk
  read_archive-whole size [] b t k e l n = ground (arith, append_nil t.hashed)
  read_archive-whole size (none ∷ chunks) b t k e l n = absurd (ground arith)
  read_archive-whole size (some chunk ∷ chunks) b t k e l n = elim (Option-cases (body_of chunks)) [
    | inl m ↦ absurd (ground arith)
    | inr (rest, m) ↦ ground (
      arith,
      read_archive-whole size chunks rest (took size chunk t) k m,
      length-append chunk rest,
      append_assoc t.hashed chunk rest,
    )
  ]

  -- An archive whose body arrives whole into a new file, with the declared size, below 2 ^ 63, and
  -- hash, is accepted if the request and every write succeed.
  pub download_archive-accepts :
      (archive : ArchiveInfo) (r : Response) (b : List ℕ) (t : Transfer)
      → send archive.url ≡ some r
      → r.success ≡ true
      → archive.size < 2 ^ 63
      → body_of r.chunks ≡ some b
      → length b ≡ archive.size
      → to_hex (sha256 b) ≡ codes archive.sha256
      → IsNew t
      → t.answers ≡ []
      → (download_archive {V = V} send sha256 archive t).0 ≡ ok tt
  unfolding download_archive
  download_archive-accepts archive r b t n y k e l h f a = ground (
    arith,
    read_archive-whole archive.size r.chunks b t k e,
    text_eq_iff (to_hex (sha256 b)) (codes archive.sha256),
  )
