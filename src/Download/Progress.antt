-- ===== src/Download/Progress.antt =====
-- The progress reports of a download (src/download.rs).
use tauri_plugin_hot_update.Prelude.{
  ℕ, String, ◌<◌, Bool, true, false, ◌&&◌, ◌||◌, Option, none, some, List, [], ◌∷◌, ◌++◌, ◌==◌, ◌≡◌,
  refl, arith, inl, inr,
}
use tauri_plugin_hot_update.Prelude.Result.{Result, ok, err, Result-cases}
use tauri_plugin_hot_update.Manifest.{ArchiveInfo}
use tauri_plugin_hot_update.Error.{Error}
use tauri_plugin_hot_update.Download.{
  Response, Transfer, write_chunk, count_chunk, hash_chunk, report, read_archive, checked_get,
  finish_archive, download_archive,
}

-- a report of a count and a size is in the list
unfoldable pub has_report : ℕ → ℕ → List (ℕ × ℕ) → Bool
has_report n size [] = false
has_report n size ((m, total) ∷ rs) = (m == n && total == size) || has_report n size rs

has_report-append :
    (n size : ℕ) (rs : List (ℕ × ℕ)) → has_report n size (rs ++ (n, size) ∷ []) ≡ true
unfolding has_report
has_report-append n size [] = ground arith
has_report-append n size ((m, total) ∷ rs) = ground (arith, has_report-append n size rs)

-- what has been counted has been reported
abbrev is_reported : ℕ → Transfer → Bool
is_reported size t = t.downloaded == 0 || has_report t.downloaded size t.reports

module _ (V : Type 0) where
  read_archive-reported :
      (size : ℕ) (chunks : List (Option (List ℕ))) (t : Transfer)
      → is_reported size t ≡ true
      → (read_archive {V = V} size chunks t).0 ≡ ok tt
      → is_reported size (read_archive {V = V} size chunks t).1 ≡ true
  unfolding read_archive
  read_archive-reported size [] t h e = h
  read_archive-reported size (none ∷ chunks) t h e = absurd (ground arith)
  read_archive-reported size (some chunk ∷ chunks) t h e =
      let counted = count_chunk chunk t in
      let (wrote, t') = write_chunk chunk (hash_chunk chunk counted) in
      ground (
        arith,
        read_archive-reported size chunks (report size t'),
        has_report-append t'.downloaded size t'.reports,
      )

  finish_archive-reported :
      (send : String → Option Response) (sha256 : List ℕ → List ℕ) (archive : ArchiveInfo)
      (r : Result (Error V) (Unit {0})) (t : Transfer)
      → 0 < archive.size
      → (r ≡ ok tt → is_reported archive.size t ≡ true)
      → (finish_archive send sha256 archive (r, t)).0 ≡ ok tt
      → has_report archive.size archive.size (finish_archive send sha256 archive (r, t)).1.reports
        ≡ true
  finish_archive-reported send sha256 archive (err e) t p h k = absurd (ground arith)
  finish_archive-reported send sha256 archive (ok u) t p h k = ground (arith, h refl)

  -- A download of a nonempty archive that is accepted, with a count that started at 0, has
  -- reported the whole size, so a listener sees that the archive is complete.
  pub download_archive-reported :
      (send : String → Option Response) (sha256 : List ℕ → List ℕ) (archive : ArchiveInfo)
      (t : Transfer)
      → t.downloaded ≡ 0
      → 0 < archive.size
      → (download_archive {V = V} send sha256 archive t).0 ≡ ok tt
      → has_report archive.size archive.size
          (download_archive {V = V} send sha256 archive t).1.reports
        ≡ true
  unfolding download_archive
  download_archive-reported send sha256 archive t z p e =
      elim (Result-cases (checked_get {V = V} send archive.url)) [
        | inr (x, n) ↦ absurd (ground arith)
        | inl (response, n) ↦
            let (r, t') = read_archive {V = V} archive.size response.chunks t in
            rw (n, download_archive)
              (finish_archive-reported send sha256 archive r t' p
                (λ k. read_archive-reported archive.size response.chunks t (ground arith) k)
                (ground arith))
      ]
