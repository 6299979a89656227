-- ===== src/Tests/Download.antt =====
-- The theorems about downloads at a concrete server, with a digest that is the bytes themselves.
use tauri_plugin_hot_update.Prelude.{ℕ, String, true, Option, some, List, [], ◌∷◌, ◌≡◌, refl, arith}
use tauri_plugin_hot_update.Prelude.Lists.{length, codes, text_eq}
use tauri_plugin_hot_update.Manifest.{ArchiveInfo}
use tauri_plugin_hot_update.Prelude.Result.{ok}
use tauri_plugin_hot_update.Download.{Response, Transfer, to_hex, download_archive}
use tauri_plugin_hot_update.Download.Archive.{body_of, download_archive-exact}

abbrev answer : Response
answer = record { success = true; status = 200; chunks = some (1 ∷ 2 ∷ []) ∷ some (171 ∷ []) ∷ [] }

abbrev server : String → Option Response
server url = some answer

abbrev digest : List ℕ → List ℕ
digest bytes = bytes

abbrev archive : ArchiveInfo
archive = record { url = "https://a/b.tar.gz"; sha256 = "0102ab"; size = 3 }

abbrev new_file : Transfer
new_file = record { written = []; hashed = []; downloaded = 0; reports = []; answers = [] }

downloads : (download_archive {V = ℕ} server digest archive new_file).0 ≡ ok tt
unfolding download_archive text_eq
downloads = refl

download_archive-exact_example :
    let file = (download_archive {V = ℕ} server digest archive new_file).1.written in
    (body_of answer.chunks ≡ some file)
    × (length file ≡ 3)
    × (to_hex (digest file) ≡ codes "0102ab")
download_archive-exact_example =
    download_archive-exact ℕ server digest archive answer new_file refl (omega arith)
      (omega arith, (omega arith, tt)) (refl, refl, refl) downloads
