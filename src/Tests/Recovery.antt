-- ===== src/Tests/Recovery.antt =====
-- The theorems about boot recovery at a page that has not acked.
use tauri_plugin_hot_update.Prelude.{ℕ, ◌+◌, ◌≤◌, true, false, List, [], ◌≡◌, refl}
use tauri_plugin_hot_update.Prelude.Lists.{length}
use tauri_plugin_hot_update.Runtime.{apply_staged}
use tauri_plugin_hot_update.Update.Pipeline.{check_and_download}
use tauri_plugin_hot_update.Recovery.{Surroundings, Window, recover_once, run, switched}
use tauri_plugin_hot_update.Recovery.Switch.{IsRecovered, recover_once-IsRecovered}
use tauri_plugin_hot_update.Recovery.Rounds.{sum, only_last_ends, last_failed, run_ends}
use tauri_plugin_hot_update.Tests.Data.{number_order}
use tauri_plugin_hot_update.Tests.Codec.{codec}
use tauri_plugin_hot_update.Tests.Pipeline.{code, outside, config, temporaries, running}

abbrev pub around : Surroundings ℕ
around = record { outside = outside; names = temporaries; meanwhile = λ app. app }

pub switches : (recover_once codec config around running).0 ≡ switched
unfolding code recover_once apply_staged
switches = refl

recover_once-IsRecovered_example :
    (running.shared.page_acked ≡ false)
    × IsRecovered codec
        (check_and_download codec outside config temporaries running).1
        (recover_once codec config around running).1
recover_once-IsRecovered_example = recover_once-IsRecovered codec config around running switches

abbrev no_windows : ℕ → List Window
no_windows attempt = []

run_ends_example :
    let passes = run codec config (λ n. around) no_windows 15 running in
    (length passes.outcomes ≤ 4)
    × (length passes.waits ≡ length passes.outcomes)
    × (sum passes.waits ≤ 15 + 105)
    × (only_last_ends passes.outcomes ≡ true)
    × (last_failed passes.outcomes ≡ true → length passes.outcomes ≡ 4)
run_ends_example = run_ends codec config (λ n. around) no_windows 15 running
