-- ===== src/Tests/Machine.antt =====
-- The theorems about the state machine at concrete states.
use tauri_plugin_hot_update.Prelude.{
  ℕ, true, false, none, some, List, [], ◌∷◌, ◌≡◌, ◌≢◌, ◌↔◌, refl, arith,
}
use tauri_plugin_hot_update.Prelude.Set
use tauri_plugin_hot_update.Prelude.Map
use tauri_plugin_hot_update.Prelude.Hashes
use tauri_plugin_hot_update.Version.{newer}
use tauri_plugin_hot_update.Machine.{BundleMeta, fresh, referenced, base_refusal, ota}
use tauri_plugin_hot_update.Machine.Boot.{resolve_boot}
use tauri_plugin_hot_update.Machine.Boot.Sweep.{deletes}
use tauri_plugin_hot_update.Machine.Boot.Valid.{resolve_boot-IsValid}
use tauri_plugin_hot_update.Machine.Boot.Serving.{resolve_boot-serves_present}
use tauri_plugin_hot_update.Machine.Boot.Trials.{
  first_strike, second_strike, second_strike-serves_committed,
}
use tauri_plugin_hot_update.Machine.Session.{ack, promote_staged, applied, stage, reset}
use tauri_plugin_hot_update.Machine.Session.Laws.{promote_staged-resolve_boot}
use tauri_plugin_hot_update.Machine.Invariant.{IsValid, at_most_watermark}
use tauri_plugin_hot_update.Machine.Traces.{
  Event, launch, acked, download, step, run, blacklisted_never_on_trial, watermark_rises,
}
use tauri_plugin_hot_update.Machine.Traces.Trials.{unacked_served_once_more}
use tauri_plugin_hot_update.Tests.Data.{
  number_order, old_meta, new_meta, newest_meta, waiting, armed, struck, disk,
}

unfoldable pub code : Unit {0}
unfolding Set.contains Set.insert Set.union Map.get Map.put Map.remove Map.keys Hashes.contains
    Hashes.insert referenced base_refusal resolve_boot ack promote_staged stage reset fresh
code = tt

-- bundle 2 is armed, misses its ack, and is blamed at the third launch
arming : (resolve_boot waiting 5 disk).state ≡ armed
unfolding code
arming = refl

blaming : (resolve_boot struck 5 disk).rolled_back ≡ some 2
unfolding code
blaming = refl

armed-IsValid : IsValid armed
unfolding code
armed-IsValid = ground arith

struck-IsValid : IsValid struck
unfolding code
struck-IsValid = ground arith

resolve_boot-serves_present_example :
    (m : BundleMeta ℕ) × (Map.get 2 (resolve_boot waiting 5 disk).state.versions ≡ some m)
    × (newer m.version 5 ≡ true)
    × (Set.contains 2 disk ≡ true)
    × (deletes 2 (resolve_boot waiting 5 disk).effects ≡ false)
unfolding code
resolve_boot-serves_present_example = resolve_boot-serves_present waiting 5 disk 2 refl

first_strike_example :
    ((resolve_boot armed 5 disk).active ≡ ota 2)
    × ((resolve_boot armed 5 disk).rolled_back ≡ none)
    × ((resolve_boot armed 5 disk).state.booting ≡ some 2)
    × ((resolve_boot armed 5 disk).state.booting_strikes ≡ 1)
    × ((resolve_boot armed 5 disk).state.staged ≡ armed.staged)
    × ((resolve_boot armed 5 disk).state.failed ≡ armed.failed)
unfolding code
first_strike_example = first_strike 2 new_meta armed 5 disk refl refl refl refl refl

second_strike_example :
    ((resolve_boot struck 5 disk).rolled_back ≡ some 2)
    × (Hashes.contains "bb" (resolve_boot struck 5 disk).state.failed ≡ true)
    × (Map.get 2 (resolve_boot struck 5 disk).state.versions ≡ none)
    × ((resolve_boot struck 5 disk).active ≢ ota 2)
unfolding code
second_strike_example = second_strike 2 new_meta struck 5 disk struck-IsValid refl refl refl refl

second_strike-serves_committed_example :
    ((resolve_boot struck 5 disk).active ≡ ota 1)
    × ((resolve_boot struck 5 disk).state.committed ≡ some 1)
unfolding code
second_strike-serves_committed_example =
    second_strike-serves_committed 2 1 old_meta struck 5 disk refl refl refl refl refl refl refl

promote_staged-resolve_boot_example :
    ((promote_staged waiting 5 disk).1 ≡ applied 2)
    ↔ ((resolve_boot waiting 5 disk).state.booting ≡ some 2)
promote_staged-resolve_boot_example = promote_staged-resolve_boot 2 waiting 5 disk refl

abbrev day : List (Event ℕ)
day = launch 5 disk ∷ download 3 newest_meta ∷ launch 5 (3 ∷ disk) ∷ acked (ota 2) ∷ []

-- bundle 2 fails, and bundle 3 is armed at the same launch
abbrev fix : List (Event ℕ)
fix = download 3 newest_meta ∷ launch 5 (1 ∷ 3 ∷ []) ∷ []

blacklisted_never_on_trial_example : newest_meta.archive_sha256 ≢ "bb"
unfolding code run step
blacklisted_never_on_trial_example =
    blacklisted_never_on_trial "bb" (resolve_boot struck 5 disk).state fix 3 newest_meta
      (resolve_boot-IsValid struck 5 disk struck-IsValid) (tt, (tt, tt)) refl refl refl

watermark_rises_example : at_most_watermark (run armed day).max_version_seen 10 ≡ true
watermark_rises_example = watermark_rises 10 armed day (tt, (tt, (tt, (tt, tt)))) refl

unacked_served_once_more_example :
    (resolve_boot (run (resolve_boot armed 5 disk).state fix) 5 disk).active ≢ ota 2
unacked_served_once_more_example =
    unacked_served_once_more 2 armed 5 5 disk disk fix armed-IsValid refl
      ((λ e. omega arith), (tt, tt))
