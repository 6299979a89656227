-- ===== src/Tests/System.antt =====
-- The theorems about the life of an install at a concrete one.
use tauri_plugin_hot_update.Prelude.{
  false, ℕ, true, some, List, [], ◌∷◌, ◌≡◌, ◌⊎◌, none, refl, arith,
}
use tauri_plugin_hot_update.Machine.Invariant.{IsValid}
use tauri_plugin_hot_update.Store.Names.{bundle_name}
use tauri_plugin_hot_update.Store.Deletion.{has_file}
use tauri_plugin_hot_update.Store.Keeping.{holds}
use tauri_plugin_hot_update.Store.Persist.{on_disk}
use tauri_plugin_hot_update.Store.Seqs.{has_dir}
use tauri_plugin_hot_update.Runtime.{App, initialize}
use tauri_plugin_hot_update.Plugin.{on_page_load}
use tauri_plugin_hot_update.Recovery.{switch}
use tauri_plugin_hot_update.System.{
  Call, acks, applies, resets, recovers, loads, downloads, Step, calls, launches, new_shared,
  perform, perform_all, live,
}
use tauri_plugin_hot_update.System.Lives.{live-IsValid}
use tauri_plugin_hot_update.System.Serving.{IsServing, StaysServing, served_dir_stays}
use tauri_plugin_hot_update.System.{advance}
use tauri_plugin_hot_update.Prelude.Map
use tauri_plugin_hot_update.System.Pages.{Page, IsCurrent}
use tauri_plugin_hot_update.Machine.{BundleMeta, ota}
use tauri_plugin_hot_update.Runtime.{Activation}
use tauri_plugin_hot_update.System.Signed.{IsDownloadedIn, launched-IsSigned}
use tauri_plugin_hot_update.Tests.Data.{factory}
use tauri_plugin_hot_update.System.Committed.{IsAckedIn, live-committed}
use tauri_plugin_hot_update.Tests.Data.{number_order, two_bundles, waiting}
use tauri_plugin_hot_update.Tests.Codec.{codec}
use tauri_plugin_hot_update.Tests.Pipeline.{config, temporaries, outside}
use tauri_plugin_hot_update.Tests.Pipeline.{code as pipeline_code}
use tauri_plugin_hot_update.Tests.Machine.{code as machine_code}
use tauri_plugin_hot_update.Tests.Runtime.{cold, serving_two}
use tauri_plugin_hot_update.Tests.Runtime.{code as runtime_code}

-- a launch, an ack, a run of the pipeline while another launch of a newer shell follows, and a reset
abbrev life : List (Step ℕ)
life =
    launches 5
    ∷ calls acks
    ∷ calls (downloads outside config temporaries)
    ∷ calls recovers
    ∷ launches 7
    ∷ calls applies
    ∷ calls resets
    ∷ []

waiting-IsValid : IsValid waiting
unfolding machine_code
waiting-IsValid = ground arith

cold-IsValid : IsValid (on_disk codec cold.world)
unfolding runtime_code on_disk
cold-IsValid = waiting-IsValid

live-IsValid_example : IsValid (on_disk codec (live codec life cold).world)
live-IsValid_example = live-IsValid codec life cold cold-IsValid

-- bundle 2 is armed by a launch and acked
abbrev trial : List (Step ℕ)
trial = launches 5 ∷ calls acks ∷ []

-- no process serves anything yet
abbrev no_page : Page
no_page = record { source = none; switched = false }

cold-IsCurrent : IsCurrent cold no_page
cold-IsCurrent f s = refl

live-committed_example :
    ((on_disk codec cold.world).committed ≡ some 2) ⊎ IsAckedIn codec 2 trial cold no_page
unfolding runtime_code live advance perform on_disk
live-committed_example = live-committed codec 2 trial cold no_page cold-IsCurrent refl

-- bundle 2 is served and acked, an update is staged, and a reset deletes all but bundle 2
abbrev day : List (Call ℕ)
day = acks ∷ downloads outside config temporaries ∷ loads true ∷ resets ∷ []

abbrev code : Unit {0}
unfolding runtime_code pipeline_code has_dir has_file perform on_page_load switch
code = tt

launched : App ℕ
launched = initialize codec 5 (record { shared = new_shared; world = two_bundles })

-- the process serves bundle 2 after any of them
abbrev serves_two : (app : App ℕ) → app.shared.activation ≡ some serving_two → IsServing 2 app
serves_two app e = record { activation = serving_two; active = e; serves = refl }

stays : StaysServing codec 2 day launched
unfolding code launched
stays = (serves_two _ refl, (serves_two _ refl, (serves_two _ refl, (serves_two _ refl, tt))))

served_dir_stays_example :
    holds (bundle_name 2) (perform_all codec day launched).world.entries ≡ true
unfolding code launched
served_dir_stays_example =
    served_dir_stays codec 2 (omega arith) 5 two_bundles day cold-IsValid refl stays
      (record { activation = serving_two; active = refl; serves = refl })

-- an install without bundles downloads one, which the next launch serves
abbrev empty : App ℕ
empty = record {
  shared = new_shared;
  world = record { state_json = some (5 ∷ []); state_tmp = none; entries = []; answers = [] };
}

factory-IsValid : IsValid factory
unfolding machine_code
factory-IsValid = ground arith

empty-IsValid : IsValid (on_disk codec empty.world)
unfolding runtime_code on_disk
empty-IsValid = factory-IsValid

abbrev first : List (Step ℕ)
first = launches 5 ∷ calls (downloads outside config temporaries) ∷ []

abbrev serving_first : Activation ℕ
serving_first = record {
  current = record { active = ota 1; active_dir = some (bundle_name 1); active_version = 30 };
  embedded_version = 5;
}

-- after an `apply`, an ack by the page of bundle 2 commits bundle 3, which no page has run
abbrev early_ack : List (Step ℕ)
early_ack =
    calls acks ∷ calls (downloads outside config temporaries) ∷ calls applies ∷ calls acks ∷ []

commits_applied : (on_disk codec (live codec early_ack launched).world).committed ≡ some 3
unfolding code launched live advance on_disk
commits_applied = refl

launched-IsSigned_example :
    (meta : BundleMeta ℕ) × IsDownloadedIn codec 1 meta first empty
    × (Map.get 1
          (on_disk codec (advance codec (launches 5) (live codec first empty)).world).versions
        ≡ some meta)
unfolding code advance live on_disk
launched-IsSigned_example =
    launched-IsSigned codec 1 first empty 5 empty-IsValid refl
      (record { activation = serving_first; active = refl; serves = refl })
