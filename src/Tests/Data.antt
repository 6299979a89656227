-- ===== src/Tests/Data.antt =====
-- Versions for the tests: numbers in their order. States of an install that runs bundle 1 and has
-- bundle 2 on trial or waiting.
use tauri_plugin_hot_update.Prelude.{
  ℕ, String, true, false, none, some, List, [], ◌∷◌, ◌≡◌, leb, arith,
}
use tauri_plugin_hot_update.Version.{Order}
use tauri_plugin_hot_update.Machine.{BundleMeta, State}
use tauri_plugin_hot_update.Store.Disk.{World}
use tauri_plugin_hot_update.Store.Names.{bundle_name}

pub leb_total : (a b : ℕ) → leb a b ≡ false → leb b a ≡ true
leb_total a b h = ground arith

pub leb_trans : (a b c : ℕ) → leb a b ≡ true → leb b c ≡ true → leb a c ≡ true
leb_trans a b c h k = ground arith

pub leb_antisym : (a b : ℕ) → leb a b ≡ true → leb b a ≡ true → a ≡ b
leb_antisym a b h k = ground arith

instance abbrev pub number_order : Order ℕ
number_order = record {
  leb = leb;
  leb_total = leb_total;
  leb_trans = leb_trans;
  leb_antisym = leb_antisym;
}

abbrev pub old_meta : BundleMeta ℕ
old_meta = record { version = 10; archive_sha256 = "aa"; base_version = none }

abbrev pub new_meta : BundleMeta ℕ
new_meta = record { version = 20; archive_sha256 = "bb"; base_version = none }

abbrev pub newest_meta : BundleMeta ℕ
newest_meta = record { version = 30; archive_sha256 = "cc"; base_version = none }

-- bundle 1 is committed, bundle 2 waits
abbrev pub waiting : State ℕ
waiting = record {
  committed = some 1;
  last_good = some 1;
  staged = some 2;
  booting = none;
  booting_strikes = 0;
  failed = [];
  max_version_seen = some 10;
  versions = (1, old_meta) ∷ (2, new_meta) ∷ [];
}

-- bundle 2 was armed and has not acked
abbrev pub armed : State ℕ
armed = record waiting { staged = none; booting = some 2 }

-- bundle 2 has missed one ack
abbrev pub struck : State ℕ
struck = record armed { booting_strikes = 1 }

abbrev pub disk : List ℕ
disk = 1 ∷ 2 ∷ []

-- bundle 2 has acked, and bundle 1 is gone
abbrev pub acked : State ℕ
acked = record {
  committed = some 2;
  last_good = some 2;
  staged = none;
  booting = none;
  booting_strikes = 0;
  failed = [];
  max_version_seen = some 20;
  versions = (2, new_meta) ∷ [];
}

-- after a reset, with embedded version 5
abbrev pub factory : State ℕ
factory = record {
  committed = none;
  last_good = none;
  staged = none;
  booting = none;
  booting_strikes = 0;
  failed = [];
  max_version_seen = some 5;
  versions = [];
}

-- `state.json` holds `waiting` (1 in the codec of the tests), and both bundles have directories
abbrev pub two_bundles : World
two_bundles = record {
  state_json = some (1 ∷ []);
  state_tmp = none;
  entries =
      record { name = bundle_name 1; is_dir = true }
      ∷ record { name = bundle_name 2; is_dir = true }
      ∷ [];
  answers = [];
}

abbrev pub full_sha : String
full_sha = "00112233445566778899aabbccddeeff00112233445566778899aabbccddeeff"

-- bundle 2 runs, and bundle 3, version 30, waits
abbrev pub updated : State ℕ
updated = record acked {
  staged = some 3;
  versions =
      (2, new_meta)
      ∷ (3, record { version = 30; archive_sha256 = full_sha; base_version = none })
      ∷ [];
}

-- bundle 3 is on trial
abbrev pub recovering : State ℕ
recovering = record updated { staged = none; booting = some 3 }

-- bundle 3 has acked
abbrev pub recovered : State ℕ
recovered = record acked {
  committed = some 3;
  last_good = some 3;
  max_version_seen = some 30;
  versions = (3, record { version = 30; archive_sha256 = full_sha; base_version = none }) ∷ [];
}

-- an install without bundles has staged its first one
abbrev pub first_staged : State ℕ
first_staged = record factory {
  staged = some 1;
  versions = (1, record { version = 30; archive_sha256 = full_sha; base_version = none }) ∷ [];
}

-- its first bundle is on trial
abbrev pub first_armed : State ℕ
first_armed = record first_staged { staged = none; booting = some 1 }
