-- ===== src/Lib.antt =====
-- A verification library for tauri-plugin-hot-update, the plugin that serves the frontend of a
-- Tauri app from a downloaded bundle and falls back to the embedded one when a bundle fails.
--
-- The parts, and the files that model them:
--
-- `Machine` (src/machine.rs): the rollback state machine, which is pure in the source too. `State`
-- keeps the pointers `committed`, `last_good`, `staged` and `booting`, the strikes of the bundle on
-- trial, the blacklist of archive hashes, the version watermark and the metadata of each bundle.
-- `Machine.Boot` is `resolve_boot`, its six numbered steps as six functions; `Machine.Session` is
-- `ack`, `promote_staged`, `stage` and `reset`. `Machine.Invariant` says when a state is well
-- formed, and `Machine.Traces` runs the transitions in any order, as lists of events.
--
-- `Store` (src/store.rs): the state file and the bundle directories. `Store.Disk` is the part of
-- the file system that the store works on, with the calls it makes; `Store.Names` the names of the
-- directories and the printer and parser of `u64` behind them.
--
-- `Runtime` (src/runtime.rs): `initialize`, `notify_app_ready`, `current_bundle`, `apply_staged`
-- and `reset`, each of which loads the state, runs a transition, persists the result, and only then
-- deletes directories and changes what is served. `reset_all` is the method `reset`, `initialize`
-- takes the world in place of the root directory.
--
-- `Download` (src/download.rs): the fetch of a small file within a limit, and the download of an
-- archive into a file, with its count and its hash.
--
-- `Manifest` (src/manifest.rs): the schema of the manifest and its `baseVersion`; `Manifest.Verify`
-- is `verify_and_parse` with the checks around it.
--
-- `Update` (src/update.rs): the gate that answers a verified manifest before its archive is
-- downloaded; `Update.Pipeline` is `check` and `check_and_download`, which join the download, the
-- manifest, the gate, the extraction, the store and the state machine. Each early return of the
-- source is a clause of a function named for the step before it (`after_create`, `after_rename` and
-- so on), and the removal of the temporary files where the source drops them is written out.
--
-- `Config` (src/config.rs): the configuration and its validation. `Recovery` (src/recovery.rs): one
-- pass of boot recovery, and the loop over the passes.
--
-- `Assets` (src/assets.rs): which file a key is served from, and which hashes go with it.
-- `Commands` (src/commands.rs): the six IPC commands over the methods of the runtime and the
-- pipeline, and the throttle of the progress events. `Plugin` (src/lib.rs): the setup hook, which
-- validates the configuration, initialises the runtime and starts boot recovery, the page-load
-- hook, and `install`.
--
-- `System` joins them: the calls that an app can make of src/runtime.rs, src/update.rs,
-- src/recovery.rs and src/lib.rs, in any order and over any number of launches. `System.Stored` and
-- `System.Lives` carry what the transitions of `Machine` keep over to the state on disk, with
-- `Machine.Metadata` for the metadata of bundles. `Update.Keeps` says what a run of the pipeline
-- keeps, from what its calls of the file system keep, and `Store.Keeping` and
-- `Machine.Session.Spares` what the deletions and the transitions leave of one bundle.
--
-- `Sign` (src/sign.rs): the signing of a release on the publisher's machine. A dist directory is a
-- tree (`Listing`), and what the file system, tar, minisign and JSON come to is the record
-- `Publisher`; what is handed to tar is a `TarEntry`, with the header fields that the source sets.
-- `SignTool` (src/bin/hot-update-sign.rs) is the command line of the tool.
--
-- `Extract` (src/extract.rs): `safe_join`, which decides where the entry of an archive may land,
-- over `Paths`, the components of a path as the standard library has them on Unix;
-- `Extract.Entries` is the loop of `extract_with_limits` over the entries, with its checks and its
-- writes, and `Extract.Reader` the reader that counts what comes out of the decoder. `Extract.Whole`
-- describes what an archive without errors comes to on disk.
--
-- `Error` (src/error.rs, and `ExtractError` of src/extract.rs) has the errors that these parts pass
-- to each other. `Version` is the interface of the semver crate. `Prelude` has the shared tests,
-- sets, maps, texts and results. `Tests` has the concrete runs.
--
-- How the model stands to the code:
--
-- Versions are a parameter `V` with a total order (`Order`), which is what the crate documents of
-- `semver::Version`. `serde_json` is a parameter of the store (`Codec`): what it writes it reads
-- back, for every state. The `baseVersion` of a state comes from a parsed manifest or state, so that
-- one which is kept as invalid has a text that is no version; for any other invalid text the round
-- trip is asked for but the crate does not give it. Hashes are strings that are compared; nothing is assumed of them.
--
-- What `reqwest` delivers is a parameter: a request has no response, or a status and the chunks of
-- the body, any of which may fail to arrive. The digest sha256 is a parameter too. The count of the
-- bytes of an archive is a `u64` with its wrap-around; the theorem about accepted archives asks for
-- a size and chunks below 2 ^ 63, which leaves the sum below 2 ^ 64.
--
-- The gzip decoder and the tar reader are third-party: what they yield is a list of entries and
-- errors, and an error carries whether the cap of `CappedReader` had been exceeded. The bytes of an
-- entry are apart from the size in its header block: tar gives an entry the size of a PAX record
-- where there is one. An extraction yields the files that it has written; in the world a directory
-- is only its name.
--
-- A file-system call takes its answer from a list that the world carries, and succeeds when the
-- list is empty. A theorem about all worlds therefore covers every pattern of failing calls, a
-- write that stops half way included. A crash is an answer list that fails from some call on. A
-- listing of `bundles/` is complete or fails as a whole, which leaves out an entry that fails on
-- its own (`flatten` skips it). A rename onto an entry of `bundles/` that is there fails. This leaves
-- out a directory without entries, which an archive without entries gives and which `fs::rename`
-- replaces on Unix. Names are lists of code points, and `seq-` with the decimal
-- number is what `format!` writes.
--
-- `u64` numbers are natural numbers; `allocate_seq` writes out the wrap-around of `+ 1`, as a build
-- without overflow checks has it, and the theorems on names ask for numbers below 2 ^ 64. The
-- printer of `u64` runs on rounds of division: `suc n` rounds are enough for `n`, since each
-- division by ten makes the number smaller, which the round trip proves. All other functions
-- recurse on their lists.
--
-- The pipeline takes the outside as a record `Outside`: the network, the digest, gzip with tar,
-- minisign (`Minisign`) and the JSON parser are functions in it; nothing is assumed of them. The
-- random part of the name of a temporary file is an argument. Boot recovery waits for the network
-- while other calls of the process may run: its argument `meanwhile` is any change of the process
-- and of the world, between the download and the gate. The loop of `run` has at most four passes in
-- the source, and the model counts them down from three retries; a wait is a number of seconds.
--
-- The commands take the managed configuration and the process. The throttle reads a clock twice in
-- a call, and both readings are arguments; a time is a number of milliseconds. The provider takes
-- the files on disk (`Files`) and the assets compiled into the app (`Embedded`) as functions, so a
-- file may vanish between `is_file` and the read. The setup hook takes what Tauri tells it as a
-- record (`Launch`) and returns what it manages and spawns (`Plugin`). The context of Tauri that
-- `install` changes is a record (`Contexts`) with what is documented of `set_assets`: it returns
-- the assets that were there, and the new ones take their place.
--
-- The arguments of the signing tool are texts, a path among them, and an error is the case with
-- what its message names. The parser of semver, the directory at a path and the loading of the key
-- are the record `Host`.
--
-- The locks of the source (`write_lock`, `gate`, `update_lock`, the `RwLock` of `current`) are left
-- out: a method is one step from a process and a world to a process and a world. In the source this
-- is so of the single updates of the state, which `write_lock` and `gate` keep apart, and of two runs
-- of the pipeline, which `update_lock` keeps apart. An ack, an apply or a reset may come in the middle
-- of a run of the pipeline there; among whole calls such orders are left out, but for the calls during
-- a pass of boot recovery (`meanwhile`).
--
-- A page is the source that the webview has loaded, with whether an `apply` has switched since
-- (`System.Pages`). A page is loaded when a process starts and when `on_page_load` reports a start. Log messages are left out.
--
-- Not modelled: the registration of the hooks and the commands with Tauri (src/lib.rs), the HTTP
-- client of `reqwest` that `http_client` builds (src/download.rs), and the fixtures of the tests
-- (src/testutil.rs). The guest bindings and permissions only forward calls.
pub mod Prelude
pub mod Version
pub mod Manifest
pub mod Machine
pub mod Sign
pub mod SignTool
pub mod Store
pub mod Error
pub mod Runtime
pub mod System
pub mod Update
pub mod Assets
pub mod Commands
pub mod Config
pub mod Plugin
pub mod Recovery
pub mod Download
pub mod Paths
pub mod Extract
mod Tests
