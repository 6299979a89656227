-- ===== src/System/Serving.antt =====
-- The bundle that a process serves, from its launch on: src/runtime.rs, src/recovery.rs and
-- src/update.rs together.
use tauri_plugin_hot_update.Prelude.{
  ℕ, ◌^◌, ◌<◌, true, false, none, some, List, [], ◌∷◌, ◌≡◌, refl, arith, ◌⊎◌, inl, inr, ap, ◌∙◌,
}
use tauri_plugin_hot_update.Prelude.Result.{Result, ok, err}
use tauri_plugin_hot_update.Version.{Order}
use tauri_plugin_hot_update.Machine.{State, ota}
use tauri_plugin_hot_update.Machine.Boot.{BootOutcome, resolve_boot}
use tauri_plugin_hot_update.Machine.Boot.Sweep.{deletes}
use tauri_plugin_hot_update.Machine.Boot.Serving.{resolve_boot-serves_present}
use tauri_plugin_hot_update.Machine.Invariant.{IsValid}
use tauri_plugin_hot_update.Machine.Session.Spares.{is_unstaged}
use tauri_plugin_hot_update.Store.{Codec, load_state, save_state, present_seqs, apply_effects}
use tauri_plugin_hot_update.Store.Disk.{World, IoError, read_bundles}
use tauri_plugin_hot_update.Store.Names.{bundle_name}
use tauri_plugin_hot_update.Store.Keeping.{holds, holds-apply_effects, holds-sweep_foreign_entries}
use tauri_plugin_hot_update.Store.Persist.{on_disk, load_state-on_disk, save_state_atomic}
use tauri_plugin_hot_update.Runtime.{App, Activation, served, boot_from, initialize, current_of}
use tauri_plugin_hot_update.Runtime.Booting.{initialize-persisted, Active-cases}
use tauri_plugin_hot_update.Plugin.{on_page_load}
use tauri_plugin_hot_update.Update.Keeps.{kept-check_and_download, kept-check_call}
use tauri_plugin_hot_update.System.{
  Call, acks, applies, resets, recovers, loads, checks, downloads, new_shared, perform, perform_all,
  launches, advance,
}
use tauri_plugin_hot_update.System.Lives.{advance-IsValid}
use tauri_plugin_hot_update.System.Kept.{IsKept, IsKept-load_state}
use tauri_plugin_hot_update.System.Calls.{
  notify_app_ready-IsKept, apply_staged-IsKept, reset_all-IsKept, switch-IsKept, pipeline-IsKept,
}

module _ {V : Type 0} where
  -- the process serves the bundle
  pub record IsServing (q : ℕ) (app : App V) : Type 0 where
    pub activation : Activation V
    pub active : app.shared.activation ≡ some activation
    pub serves : activation.current.active ≡ ota q

module _ {V : Type 0} ⦃o : Order V⦄ (c : Codec V) (q : ℕ) (b : q < 2 ^ 64) where
  perform-IsKept :
      (call : Call V) (app : App V)
      → IsServing q app
      → IsKept c q app.world
      → IsKept c q (perform c call app).world
  unfolding perform on_page_load
  perform-IsKept acks app s h = notify_app_ready-IsKept c q s.activation app s.active s.serves h
  perform-IsKept applies app s h = apply_staged-IsKept c q app h
  perform-IsKept resets app s h = reset_all-IsKept c q s.activation app b s.active s.serves h
  perform-IsKept recovers app s h = switch-IsKept c q app h
  perform-IsKept (loads true) app s h = h
  perform-IsKept (loads false) app s h = h
  perform-IsKept (checks x config) app s h =
      kept-check_call c x (IsKept c q) (λ w v. IsKept-load_state c q w v) config app h
  perform-IsKept (downloads x config names) app s h =
      kept-check_and_download c x names config (IsKept c q) (pipeline-IsKept c q x names config) app
        h

-- the process serves the bundle before every one of the calls
abbrev pub StaysServing : {V : Type 0} ⦃o : Order V⦄ → Codec V → ℕ → List (Call V) → App V → Type 0
StaysServing c q [] app = Unit
StaysServing c q (call ∷ cs) app = IsServing q app × StaysServing c q cs (perform c call app)

module _ {V : Type 0} ⦃o : Order V⦄ (c : Codec V) (q : ℕ) (b : q < 2 ^ 64) where
  perform_all-IsKept :
      (cs : List (Call V)) (app : App V)
      → StaysServing c q cs app
      → IsKept c q app.world
      → IsKept c q (perform_all c cs app).world
  unfolding perform_all
  perform_all-IsKept [] app s h = h
  perform_all-IsKept (call ∷ cs) app s h =
      perform_all-IsKept cs (perform c call app) s.1 (perform-IsKept c q b call app s.0 h)

  entries-present_seqs : (w : World) → (present_seqs w).1.entries ≡ w.entries
  unfolding present_seqs read_bundles
  entries-present_seqs w = refl

  served-holds :
      (r : Result IoError (Unit {0})) (outcome : BootOutcome V) (w : World)
      → (outcome.active ≡ ota q → deletes q outcome.effects ≡ false)
      → (served c r outcome w).0 ≡ ota q
      → holds (bundle_name q) w.entries ≡ true
      → holds (bundle_name q) (served c r outcome w).1.entries ≡ true
  served-holds (ok _) outcome w d e h =
      holds-sweep_foreign_entries q (apply_effects outcome.effects w) b
        (holds-apply_effects q outcome.effects w (d e) h)
  served-holds (err x) outcome w d e h = h

  boot_from-holds :
      (shell : V) (w : World)
      → (boot_from c shell w).0 ≡ ota q
      → holds (bundle_name q) w.entries ≡ true
      → holds (bundle_name q) (boot_from c shell w).2.entries ≡ true
  unfolding boot_from
  boot_from-holds shell w e h =
      let (s, w₁) = load_state c w in
      let (present, w₂) = present_seqs w₁ in
      let outcome = resolve_boot s shell present in
      let (saved, w₃) = save_state c outcome.state w₂ in
      let same : w₃.entries ≡ w.entries =
        (save_state_atomic c outcome.state w₂).1
        ∙ entries-present_seqs w₁
        ∙ (load_state-on_disk c w).2 in
      served-holds saved outcome w₃
        (λ k. let (_, _, _, _, spared) = resolve_boot-serves_present s shell present q k in spared)
        e (rw same h)

  pointed-unstaged :
      (s : State V)
      → IsValid s
      → (s.booting ≡ some q) ⊎ (s.committed ≡ some q)
      → is_unstaged q s ≡ true
  pointed-unstaged s h (inl e) = ground (arith, h.staged_apart)
  pointed-unstaged s h (inr e) = ground (arith, h.staged_apart)

  initialize-holds :
      (shell : V) (app : App V)
      → app.shared.activation ≡ none
      → IsServing q (initialize c shell app)
      → holds (bundle_name q) app.world.entries ≡ true
      → holds (bundle_name q) (initialize c shell app).world.entries ≡ true
  unfolding initialize current_of
  initialize-holds shell app n s h =
      let active = s.active in
      let serves = s.serves in
      elim (Active-cases (boot_from c shell app.world).0) [
        | inl m ↦ absurd (ground arith)
        | inr (r, m) ↦
            let same : r ≡ q = ground arith in boot_from-holds shell app.world (m ∙ ap ota same) h
      ]

  launched-IsKept :
      (shell : V) (w : World)
      → IsValid (on_disk c w)
      → holds (bundle_name q) w.entries ≡ true
      → IsServing q (initialize c shell (record { shared = new_shared; world = w }))
      → IsKept c q (initialize c shell (record { shared = new_shared; world = w })).world
  launched-IsKept shell w v h s =
      let app : App V = record { shared = new_shared; world = w } in
      let (_, pointed) = initialize-persisted c shell app s.activation q refl s.active s.serves in
      record {
        held = initialize-holds shell app refl s h;
        unstaged =
            pointed-unstaged (on_disk c (initialize c shell app).world)
              (unfold advance in advance-IsValid c (launches shell) app v) pointed;
      }

  -- From its launch on, as long as a process serves a bundle, the directory of that bundle stays,
  -- whatever calls are made, whatever they are answered from outside, and wherever a call of the
  -- operating system fails. The state on disk was well formed before the launch, and the bundle's
  -- directory was there with no file of its name. The seq is a `u64`.
  pub served_dir_stays :
      (shell : V) (w : World) (cs : List (Call V))
      → IsValid (on_disk c w)
      → holds (bundle_name q) w.entries ≡ true
      → StaysServing c q cs (initialize c shell (record { shared = new_shared; world = w }))
      → IsServing q (initialize c shell (record { shared = new_shared; world = w }))
      → holds
          (bundle_name q)
          (perform_all c cs
            (initialize c shell (record { shared = new_shared; world = w }))).world.entries
        ≡ true
  served_dir_stays shell w cs v h s k =
      let app = initialize c shell (record { shared = new_shared; world = w }) in
      (perform_all-IsKept cs app s (launched-IsKept shell w v h k)).held
