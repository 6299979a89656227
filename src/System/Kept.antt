-- ===== src/System/Kept.antt =====
-- What a call of the runtime interface (src/runtime.rs) leaves of the bundle that the process serves:
-- its directory, and that it is not the staged one.
use tauri_plugin_hot_update.Prelude.{ℕ, ◌^◌, ◌<◌, true, false, List, ◌≡◌, refl, inl, inr, ap, ◌∙◌}
use tauri_plugin_hot_update.Prelude.Result.{Result, ok, err}
use tauri_plugin_hot_update.Version.{Order}
use tauri_plugin_hot_update.Machine.{State, ota, Effect, fresh}
use tauri_plugin_hot_update.Machine.Boot.Sweep.{deletes}
use tauri_plugin_hot_update.Machine.Session
use tauri_plugin_hot_update.Machine.Session.{AckOutcome, ApplyDecision, ack, promote_staged, reset}
use tauri_plugin_hot_update.Machine.Session.Spares.{
  is_unstaged, ack-unstaged, ack-spares, promote_staged-spares,
}
use tauri_plugin_hot_update.Store.{Codec, load_state, update, present_seqs, apply_effects}
use tauri_plugin_hot_update.Store.Disk.{World, IoError, read_bundles}
use tauri_plugin_hot_update.Store.Names.{bundle_name}
use tauri_plugin_hot_update.Store.Keeping.{holds, holds-apply_effects, holds-sweep_foreign_entries}
use tauri_plugin_hot_update.Store.Persist.{
  on_disk, on_disk_json, after, load_state-cases, load_state-on_disk, update_atomic,
}
use tauri_plugin_hot_update.Runtime.{
  App, Shared, Activation, finish_ack, finish_apply, switch_to, after_promotion, finish_reset,
  ack_page, apply_active,
}
use tauri_plugin_hot_update.Runtime.Booting.{on_disk-clean, state_json-present_seqs}
use tauri_plugin_hot_update.Runtime.Calls.{on_disk-apply_effects}

module _ {V : Type 0} ⦃o : Order V⦄ (c : Codec V) (q : ℕ) where
  pub record IsKept (w : World) : Type 0 where
    pub held : holds (bundle_name q) w.entries ≡ true
    pub unstaged : is_unstaged q (on_disk c w) ≡ true

  fresh-unstaged : is_unstaged q (fresh {V = V}) ≡ true
  unfolding fresh
  fresh-unstaged = refl

  loaded-unstaged : (w : World) → IsKept w → is_unstaged q (load_state c w).0 ≡ true
  loaded-unstaged w h = elim (load_state-cases c w) [
    | inl e ↦ rw e h.unstaged
    | inr e ↦ rw e fresh-unstaged
  ]

  after-unstaged {ℓ κ} :
      {E : Type ℓ} {T : Type κ} (r : Result E T) (new old : State V)
      → is_unstaged q new ≡ true
      → is_unstaged q old ≡ true
      → is_unstaged q (after r new old) ≡ true
  after-unstaged (ok x) new old n h = n
  after-unstaged (err x) new old n h = h

  -- a world with the same state file and the same entries
  pub IsKept-same :
      (w w' : World) → w.state_json ≡ w'.state_json → w.entries ≡ w'.entries → IsKept w' → IsKept w
  IsKept-same w w' e k h = record {
    held = rw k h.held;
    unstaged = rw (on_disk_json c w w' e) h.unstaged;
  }

  pub IsKept-load_state : (w : World) → IsKept w → IsKept (load_state c w).1
  IsKept-load_state w h =
      let (_, json, same) = load_state-on_disk c w in IsKept-same (load_state c w).1 w json same h

  -- What an update keeps, and what it answers if it succeeds.
  pub update-IsKept :
      {T : Type 0} (transition : State V → State V × T) (w : World)
      → ((s : State V) → is_unstaged q s ≡ true → is_unstaged q (transition s).0 ≡ true)
      → IsKept w
      → IsKept (update c transition w).1
        × ((out : T)
            → (update c transition w).0 ≡ ok out
            → (s : State V) × (is_unstaged q s ≡ true) × (out ≡ (transition s).1))
  update-IsKept transition w keeps h =
      let (disk, same, answers) = update_atomic c transition w in
      let s = (load_state c w).0 in
      let loaded : is_unstaged q s ≡ true = loaded-unstaged w h in
      (
        record {
          held = rw same h.held;
          unstaged = rw disk (
              after-unstaged (update c transition w).0 (transition s).0 (on_disk c w)
                (keeps s loaded) h.unstaged);
        },
        λ out e. (s, loaded, answers out e),
      )

  pub IsKept-apply_effects :
      (es : List Effect) (w : World) → deletes q es ≡ false → IsKept w → IsKept (apply_effects es w)
  IsKept-apply_effects es w d h = record {
    held = holds-apply_effects q es w d h.held;
    unstaged = rw (on_disk-apply_effects c es w) h.unstaged;
  }

  finish_ack-IsKept :
      (r : Result IoError (AckOutcome × List Effect)) (sh : Shared V) (w : World)
      → ((out : AckOutcome) (es : List Effect) → r ≡ ok (out, es) → deletes q es ≡ false)
      → IsKept w
      → IsKept (finish_ack c r sh w).1.world
  finish_ack-IsKept (ok (out, es)) sh w d h = IsKept-apply_effects es w (d out es refl) h
  finish_ack-IsKept (err e) sh w d h = h

  pub ack_page-IsKept :
      (a : Activation V) (app : App V)
      → a.current.active ≡ ota q
      → IsKept app.world
      → IsKept (ack_page c a app).1.world
  unfolding ack_page
  ack_page-IsKept a app served h =
      let transition : State V → State V × (AckOutcome × List Effect) =
        λ s. let acked = ack s a.current.active in (acked.0, (acked.1, acked.2)) in
      let (r, w) = update c transition app.world in
      let (kept, answers) =
        update-IsKept transition app.world (λ s v. ack-unstaged q s a.current.active v) h in
      finish_ack-IsKept r (record app.shared { page_acked = true }) w
        (λ out es e.
          let (s, _, k) = answers (out, es) e in
          ap (λ (x : AckOutcome × List Effect). deletes q x.1) k
          ∙ ap (λ x. deletes q (ack s x).2) served
          ∙ ack-spares q s)
        kept

  finish_apply-IsKept :
      (d : ApplyDecision V) (a : Activation V) (app : App V)
      → IsKept app.world
      → IsKept (finish_apply c d a app).1.world
  unfolding switch_to
  finish_apply-IsKept (Session.applied seq) a app h = IsKept-load_state app.world h
  finish_apply-IsKept Session.nothing_staged a app h = h
  finish_apply-IsKept Session.trial_pending a app h = h
  finish_apply-IsKept Session.discarded a app h = h
  finish_apply-IsKept (Session.base_refused r) a app h = h

  after_promotion-IsKept :
      (r : Result IoError (ApplyDecision V × List Effect)) (a : Activation V) (sh : Shared V)
      (w : World)
      → ((d : ApplyDecision V) (es : List Effect) → r ≡ ok (d, es) → deletes q es ≡ false)
      → IsKept w
      → IsKept (after_promotion c r a sh w).1.world
  after_promotion-IsKept (err e) a sh w n h = h
  after_promotion-IsKept (ok (d, es)) a sh w n h =
      finish_apply-IsKept d a (record { shared = sh; world = apply_effects es w })
        (IsKept-apply_effects es w (n d es refl) h)

  pub apply_active-IsKept :
      (a : Activation V) (app : App V) → IsKept app.world → IsKept (apply_active c a app).1.world
  unfolding apply_active
  apply_active-IsKept a app h =
      let (present, w) = present_seqs app.world in
      let transition : State V → State V × (ApplyDecision V × List Effect) = λ s.
        let promoted = promote_staged s a.embedded_version present in
        (promoted.0, (promoted.1, promoted.2)) in
      let (r, w') = update c transition w in
      let (kept, answers) =
        update-IsKept transition w
          (λ s v. (promote_staged-spares q s a.embedded_version present v).0)
          (IsKept-same w app.world (state_json-present_seqs app.world)
            (unfold present_seqs read_bundles in refl) h) in
      after_promotion-IsKept r a app.shared w'
        (λ d es e.
          let (s, v, k) = answers (d, es) e in
          ap (λ (x : ApplyDecision V × List Effect). deletes q x.1) k
          ∙ (promote_staged-spares q s a.embedded_version present v).1)
        kept

  pub finish_reset-IsKept :
      (r : Result IoError (List Effect)) (sh : Shared V) (w : World)
      → q < 2 ^ 64
      → ((es : List Effect) → r ≡ ok es → deletes q es ≡ false)
      → IsKept w
      → IsKept (finish_reset c r sh w).1.world
  finish_reset-IsKept (ok es) sh w b d h = record {
    held =
        holds-sweep_foreign_entries q (apply_effects es w) b
          (holds-apply_effects q es w (d es refl) h.held);
    unstaged = rw (on_disk-clean c es w) h.unstaged;
  }
  finish_reset-IsKept (err e) sh w b d h = h
