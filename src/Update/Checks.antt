-- ===== src/Update/Checks.antt =====
-- `check` beside `check_and_download` (src/update.rs).
use tauri_plugin_hot_update.Prelude.{
  Option, none, some, ◌≡◌, ◌≢◌, refl, arith, sym, ap, inl, inr, Option-cases,
}
use tauri_plugin_hot_update.Prelude.Result.{Result, ok, err}
use tauri_plugin_hot_update.Version.{Order}
use tauri_plugin_hot_update.Error.{Error}
use tauri_plugin_hot_update.Manifest.{Manifest}
use tauri_plugin_hot_update.Store.{Codec, load_state}
use tauri_plugin_hot_update.Store.Persist.{on_disk, on_disk-load_state}
use tauri_plugin_hot_update.Runtime.{Activation, App}
use tauri_plugin_hot_update.Update
use tauri_plugin_hot_update.Update.{UpdateOutcome, meta_of, gate}
use tauri_plugin_hot_update.Update.Pipeline.{
  UpdateConfig, Outside, TempNames, offer, download_offered, fetch_with_client, check_active, check,
  after_fetch, after_check, download_active, check_and_download,
}

module _ {V : Type 0} ⦃o : Order V⦄ (c : Codec V) (x : Outside V) where
  refusal_of_offer :
      (m : Manifest V) (g : Option (UpdateOutcome V)) (out : UpdateOutcome V)
      → offer m g ≡ out
      → ((n : Manifest V) → out ≢ Update.available n)
      → g ≡ some out
  refusal_of_offer m none out e n = absurd (n m (sym e))
  refusal_of_offer m (some r) out e n = ap some e

  after_check-after_fetch :
      (names : TempNames) (a : Activation V) (app : App V) (r : Result (Error V) (Manifest V))
      (out : UpdateOutcome V)
      → (after_check c x a app r).0 ≡ ok out
      → ((n : Manifest V) → out ≢ Update.available n)
      → (after_fetch c x names a app r).0 ≡ ok out
  unfolding download_offered
  after_check-after_fetch names a app (err e) out h n = cc
  after_check-after_fetch names a app (ok m) out h n =
      let s = (load_state c app.world).0 in
      let refused = refusal_of_offer m (gate m s a.embedded_version) out (ground arith) n in
      rw refused refl

  check_kept :
      (a : Activation V) (app : App V) (r : Result (Error V) (Manifest V))
      → (on_disk c (after_check c x a app r).1.world ≡ on_disk c app.world)
        × ((after_check c x a app r).1.shared ≡ app.shared)
  check_kept a app (err e) = (refl, refl)
  check_kept a app (ok m) = (on_disk-load_state c app.world, refl)

  -- `check` leaves the state on disk and the process alone, and a refusal that it answers is what
  -- `check_and_download` would answer in its place.
  pub check-check_and_download :
      (config : UpdateConfig) (names : TempNames) (app : App V)
      → (on_disk c (check c x config app).1.world ≡ on_disk c app.world)
        × ((check c x config app).1.shared ≡ app.shared)
        × ((out : UpdateOutcome V)
            → (check c x config app).0 ≡ ok out
            → ((n : Manifest V) → out ≢ Update.available n)
            → (check_and_download c x config names app).0 ≡ ok out)
  unfolding check check_and_download check_active download_active
  check-check_and_download config names app = elim (Option-cases app.shared.activation) [
    | inl e ↦ (ground arith, ground arith, λ out h n. absurd (ground arith))
    | inr (a, e) ↦
        let r = fetch_with_client x config in
        let kept = check_kept a app r in
        (
          ground (arith, kept),
          ground (arith, kept),
          λ out h n. ground (arith, after_check-after_fetch names a app r out (ground arith) n),
        )
  ]
