-- ===== src/Recovery/Rounds.antt =====
-- The attempts of boot recovery (src/recovery.rs).
use tauri_plugin_hot_update.Prelude.{
  ℕ, ◌+◌, ◌≤◌, ◌<◌, Bool, true, false, ◌&&◌, List, [], ◌∷◌, ◌≡◌, refl, arith, suc, Bool-cases,
  List-cases, inl, inr, some,
}
use tauri_plugin_hot_update.Prelude.Lists.{length, get_elem?}
use tauri_plugin_hot_update.Version.{Order}
use tauri_plugin_hot_update.Store.{Codec}
use tauri_plugin_hot_update.Runtime.{App}
use tauri_plugin_hot_update.Update.Pipeline.{UpdateConfig}
use tauri_plugin_hot_update.Recovery.{
  Recovery, is_failed, Surroundings, Window, Passes, recover_once, attempts, ended, before, run,
  retry_delays,
}

abbrev pub sum : List ℕ → ℕ
sum [] = 0
sum (x ∷ xs) = x + sum xs

-- every pass but the last one fails
abbrev pub only_last_ends : {V : Type 0} → List (Recovery V) → Bool
only_last_ends [] = false
only_last_ends (r ∷ []) = true
only_last_ends (r ∷ s ∷ rs) = is_failed r && only_last_ends (s ∷ rs)

abbrev pub last_failed : {V : Type 0} → List (Recovery V) → Bool
last_failed [] = true
last_failed (r ∷ []) = is_failed r
last_failed (r ∷ s ∷ rs) = last_failed (s ∷ rs)

module _ {V : Type 0} ⦃o : Order V⦄ (c : Codec V) (config : UpdateConfig)
    (around : ℕ → Surroundings V) (windows : ℕ → List Window) where
  -- what is wanted of the passes from an attempt on, of which `most` are left
  record IsBounded (most total : ℕ) (p : Passes V) : Type 0 where
    few : length p.outcomes ≤ most
    some_pass : 0 < length p.outcomes
    paired : length p.waits ≡ length p.outcomes
    short : sum p.waits ≤ total
    ordered : only_last_ends p.outcomes ≡ true
    exhausted : last_failed p.outcomes ≡ true → length p.outcomes ≡ most

  ended-IsBounded :
      (most attempt wait total : ℕ) (r : Recovery V) (app : App V)
      → (is_failed r ≡ true → most ≡ 0)
      → wait ≤ total
      → IsBounded (most + 1) total (ended c config around windows attempt wait (r, app))
  ended-IsBounded most attempt wait total r app h l = record {
    few = omega arith;
    some_pass = omega arith;
    paired = refl;
    short = omega arith;
    ordered = refl;
    exhausted = λ f. omega (arith, h f);
  }

  before-IsBounded :
      (r : Recovery V) (most total wait : ℕ) (p : Passes V)
      → is_failed r ≡ true
      → IsBounded most total p
      → IsBounded (most + 1) (wait + total) (before r wait p)
  before-IsBounded r most total wait p f i = elim (List-cases p.outcomes) [
    | inl e ↦ absurd (ground (arith, i.some_pass))
    | inr (s, rs, e) ↦ record {
      few = omega (arith, i.few);
      some_pass = omega arith;
      paired = ground (arith, i.paired);
      short = omega (arith, i.short);
      ordered = ground (arith, i.ordered);
      exhausted = λ l. ground (arith, i.exhausted);
    }
  ]

  attempts-IsBounded :
      (rounds attempt wait next most total : ℕ) (app : App V)
      → get_elem? retry_delays attempt ≡ some next
      → ((app' : App V)
          → IsBounded
              (most + 1)
              total
              (attempts c config around windows rounds (attempt + 1) next app'))
      → IsBounded
          (most + 1 + 1)
          (wait + total)
          (attempts c config around windows (suc rounds) attempt wait app)
  unfolding attempts
  attempts-IsBounded rounds attempt wait next most total app g h =
      let (r, app') = recover_once c config (around attempt) app in
      elim (Bool-cases (is_failed r)) [
        | inl y ↦ rw (y, g, attempts) (before-IsBounded r (most + 1) total wait _ y (h app'))
        | inr n ↦
            rw (n, attempts)
              (ended-IsBounded (most + 1) attempt wait (wait + total) r app'
                (λ y. absurd (ground arith)) (omega arith))
      ]

  last-IsBounded :
      (attempt wait : ℕ) (app : App V)
      → IsBounded 1 wait (attempts c config around windows 0 attempt wait app)
  unfolding attempts
  last-IsBounded attempt wait app =
      let (r, app') = recover_once c config (around attempt) app in
      ended-IsBounded 0 attempt wait wait r app' (λ y. refl) (omega arith)

  run-IsBounded :
      (after : ℕ) (app : App V) → IsBounded 4 (after + 105) (run c config around windows after app)
  unfolding run
  run-IsBounded after app = attempts-IsBounded 2 0 after 15 2 105 app refl λ app₁.
      attempts-IsBounded 1 1 15 30 1 90 app₁ refl
        λ app₂. attempts-IsBounded 0 2 30 60 0 60 app₂ refl λ app₃. last-IsBounded 3 60 app₃

  -- Boot recovery ends after at most four passes, having waited for at most the first delay and 105
  -- seconds. It goes on only after a pass that failed, and gives up on a failure only after the
  -- fourth pass.
  pub run_ends :
      (after : ℕ) (app : App V)
      → let passes = run c config around windows after app in
        (length passes.outcomes ≤ 4)
        × (length passes.waits ≡ length passes.outcomes)
        × (sum passes.waits ≤ after + 105)
        × (only_last_ends passes.outcomes ≡ true)
        × (last_failed passes.outcomes ≡ true → length passes.outcomes ≡ 4)
  unfolding run
  run_ends after app =
      let i = run-IsBounded after app in (i.few, i.paired, i.short, i.ordered, i.exhausted)
