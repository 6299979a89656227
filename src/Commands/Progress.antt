-- ===== src/Commands/Progress.antt =====
-- The progress events of a download (src/commands.rs).
use tauri_plugin_hot_update.Prelude.{
  ℕ, suc, ◌+◌, ◌*◌, ◌≤◌, Bool, true, false, some, List, [], ◌∷◌, ◌≡◌, refl, arith, leb,
}
use tauri_plugin_hot_update.Commands.{
  ProgressThrottle, Report, progress_min_interval, new_throttle, should_emit, emitted,
}

-- The clock never runs backwards: the reports come after `start` and before `finish`, in order.
abbrev pub InOrder : ℕ → ℕ → List Report → Type 0
InOrder start finish [] = start ≤ finish
InOrder start finish (r ∷ rs) =
    (start ≤ r.clock.asked) × (r.clock.asked ≤ r.clock.noted) × InOrder r.clock.noted finish rs

abbrev pub is_final : Report → Bool
is_final r = leb r.total r.downloaded

-- the reports of the whole archive, and the number of the others
unfoldable pub finals : List Report → List Report
finals [] = []
finals (r ∷ rs) = let rest = finals rs in elim (is_final r) [ true ↦ r ∷ rest | false ↦ rest ]

unfoldable pub partials : List Report → ℕ
partials [] = 0
partials (r ∷ rs) = let rest = partials rs in elim (is_final r) [ true ↦ rest | false ↦ suc rest ]

finals-emitted :
    (throttle : ProgressThrottle) (rs : List Report) → finals (emitted throttle rs) ≡ finals rs
unfolding finals emitted
finals-emitted throttle [] = refl
finals-emitted throttle (r ∷ rs) =
    let (emits, throttle') = should_emit r.clock r.downloaded r.total throttle in
    ground (arith, finals-emitted throttle' rs)

InOrder-later :
    (start later finish : ℕ) (rs : List Report)
    → start ≤ later
    → InOrder later finish rs
    → InOrder start finish rs
InOrder-later start later finish [] l h = omega (arith, h)
InOrder-later start later finish (r ∷ rs) l (h, k, i) = (omega arith, k, i)

paced :
    (at finish : ℕ) (rs : List Report)
    → InOrder at finish rs
    → at + 100 * partials (emitted (record (new_throttle 100) { last_emit = some at }) rs) ≤ finish
unfolding partials emitted should_emit
paced at finish [] h = omega (arith, h)
paced at finish (r ∷ rs) (h, k, i) = ground (
  arith,
  paced r.clock.noted finish rs i,
  paced at finish rs (InOrder-later at r.clock.noted finish rs (omega arith) i),
)

-- In a download that lasts from `start` to `finish`, at most one event per 100 milliseconds and one
-- more are emitted for an unfinished archive. Every report of the whole archive is emitted, so a
-- listener always sees the end. The clock must not run backwards.
pub emitted_bounds :
    (start finish : ℕ) (rs : List Report)
    → InOrder start finish rs
    → (100 * partials (emitted (new_throttle progress_min_interval) rs) + start ≤ finish + 100)
      × (finals (emitted (new_throttle progress_min_interval) rs) ≡ finals rs)
unfolding partials emitted should_emit
emitted_bounds start finish [] h = (omega (arith, h), refl)
emitted_bounds start finish (r ∷ rs) (h, k, i) = (
  ground (arith, paced r.clock.noted finish rs i),
  finals-emitted (new_throttle progress_min_interval) (r ∷ rs),
)
