-- ===== src/Tests/Codec.antt =====
-- A serialiser for the tests: it knows a few states by heart, and refuses the others.
use tauri_plugin_hot_update.Prelude.{
  ℕ, String, Bool, true, false, ◌&&◌, Option, none, some, List, [], ◌∷◌, ◌≡◌, refl, ap, ◌==◌, arith,
  str_eq, eq_iff, if◌then◌else◌, Bool-cases, inl, inr,
}
use tauri_plugin_hot_update.Prelude.Map.{Map}
use tauri_plugin_hot_update.Machine.{State, BundleMeta}
use tauri_plugin_hot_update.Manifest.{BaseVersion, valid, invalid}
use tauri_plugin_hot_update.Store.{Codec}
use tauri_plugin_hot_update.Tests.Data.{
  waiting, armed, struck, acked, factory, updated, recovering, recovered, first_staged, first_armed,
}

abbrev option_eq : Option ℕ → Option ℕ → Bool
option_eq none none = true
option_eq (some a) (some b) = a == b
option_eq _ _ = false

abbrev pub base_eq : Option (BaseVersion ℕ) → Option (BaseVersion ℕ) → Bool
base_eq none none = true
base_eq (some (valid a)) (some (valid b)) = a == b
base_eq (some (invalid a)) (some (invalid b)) = str_eq a b
base_eq _ _ = false

pub base_eq_sound : (a b : Option (BaseVersion ℕ)) → base_eq a b ≡ true → a ≡ b
base_eq_sound (some (invalid a)) (some (invalid b)) h = ground (arith, eq_iff a b)
base_eq_sound (some (valid a)) (some (valid b)) h = ground arith
base_eq_sound none none h = refl
base_eq_sound (some (invalid a)) (some (valid b)) h = cc
base_eq_sound (some (valid a)) (some (invalid b)) h = cc
base_eq_sound (some (invalid a)) none h = cc
base_eq_sound (some (valid a)) none h = cc
base_eq_sound none (some (invalid b)) h = cc
base_eq_sound none (some (valid b)) h = cc

pub hashes_eq : List String → List String → Bool
hashes_eq [] [] = true
hashes_eq (a ∷ as') (b ∷ bs) = str_eq a b && hashes_eq as' bs
hashes_eq _ _ = false

hashes_eq_sound : (a b : List String) → hashes_eq a b ≡ true → a ≡ b
unfolding hashes_eq
hashes_eq_sound [] [] h = refl
hashes_eq_sound (a ∷ as') (b ∷ bs) h = ground (arith, eq_iff a b, hashes_eq_sound as' bs)
hashes_eq_sound [] (b ∷ bs) h = cc
hashes_eq_sound (a ∷ as') [] h = cc

pub versions_eq : Map (BundleMeta ℕ) → Map (BundleMeta ℕ) → Bool
versions_eq [] [] = true
versions_eq ((k, a) ∷ as') ((j, b) ∷ bs) =
    k == j
    && a.version == b.version
    && str_eq a.archive_sha256 b.archive_sha256
    && base_eq a.base_version b.base_version
    && versions_eq as' bs
versions_eq _ _ = false

versions_eq_sound : (a b : Map (BundleMeta ℕ)) → versions_eq a b ≡ true → a ≡ b
unfolding versions_eq
versions_eq_sound [] [] h = refl
versions_eq_sound ((k, a) ∷ as') ((j, b) ∷ bs) h = ground (
  arith,
  eq_iff a.archive_sha256 b.archive_sha256,
  base_eq_sound a.base_version b.base_version,
  versions_eq_sound as' bs,
)
versions_eq_sound [] (b ∷ bs) h = cc
versions_eq_sound (a ∷ as') [] h = cc

unfoldable pub state_eq : State ℕ → State ℕ → Bool
unfolding hashes_eq versions_eq
state_eq s t =
    option_eq s.committed t.committed
    && option_eq s.last_good t.last_good
    && option_eq s.staged t.staged
    && option_eq s.booting t.booting
    && s.booting_strikes == t.booting_strikes
    && hashes_eq s.failed t.failed
    && option_eq s.max_version_seen t.max_version_seen
    && versions_eq s.versions t.versions

state_eq_sound : (s t : State ℕ) → state_eq s t ≡ true → s ≡ t
unfolding state_eq
state_eq_sound s t h =
    ground (arith, hashes_eq_sound s.failed t.failed, versions_eq_sound s.versions t.versions)

unfoldable pub encode : State ℕ → Option (List ℕ)
unfolding state_eq
encode s =
    if state_eq s waiting
    then some (1 ∷ [])
    else if state_eq s armed
    then some (2 ∷ [])
    else if state_eq s struck
    then some (3 ∷ [])
    else if state_eq s acked
    then some (4 ∷ [])
    else if state_eq s factory
    then some (5 ∷ [])
    else if state_eq s updated
    then some (6 ∷ [])
    else if state_eq s recovering
    then some (7 ∷ [])
    else if state_eq s recovered
    then some (8 ∷ [])
    else if state_eq s first_staged
    then some (9 ∷ [])
    else if state_eq s first_armed
    then some (10 ∷ [])
    else none

unfoldable pub decode : List ℕ → Option (State ℕ)
decode (n ∷ []) =
    if n == 1
    then some waiting
    else if n == 2
    then some armed
    else if n == 3
    then some struck
    else if n == 4
    then some acked
    else if n == 5
    then some factory
    else if n == 6
    then some updated
    else if n == 7
    then some recovering
    else if n == 8
    then some recovered
    else if n == 9
    then some first_staged
    else if n == 10
    then some first_armed
    else none
decode _ = none

list_of : (n : ℕ) (b : List ℕ) → some (n ∷ []) ≡ some b → n ∷ [] ≡ b
list_of n b h = cc

-- where the first test that passes is that of `t`, the text is read back as `t`
read_back :
    (s t : State ℕ) (n : ℕ) (b : List ℕ)
    → state_eq s t ≡ true
    → some (n ∷ []) ≡ some b
    → decode (n ∷ []) ≡ some t
    → decode b ≡ some s
read_back s t n b e h d = cc (state_eq_sound s t e, ap decode (list_of n b h))

pub decode-encode : (s : State ℕ) (b : List ℕ) → encode s ≡ some b → decode b ≡ some s
unfolding encode
decode-encode s b h = elim (Bool-cases (state_eq s waiting)) [
  | inl e ↦ read_back s waiting 1 b e (ground arith) (unfold decode in refl)
  | inr n₁ ↦ elim (Bool-cases (state_eq s armed)) [
    | inl e ↦ read_back s armed 2 b e (ground arith) (unfold decode in refl)
    | inr n₂ ↦ elim (Bool-cases (state_eq s struck)) [
      | inl e ↦ read_back s struck 3 b e (ground arith) (unfold decode in refl)
      | inr n₃ ↦ elim (Bool-cases (state_eq s acked)) [
        | inl e ↦ read_back s acked 4 b e (ground arith) (unfold decode in refl)
        | inr n₄ ↦ elim (Bool-cases (state_eq s factory)) [
          | inl e ↦ read_back s factory 5 b e (ground arith) (unfold decode in refl)
          | inr n₅ ↦ elim (Bool-cases (state_eq s updated)) [
            | inl e ↦ read_back s updated 6 b e (ground arith) (unfold decode in refl)
            | inr n₆ ↦ elim (Bool-cases (state_eq s recovering)) [
              | inl e ↦ read_back s recovering 7 b e (ground arith) (unfold decode in refl)
              | inr n₇ ↦ elim (Bool-cases (state_eq s recovered)) [
                | inl e ↦ read_back s recovered 8 b e (ground arith) (unfold decode in refl)
                | inr n₈ ↦ elim (Bool-cases (state_eq s first_staged)) [
                  | inl e ↦ read_back s first_staged 9 b e (ground arith) (unfold decode in refl)
                  | inr n₉ ↦ elim (Bool-cases (state_eq s first_armed)) [
                    | inl e ↦ read_back s first_armed 10 b e (ground arith) (unfold decode in refl)
                    | inr n₁₀ ↦ absurd (ground arith)
                  ]
                ]
              ]
            ]
          ]
        ]
      ]
    ]
  ]
]

abbrev pub codec : Codec ℕ
codec = record { encode = encode; decode = decode; decode-encode = decode-encode }
