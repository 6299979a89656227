-- ===== src/SignTool/Read.antt =====
-- What the signing tool (src/bin/hot-update-sign.rs) makes of its arguments.
use tauri_plugin_hot_update.Prelude.{
  String, Option, none, some, List, [], ◌∷◌, ◌≡◌, refl, arith, if◌then◌else◌, str_eq, inl, inr,
  Option-cases, Bool-cases, eq_iff,
}
use tauri_plugin_hot_update.Prelude.Result.{ok, Result-cases}
use tauri_plugin_hot_update.SignTool.{
  Args, Parsed, Host, nothing_parsed, parse_version, set_flag, parse_flags, required, parse_args,
  options_of, run_tool,
}
use tauri_plugin_hot_update.Sign.{SignedRelease, Publisher, sign_release}

-- the texts of the flags after another flag with its value
abbrev with_flag : String → String → (String → Option String) → String → Option String
with_flag flag value texts name = if str_eq flag name then some value else texts name

-- the value that follows the last occurrence of a flag, or else the one from before
unfoldable pub last_value : List String → (String → Option String) → String → Option String
last_value [] texts name = texts name
last_value (flag ∷ []) texts name = texts name
last_value (flag ∷ value ∷ argv) texts name = last_value argv (with_flag flag value texts) name

abbrev pub no_texts : String → Option String
no_texts name = none

module _ {V : Type 0} (h : Host V) where
  abbrev pub parsed : Option String → Option V
  parsed none = none
  parsed (some value) = h.parse value

  -- the variables, from the texts of the flags
  abbrev read_of : (String → Option String) → Parsed V
  read_of texts = record {
    dist = texts "--dist";
    version = parsed (texts "--version");
    min_shell = parsed (texts "--min-shell");
    base_version = parsed (texts "--base-version");
    key = texts "--key";
    base_url = texts "--base-url";
    out = texts "--out";
  }

  -- what the arguments are, by the last value of each flag
  pub record IsDescribed (argv : List String) (args : Args V) : Type 0 where
    pub dist_given : last_value argv no_texts "--dist" ≡ some args.dist
    pub version_given : parsed (last_value argv no_texts "--version") ≡ some args.version
    pub min_shell_given : parsed (last_value argv no_texts "--min-shell") ≡ some args.min_shell
    pub base_version_given : parsed (last_value argv no_texts "--base-version") ≡ args.base_version
    pub key_given : last_value argv no_texts "--key" ≡ some args.key
    pub base_url_given : last_value argv no_texts "--base-url" ≡ some args.base_url
    pub out_given : last_value argv no_texts "--out" ≡ some args.out

  set_dist-read_of :
      (value : String) (texts : String → Option String) (q : Parsed V)
      → set_flag h "--dist" value (read_of texts) ≡ ok q
      → q ≡ read_of (with_flag "--dist" value texts)
  unfolding set_flag parse_version
  set_dist-read_of value texts q e = ground arith

  set_version-read_of :
      (value : String) (texts : String → Option String) (q : Parsed V)
      → set_flag h "--version" value (read_of texts) ≡ ok q
      → q ≡ read_of (with_flag "--version" value texts)
  unfolding set_flag parse_version
  set_version-read_of value texts q e = ground arith

  set_min_shell-read_of :
      (value : String) (texts : String → Option String) (q : Parsed V)
      → set_flag h "--min-shell" value (read_of texts) ≡ ok q
      → q ≡ read_of (with_flag "--min-shell" value texts)
  unfolding set_flag parse_version
  set_min_shell-read_of value texts q e = ground arith

  set_base_version-read_of :
      (value : String) (texts : String → Option String) (q : Parsed V)
      → set_flag h "--base-version" value (read_of texts) ≡ ok q
      → q ≡ read_of (with_flag "--base-version" value texts)
  unfolding set_flag parse_version
  set_base_version-read_of value texts q e = ground arith

  set_key-read_of :
      (value : String) (texts : String → Option String) (q : Parsed V)
      → set_flag h "--key" value (read_of texts) ≡ ok q
      → q ≡ read_of (with_flag "--key" value texts)
  unfolding set_flag parse_version
  set_key-read_of value texts q e = ground arith

  set_base_url-read_of :
      (value : String) (texts : String → Option String) (q : Parsed V)
      → set_flag h "--base-url" value (read_of texts) ≡ ok q
      → q ≡ read_of (with_flag "--base-url" value texts)
  unfolding set_flag parse_version
  set_base_url-read_of value texts q e = ground arith

  set_out-read_of :
      (value : String) (texts : String → Option String) (q : Parsed V)
      → set_flag h "--out" value (read_of texts) ≡ ok q
      → q ≡ read_of (with_flag "--out" value texts)
  unfolding set_flag parse_version
  set_out-read_of value texts q e = ground arith

  -- A flag with its value changes the variables as it changes the texts.
  set_flag-read_of :
      (flag value : String) (texts : String → Option String) (q : Parsed V)
      → set_flag h flag value (read_of texts) ≡ ok q
      → q ≡ read_of (with_flag flag value texts)
  unfolding set_flag
  set_flag-read_of flag value texts q e = elim (Bool-cases (str_eq flag "--dist")) [
    | inl y ↦
        rw ((eq_iff flag "--dist").0 y)
          (set_dist-read_of value texts q (rw ((eq_iff flag "--dist").0 y) at e))
    | inr n0 ↦ elim (Bool-cases (str_eq flag "--version")) [
      | inl y ↦
          rw ((eq_iff flag "--version").0 y)
            (set_version-read_of value texts q (rw ((eq_iff flag "--version").0 y) at e))
      | inr n1 ↦ elim (Bool-cases (str_eq flag "--min-shell")) [
        | inl y ↦
            rw ((eq_iff flag "--min-shell").0 y)
              (set_min_shell-read_of value texts q (rw ((eq_iff flag "--min-shell").0 y) at e))
        | inr n2 ↦ elim (Bool-cases (str_eq flag "--base-version")) [
          | inl y ↦ rw ((eq_iff flag "--base-version").0 y) (
              set_base_version-read_of value texts q (rw ((eq_iff flag "--base-version").0 y) at e))
          | inr n3 ↦ elim (Bool-cases (str_eq flag "--key")) [
            | inl y ↦
                rw ((eq_iff flag "--key").0 y)
                  (set_key-read_of value texts q (rw ((eq_iff flag "--key").0 y) at e))
            | inr n4 ↦ elim (Bool-cases (str_eq flag "--base-url")) [
              | inl y ↦
                  rw ((eq_iff flag "--base-url").0 y)
                    (set_base_url-read_of value texts q (rw ((eq_iff flag "--base-url").0 y) at e))
              | inr n5 ↦ elim (Bool-cases (str_eq flag "--out")) [
                | inl y ↦
                    rw ((eq_iff flag "--out").0 y)
                      (set_out-read_of value texts q (rw ((eq_iff flag "--out").0 y) at e))
                | inr n6 ↦ absurd (ground arith)
              ]
            ]
          ]
        ]
      ]
    ]
  ]

  parse_flags-read_of :
      (argv : List String) (texts : String → Option String) (p q : Parsed V)
      → p ≡ read_of texts
      → parse_flags h argv p ≡ ok q
      → q ≡ read_of (last_value argv texts)
  unfolding parse_flags last_value
  parse_flags-read_of [] texts p q r e = ground arith
  parse_flags-read_of (flag ∷ []) texts p q r e = absurd (ground arith)
  parse_flags-read_of (flag ∷ value ∷ argv) texts p q r e =
      elim (Result-cases (set_flag h flag value p)) [
        | inr (x, n) ↦ absurd (ground arith)
        | inl (p', n) ↦
            parse_flags-read_of argv (with_flag flag value texts) p' q
              (set_flag-read_of flag value texts p' (rw r at n)) (ground arith)
      ]

  required-IsDescribed :
      (argv : List String) (p : Parsed V) (args : Args V)
      → p ≡ read_of (last_value argv no_texts)
      → required h p ≡ ok args
      → IsDescribed argv args
  unfolding required
  required-IsDescribed argv p args r e = record {
    dist_given = ground arith;
    version_given = ground arith;
    min_shell_given = ground arith;
    base_version_given = ground arith;
    key_given = ground arith;
    base_url_given = ground arith;
    out_given = ground arith;
  }

  -- Arguments that are accepted are described by the last value that each flag has: a flag may stand
  -- anywhere and more than once, all but `--base-version` are there, and the versions are semvers.
  pub parse_args-IsDescribed :
      (argv : List String) (args : Args V) → parse_args h argv ≡ ok args → IsDescribed argv args
  unfolding parse_args
  parse_args-IsDescribed argv args e = elim (Result-cases (parse_flags h argv nothing_parsed)) [
    | inr (x, n) ↦ absurd (ground arith)
    | inl (p, n) ↦
        required-IsDescribed argv p args (parse_flags-read_of argv no_texts nothing_parsed p refl n)
          (ground arith)
  ]

  -- A run that signs a release has read its arguments, each flag at its last value and the versions
  -- as semvers, has loaded the key at the path given by them, and its release is that of
  -- `sign_release` for the directory, the three versions and the base URL given by them.
  pub run_tool-IsDescribed :
      (argv : List String) (release : SignedRelease V)
      → run_tool h argv ≡ ok release
      → (args : Args V) × IsDescribed argv args
        × ((p : Publisher V) × (h.publisher args.key args.out ≡ some p)
            × (sign_release p (record {
              dist = h.dist_at args.dist;
              version = args.version;
              min_shell_version = args.min_shell;
              base_version = args.base_version;
              base_url = args.base_url;
            })
                ≡ ok release))
  unfolding run_tool
  run_tool-IsDescribed argv release e = elim (Result-cases (parse_args h argv)) [
    | inr (x, n) ↦ absurd (ground arith)
    | inl (args, n) ↦ elim (Option-cases (h.publisher args.key args.out)) [
      | inl k ↦ absurd (ground arith)
      | inr (p, k) ↦ elim (Result-cases (sign_release p (options_of h args))) [
        | inr (x, s) ↦ absurd (ground arith)
        | inl (r, s) ↦ (args, parse_args-IsDescribed argv args n, (p, k, ground arith))
      ]
    ]
  ]

-- the arguments in print
abbrev pub base_arguments : {V : Type 0} → (V → String) → Option V → List String → List String
base_arguments print none rest = rest
base_arguments print (some v) rest = "--base-version" ∷ print v ∷ rest

abbrev pub arguments : {V : Type 0} → (V → String) → Args V → List String
arguments print a =
    "--dist"
    ∷ a.dist
    ∷ "--version"
    ∷ print a.version
    ∷ "--min-shell"
    ∷ print a.min_shell
    ∷ base_arguments print a.base_version
        ("--key" ∷ a.key ∷ "--base-url" ∷ a.base_url ∷ "--out" ∷ a.out ∷ [])

module _ {V : Type 0} (h : Host V) where
  -- Arguments that are written out are read back, where semver reads back their versions as printed.
  pub parse_args-arguments :
      (print : V → String) (a : Args V)
      → h.parse (print a.version) ≡ some a.version
      → h.parse (print a.min_shell) ≡ some a.min_shell
      → ((v : V) → a.base_version ≡ some v → h.parse (print v) ≡ some v)
      → parse_args h (arguments print a) ≡ ok a
  unfolding parse_args parse_flags set_flag parse_version required
  parse_args-arguments print a version shell base = elim (Option-cases a.base_version) [
    | inl n ↦ rw (version, shell, n) refl
    | inr (v, n) ↦ rw (version, shell, n, base v n) refl
  ]
