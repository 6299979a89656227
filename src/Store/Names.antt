-- ===== src/Store/Names.antt =====
-- The names of bundle directories: `format!("seq-{seq}")` and `parse_seq` of src/store.rs, with
-- the decimal printer and parser of `u64` that they call.
use tauri_plugin_hot_update.Prelude.{
  ℕ, zero, suc, ◌+◌, ◌-◌, ◌*◌, ◌/◌, ◌%◌, ◌^◌, ◌<◌, ◌≡◌, ◌≢◌, ap, sym, refl, ◌∙◌, ◌&&◌, Option, none,
  some, List, [], ◌∷◌, ◌++◌, leb, ltb, ◌==◌, if◌then◌else◌, arith, Bool-cases, inl, inr,
}
use tauri_plugin_hot_update.Prelude.Lists.{length, length-append}

abbrev pub u64_mod : ℕ
u64_mod = 2 ^ 64

-- `Display` of `u64`, by rounds of division; `suc n` rounds are enough for `n`.
unfoldable pub print_rounds : ℕ → ℕ → List ℕ
print_rounds zero n = []
print_rounds (suc f) n =
    let rest = print_rounds f (n / 10) ++ (48 + n % 10) ∷ [] in
    if ltb n 10 then (48 + n) ∷ [] else rest

unfoldable pub print_u64 : ℕ → List ℕ
unfolding print_rounds
print_u64 n = print_rounds (suc n) n

-- the digits of `u64::from_str`, with its overflow checks
unfoldable pub parse_digits : ℕ → List ℕ → Option ℕ
parse_digits acc [] = some acc
parse_digits acc (c ∷ cs) =
    let rest = parse_digits (acc * 10 + (c - 48)) cs in
    if leb 48 c && leb c 57 && ltb (acc * 10 + (c - 48)) u64_mod then rest else none

-- `u64::from_str`: a leading `+` is accepted, an empty number is not.
unfoldable pub parse_u64 : List ℕ → Option ℕ
unfolding parse_digits
parse_u64 [] = none
parse_u64 (c ∷ []) = parse_digits 0 (c ∷ [])
parse_u64 (c ∷ d ∷ cs) = if c == b'+' then parse_digits 0 (d ∷ cs) else parse_digits 0 (c ∷ d ∷ cs)

unfoldable pub bundle_name : ℕ → List ℕ
unfolding print_u64
bundle_name seq = b's' ∷ b'e' ∷ b'q' ∷ b'-' ∷ print_u64 seq

unfoldable pub parse_seq : List ℕ → Option ℕ
unfolding parse_u64
parse_seq (s ∷ e ∷ q ∷ d ∷ rest) =
    if s == b's' && e == b'e' && q == b'q' && d == b'-' then parse_u64 rest else none
parse_seq _ = none

parse_digits-append :
    (acc a : ℕ) (xs ys : List ℕ)
    → parse_digits acc xs ≡ some a
    → parse_digits acc (xs ++ ys) ≡ parse_digits a ys
unfolding parse_digits
parse_digits-append acc a [] ys h = ground arith
parse_digits-append acc a (x ∷ xs) ys h =
    ground (arith, parse_digits-append (acc * 10 + (x - 48)) a xs ys)

parse_digits-print_rounds :
    (f n : ℕ) → n < f → n < 2 ^ 64 → parse_digits 0 (print_rounds f n) ≡ some n
unfolding print_rounds
parse_digits-print_rounds zero n h k = absurd (omega arith)
parse_digits-print_rounds (suc f) n h k = elim (Bool-cases (ltb n 10)) [
  | inl y ↦ rw y (unfold parse_digits in ground arith)
  | inr m ↦ rw m (
      parse_digits-append 0 (n / 10) (print_rounds f (n / 10)) ((48 + n % 10) ∷ [])
        (parse_digits-print_rounds f (n / 10) (ground arith) (ground arith))
      ∙ unfold parse_digits in ground arith)
]

length-print_rounds : (f n : ℕ) → 0 < length (print_rounds (suc f) n)
unfolding print_rounds
length-print_rounds f n =
    ground (arith, length-append (print_rounds f (n / 10)) ((48 + n % 10) ∷ []))

parse_digits-parse_u64 :
    (xs : List ℕ) (n : ℕ) → 0 < length xs → parse_digits 0 xs ≡ some n → parse_u64 xs ≡ some n
unfolding parse_u64
parse_digits-parse_u64 [] n p h = absurd (omega arith)
parse_digits-parse_u64 (c ∷ []) n p h = h
parse_digits-parse_u64 (c ∷ d ∷ cs) n p h = ground arith

-- `u64::from_str` reads back what `Display` prints, for every `u64`.
pub parse_u64-print_u64 : (n : ℕ) → n < 2 ^ 64 → parse_u64 (print_u64 n) ≡ some n
unfolding print_u64
parse_u64-print_u64 n h =
    parse_digits-parse_u64 (print_rounds (suc n) n) n (length-print_rounds n n)
      (parse_digits-print_rounds (suc n) n (omega arith) h)

-- The directory name of a bundle is read back as its seq, for every `u64`.
pub parse_seq-bundle_name : (n : ℕ) → n < 2 ^ 64 → parse_seq (bundle_name n) ≡ some n
unfolding parse_seq bundle_name
parse_seq-bundle_name n h = parse_u64-print_u64 n h

-- the value of digits, without a bound
unfoldable value : ℕ → List ℕ → ℕ
value acc [] = acc
value acc (c ∷ cs) = value (acc * 10 + (c - 48)) cs

value-append : (acc : ℕ) (xs ys : List ℕ) → value acc (xs ++ ys) ≡ value (value acc xs) ys
unfolding value
value-append acc [] ys = refl
value-append acc (x ∷ xs) ys = value-append (acc * 10 + (x - 48)) xs ys

value-print_rounds : (f n : ℕ) → n < f → value 0 (print_rounds f n) ≡ n
unfolding print_rounds
value-print_rounds zero n h = absurd (omega arith)
value-print_rounds (suc f) n h = elim (Bool-cases (ltb n 10)) [
  | inl y ↦ rw y (unfold value in ground arith)
  | inr m ↦ rw m (
      value-append 0 (print_rounds f (n / 10)) ((48 + n % 10) ∷ [])
      ∙ ap (λ (k : ℕ). value k ((48 + n % 10) ∷ [])) (value-print_rounds f (n / 10) (ground arith))
      ∙ unfold value in omega arith)
]

-- what a reader who does not check the name makes of it
number_of : List ℕ → ℕ
number_of (s ∷ e ∷ q ∷ d ∷ rest) = value 0 rest
number_of _ = 0

number_of-bundle_name : (n : ℕ) → number_of (bundle_name n) ≡ n
unfolding number_of bundle_name
number_of-bundle_name n = value-print_rounds (suc n) n (omega arith)

-- Two bundles have two directories.
pub bundle_name-injective : (m n : ℕ) → bundle_name m ≡ bundle_name n → m ≡ n
bundle_name-injective m n e =
    sym (number_of-bundle_name m) ∙ ap number_of e ∙ number_of-bundle_name n

-- A name such as `seq-07`: the number has a zero in front.
unfoldable pub padded_name : ℕ → List ℕ
unfolding print_u64
padded_name n = b's' ∷ b'e' ∷ b'q' ∷ b'-' ∷ b'0' ∷ print_u64 n

padded_name-read : (n : ℕ) → n < 2 ^ 64 → parse_seq (padded_name n) ≡ some n
unfolding parse_seq padded_name
padded_name-read n h =
    parse_digits-parse_u64 (b'0' ∷ print_rounds (suc n) n) n (omega arith)
      (unfold parse_digits in parse_digits-print_rounds (suc n) n (omega arith) h)

length-padded_name : (n : ℕ) → length (padded_name n) ≡ length (bundle_name n) + 1
unfolding padded_name bundle_name
length-padded_name n = omega arith

-- Such a name is read as a seq too, and is the directory name of no bundle.
pub padded_name_alias :
    (n : ℕ)
    → n < 2 ^ 64
    → (parse_seq (padded_name n) ≡ some n) × ((m : ℕ) → m < 2 ^ 64 → bundle_name m ≢ padded_name n)
padded_name_alias n h =
    let read : parse_seq (padded_name n) ≡ some n = padded_name-read n h in
    (
      read,
      λ m k e.
          let same : m ≡ n = ground (arith, parse_seq-bundle_name m k, read, ap parse_seq e) in
          let longer : length (padded_name n) ≡ length (bundle_name n) + 1 = length-padded_name n in
          omega (arith, longer, ap length e, ap (λ (x : ℕ). length (bundle_name x)) same),
    )
