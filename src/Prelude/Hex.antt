-- ===== src/Prelude/Hex.antt =====
-- Hexadecimal texts: what `{b:02x}` prints, as a text and as its codes.
use Prim.Native.Nat.{ℕ, zero, suc, ◌+◌, ◌*◌, ◌/◌, ◌%◌, ◌<◌}
use Prim.Native.Char.{Char, code}
use Prim.Native.String.{String}
use mathlib.Core.Path.{◌≡◌, refl, ap, ◌∙◌}
use mathlib.Core.Logic.{inl, inr}
use mathlib.Core.Bool.{Bool, true, ◌&&◌}
use mathlib.Core.List.{List, [], ◌∷◌}
use native.Mathlib.Omega.{arith}
use tauri_plugin_hot_update.Prelude.Tests.{◌==◌, ltb, if◌then◌else◌, Bool-cases}
use tauri_plugin_hot_update.Prelude.Lists.{length}
use tauri_plugin_hot_update.Prelude.Texts.{utf8_width, utf8_length, all_codes, is_lower_hexdigit}

-- a digit as a character: the one at a place of a text
unfoldable pub char_at : ℕ → String → Char → Char
char_at n String.[] c = c
char_at zero (String.◌∷◌ d s) c = d
char_at (suc n) (String.◌∷◌ d s) c = char_at n s c

unfoldable pub hex_char : ℕ → Char
unfolding char_at
hex_char n = char_at n "0123456789abcdef" "0"

unfoldable pub hex_text : List ℕ → String
unfolding hex_char
hex_text [] = ""
hex_text (b ∷ bs) = String.◌∷◌ (hex_char (b / 16)) (String.◌∷◌ (hex_char (b % 16)) (hex_text bs))

unfoldable all_below : ℕ → (ℕ → Bool) → Bool
all_below zero p = true
all_below (suc n) p = p n && all_below n p

all_below_lem : (k n : ℕ) (p : ℕ → Bool) → all_below k p ≡ true → n < k → p n ≡ true
unfolding all_below
all_below_lem zero n p h l = absurd (omega (arith, l))
all_below_lem (suc k) n p h l = elim (Bool-cases (n == k)) [
  | inl y ↦ let e : n ≡ k = ground arith in rw e (ground arith)
  | inr m ↦ all_below_lem k n p (ground arith) (ground arith)
]

-- a digit is one byte long, and a lowercase hexadecimal one
abbrev is_narrow : ℕ → Bool
is_narrow n = utf8_width (code (hex_char n)) == 1

abbrev is_lower : ℕ → Bool
is_lower n = is_lower_hexdigit (code (hex_char n))

abbrev is_digit : ℕ → Bool
is_digit n = code (hex_char n) == (if ltb n 10 then 48 + n else 87 + n)

digits :
    (all_below 16 is_digit ≡ true)
    × (all_below 16 is_narrow ≡ true)
    × (all_below 16 is_lower ≡ true)
unfolding all_below hex_char
digits = (refl, refl, refl)

width : (n : ℕ) → n < 16 → utf8_width (code (hex_char n)) ≡ 1
width n l = ground (arith, all_below_lem 16 n is_narrow digits.1 l)

lower : (n : ℕ) → n < 16 → is_lower_hexdigit (code (hex_char n)) ≡ true
lower n l = all_below_lem 16 n is_lower digits.2 l

pub code-hex_char : (n : ℕ) → n < 16 → code (hex_char n) ≡ (if ltb n 10 then 48 + n else 87 + n)
code-hex_char n l = ground (arith, all_below_lem 16 n is_digit digits.0 l)

pub high : (b : ℕ) → ltb b 256 ≡ true → b / 16 < 16
high b h = ground arith

pub and_both : (a b : Bool) → (a && b) ≡ true → (a ≡ true) × (b ≡ true)
and_both a b h = ground arith

both_and : {a b : Bool} → a ≡ true → b ≡ true → (a && b) ≡ true
both_and h k = ground arith

-- every number is a byte
abbrev pub are_bytes : List ℕ → Bool
are_bytes [] = true
are_bytes (b ∷ bs) = ltb b 256 && are_bytes bs

pub utf8_length-hex_text :
    (bs : List ℕ) → are_bytes bs ≡ true → utf8_length (hex_text bs) ≡ 2 * length bs
unfolding utf8_length hex_text
utf8_length-hex_text [] h = refl
utf8_length-hex_text (b ∷ bs) h =
    let (byte, rest) = and_both (ltb b 256) (are_bytes bs) h in
    let one = width (b / 16) (high b byte) in
    let two = width (b % 16) (omega arith) in
    let three = utf8_length-hex_text bs rest in
    ap (λ (n : ℕ). n + (utf8_width (code (hex_char (b % 16))) + utf8_length (hex_text bs))) one
    ∙ ap (λ (n : ℕ). 1 + (n + utf8_length (hex_text bs))) two
    ∙ omega (arith, three)

pub all_codes-hex_text :
    (bs : List ℕ) → are_bytes bs ≡ true → all_codes is_lower_hexdigit (hex_text bs) ≡ true
unfolding all_codes hex_text
all_codes-hex_text [] h = refl
all_codes-hex_text (b ∷ bs) h =
    let (byte, rest) = and_both (ltb b 256) (are_bytes bs) h in
    both_and (lower (b / 16) (high b byte))
      (both_and (lower (b % 16) (omega arith)) (all_codes-hex_text bs rest))
