-- ===== src/Prelude/Texts.antt =====
-- What the program uses of `str`: `trim`, `lines`, `len`, `contains` of a character, and the ASCII
-- conversions.
use Prim.Native.Nat.{ℕ, suc, ◌+◌}
use Prim.Native.Char.{Char, code}
use Prim.Native.String.{String, [], ◌∷◌}
use mathlib.Core.Path.{◌≡◌, refl, ◌∙◌}
use mathlib.Core.Bool.{Bool, true, false, ◌&&◌, ◌||◌}
use native.Mathlib.Omega.{arith}
use tauri_plugin_hot_update.Prelude.Tests.{◌==◌, leb, ltb, if◌then◌else◌}

-- `char::is_whitespace`, the property White_Space of Unicode
abbrev pub is_whitespace : ℕ → Bool
is_whitespace c =
    leb 9 c && leb c 13
    || c == 32
    || c == 133
    || c == 160
    || c == 5760
    || leb 8192 c && leb c 8202
    || c == 8232
    || c == 8233
    || c == 8239
    || c == 8287
    || c == 12288

abbrev pub is_empty : String → Bool
is_empty [] = true
is_empty (_ ∷ _) = false

unfoldable pub trim_start : String → String
trim_start [] = []
trim_start (c ∷ s) = let rest = trim_start s in if is_whitespace (code c) then rest else c ∷ s

unfoldable pub trim_end : String → String
trim_end [] = []
trim_end (c ∷ s) =
    let rest = trim_end s in if is_empty rest && is_whitespace (code c) then [] else c ∷ rest

unfoldable pub trim : String → String
unfolding trim_start trim_end
trim s = trim_end (trim_start s)

-- `lines().count()`: the flag says whether a line is under way
unfoldable pub line_count : Bool → String → ℕ
line_count begun [] = if begun then 1 else 0
line_count begun (c ∷ s) =
    let ended = suc (line_count false s) in
    let going = line_count true s in if code c == 10 then ended else going

unfoldable pub contains_code : ℕ → String → Bool
contains_code k [] = false
contains_code k (c ∷ s) = code c == k || contains_code k s

-- `str::len`: the bytes in UTF-8
abbrev pub utf8_width : ℕ → ℕ
utf8_width c = if ltb c 128 then 1 else if ltb c 2048 then 2 else if ltb c 65536 then 3 else 4

unfoldable pub utf8_length : String → ℕ
utf8_length [] = 0
utf8_length (c ∷ s) = utf8_width (code c) + utf8_length s

-- `u8::is_ascii_hexdigit`
abbrev pub is_hexdigit : ℕ → Bool
is_hexdigit c = leb 48 c && leb c 57 || leb 65 c && leb c 70 || leb 97 c && leb c 102

abbrev pub is_lower_hexdigit : ℕ → Bool
is_lower_hexdigit c = leb 48 c && leb c 57 || leb 97 c && leb c 102

unfoldable pub all_codes : (ℕ → Bool) → String → Bool
all_codes p [] = true
all_codes p (c ∷ s) = p (code c) && all_codes p s

-- the text's characters in place of the codes from `k` on
unfoldable pub from_table : ℕ → String → Char → Char
from_table k [] c = c
from_table k (y ∷ ys) c = let rest = from_table (k + 1) ys c in if k == code c then y else rest

-- `char::to_ascii_lowercase`
unfoldable pub lower_char : Char → Char
unfolding from_table
lower_char c = from_table 65 "abcdefghijklmnopqrstuvwxyz" c

unfoldable pub to_ascii_lowercase : String → String
to_ascii_lowercase [] = []
to_ascii_lowercase (c ∷ s) = lower_char c ∷ to_ascii_lowercase s

-- the codes of a text are those from `k` on
unfoldable are_from : ℕ → String → Bool
are_from k [] = true
are_from k (c ∷ s) = code c == k && are_from (k + 1) s

unfoldable size : String → ℕ
size [] = 0
size (c ∷ s) = suc (size s)

code-from_table :
    (k : ℕ) (s : String) (c : Char)
    → are_from (k + 32) s ≡ true
    → code (from_table k s c)
      ≡ (if leb k (code c) && ltb (code c) (k + size s) then code c + 32 else code c)
unfolding from_table are_from size
code-from_table k [] c h = ground arith
code-from_table k (y ∷ ys) c h =
    let shift : k + 32 + 1 ≡ k + 1 + 32 = omega arith in
    let rest : are_from (k + 1 + 32) ys ≡ true = rw (← shift) (ground arith) in
    ground (arith, code-from_table (k + 1) ys c rest)

letters :
    (are_from 97 "abcdefghijklmnopqrstuvwxyz" ≡ true) × (size "abcdefghijklmnopqrstuvwxyz" ≡ 26)
unfolding are_from size
letters = (refl, refl)

pub code-lower_char :
    (c : Char)
    → code (lower_char c) ≡ (if leb 65 (code c) && leb (code c) 90 then code c + 32 else code c)
unfolding lower_char
code-lower_char c =
    code-from_table 65 "abcdefghijklmnopqrstuvwxyz" c letters.0 ∙ ground (arith, letters)

pub is_lower_hexdigit-lower :
    (s : String)
    → all_codes is_hexdigit s ≡ true
    → all_codes is_lower_hexdigit (to_ascii_lowercase s) ≡ true
unfolding all_codes to_ascii_lowercase
is_lower_hexdigit-lower [] h = refl
is_lower_hexdigit-lower (c ∷ s) h = ground (arith, code-lower_char c, is_lower_hexdigit-lower s)

pub utf8_length-lower : (s : String) → utf8_length (to_ascii_lowercase s) ≡ utf8_length s
unfolding utf8_length to_ascii_lowercase
utf8_length-lower [] = refl
utf8_length-lower (c ∷ s) = ground (arith, code-lower_char c, utf8_length-lower s)

from_table_out :
    (k : ℕ) (s : String) (c : Char)
    → (leb k (code c) && ltb (code c) (k + size s)) ≡ false
    → from_table k s c ≡ c
unfolding from_table size
from_table_out k [] c h = refl
from_table_out k (y ∷ ys) c h = ground (arith, from_table_out (k + 1) ys c)

lower_char_fixed : (c : Char) → is_lower_hexdigit (code c) ≡ true → lower_char c ≡ c
unfolding lower_char
lower_char_fixed c h = from_table_out 65 "abcdefghijklmnopqrstuvwxyz" c (ground (arith, letters))

pub lower_fixed : (s : String) → all_codes is_lower_hexdigit s ≡ true → to_ascii_lowercase s ≡ s
unfolding all_codes to_ascii_lowercase
lower_fixed [] h = refl
lower_fixed (c ∷ s) h = ground (arith, lower_char_fixed c, lower_fixed s)

pub all_lower_hex :
    (s : String) → all_codes is_lower_hexdigit s ≡ true → all_codes is_hexdigit s ≡ true
unfolding all_codes
all_lower_hex [] h = refl
all_lower_hex (c ∷ s) h = ground (arith, all_lower_hex s)
