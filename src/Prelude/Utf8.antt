-- ===== src/Prelude/Utf8.antt =====
-- `String::from_utf8`, as far as the program asks: whether bytes are UTF-8. A pending sequence has
-- a count of bytes to come and a range for the next one.
use Prim.Native.Nat.{ℕ, ◌-◌}
use mathlib.Core.Bool.{Bool, false, ◌&&◌}
use mathlib.Core.List.{List, [], ◌∷◌}
use tauri_plugin_hot_update.Prelude.Tests.{◌==◌, leb, ltb, if◌then◌else◌}

pub record Pending : Type 0 where
  pub count : ℕ
  pub low : ℕ
  pub high : ℕ

-- what a first byte asks for; `count` is 4 where no sequence begins with it
abbrev pub first_byte : ℕ → Pending
first_byte b =
    if ltb b 128
    then record { count = 0; low = 0; high = 0 }
    else if leb 194 b && leb b 223
    then record { count = 1; low = 128; high = 191 }
    else if b == 224
    then record { count = 2; low = 160; high = 191 }
    else if b == 237
    then record { count = 2; low = 128; high = 159 }
    else if leb 225 b && leb b 239
    then record { count = 2; low = 128; high = 191 }
    else if b == 240
    then record { count = 3; low = 144; high = 191 }
    else if leb 241 b && leb b 243
    then record { count = 3; low = 128; high = 191 }
    else if b == 244
    then record { count = 3; low = 128; high = 143 }
    else record { count = 4; low = 0; high = 0 }

unfoldable pub continues : Pending → List ℕ → Bool
continues p [] = p.count == 0
continues p (b ∷ bytes) =
    let begin = continues (first_byte b) bytes in
    let next = continues (record { count = p.count - 1; low = 128; high = 191 }) bytes in
    if p.count == 0
    then begin
    else if p.count == 4
    then false
    else if leb p.low b && leb b p.high
    then next
    else false

unfoldable pub is_utf8 : List ℕ → Bool
unfolding continues
is_utf8 bytes = continues (record { count = 0; low = 0; high = 0 }) bytes
