-- ===== src/Version.antt =====
-- `semver::Version` is a type of the semver crate, which the program uses through its order alone.
-- The model takes the type as a parameter, and what the crate documents (`Ord`) as an interface.
use tauri_plugin_hot_update.Prelude.{Bool, true, false, not, ◌≡◌, arith, if◌then◌else◌}

pub record Order (V : Type 0) : Type 0 where
  pub leb : V → V → Bool
  pub leb_total : (a b : V) → leb a b ≡ false → leb b a ≡ true
  pub leb_trans : (a b c : V) → leb a b ≡ true → leb b c ≡ true → leb a c ≡ true
  pub leb_antisym : (a b : V) → leb a b ≡ true → leb b a ≡ true → a ≡ b

module _ {V : Type 0} ⦃o : Order V⦄ where
  -- `a <= b` and `a > b`
  abbrev pub at_most : V → V → Bool
  at_most a b = o.leb a b

  abbrev pub newer : V → V → Bool
  newer a b = not (o.leb a b)

  -- `a.max(b)`
  abbrev pub max_version : V → V → V
  max_version a b = if o.leb a b then b else a

  pub at_most_refl : (a : V) → at_most a a ≡ true
  at_most_refl a = ground (arith, o.leb_total a a)

  pub at_most-max_left : (a b : V) → at_most a (max_version a b) ≡ true
  at_most-max_left a b = ground (arith, o.leb_total a a)

  pub at_most-max_right : (a b : V) → at_most b (max_version a b) ≡ true
  at_most-max_right a b = ground (arith, o.leb_total b b, o.leb_total a b)

  pub newer-max : (v a b : V) → newer v (max_version a b) ≡ (if newer v a then newer v b else false)
  newer-max v a b = ground (arith, o.leb_total a b, o.leb_trans v a b, o.leb_trans v b a)

  pub newer_trans : (a b c : V) → newer a b ≡ true → at_most c b ≡ true → newer a c ≡ true
  newer_trans a b c h k = ground (arith, o.leb_trans a c b)
