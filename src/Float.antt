-- ===== src/Float.antt =====
-- Rust's `f32` as far as the service compares such values. Every finite f32 is a whole multiple of
-- 2 ^ -149, so it is modelled by that multiple, exactly; -0.0 and 0.0 are one value, as for
-- `==` and `<`. Rounding arithmetic is not modelled.
use eir.Prelude.{◌+◌, ◌^◌, Bool, true, false, ◌&&◌, not, leb}
use eir.Prelude.Int.{ℤ, pos, pos_part, neg_part}

pub data F32 : Type 0 where
  nan pos_inf neg_inf : F32
  fin : ℤ → F32

abbrev leb_ℤ : ℤ → ℤ → Bool
leb_ℤ a b = leb (pos_part a + neg_part b) (pos_part b + neg_part a)

-- a <= b
unfoldable pub le_f32 : F32 → F32 → Bool
le_f32 nan b = false
le_f32 pos_inf pos_inf = true
le_f32 pos_inf b = false
le_f32 neg_inf nan = false
le_f32 neg_inf b = true
le_f32 (fin a) nan = false
le_f32 (fin a) pos_inf = true
le_f32 (fin a) neg_inf = false
le_f32 (fin a) (fin b) = leb_ℤ a b

-- a < b
unfoldable pub lt_f32 : F32 → F32 → Bool
lt_f32 nan b = false
lt_f32 pos_inf b = false
lt_f32 neg_inf nan = false
lt_f32 neg_inf neg_inf = false
lt_f32 neg_inf b = true
lt_f32 (fin a) nan = false
lt_f32 (fin a) pos_inf = true
lt_f32 (fin a) neg_inf = false
lt_f32 (fin a) (fin b) = leb_ℤ a b && not (leb_ℤ b a)

unfoldable pub is_finite : F32 → Bool
is_finite (fin a) = true
is_finite _ = false

abbrev pub zero_f32 : F32
zero_f32 = fin (pos 0)

abbrev pub one_f32 : F32
one_f32 = fin (pos (2 ^ 149))
