-- ===== src/Base/Number.antt =====
-- A JavaScript number, as far as `Number.isInteger` and comparisons with integers tell: an
-- integer, or a value that is none (a fraction, NaN or an infinity).
use atlaspm.Base.Int.{ℤ, pos, ◌+ℤ◌}

pub data Number : Type 0 where
  int : ℤ → Number
  non_integer : Number

-- `x += 1`
abbrev pub increment : Number → Number
increment (int z) = int (z +ℤ pos 1)
increment non_integer = non_integer
