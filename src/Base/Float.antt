-- ===== src/Base/Float.antt =====
-- IEEE doubles, which the code only converts to and from integers and compares: a parameter.
use test_permission.Base.{Bool, true, ◌≡◌, ◌^◌}
use test_permission.Base.Int.{ℤ, pos, leb_ℤ, ◌-ℤ◌}

pub record Float64 : Type 1 where
  pub T : Type 0
  pub of_int : ℤ → T  -- float64(i)
  pub to_int : T → ℤ  -- int64(f)
  pub same : T → T → Bool  -- f == g

-- 2^53, the bound up to which every integer is a double.
abbrev pub exact_bound : ℤ
exact_bound = pos (2 ^ 53)

-- Documented behaviour of the conversions: exact up to 2^53, and there and back.
pub record IsExact (F : Float64) : Type 0 where
  pub round_trip :
      (i : ℤ)
      → leb_ℤ i exact_bound ≡ true
      → leb_ℤ (pos 0 -ℤ exact_bound) i ≡ true
      → F.to_int (F.of_int i) ≡ i
