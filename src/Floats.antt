-- ===== src/Floats.antt =====
-- The arithmetic of `float` and `double` and the functions of <cmath> that the program calls. The
-- types and their operations belong to the compiler and its library, and are a parameter.
use nanoinfer.Prelude.{ℕ, ℤ, Bool}

pub record FloatOps : Type 1 where
  pub Float : Type 0
  pub Double : Type 0
  pub zero_f : Float
  pub one_f : Float
  pub neg_inf : Float
  pub zero_d : Double
  pub one_d : Double
  pub two_pi : Double
  -- Casts: an integer to a float or a double, a float to an `int`, `double(x)` and `float(x)`.
  pub of_ℕ : ℕ → Float
  pub of_ℤ : ℤ → Float
  pub of_ℕ_d : ℕ → Double
  pub of_ℤ_d : ℤ → Double
  pub to_ℤ : Float → ℤ
  -- The float of a 32-bit pattern, and the pattern of a float.
  pub of_bits : ℕ → Float
  pub to_bits : Float → ℕ
  pub widen : Float → Double
  pub narrow : Double → Float
  pub add_f : Float → Float → Float
  pub sub_f : Float → Float → Float
  pub mul_f : Float → Float → Float
  pub div_f : Float → Float → Float
  pub add_d : Double → Double → Double
  pub mul_d : Double → Double → Double
  pub sub_d : Double → Double → Double
  pub div_d : Double → Double → Double
  -- `a > b`
  pub gt_f : Float → Float → Bool
  pub gt_d : Double → Double → Bool
  -- `fmaxf`
  pub max_f : Float → Float → Float
  -- `a == b`
  pub eq_f : Float → Float → Bool
  pub is_nan : Float → Bool
  -- `std::nearbyint` in the default rounding mode, `std::fabs`, `-a`
  pub round_f : Float → Float
  pub abs_f : Float → Float
  pub neg_f : Float → Float
  pub exp_f : Float → Float
  pub exp_d : Double → Double
  pub sqrt_f : Float → Float
  pub pow_d : Double → Double → Double
  pub cos_d : Double → Double
  pub sin_d : Double → Double
