-- ===== src/Floating.antt =====
-- C's `float` and `double`, which the language here has none of: the types and the operations that
-- the program uses on them are a parameter of every definition that computes with them. Nothing is
-- assumed of them except where a theorem takes one of the laws below as its hypothesis.
use tank_convertor.Base.{ℕ, ◌/◌, ◌≡◌, Bool, true, false, ℤ, pos, ltb_ℤ, ◌+ℤ◌, ◌-ℤ◌, ◌*ℤ◌, pos_part}

pub record Floating : Type 1 where
  pub Double : Type 0
  pub Single : Type 0
  -- The value of an object representation, as an unsigned number of 64 or 32 bits.
  pub double_of_bits : ℕ → Double
  pub single_of_bits : ℕ → Single
  -- The conversions. Those to an integer stand for the conversion to each integer type: C defines it
  -- where the value fits the type.
  pub double_of_int : ℤ → Double
  pub single_of_int : ℤ → Single
  pub single_of_double : Double → Single
  pub double_of_single : Single → Double
  pub int_of_double : Double → ℤ
  pub int_of_single : Single → ℤ
  -- Arithmetic and `<`.
  pub add : Double → Double → Double
  pub sub : Double → Double → Double
  pub mul : Double → Double → Double
  pub div : Double → Double → Double
  pub mul_single : Single → Single → Single
  pub div_single : Single → Single → Single
  pub lt : Double → Double → Bool

-- `<` on the numbers that `IsNumber` picks out, those that are not NaN: a strict total preorder.
pub record IsOrdered (f : Floating) (IsNumber : f.Double → Type 0) : Type 0 where
  pub lt_asymm : (x y : f.Double) → IsNumber x → IsNumber y → f.lt x y ≡ true → f.lt y x ≡ false
  -- `¬ (y < x)` and `¬ (z < y)` give `¬ (z < x)`.
  pub le_trans :
      (x y z : f.Double)
      → IsNumber x
      → IsNumber y
      → IsNumber z
      → f.lt y x ≡ false
      → f.lt z y ≡ false
      → f.lt z x ≡ false

-- Whole numbers in place of floating-point ones, for examples that are run.
abbrev pub whole : Floating
whole = record {
  Double = ℤ;
  Single = ℤ;
  double_of_bits = pos;
  single_of_bits = pos;
  double_of_int = λ z. z;
  single_of_int = λ z. z;
  single_of_double = λ z. z;
  double_of_single = λ z. z;
  int_of_double = λ z. z;
  int_of_single = λ z. z;
  add = ◌+ℤ◌;
  sub = ◌-ℤ◌;
  mul = ◌*ℤ◌;
  div = λ a b. pos (pos_part a / pos_part b);
  mul_single = ◌*ℤ◌;
  div_single = λ a b. pos (pos_part a / pos_part b);
  lt = ltb_ℤ;
}
