-- ===== src/Float/Fixed.antt =====
-- A concrete `Float`: fixed-point numbers in units of 10 ^ -4. It runs the tests, and shows that the
-- laws of `IsExact` can hold together.
use Prim.Native.Nat.{◌/◌, ◌^◌}
use aicrypto_trader.Base.{ℕ, suc, ◌+◌, ◌*◌, ◌≡◌, refl, arith}
use aicrypto_trader.Int.{
  ℤ, pos, negsuc, pos_part, neg_part, ◌+ℤ◌, ◌-ℤ◌, ◌*ℤ◌, neg_ℤ, ltb_ℤ, leb_ℤ, is_zero,
}
use aicrypto_trader.Float.{Float, IsExact}

-- division towards zero
abbrev div_ℕ : ℤ → ℕ → ℤ
div_ℕ (pos a) b = pos (a / b)
div_ℕ (negsuc a) b = neg_ℤ (pos (suc a / b))

abbrev div_ℤ : ℤ → ℤ → ℤ
div_ℤ a (pos b) = div_ℕ a b
div_ℤ a (negsuc b) = neg_ℤ (div_ℕ a (suc b))

abbrev scale : ℕ
scale = 10_000

abbrev pub Fixed : Type 0
Fixed = ℤ

instance abbrev pub fixed_float : Float Fixed
fixed_float = record {
  add = ◌+ℤ◌;
  sub = ◌-ℤ◌;
  mul = λ a b. div_ℕ (a *ℤ b) scale;
  div = λ a b. div_ℤ (a *ℤ pos scale) b;
  neg = neg_ℤ;
  abs = λ a. pos (pos_part a + neg_part a);
  le = leb_ℤ;
  lt = ltb_ℤ;
  eq = λ a b. is_zero (a -ℤ b);
  of_int = λ a. a *ℤ pos scale;
  literal = λ n k. pos (n * scale / 10 ^ k);
  round = λ a k. a;
}

zero_product : (a : ℤ) → div_ℕ (pos 0 *ℤ a) scale ≡ pos 0
zero_product a = ground arith

pub Fixed-IsExact : IsExact Fixed
Fixed-IsExact = record {
  credit = pos_part;
  debit = neg_part;
  add_parts = ground arith;
  sub_parts = ground arith;
  zero_parts = refl;
  eq_of_parts = ground arith;
  le_iff = ground arith;
  lt_iff = ground arith;
  eq_iff = ground arith;
  zero_mul = zero_product;
}
