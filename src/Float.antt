-- ===== src/Float.antt =====
-- Python's `float`, as an interface: the arithmetic is the platform's, so it is a parameter.
-- `Float F` holds the operations that the program uses. The definitions ask for these alone, and so
-- do all theorems about control flow: they hold of IEEE doubles, NaN and rounding included.
-- `IsExact F` adds the laws of sums and comparisons of finite amounts that are not rounded; the
-- theorems about balances name it as a hypothesis.
pub mod Fixed
use aicrypto_trader.Base.{
  ℕ, ◌+◌, ◌≤◌, ◌<◌, ◌≡◌, ◌↔◌, Bool, true, false, if◌then◌else◌, not, List, [], ◌∷◌,
}
use aicrypto_trader.Int.{ℤ, pos}

pub record Float (F : Type 0) : Type 0 where
  pub add : F → F → F
  pub sub : F → F → F
  pub mul : F → F → F
  -- the quotient at a divisor other than zero; Python raises at zero, and the model does so first
  pub div : F → F → F
  pub neg : F → F
  pub abs : F → F
  pub le : F → F → Bool
  pub lt : F → F → Bool
  pub eq : F → F → Bool
  -- `float(n)` of an integer
  pub of_int : ℤ → F
  -- the decimal constant n * 10 ^ -k
  pub literal : ℕ → ℕ → F
  -- `round(x, k)`
  pub round : F → ℕ → F

module _ {F : Type 0} ⦃fl : Float F⦄ where
  infixl 65 ◌⊕◌ ◌⊖◌
  infixl 70 ◌⊗◌ ◌⊘◌
  abbrev pub ◌⊕◌ : F → F → F
  a ⊕ b = fl.add a b

  abbrev pub ◌⊖◌ : F → F → F
  a ⊖ b = fl.sub a b

  abbrev pub ◌⊗◌ : F → F → F
  a ⊗ b = fl.mul a b

  abbrev pub ◌⊘◌ : F → F → F
  a ⊘ b = fl.div a b

  abbrev pub le : F → F → Bool
  le a b = fl.le a b

  abbrev pub lt : F → F → Bool
  lt a b = fl.lt a b

  abbrev pub eq : F → F → Bool
  eq a b = fl.eq a b

  abbrev pub literal : ℕ → ℕ → F
  literal n k = fl.literal n k

  abbrev pub of_int : ℤ → F
  of_int n = fl.of_int n

  abbrev pub nought : F
  nought = fl.literal 0 0

  -- Python's `min(a, b)` and `max(a, b)` keep the first unless the second is strictly better.
  abbrev pub fmin : F → F → F
  fmin a b = if fl.lt b a then b else a

  abbrev pub fmax : F → F → F
  fmax a b = if fl.lt a b then b else a

  -- `sum(xs)` adds from the left.
  abbrev pub sum_from : F → List F → F
  sum_from acc [] = acc
  sum_from acc (x ∷ xs) = sum_from (fl.add acc x) xs

-- Amounts read as credit less debit, on a grid on which sums are not rounded. NaN has no place
-- there. Products and quotients are left alone, but for a product with zero.
pub record IsExact (F : Type 0) ⦃fl : Float F⦄ : Type 0 where
  pub credit : F → ℕ
  pub debit : F → ℕ
  pub add_parts :
      (a b : F) → credit (a ⊕ b) + debit a + debit b ≡ debit (a ⊕ b) + credit a + credit b
  pub sub_parts :
      (a b : F) → credit (a ⊖ b) + debit a + credit b ≡ debit (a ⊖ b) + credit a + debit b
  pub zero_parts : credit nought ≡ debit nought
  pub eq_of_parts : (a b : F) → credit a + debit b ≡ credit b + debit a → a ≡ b
  pub le_iff : (a b : F) → (le a b ≡ true) ↔ (credit a + debit b ≤ credit b + debit a)
  pub lt_iff : (a b : F) → (lt a b ≡ true) ↔ (credit a + debit b < credit b + debit a)
  pub eq_iff : (a b : F) → (eq a b ≡ true) ↔ (a ≡ b)
  pub zero_mul : (a : F) → nought ⊗ a ≡ nought
