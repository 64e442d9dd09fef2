-- ===== src/Ws/Float.antt =====
-- What the limits of internal/ws take from float64, package math and time.Duration. The operations
-- are a parameter, with the laws of IEEE 754 that the limits rely on.
use midnight_council.Base.{
  ℕ, suc, ◌+◌, ◌-◌, ◌*◌, ◌/◌, ◌^◌, ◌<◌, ◌≤◌, ◌≡◌, Bool, true, false, Option, none, some, arith, ltb,
  leb, ℤ, pos, negsuc, if◌then◌else◌,
}

pub record Float64 {ℓ} (W : Type ℓ) : Type ℓ where
  -- `float64(n)`, and the constant 0.2
  pub of_int : ℤ → W
  pub fifth : W
  -- `Duration.Seconds`, of a duration that is not negative
  pub seconds : ℕ → W
  pub add : W → W → W
  pub sub : W → W → W
  pub mul : W → W → W
  pub min : W → W → W
  pub lt : W → W → Bool
  pub le : W → W → Bool
  pub is_nan : W → Bool
  pub is_inf : W → Bool

module _ {ℓ} {W : Type ℓ} ⦃f : Float64 W⦄ where
  abbrev pub nil_value : W
  nil_value = f.of_int (pos 0)

  abbrev pub unit_value : W
  unit_value = f.of_int (pos 1)

  -- Neither NaN nor below 0.
  abbrev pub NonNegative : W → Type 0
  NonNegative x = f.le nil_value x ≡ true

-- NaN is not `<=` anything. The exact equations are about integers up to 2^53.
pub record IsFloat {ℓ} (W : Type ℓ) ⦃f : Float64 W⦄ : Type ℓ where
  pub le_trans : (x y z : W) → f.le x y ≡ true → f.le y z ≡ true → f.le x z ≡ true
  pub le_not_lt : (x y : W) → f.le x y ≡ true → f.lt y x ≡ false
  pub not_lt_le : (x : W) → NonNegative x → f.lt x unit_value ≡ false → f.le unit_value x ≡ true
  pub positive : (x : W) → f.le x nil_value ≡ false → f.is_nan x ≡ false → NonNegative x
  pub of_int_le : (m n : ℕ) → m ≤ n → f.le (f.of_int (pos m)) (f.of_int (pos n)) ≡ true
  pub nil_lt_unit : f.lt nil_value unit_value ≡ true
  pub unit_le_suc : (n : ℕ) → f.lt (f.of_int (pos (suc n))) unit_value ≡ false
  pub seconds_nonnegative : (n : ℕ) → NonNegative (f.seconds n)
  pub seconds_finite : (n : ℕ) → f.is_inf (f.seconds n) ≡ false
  pub seconds_nil : f.seconds 0 ≡ nil_value
  pub mul_nonnegative :
      (x y : W)
      → NonNegative x
      → NonNegative y
      → f.is_inf x ≡ false
      → f.is_inf y ≡ false
      → NonNegative (f.mul x y)
  pub mul_nil :
      (y : W)
      → f.le y nil_value ≡ false
      → f.is_nan y ≡ false
      → f.is_inf y ≡ false
      → f.mul nil_value y ≡ nil_value
  pub add_left : (x y : W) → NonNegative x → NonNegative y → f.le x (f.add x y) ≡ true
  pub add_right : (x y : W) → NonNegative x → NonNegative y → f.le y (f.add x y) ≡ true
  pub add_nil : (n : ℕ) → f.add (f.of_int (pos n)) nil_value ≡ f.of_int (pos n)
  pub min_left : (x y : W) → NonNegative x → NonNegative y → f.le (f.min x y) x ≡ true
  pub min_above : (x y z : W) → f.le z x ≡ true → f.le z y ≡ true → f.le z (f.min x y) ≡ true
  pub min_small : (c m : ℕ) → m ≤ c → f.min (f.of_int (pos c)) (f.of_int (pos m)) ≡ f.of_int (pos m)
  pub sub_nonnegative : (x : W) → f.le unit_value x ≡ true → NonNegative (f.sub x unit_value)
  pub sub_le : (x : W) → f.le unit_value x ≡ true → f.le (f.sub x unit_value) x ≡ true
  pub sub_unit : (n : ℕ) → n < 2 ^ 53 → f.sub (f.of_int (pos (suc n))) unit_value ≡ f.of_int (pos n)

-- The laws can be met: tenths, with `none` for NaN.
abbrev pub Tenths : Type 0
Tenths = Option ℕ

abbrev pub on_tenths : (ℕ → ℕ → ℕ) → Tenths → Tenths → Tenths
on_tenths op (some a) (some b) = some (op a b)
on_tenths op _ _ = none

abbrev pub test_tenths : (ℕ → ℕ → Bool) → Tenths → Tenths → Bool
test_tenths test (some a) (some b) = test a b
test_tenths test _ _ = false

abbrev pub tenths_of_int : ℤ → Tenths
tenths_of_int (pos n) = some (n * 10)
tenths_of_int (negsuc n) = none

abbrev pub not_a_number : Tenths → Bool
not_a_number none = true
not_a_number (some a) = false

instance abbrev pub tenths_float : Float64 Tenths
tenths_float = record {
  of_int = tenths_of_int;
  fifth = some 2;
  seconds = λ n. some (n / 10 ^ 8);
  add = on_tenths λ a b. a + b;
  sub = on_tenths λ a b. a - b;
  mul = on_tenths λ a b. a * b / 10;
  min = on_tenths λ a b. if leb a b then a else b;
  lt = test_tenths ltb;
  le = test_tenths leb;
  is_nan = not_a_number;
  is_inf = λ _. false;
}

pub Tenths-IsFloat : IsFloat Tenths
Tenths-IsFloat = ground arith
