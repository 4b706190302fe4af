-- ===== src/Floats.antt =====
-- The `double` and `float` arithmetic of the sources, as a parameter: two types, the conversions
-- and the operations that the code calls. `IsExact` states what IEEE 754 documents of integers.
use content_based.Base.{ℕ, ◌+◌, ◌≤◌, ◌<◌, ◌^◌, ◌≡◌, Bool, ℤ, pos_part, neg_part, ◌+ℤ◌, ltb_ℤ, leb_ℤ}

pub record Floats : Type 1 where
  pub Double : Type 0
  pub Float : Type 0
  -- Conversions from integers and between the two types; `to_int` is that to
  -- `int32_t`: it drops the fraction, and what it gives of a number out of range is not defined.
  pub of_int : ℤ → Double
  pub to_int : Double → ℤ
  pub float_of_int : ℤ → Float
  pub of_float : Float → Double
  pub to_float : Double → Float
  -- `decimal m k` is the literal m * 10^-k.
  pub decimal : ℤ → ℕ → Double
  pub max_float : Float
  pub add : Double → Double → Double
  pub sub : Double → Double → Double
  pub mul : Double → Double → Double
  pub div : Double → Double → Double
  pub lt : Double → Double → Bool
  pub le : Double → Double → Bool
  pub add_float : Float → Float → Float
  pub sub_float : Float → Float → Float
  pub mul_float : Float → Float → Float
  pub div_float : Float → Float → Float
  pub lt_float : Float → Float → Bool

-- The magnitude up to which every integer is a `double`.
abbrev pub IsSmall : ℤ → Type 0
IsSmall n = pos_part n + neg_part n ≤ 2 ^ 53

-- What an `int32_t` can hold.
abbrev pub IsInt32 : ℤ → Type 0
IsInt32 n = (pos_part n < 2 ^ 31) × (neg_part n ≤ 2 ^ 31)

-- Integers of at most 2^53 are represented, added and compared exactly, and those that
-- an `int32_t` can hold are converted back.
pub record IsExact (fl : Floats) : Type 0 where
  pub add_exact :
      (a b : ℤ)
      → IsSmall a
      → IsSmall b
      → IsSmall (a +ℤ b)
      → fl.add (fl.of_int a) (fl.of_int b) ≡ fl.of_int (a +ℤ b)
  pub lt_exact : (a b : ℤ) → IsSmall a → IsSmall b → fl.lt (fl.of_int a) (fl.of_int b) ≡ ltb_ℤ a b
  pub le_exact : (a b : ℤ) → IsSmall a → IsSmall b → fl.le (fl.of_int a) (fl.of_int b) ≡ leb_ℤ a b
  pub to_int_exact : (a : ℤ) → IsInt32 a → fl.to_int (fl.of_int a) ≡ a
