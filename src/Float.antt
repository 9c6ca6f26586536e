-- ===== src/Float.antt =====
-- The operations on `double` that the sources use. Their meaning is the processor's and the C++
-- library's: they are a parameter of the models that use them.
use service_control_client_c.Prelude.{Bool, ℤ}

pub record Float {ℓ} (D : Type ℓ) : Type ℓ where
  -- an integer converted to a double
  pub of_int : ℤ → D
  pub add : D → D → D
  pub sub : D → D → D
  pub mul : D → D → D
  pub div : D → D → D
  pub log2 : D → D
  pub abs : D → D
  -- `a < b` and `a <= b`, false if one is not a number
  pub lt : D → D → Bool
  pub le : D → D → Bool
  pub is_nan : D → Bool
  -- `static_cast<int>`
  pub to_int : D → ℤ
  -- 1e-5
  pub epsilon : D
