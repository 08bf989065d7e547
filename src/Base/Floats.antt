-- ===== src/Base/Floats.antt =====
-- Go's float64: the type and its operations are a parameter, so every theorem that takes one holds
-- of IEEE arithmetic. `integers` is an instance to run the model on.
use sky_flow.Base.{ℕ, ◌*◌, Bool, not}
use sky_flow.Base.Int.{ℤ, pos, ◌+ℤ◌, ◌-ℤ◌, ◌*ℤ◌, ltb_ℤ, abs}

-- `lt` and `le` are the comparisons of the language, `to_int` the conversion to int64, `of_int` that
-- from an integer type, `ratio n d` the constant n / d.
pub record FloatOps (R : Type 0) : Type 0 where
  pub add : R → R → R
  pub sub : R → R → R
  pub mul : R → R → R
  pub div : R → R → R
  pub neg : R → R
  pub abs_of : R → R
  pub exp : R → R
  pub pow : R → R → R
  pub lt : R → R → Bool
  pub le : R → R → Bool
  pub of_int : ℤ → R
  pub to_int : R → ℤ
  pub ratio : ℕ → ℕ → R

-- Integers that count hundredths; `exp` and `pow` are constant.
abbrev pub hundredths : FloatOps ℤ
hundredths = record {
  add = ◌+ℤ◌;
  sub = ◌-ℤ◌;
  mul = λ a b. a *ℤ b;
  div = λ a b. a;
  neg = λ a. pos 0 -ℤ a;
  abs_of = abs;
  exp = λ a. pos 1;
  pow = λ a b. a;
  lt = ltb_ℤ;
  le = λ a b. not (ltb_ℤ b a);
  of_int = λ a. a;
  to_int = λ a. a;
  ratio = λ n d. pos (n * 100);
}
