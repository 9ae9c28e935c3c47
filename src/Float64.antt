-- ===== src/Float64.antt =====
-- Go's `float64`: the operations that the program uses, and the laws of its comparisons.
-- A proof takes the type as a parameter. `hundredths`, at the end, shows that the laws can be met.
use immich_go_server.Prelude.{
  ℕ, ◌+◌, ◌*◌, ◌/◌, ◌^◌, ◌≡◌, Bool, true, false, ◌||◌, arith, ℤ, pos, negsuc, ltb_ℤ, eqb_ℤ, ◌+ℤ◌,
  ◌-ℤ◌, ◌*ℤ◌,
}

-- `F` is the type of the values, `of_int` and `to_int` the conversions from and to `int64`,
-- `decimal n k` the literal n / 10^k, `lt` and `eq` the comparisons `<` and `==`.
-- The orders hold at every value: a comparison with NaN is false.
pub record Float64 : Type 1 where
  pub F : Type 0
  pub of_int : ℤ → F
  pub to_int : F → ℤ
  pub decimal : ℕ → ℕ → F
  pub add : F → F → F
  pub sub : F → F → F
  pub mul : F → F → F
  pub div : F → F → F
  pub lt : F → F → Bool
  pub eq : F → F → Bool
  pub lt_irrefl : (a : F) → lt a a ≡ false
  pub lt_trans : (a b c : F) → lt a b ≡ true → lt b c ≡ true → lt a c ≡ true
  pub eq_lt : (a b c : F) → eq a b ≡ true → lt b c ≡ true → lt a c ≡ true
  pub lt_eq : (a b c : F) → lt a b ≡ true → eq b c ≡ true → lt a c ≡ true
  pub eq_trans : (a b c : F) → eq a b ≡ true → eq b c ≡ true → eq a c ≡ true
  pub eq_sym : (a b : F) → eq a b ≡ true → eq b a ≡ true

-- Truncated division, as that of Go.
quot : ℤ → ℕ → ℤ
quot (pos n) d = pos (n / d)
quot (negsuc n) d = pos 0 -ℤ pos ((n + 1) / d)

quot_ℤ : ℤ → ℤ → ℤ
unfolding quot ◌-ℤ◌
quot_ℤ a (pos d) = quot a d
quot_ℤ a (negsuc d) = pos 0 -ℤ quot a (d + 1)

pub ltb_ℤ_irrefl : (a : ℤ) → ltb_ℤ a a ≡ false
ltb_ℤ_irrefl a = ground arith

pub ltb_ℤ_trans : (a b c : ℤ) → ltb_ℤ a b ≡ true → ltb_ℤ b c ≡ true → ltb_ℤ a c ≡ true
ltb_ℤ_trans a b c h k = ground arith

pub eqb-ltb : (a b c : ℤ) → eqb_ℤ a b ≡ true → ltb_ℤ b c ≡ true → ltb_ℤ a c ≡ true
eqb-ltb a b c h k = ground arith

pub ltb-eqb : (a b c : ℤ) → ltb_ℤ a b ≡ true → eqb_ℤ b c ≡ true → ltb_ℤ a c ≡ true
ltb-eqb a b c h k = ground arith

pub eqb_ℤ_trans : (a b c : ℤ) → eqb_ℤ a b ≡ true → eqb_ℤ b c ≡ true → eqb_ℤ a c ≡ true
eqb_ℤ_trans a b c h k = ground arith

pub eqb_ℤ_sym : (a b : ℤ) → eqb_ℤ a b ≡ true → eqb_ℤ b a ≡ true
eqb_ℤ_sym a b h = ground arith

unfoldable pub of_int_hundredths : ℤ → ℤ
unfolding ◌*ℤ◌
of_int_hundredths n = n *ℤ pos 100

unfoldable pub mul_hundredths : ℤ → ℤ → ℤ
unfolding quot ◌-ℤ◌ ◌*ℤ◌
mul_hundredths a b = quot (a *ℤ b) 100

unfoldable pub div_hundredths : ℤ → ℤ → ℤ
unfolding quot_ℤ ◌*ℤ◌
div_hundredths a b = quot_ℤ (a *ℤ pos 100) b

unfoldable pub to_int_hundredths : ℤ → ℤ
unfolding quot ◌-ℤ◌
to_int_hundredths a = quot a 100

-- Fixed-point numbers with two decimals.
abbrev pub hundredths : Float64
hundredths = record {
  F = ℤ;
  of_int = of_int_hundredths;
  to_int = to_int_hundredths;
  decimal = λ n k. pos (n * 100 / 10 ^ k);
  add = λ a b. a +ℤ b;
  sub = λ a b. a -ℤ b;
  mul = mul_hundredths;
  div = div_hundredths;
  lt = ltb_ℤ;
  eq = eqb_ℤ;
  lt_irrefl = ltb_ℤ_irrefl;
  lt_trans = ltb_ℤ_trans;
  eq_lt = eqb-ltb;
  lt_eq = ltb-eqb;
  eq_trans = eqb_ℤ_trans;
  eq_sym = eqb_ℤ_sym;
}

-- `a >= b`.
abbrev pub ge : (fl : Float64) → fl.F → fl.F → Bool
ge fl a b = fl.lt b a || fl.eq a b
