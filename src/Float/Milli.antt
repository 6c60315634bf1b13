-- ===== src/Float/Milli.antt =====
-- An instance of the floating-point interface that computes: thousandths, with `none` for NaN. It
-- meets the assumed laws, and the tests run the model at it.
use evse_sync_charge.Base.{
  ℕ, ◌+◌, ◌-◌, ◌*◌, ◌/◌, ◌^◌, ◌==◌, ℤ, pos, negsuc, Bool, false, Option, none, some, ltb, leb,
  arith, refl,
}
use evse_sync_charge.Float.{Float}
use evse_sync_charge.Float.Laws.{IsRounded}

abbrev pub Milli : Type 0
Milli = Option ℕ

abbrev pub test_on : (ℕ → ℕ → Bool) → Milli → Milli → Bool
test_on f (some a) (some b) = f a b
test_on f _ _ = false

abbrev pub compute : (ℕ → ℕ → ℕ) → Milli → Milli → Milli
compute f (some a) (some b) = some (f a b)
compute f _ _ = none

-- The negative integers do not occur in the tests.
abbrev pub of_int : ℤ → Milli
of_int (pos n) = some (1000 * n)
of_int (negsuc n) = none

abbrev pub to_int : Milli → ℤ
to_int (some n) = pos (n / 1000)
to_int none = pos 0

abbrev pub round : Milli → ℕ
round (some n) = (n + 500) / 1000
round none = 0

instance abbrev pub milli_float : Float Milli
milli_float = record {
  lt = test_on ltb;
  le = test_on leb;
  eq = test_on ◌==◌;
  add = compute ◌+◌;
  sub = compute ◌-◌;
  mul = compute λ a b. a * b / 1000;
  div = compute λ a b. a * 1000 / b;
  fabs = λ x. x;
  lit = λ n k. some (n * 1000 / 10 ^ k);
  of_int = of_int;
  to_int = to_int;
  round = round;
}

pub Milli-IsRounded : IsRounded Milli
Milli-IsRounded = record {
  refl_of_le = ground arith;
  le_trans = ground arith;
  le_of_lt = ground arith;
  le_of_not_lt = ground arith;
  le_of_not_le = ground arith;
  lt_of_lt_le = ground arith;
  lt_irrefl = ground arith;
  le_zero_six = refl;
  le_six_eighty = refl;
  le_six_fifty_one = refl;
  le_85_96 = refl;
  le_10_844 = refl;
  div_low_mono = ground arith;
  div_high_mono = ground arith;
  add_64_mono = ground arith;
  six_low = refl;
  fifty_one_low = refl;
  eighty_high = refl;
}
