-- ===== src/Broker/Numbers.antt =====
-- sandbox/broker.py: `_to_positive_int`, `_to_positive_float` and `_to_int`.
use strange_claw.Prelude.{ℕ, zero, suc, ◌<◌, ◌≡◌, Option, none, some, arith}
use strange_claw.Prelude.Int.{ℤ, pos, negsuc}
use strange_claw.Value.{Value, boolean, int, float, str}
use strange_claw.Python.{
  Platform, Outcome, returned, raised, Conversion, number, invalid, overflow, Ticks, finite_ticks,
  plus_infinity, minus_infinity, not_a_number, no_float, too_large,
}

-- `parsed <= 0`
positive : ℤ → Option ℕ
positive (pos zero) = none
positive (pos (suc n)) = some (suc n)
positive (negsuc n) = none

only_positive : Conversion → Outcome (Option ℕ)
unfolding positive
only_positive (number n) = returned (positive n)
only_positive invalid = returned none
only_positive (overflow e) = raised e

-- A positive float: ticks of the clock, or infinity, or `nan`, for which `parsed <= 0.0` is false
pub data Period : Type 0 where
  finite : ℕ → Period
  infinite : Period
  undefined : Period

period_of : Option ℕ → Option Period
period_of none = none
period_of (some n) = some (finite n)

only_positive_ticks : Ticks → Outcome (Option Period)
unfolding period_of positive
only_positive_ticks (finite_ticks n) = returned (period_of (positive n))
only_positive_ticks plus_infinity = returned (some infinite)
only_positive_ticks minus_infinity = returned none
only_positive_ticks not_a_number = returned (some undefined)
only_positive_ticks no_float = returned none
only_positive_ticks (too_large e) = raised e

any_number : Conversion → Outcome (Option ℤ)
any_number (number n) = returned (some n)
any_number invalid = returned none
any_number (overflow e) = raised e

module _ {W : Type 0} (py : Platform W) where
  -- `int(value)`; a boolean never comes here
  int_of : Value → Conversion
  int_of (int n) = number n
  int_of (str s) = py.int_of_str s
  int_of (float n) = py.int_of_float n
  int_of _ = invalid

  unfoldable pub to_positive_int : Value → Outcome (Option ℕ)
  unfolding int_of only_positive
  to_positive_int (boolean b) = returned none
  to_positive_int v = only_positive (int_of v)

  unfoldable pub to_positive_float : Value → Outcome (Option Period)
  unfolding only_positive_ticks
  to_positive_float (boolean b) = returned none
  to_positive_float v = only_positive_ticks (py.ticks v)

  unfoldable pub to_int : Value → Outcome (Option ℤ)
  unfolding int_of any_number
  to_int (boolean b) = returned none
  to_int v = any_number (int_of v)

  only_positive-pos : (c : Conversion) (n : ℕ) → only_positive c ≡ returned (some n) → 0 < n
  unfolding only_positive
  only_positive-pos (number (pos zero)) n h = absurd (ground arith)
  only_positive-pos (number (pos (suc m))) n h = ground arith
  only_positive-pos (number (negsuc m)) n h = absurd (ground arith)
  only_positive-pos invalid n h = absurd (ground arith)
  only_positive-pos (overflow e) n h = absurd (ground arith)

  pub to_positive_int-pos : (v : Value) (n : ℕ) → to_positive_int v ≡ returned (some n) → 0 < n
  unfolding to_positive_int
  to_positive_int-pos (boolean b) n h = absurd (ground arith)
  to_positive_int-pos v n h = only_positive-pos (int_of v) n h
