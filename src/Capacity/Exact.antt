-- ===== src/Capacity/Exact.antt =====
-- Whole numbers with infinity, added and compared exactly: float64 where every number that the flow
-- meets is whole and small enough to be exact. What exceeds the eps of flow.go is what exceeds zero.
use sysml_federation.Base.{ℕ, ◌+◌, ◌-◌, Bool, true, false, not, min, ltb, ◌==◌, bytes}
use sysml_federation.Capacity.Verdict.{Floats}
use sysml_federation.Capacity.Flow.{Arithmetic}

pub data Amount : Type 0 where
  finite : ℕ → Amount
  infinite : Amount

abbrev pub less : Amount → Amount → Bool
less (finite a) (finite b) = ltb a b
less (finite a) infinite = true
less infinite b = false

abbrev pub equal : Amount → Amount → Bool
equal (finite a) (finite b) = a == b
equal (finite a) infinite = false
equal infinite (finite b) = false
equal infinite infinite = true

abbrev pub plus : Amount → Amount → Amount
plus (finite a) (finite b) = finite (a + b)
plus (finite a) infinite = infinite
plus infinite b = infinite

-- No flow takes more than a capacity has, nor an infinite amount.
abbrev pub minus : Amount → Amount → Amount
minus (finite a) (finite b) = finite (a - b)
minus (finite a) infinite = finite 0
minus infinite b = infinite

abbrev pub least : Amount → Amount → Amount
least (finite a) (finite b) = finite (min a b)
least (finite a) infinite = finite a
least infinite b = b

abbrev pub exact : Floats
exact = record {
  Float = Amount;
  less = less;
  at_most = λ a b. not (less b a);
  equal = equal;
  float_zero = finite 0;
  format = λ a. bytes "n";
}

abbrev pub exact_arithmetic : Arithmetic Amount
exact_arithmetic = record {
  plus = plus;
  minus = minus;
  least = least;
  infinity = infinite;
  eps = finite 0;
}
