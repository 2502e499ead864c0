-- ===== src/Tests/Numbers.antt =====
-- Natural numbers as `float`: every operation is exact, and there is no NaN.
use rootmem.Base.{ℕ, zero, suc, ◌+◌, ◌-◌, ◌*◌, ◌/◌, ◌≡◌, refl, true, ltb, leb, nat_beq, arith}
use Prim.Native.Nat.{◌^◌}
use rootmem.Base.Float.{Float, IsOrdered, IsMonotone}

instance abbrev pub number : Float ℕ
number = record {
  of_ℕ = λ n. n;
  decimal = λ n k. n / 10 ^ k;
  lt = ltb;
  le = leb;
  eq = nat_beq;
  add = λ a b. a + b;
  sub = λ a b. a - b;
  mul = λ a b. a * b;
  div = λ a b. a / b;
  neg = λ a. 0 - a;
  exp = λ n. suc n;
  log1p = λ n. n;
  sqrt = λ n. n;
  seconds = λ a b. a - b;
}

pub number-IsOrdered : IsOrdered ℕ
number-IsOrdered = record {
  le_trans = λ a b c p q. ground arith;
  le_of_lt = λ a b p. ground arith;
  number_of_le = λ a b p. (ground arith, ground arith);
  le_of_not_lt = λ a b p q r. ground arith;
  lt_asym = λ a b p. ground arith;
  not_lt_of_le = λ a b p. ground arith;
  lt_of_lt_le = λ a b c p q. ground arith;
  lt_nan = λ a b p. (ground arith, ground arith);
  zero_lt_one = refl;
}

abbrev scaled : (c w : ℕ) → leb c 1 ≡ true → leb w 1000 ≡ true → leb (c * w) 1000 ≡ true
scaled zero w p q = ground arith
scaled (suc zero) w p q = ground arith
scaled (suc (suc c)) w p q = absurd (ground arith)

abbrev pub number-IsMonotone : IsMonotone ℕ
number-IsMonotone = record {
  largest = 1000;
  sub_unit = λ c u. (ground arith, ground arith);
  mul_unit = λ c w u p q. (ground arith, scaled c w u.1 q);
  mul_comm = λ a b. omega arith;
  add_pos = λ a w p q. ground arith;
  le_add = λ a w p q. ground arith;
}
