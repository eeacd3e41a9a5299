-- ===== src/Recurrence/Steps.antt =====
-- Recurrence: the least multiple of an interval that reaches a number, as nextDailyScheduledAt rounds
-- up and as the remainders of nextWeeklyScheduledAt and nextMonthlyScheduledAt find it.
use native.Mathlib.Nat.{div-lt_iff_lt-mul, mod-lt}
use native.Mathlib.Omega.{div_any}
use atlaspm.Base.{
  ℕ, zero, suc, ◌+◌, ◌*◌, ◌-◌, ◌/◌, ◌%◌, ◌≤◌, ◌<◌, ◌≡◌, arith, ◌==◌, Bool-cases, inl, inr, refl,
  leb,
}
use atlaspm.Recurrence.{ceil_div, round_up}

pub record IsLeastMultiple (interval base m : ℕ) : Type 0 where
  pub times : ℕ
  pub exact : m ≡ times * interval
  pub reaches : base ≤ m
  pub least : (k : ℕ) → base ≤ k * interval → m ≤ k * interval

mul_mono : (i a b : ℕ) → a ≤ b → a * i ≤ b * i
mul_mono i zero b h = omega arith
mul_mono i (suc a) zero h = absurd (omega (arith, h))
mul_mono i (suc a) (suc b) h = omega (arith, mul_mono i a b (omega (arith, h)))

-- Two multiples of an interval are an interval apart, or the first is not the smaller one.
pub times-lt : (i a b : ℕ) → a * i < b * i → a * i + i ≤ b * i
times-lt i a b h = elim (Bool-cases (leb b a)) [
  | inl e ↦ absurd (omega (arith, mul_mono i b a (ground (arith, e)), h))
  | inr e ↦ omega (arith, mul_mono i (suc a) b (ground (arith, e)))
]

pub ceil_div-IsLeastMultiple : (i a : ℕ) → 1 ≤ i → IsLeastMultiple i a (ceil_div a i * i)
ceil_div-IsLeastMultiple i a h = record {
  times = ceil_div a i;
  exact = refl;
  reaches =
      let q : ℕ = (a + (i - 1)) / i in
      let e : i * q + (a + (i - 1)) % i ≡ a + (i - 1) = div_any (a + (i - 1)) i in
      let r : (a + (i - 1)) % i < i = mod-lt (a + (i - 1)) (omega arith) in omega (arith, e, r, h);
  least = λ k p. mul_mono i (ceil_div a i) k (
      let q : ceil_div a i < suc k =
        (div-lt_iff_lt-mul {k = i} {x = a + (i - 1)} {y = suc k} (omega arith)).1
          (omega (arith, p, h)) in
      omega (arith, q));
}

pub round_up-IsLeastMultiple : (i base : ℕ) → 1 ≤ i → IsLeastMultiple i base (round_up base i)
round_up-IsLeastMultiple i base h =
    let e : i * (base / i) + base % i ≡ base = div_any base i in
    let r : base % i < i = mod-lt base (omega arith) in
    elim (Bool-cases (base % i == 0)) [
      | inl z ↦ rw z record {
        times = base / i;
        exact = ground (arith, e, z);
        reaches = omega arith;
        least = λ k p. p;
      }
      | inr z ↦ rw z record {
        times = suc (base / i);
        exact = ground (arith, e, r);
        reaches = omega arith;
        least = λ k p. ground (arith, e, r, z, times-lt i (base / i) k);
      }
    ]
