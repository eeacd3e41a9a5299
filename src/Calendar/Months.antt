-- ===== src/Calendar/Months.antt =====
-- Calendar: a day and its calendar date determine each other, and months follow one another.
use atlaspm.Base.{
  ℕ, zero, suc, ◌+◌, ◌*◌, ◌-◌, ◌/◌, ◌%◌, ◌≤◌, ◌<◌, ◌≡◌, inl, inr, refl, arith, Bool, ltb, leb,
  Bool-cases,
}
use atlaspm.Calendar.{
  Civil, month_start, month_length, civil, date_utc, next_day, is_leap, length_in, full_year,
  month_index,
}

length_in-bounds : (leap : Bool) (i : ℕ) → (28 ≤ length_in leap i) × (length_in leap i ≤ 31)
length_in-bounds leap i = ground arith

pub month_length-bounds : (m : ℕ) → (28 ≤ month_length m) × (month_length m ≤ 31)
unfolding month_length
month_length-bounds m = length_in-bounds (is_leap (1967 + m / 12)) (m % 12)

-- What `civil` answers: a day of the month that the month has, on the right day.
record IsDate (n : ℕ) (c : Civil) : Type 0 where
  low : 1 ≤ c.day
  high : c.day ≤ month_length c.month
  same : month_start c.month + c.day ≡ suc n

next_day-IsDate : (n : ℕ) (c : Civil) → IsDate n c → IsDate (suc n) (next_day c)
next_day-IsDate n c h = elim (Bool-cases (ltb c.day (month_length c.month))) [
  | inl e ↦
      rw (next_day, e)
        record { low = omega arith; high = ground (arith, e); same = omega (arith, h.same) }
  | inr e ↦
      rw (next_day, e)
        record {
          low = omega arith;
          high = omega (arith, month_length-bounds (suc c.month));
          same = ground (arith, h.same, h.high, e);
        }
]

civil-IsDate : (n : ℕ) → IsDate n (civil n)
unfolding civil
civil-IsDate zero = record {
  low = omega arith;
  high = omega (arith, month_length-bounds 0);
  same = refl;
}
civil-IsDate (suc n) = next_day-IsDate n (civil n) (civil-IsDate n)

pub month_start_mono : (m k : ℕ) → m ≤ k → month_start m ≤ month_start k
month_start_mono zero zero h = omega arith
month_start_mono (suc m) zero h = absurd (omega (arith, h))
month_start_mono m (suc k) h = elim (Bool-cases (leb m k)) [
  | inl e ↦ omega (arith, month_start_mono m k (ground (arith, e)))
  | inr e ↦ ground (arith, e)
]

pub month_start-civil : (n : ℕ) → month_start (civil n).month + (civil n).day ≡ suc n
month_start-civil n = (civil-IsDate n).same

pub civil-day_positive : (n : ℕ) → 1 ≤ (civil n).day
civil-day_positive n = (civil-IsDate n).low

-- A day lies in its month.
pub month_start-le : (n : ℕ) → month_start (civil n).month ≤ n
month_start-le n = let h = civil-IsDate n in omega (arith, h.same, h.low)

pub lt-month_start : (n m : ℕ) → (civil n).month < m → n < month_start m
lt-month_start n m p =
    let h = civil-IsDate n in
    omega (arith, h.same, h.high, month_start_mono (suc (civil n).month) m p)

pub month-civil : (n m : ℕ) → month_start m ≤ n → n < month_start (suc m) → (civil n).month ≡ m
month-civil n m p q =
    let left : (civil n).month < m → n < month_start m = lt-month_start n m in
    let right : suc m ≤ (civil n).month → month_start (suc m) ≤ month_start (civil n).month =
      month_start_mono (suc m) (civil n).month in
    ground (arith, left, right, month_start-le n)

month_number : (c : Civil) → (full_year c - 1967) * 12 + month_index c ≡ c.month
month_number c = omega arith

-- A day is the number that `Date.UTC` gives its calendar date.
pub date_utc-civil :
    (n : ℕ) → date_utc (full_year (civil n)) (month_index (civil n)) (civil n).day ≡ n
unfolding date_utc
date_utc-civil n = let h = civil-IsDate n in rw (month_number (civil n)) (omega (arith, h.same))

same_date : (a b : Civil) → a.month ≡ b.month → a.day ≡ b.day → a ≡ b
same_date a b p q = cc

-- The calendar date of the day on which a month's day stands.
pub civil-month_start :
    (c : Civil)
    → 1 ≤ c.day
    → c.day ≤ month_length c.month
    → civil (month_start c.month + c.day - 1) ≡ c
civil-month_start c low high =
    let n : ℕ = month_start c.month + c.day - 1 in
    let same : (civil n).month ≡ c.month = month-civil n c.month (omega arith) (omega arith) in
    same_date (civil n) c same (ground (arith, same, month_start-civil n))

pub lt_of_month-lt : (a b : ℕ) → (civil a).month < (civil b).month → a < b
lt_of_month-lt a b h = omega (arith, lt-month_start a (civil b).month h, month_start-le b)
