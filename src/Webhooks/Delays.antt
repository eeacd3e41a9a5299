-- ===== src/Webhooks/Delays.antt =====
-- The delay before a retry.
use atlaspm.Base.{
  ℕ, zero, suc, ◌*◌, ◌-◌, ◌^◌, ◌≤◌, ◌<◌, min, max, leb, arith, inl, inr, ◌≡◌, ◌∙◌, refl, ap,
  if◌then◌else◌, Bool-cases,
}
use atlaspm.Webhooks.{
  Settings, Delay, default_delay, unusable_delay, whole_delay, safe_base, safe_max, get_backoff_ms,
}

-- the base delay that a setting stands for
pub data IsBase : Delay → ℕ → Type 0 where
  base_left_out : IsBase default_delay 5000
  base_unusable : IsBase unusable_delay 5000
  base_given : {n : ℕ} → IsBase (whole_delay n) n

-- the greatest delay that a setting stands for, next to a base delay
pub data IsGreatest (base : ℕ) : Delay → ℕ → Type 0 where
  greatest_left_out : IsGreatest base default_delay 60000
  greatest_unusable : IsGreatest base unusable_delay 60000
  greatest_given : {n : ℕ} → base ≤ n → IsGreatest base (whole_delay n) n
  below_base : {n : ℕ} → n < base → IsGreatest base (whole_delay n) 60000

safe_base-IsBase : (c : Settings) → IsBase c.base_delay_ms (safe_base c)
safe_base-IsBase c = go c.base_delay_ms
  where
    go :
        (d : Delay)
        → IsBase d (elim d [ default_delay ↦ 5000 | unusable_delay ↦ 5000 | whole_delay n ↦ n ])
    go default_delay = base_left_out
    go unusable_delay = base_unusable
    go (whole_delay n) = base_given

safe_max-IsGreatest : (c : Settings) → IsGreatest (safe_base c) c.max_delay_ms (safe_max c)
safe_max-IsGreatest c = go (safe_base c) c.max_delay_ms
  where
    go :
        (b : ℕ) (d : Delay)
        → IsGreatest b d (elim d [
          | default_delay ↦ 60000
          | unusable_delay ↦ 60000
          | whole_delay n ↦ if leb b n then n else 60000
        ])
    go b default_delay = greatest_left_out
    go b unusable_delay = greatest_unusable
    go b (whole_delay n) = elim (Bool-cases (leb b n)) [
      | inl e ↦ rw e (greatest_given (ground (arith, e)))
      | inr e ↦ rw e (below_base (ground (arith, e)))
    ]

factor : (n : ℕ) → max 1 (2 ^ (suc n - 1)) ≡ 2 ^ n
factor n = ap (λ k. max 1 (2 ^ k)) (omega arith) ∙ positive n
  where
    positive : (n : ℕ) → max 1 (2 ^ n) ≡ 2 ^ n
    positive zero = refl
    positive (suc n) = let r : 2 ^ suc n ≡ 2 * 2 ^ n = ground arith in omega (arith, r, positive n)

double : (b x : ℕ) → b * (2 * x) ≡ 2 * (b * x)
double zero x = omega arith
double (suc b) x = omega (arith, double b x)

min-double : (a m : ℕ) → min (2 * a) m ≡ min (2 * min a m) m
min-double a m = omega arith

delay_of :
    (c : Settings) (n : ℕ) → get_backoff_ms c (suc n) ≡ min (safe_base c * 2 ^ n) (safe_max c)
unfolding get_backoff_ms
delay_of c n = ap (λ x. min (safe_base c * x) (safe_max c)) (factor n)

-- The first delay is the base delay or the greatest one, whichever is less, and up to the 1,024th
-- attempt each delay is twice the one before, or the greatest one where twice is more. The base delay
-- is 5,000 ms unless its setting is usable, the greatest one 60,000 ms unless its setting is
-- usable and no less than the base delay.
pub get_backoff_ms-doubles :
    (c : Settings) (n : ℕ)
    → suc (suc n) ≤ 1024
    → (base : ℕ) × (greatest : ℕ) × IsBase c.base_delay_ms base
      × IsGreatest base c.max_delay_ms greatest
      × (get_backoff_ms c 1 ≡ min base greatest)
      × (get_backoff_ms c (suc (suc n)) ≡ min (2 * get_backoff_ms c (suc n)) greatest)
get_backoff_ms-doubles c n h = (
  safe_base c,
  safe_max c,
  safe_base-IsBase c,
  safe_max-IsGreatest c,
  delay_of c 0 ∙ ap (λ x. min x (safe_max c)) (omega arith),
  delay_of c (suc n)
      ∙ ap (λ x. min x (safe_max c))
          (ap (λ y. safe_base c * y) power ∙ double (safe_base c) (2 ^ n))
      ∙ min-double (safe_base c * 2 ^ n) (safe_max c)
      ∙ ap (λ x. min (2 * x) (safe_max c)) (earlier (delay_of c n)),
)
  where
    power : 2 ^ suc n ≡ 2 * 2 ^ n
    power = ground arith

    earlier :
        get_backoff_ms c (suc n) ≡ min (safe_base c * 2 ^ n) (safe_max c)
        → min (safe_base c * 2 ^ n) (safe_max c) ≡ get_backoff_ms c (suc n)
    earlier e = omega (arith, e)
