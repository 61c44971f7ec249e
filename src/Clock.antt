-- ===== src/Clock.antt =====
-- Go's `time.Time` and `time.Duration`, as the code under internal/proxy and internal/outbound uses
-- them. A time is the number of nanoseconds since Go's zero time, a duration a signed number of
-- nanoseconds. The 64-bit saturation of `Sub`, at 292 years, is left out.
use clipal.Common.{ℕ, suc, ◌+◌, ◌-◌, ◌*◌, Bool, ltb, ◌==◌, ℤ, pos, negsuc, sub_ℕ}

abbrev pub Time : Type 0
Time = ℕ

abbrev pub Duration : Type 0
Duration = ℤ

abbrev pub zero_time : Time
zero_time = 0

-- t.IsZero()
abbrev pub is_zero : Time → Bool
is_zero t = t == 0

-- t.Before(u)
abbrev pub before : Time → Time → Bool
before t u = ltb t u

-- t.Sub(u)
abbrev pub sub : Time → Time → Duration
sub t u = sub_ℕ t u

-- t.Add(d)
abbrev pub add : Time → Duration → Time
add t (pos n) = t + n
add t (negsuc n) = t - suc n

abbrev pub second : ℕ
second = 1_000_000_000

-- n * time.Second
abbrev pub seconds : ℕ → Duration
seconds n = pos (n * second)
