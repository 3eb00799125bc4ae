-- ===== src/Go/Time.antt =====
-- time.Time and time.Duration. An instant is its number of nanoseconds since the zero time, the
-- first of January of the year 1: no instant of the program lies before it, since time.Unix(0, n)
-- reaches back to the year 1677. A duration is an int64 of nanoseconds.
use metrics_server.Prelude.{
  ℕ, ◌+◌, ◌-◌, ◌*◌, ◌^◌, ◌≤◌, ◌<◌, min, ◌≡◌, Bool, arith, ltb, leb, eqb, if◌then◌else◌,
}
use metrics_server.Prelude.Int.{ℤ, pos, negsuc, IsInt64, ◌<ℤ◌, wrap_int64, ◌*ℤ◌}

abbrev pub Time : Type 0
Time = ℕ

abbrev pub Duration : Type 0
Duration = ℤ

-- `t.IsZero()`
abbrev pub is_zero : Time → Bool
is_zero t = eqb t 0

-- `t.Before(u)` and `t.After(u)`
abbrev pub before : Time → Time → Bool
before t u = ltb t u

abbrev pub after : Time → Time → Bool
after t u = ltb u t

abbrev pub max_duration : ℕ
max_duration = 2 ^ 63 - 1

-- `t.Sub(u)`, which saturates at the least and at the greatest duration.
unfoldable pub sub : Time → Time → Duration
sub t u = if leb u t then pos (min (t - u) max_duration) else negsuc (min (u - t) (2 ^ 63) - 1)

-- 1970-01-01 00:00:00 UTC
abbrev pub unix_epoch : Time
unix_epoch = 62135596800 * 10 ^ 9

-- `time.Unix(0, nsec)`
unfoldable pub unix : ℤ → Time
unix (pos n) = unix_epoch + n
unix (negsuc n) = unix_epoch - (n + 1)

abbrev pub second : ℕ
second = 10 ^ 9

-- `timestamp*1e6` in int64, from milliseconds to nanoseconds
unfoldable pub millis_to_nanos : ℤ → ℤ
millis_to_nanos t = wrap_int64 (t *ℤ pos 1000000)

pub sub-IsInt64 : (t u : Time) → IsInt64 (sub t u)
unfolding sub
sub-IsInt64 t u = ground arith

-- A difference of at most the greatest duration is exact.
pub sub_exact : (t u : Time) → u ≤ t → t - u ≤ max_duration → sub t u ≡ pos (t - u)
unfolding sub
sub_exact t u h k = ground arith

pub sub_pos : (t u : Time) → u < t → pos 0 <ℤ sub t u
unfolding sub
sub_pos t u h = ground arith

-- An instant that time.Unix gives is never the zero time.
pub unix_pos : (n : ℤ) → IsInt64 n → 0 < unix n
unfolding unix
unix_pos (pos n) h = omega arith
unix_pos (negsuc n) h = omega arith
