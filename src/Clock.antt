-- ===== src/Clock.antt =====
-- `time.Time` and `time.Duration` of Go's standard library, as the exporter uses them. An instant
-- counts the nanoseconds since the zero `Time`, so `IsZero` is a comparison with 0; a duration is
-- a signed number of nanoseconds, and `Sub` saturates at the ends of `int64`.
use prometheus_exporter_fram.Prelude.{
  ℕ, ◌+◌, ◌-◌, ◌^◌, min, Bool, true, false, ℤ, pos, negsuc, ltb, leb, nat_beq, if◌then◌else◌,
}

abbrev pub Time : Type 0
Time = ℕ

abbrev pub Duration : Type 0
Duration = ℤ

abbrev pub is_zero : Time → Bool
is_zero t = nat_beq t 0

abbrev pub before : Time → Time → Bool
before = ltb

abbrev pub max_duration : ℕ
max_duration = 2 ^ 63 - 1

-- `t.Add(d)`; the exporter adds positive durations only.
abbrev pub add : Time → Duration → Time
add t (pos n) = t + n
add t (negsuc n) = t - (n + 1)

-- `t.Sub(u)`
abbrev pub sub : Time → Time → Duration
sub t u = if leb u t then pos (min (t - u) max_duration) else negsuc (min (u - t - 1) max_duration)

-- `d > 0`
abbrev pub is_positive : Duration → Bool
is_positive (pos n) = ltb 0 n
is_positive (negsuc n) = false

-- `d < e`
abbrev pub shorter : Duration → Duration → Bool
shorter (pos a) (pos b) = ltb a b
shorter (pos a) (negsuc b) = false
shorter (negsuc a) (pos b) = true
shorter (negsuc a) (negsuc b) = ltb b a
