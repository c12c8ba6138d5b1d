-- ===== src/Model/Times.antt =====
-- Instants and durations of Go's package time, in nanoseconds.
use dnssec_keyrotation.Base.{ℕ, ◌+◌, ◌*◌, Bool, nat_eq, ◌==◌, ltb, leb}

abbrev pub Time : Type 0
Time = ℕ

abbrev pub Duration : Type 0
Duration = ℕ

abbrev pub second : Duration
second = 1_000_000_000

abbrev pub minute : Duration
minute = 60 * second

abbrev pub hour : Duration
hour = 60 * minute

abbrev pub is_zero : Time → Bool
is_zero t = t == 0

-- `a.Before(b)`
abbrev pub before : Time → Time → Bool
before a b = ltb a b

-- `now.Sub(since) >= span`; a `since` in the future gives a negative difference, hence `false`
-- for every positive span
abbrev pub elapsed : Time → Time → Duration → Bool
elapsed now since span = leb (since + span) now
