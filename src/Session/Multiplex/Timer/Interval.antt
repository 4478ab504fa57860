-- ===== src/Session/Multiplex/Timer/Interval.antt =====
-- The milliseconds between two times, as the checkpoint of session/multiplex_handler.c computes them.
use my_test_module.Prelude.{ℕ, ◌+◌, ◌-◌, ◌*◌, ◌^◌, ◌<◌, ◌≤◌, arith}
use my_test_module.Session.Channels.{Timeval}
use my_test_module.Session.Multiplex.Timer.{interval}

-- a time in microseconds
abbrev pub micros : Timeval → ℕ
micros t = t.sec * 1000000 + t.usec

-- For a time that is not later than now and less than about 24 days back, both with microseconds in
-- range, the interval that the checkpoint computes is not negative and differs from the true one by
-- less than a millisecond.
pub interval_lem :
    (now t : Timeval)
    → now.usec < 1000000
    → t.usec < 1000000
    → micros t ≤ micros now
    → micros now < micros t + 1000 * (2 ^ 31 - 1)
    → (micros now < micros t + (interval now t + 1) * 1000)
      × (micros t + interval now t * 1000 < micros now + 1000)
      × (interval now t < 2 ^ 31)
unfolding interval
interval_lem now t a b c d = ground arith
