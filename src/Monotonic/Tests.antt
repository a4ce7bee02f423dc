-- ===== src/Monotonic/Tests.antt =====
-- adjust_monotonic_time of evutil_time.c when the clock is set back.
use libevent_linux.Prelude.{◌+◌, ◌≤◌, ◌≡◌, refl, arith}
use libevent_linux.Time.{IsNormal, Timeval, micros, timer_lt}
use libevent_linux.Monotonic.{MonotonicTimer, adjust_monotonic_time, IsTimer, adjust-monotonic}

abbrev eight : Timeval
eight = record { tv_sec = 8; tv_usec = 500000 }

abbrev at_ten : MonotonicTimer
at_ten = record {
  adjust_monotonic_clock = record { tv_sec = 0; tv_usec = 0 };
  last_time = record { tv_sec = 10; tv_usec = 0 };
}

held : adjust_monotonic_time at_ten eight ≡ (
  record {
    adjust_monotonic_clock = record { tv_sec = 1; tv_usec = 500000 };
    last_time = record { tv_sec = 10; tv_usec = 0 };
  },
  record { tv_sec = 10; tv_usec = 0 },
)
unfolding adjust_monotonic_time timer_lt
held = refl

adjust-monotonic_example :
    let (base', time) = adjust_monotonic_time at_ten eight in
    IsTimer base'
    × IsNormal time
    × (micros at_ten.last_time ≤ micros time)
    × (base'.last_time ≡ time)
    × (micros time ≡ micros eight + micros base'.adjust_monotonic_clock)
adjust-monotonic_example =
    adjust-monotonic at_ten eight (record { adjust = omega arith; last = omega arith })
      (omega arith)
