-- ===== src/Monotonic.antt =====
-- adjust_monotonic_time of evutil_time.c.
mod Tests
use libevent_linux.Prelude.{
  ℕ, ◌+◌, ◌*◌, ◌^◌, ◌≤◌, ◌<◌, ◌≡◌, refl, Bool, true, false, List, [], ◌∷◌, if◌then◌else◌,
  Bool-cases, inl, inr, arith,
}
use libevent_linux.Time.{IsNormal, Timeval, micros, timer_lt, timeradd, timersub}

pub record MonotonicTimer : Type 0 where
  pub adjust_monotonic_clock : Timeval
  pub last_time : Timeval

-- The new state of the timer, and the adjusted time.
unfoldable pub adjust_monotonic_time : MonotonicTimer → Timeval → MonotonicTimer × Timeval
unfolding timeradd timersub
adjust_monotonic_time base tv =
    let sum = timeradd tv base.adjust_monotonic_clock in
    let adjust = timersub base.last_time sum in
    if timer_lt sum base.last_time
    then (
      record {
        adjust_monotonic_clock = timeradd adjust base.adjust_monotonic_clock;
        last_time = base.last_time;
      },
      base.last_time,
    )
    else (record base { last_time = sum }, sum)

pub record IsTimer (base : MonotonicTimer) : Type 0 where
  pub adjust : IsNormal base.adjust_monotonic_clock
  pub last : IsNormal base.last_time

-- From normal times adjust_monotonic_time gives a time that is normal, not before the last, and
-- the next last one. Once the clock has been set back, the adjustment has grown by as much as was
-- missing, so that the clock goes on from the last time: the time given is always the clock's with
-- the new adjustment added.
pub adjust-monotonic :
    (base : MonotonicTimer) (tv : Timeval)
    → IsTimer base
    → IsNormal tv
    → let (base', time) = adjust_monotonic_time base tv in
      IsTimer base'
      × IsNormal time
      × (micros base.last_time ≤ micros time)
      × (base'.last_time ≡ time)
      × (micros time ≡ micros tv + micros base'.adjust_monotonic_clock)
unfolding adjust_monotonic_time timer_lt timeradd timersub
adjust-monotonic base tv v normal =
    elim (Bool-cases (timer_lt (timeradd tv base.adjust_monotonic_clock) base.last_time)) [
      | inl back ↦ rw back (
        record { adjust = ground (arith, v.adjust, v.last); last = v.last },
        v.last,
        omega arith,
        refl,
        ground (arith, v.adjust, v.last),
      )
      | inr on ↦ rw on (
        record { adjust = v.adjust; last = ground (arith, v.adjust) },
        ground (arith, v.adjust),
        ground (arith, v.adjust),
        refl,
        ground (arith, v.adjust),
      )
    ]
