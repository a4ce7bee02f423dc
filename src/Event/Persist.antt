-- ===== src/Event/Persist.antt =====
-- When event_persist_closure of event.c runs a persistent event again.
use libevent_linux.Prelude.{
  ℕ, ◌+◌, ◌≤◌, ◌<◌, ◌≡◌, ltb, true, false, if◌then◌else◌, Bool-cases, inl, inr, arith,
}
use libevent_linux.Prelude.Bits.{bit_or-zero}
use libevent_linux.Time.{Timeval, timer_lt, timeradd, micros, IsNormal}
use libevent_linux.Event.State.{Base, timeouts}
use libevent_linux.Event.Timeouts.{next_run}
use libevent_linux.Event.Invariant.{is_common}

timeradd-micros :
    (t u : Timeval)
    → IsNormal t
    → IsNormal u
    → IsNormal (timeradd t u) × (micros (timeradd t u) ≡ micros t + micros u)
unfolding timeradd
timeradd-micros t u ht hu = (ground arith, ground arith)

lt-micros :
    (t u : Timeval)
    → IsNormal t
    → IsNormal u
    → (timer_lt t u ≡ true → micros t < micros u) × (timer_lt t u ≡ false → micros u ≤ micros t)
unfolding timer_lt
lt-micros t u ht hu = ((λ h. ground arith), λ h. ground arith)

-- A persistent event whose timeout is not a common one, with times of less than a second in their
-- microseconds, is run again at its interval after the time that it was scheduled for, if it ran
-- for its timeout, or after `now`, if it ran for another reason; if that is past, at its interval
-- after `now`. So it is never scheduled for the past.
pub next_run-micros :
    {Map : Type 0} (b : Base Map) (e : ℕ) (now : Timeval)
    → is_common b e ≡ false
    → IsNormal now
    → IsNormal (timeouts b e)
    → IsNormal (b.event e).ev_io_timeout
    → let interval = micros (b.event e).ev_io_timeout in
      let wanted =
        (if (b.event e).ev_res.timeout then micros (timeouts b e) else micros now) + interval in
      (micros (next_run b e now)
        ≡ (if ltb wanted (micros now) then micros now + interval else wanted))
      × (micros now ≤ micros (next_run b e now))
unfolding next_run
next_run-micros b e now plain hn ht hi =
    let interval = (b.event e).ev_io_timeout in
    let base = if (b.event e).ev_res.timeout then timeouts b e else now in
    let base-IsNormal : IsNormal base = ground arith in
    let (n1, sum) = timeradd-micros base interval base-IsNormal hi in
    let (n2, again) = timeradd-micros now interval hn hi in
    let (early, late) = lt-micros (timeradd base interval) now n1 hn in
    let kept : micros base
        ≡ (if (b.event e).ev_res.timeout then micros (timeouts b e) else micros now) =
      ground arith in
    rw plain (elim (Bool-cases (timer_lt (timeradd base interval) now)) [
      | inl past ↦
          rw (past, bit_or-zero (timeradd now interval).tv_usec)
            (ground (arith, again, sum, early past, kept), ground (arith, again))
      | inr ahead ↦
          rw (ahead, bit_or-zero (timeradd base interval).tv_usec)
            (ground (arith, sum, late ahead, kept), ground (arith, late ahead))
    ])
