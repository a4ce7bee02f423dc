-- ===== src/Event/NextLaws.antt =====
-- timeout_next of event.c: how long the loop may wait.
use libevent_linux.Prelude.{
  ℕ, ◌+◌, max, ◌≤◌, ◌≡◌, true, false, none, some, Option-cases, Bool-cases, inl, inr, arith,
}
use libevent_linux.Time.{IsNormal, Timeval, micros, timer_le, timersub}
use libevent_linux.MinHeap.{min_heap_top}
use libevent_linux.MinHeap.Invariant.{has}
use libevent_linux.MinHeap.Methods.{top-first}
use libevent_linux.Event.State.{Base, timeouts}
use libevent_linux.Event.Timeouts.{Wait, no_time, wait, timeout_next}
use libevent_linux.Event.Invariant.{IsBase}

-- The time to wait takes `now` to the later of it and the least timeout in the heap.
abbrev pub IsWait : {Map : Type 0} → Base Map → Timeval → Wait → Type 0
IsWait b now no_time = ⊥
IsWait b now (wait none) = (x : ℕ) → has b.timeheap x ≡ false
IsWait b now (wait (some tv)) =
    IsNormal tv
    × ((x : ℕ)
        → has b.timeheap x ≡ true
        → micros tv + micros now ≤ max (micros now) (micros (timeouts b x)))
    × ((e : ℕ) × (has b.timeheap e ≡ true)
        × (micros tv + micros now ≡ max (micros now) (micros (timeouts b e))))

le-micros : (t u : Timeval) → IsNormal t → IsNormal u → timer_le t u ≡ true → micros t ≤ micros u
unfolding timer_le
le-micros t u ht hu h = ground arith

timersub-micros :
    (t u : Timeval)
    → IsNormal t
    → IsNormal u
    → timer_le t u ≡ false
    → IsNormal (timersub t u)
      × (micros (timersub t u) + micros u ≡ micros t)
      × (micros u ≤ micros t)
unfolding timer_le timersub
timersub-micros t u ht hu h = (ground arith, ground arith, ground arith)

-- In a base with the invariant and timeouts of less than 1000000 microseconds beside the seconds,
-- timeout_next, if the time is known, gives either no time to wait, and then no event is in the
-- heap, or the time from `now` to the least timeout in the heap, zero if that is past.
pub timeout_next-IsWait :
    {Map : Type 0} (n : ℕ) (b : Base Map) (now : Timeval)
    → IsBase n b
    → ((x : ℕ) → IsNormal (timeouts b x))
    → IsNormal now
    → IsWait b now (timeout_next b (some now))
unfolding timeout_next
timeout_next-IsWait n b now v normal normal_now =
    let (empty, least) = top-first (timeouts b) b.timeheap v.heap in
    elim (Option-cases (min_heap_top b.timeheap)) [
      | inl no_top ↦ rw (no_top, timeout_next) (empty no_top)
      | inr (e, top) ↦
          let (member, first) = least e top in
          let order : (x : ℕ)
              → has b.timeheap x ≡ true
              → micros (timeouts b e) ≤ micros (timeouts b x) =
            λ x h. omega (arith, first x h, normal e, normal x) in
          elim (Bool-cases (timer_le (timeouts b e) now)) [
            | inl past ↦
                rw (top, past, timeout_next)
                  (
                    omega arith,
                    (λ x h. omega arith),
                    (
                      e,
                      member,
                      omega (arith, le-micros (timeouts b e) now (normal e) normal_now past),
                    ),
                  )
            | inr ahead ↦
                rw (top, ahead, timeout_next)
                  (let (unit, sum, before) =
                      timersub-micros (timeouts b e) now (normal e) normal_now ahead in
                    (
                      unit,
                      (λ x h. omega (arith, sum, order x h)),
                      (e, member, omega (arith, sum, before)),
                    ))
          ]
    ]
