-- ===== src/Event/Loop/Internal.antt =====
-- The operations of event.c that the loop calls itself make no callback internal.
use libevent_linux.Prelude.{
  ℕ, ◌+◌, ◌≡◌, refl, ◌∙◌, Bool, true, false, not, ◌&&◌, ◌||◌, some, ◌==◌, if◌then◌else◌, if_elim,
  arith,
}
use libevent_linux.Time.{Timeval}
use libevent_linux.MinHeap.{min_heap_reserve, min_heap_size}
use libevent_linux.Event.State.{
  Base, Event, Evmap, Outcome, put, is_common_timeout, common_timeout_idx, microseconds, timeouts,
}
use libevent_linux.Event.Queues.{
  event_queue_remove_active, event_queue_remove_active_later, event_queue_insert_timeout,
}
use libevent_linux.Event.Delete.{
  abort_loop, del_timeout, del_active, del_inserted, event_del_nolock, result, is_success,
  asks_notify,
}
use libevent_linux.Event.Add.{
  keep_interval, unschedule, set_timeout, add_inserted, add_timeout, is_first, add_step,
  schedule_once, event_add_nolock,
}
use libevent_linux.Event.Timeouts.{persist_reschedule, next_run}
use libevent_linux.Event.Invariant.{flags_of}
use libevent_linux.Event.Loop.Program.{Program}
use libevent_linux.Event.Loop.Closures.{dequeue}
use libevent_linux.Event.Loop.Frames.{
  SameActive, abort_loop-SameActive, del_timeout-SameActive, del_inserted-SameActive,
  add_inserted-SameActive, keep_interval-SameActive, insert_timeout-SameActive,
  notify_if-SameActive,
}

-- No callback of the base is one of libevent's own.
abbrev pub NoInternal : {Map : Type 0} → Base Map → Type 0
NoInternal b = (x : ℕ) → (flags_of b x).internal ≡ false

pub same-NoInternal :
    {Map : Type 0} (b b' : Base Map) → SameActive b b' → NoInternal b → NoInternal b'
same-NoInternal b b' same h x = same.internal x ∙ h x

pub put-NoInternal :
    {Map : Type 0} (b : Base Map) (e : ℕ) (ev : Event)
    → ev.ev_flags.internal ≡ (flags_of b e).internal
    → NoInternal b
    → NoInternal (put b e ev)
put-NoInternal b e ev same h x = ground (arith, h x, h e)

remove_active-NoInternal :
    {Map : Type 0} (b : Base Map) (e : ℕ)
    → NoInternal b
    → NoInternal (event_queue_remove_active b e)
unfolding event_queue_remove_active
remove_active-NoInternal b e h x = ground (arith, h x, h e)

del_active-NoInternal :
    {Map : Type 0} (b : Base Map) (e : ℕ) → NoInternal b → NoInternal (del_active b e)
unfolding event_queue_remove_active event_queue_remove_active_later
del_active-NoInternal b e h x = ground (arith, h x, h e)

unschedule-NoInternal :
    {Map : Type 0} (b : Base Map) (e : ℕ) → NoInternal b → NoInternal (unschedule b e)
unschedule-NoInternal b e h =
    if_elim NoInternal ((flags_of b e).active && (b.event e).ev_res.timeout)
      (λ _.
        remove_active-NoInternal (abort_loop b e) e
          (same-NoInternal b (abort_loop b e) (abort_loop-SameActive b e) h))
      (λ _. h)

pub dequeue-NoInternal :
    {Map World : Type 0} (program : Program Map World) (b : Base Map) (e : ℕ)
    → NoInternal b
    → NoInternal (dequeue program b e)
unfolding dequeue event_del_nolock
dequeue-NoInternal program b e h =
    let ev = b.event e in
    let b1 = abort_loop b e in
    let b2 = del_timeout b1 e in
    let b3 = del_active b2 e in
    let h1 = same-NoInternal b b1 (abort_loop-SameActive b e) h in
    let h2 = same-NoInternal b1 b2 (del_timeout-SameActive b1 e) h1 in
    let h3 = del_active-NoInternal b2 e h2 in
    if_elim NoInternal (ev.ev_flags.init && not (ev.ev_events.persist || ev.ev_flags.finalizing))
      (λ _.
        if_elim (λ (r : Outcome × Base _). NoInternal r.1) ev.ev_flags.finalizing (λ _. h)
          (λ _.
            same-NoInternal b3 (del_inserted program.evmap b3 e).1
              (del_inserted-SameActive program.evmap b3 e) h3))
      (λ _. remove_active-NoInternal b e h)

set_timeout-NoInternal :
    {Map : Type 0} (b : Base Map) (e : ℕ) (tv : Timeval) (tv_is_absolute : Bool) (now : Timeval)
    → NoInternal b
    → NoInternal (set_timeout b e tv tv_is_absolute now)
set_timeout-NoInternal b e tv tv_is_absolute now h =
    let b1 = keep_interval b e tv tv_is_absolute in
    let b2 = del_timeout b1 e in
    let h1 = same-NoInternal b b1 (keep_interval-SameActive b e tv tv_is_absolute) h in
    let h2 = same-NoInternal b1 b2 (del_timeout-SameActive b1 e) h1 in
    put-NoInternal (unschedule b2 e) e _ refl (unschedule-NoInternal b2 e h2)

add_timeout-NoInternal :
    {Map : Type 0} (schedule : Base Map → ℕ → Timeval → Base Map) (b : Base Map) (e : ℕ)
    (tv : Timeval) (tv_is_absolute : Bool) (now : Timeval) (memory : Bool)
    → ((b : Base Map) (e : ℕ) (tv : Timeval) → NoInternal b → NoInternal (schedule b e tv))
    → NoInternal b
    → NoInternal (add_timeout schedule b e tv tv_is_absolute now memory).1
add_timeout-NoInternal {Map} schedule b e tv tv_is_absolute now memory keeps h =
    let b1 = set_timeout b e tv tv_is_absolute now in
    let b2 = event_queue_insert_timeout b1 e memory in
    let ctl = b2.common_timeout_queues (common_timeout_idx (timeouts b2 e)) in
    let h2 =
      same-NoInternal b1 b2 (insert_timeout-SameActive b1 e memory)
        (set_timeout-NoInternal b e tv tv_is_absolute now h) in
    if_elim (λ (r : Bool × Base Map). NoInternal r.1) (is_common_timeout tv b.n_common_timeouts)
      (λ _.
        if_elim NoInternal (is_first e ctl.events)
          (λ _. keeps b2 ctl.timeout_event (microseconds (timeouts b2 e)) h2) (λ _. h2))
      (λ _. h2)

add_step-NoInternal :
    {Map : Type 0} (evmap : Evmap Map) (schedule : Base Map → ℕ → Timeval → Base Map) (b : Base Map)
    (e : ℕ) (tv : Timeval) (tv_is_absolute : Bool) (now : Timeval) (memory : Bool)
    → ((b : Base Map) (e : ℕ) (tv : Timeval) → NoInternal b → NoInternal (schedule b e tv))
    → NoInternal b
    → NoInternal (add_step evmap schedule b e (some tv) tv_is_absolute now memory).1
add_step-NoInternal {Map} evmap schedule b e tv tv_is_absolute now memory keeps h =
    let (reserved, heap) = min_heap_reserve b.timeheap (1 + min_heap_size b.timeheap) memory in
    let b1 = if (flags_of b e).timeout then b else record b { timeheap = heap } in
    let h1 : NoInternal b1 = if_elim NoInternal (flags_of b e).timeout (λ _. h) (λ _. h) in
    let (answer, b2) = add_inserted evmap b1 e in
    let h2 = same-NoInternal b1 b2 (add_inserted-SameActive evmap b1 e) h1 in
    let (notify, b3) = add_timeout schedule b2 e tv tv_is_absolute now memory in
    let h3 = add_timeout-NoInternal schedule b2 e tv tv_is_absolute now memory keeps h2 in
    let P = λ (r : Outcome × Base Map). NoInternal r.1 in
    if_elim P ((flags_of b e).finalizing || (not (flags_of b e).timeout && not reserved)) (λ _. h)
      (λ _.
        if_elim P (is_success (result answer))
          (λ _. same-NoInternal b3 _ (notify_if-SameActive (asks_notify answer || notify) b3) h3)
          (λ _. h2))

pub reschedule-NoInternal :
    {Map : Type 0} (evmap : Evmap Map) (b : Base Map) (e : ℕ) (now : Timeval) (memory : Bool)
    → NoInternal b
    → NoInternal (persist_reschedule evmap b e now memory)
unfolding persist_reschedule event_add_nolock
reschedule-NoInternal evmap b e now memory h =
    let interval = (b.event e).ev_io_timeout in
    if_elim NoInternal (interval.tv_sec == 0 && interval.tv_usec == 0) (λ _. h)
      (λ _.
        add_step-NoInternal evmap (schedule_once evmap now memory) b e (next_run b e now) true now
          memory
          (λ b e tv. add_step-NoInternal evmap (λ b e tv. b) b e tv true now memory (λ b e tv h. h))
          h)
