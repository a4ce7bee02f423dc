-- ===== src/Event/Active.antt =====
-- Activation in event.c: event_active_nolock_ and event_callback_activate_nolock_ with their
-- `later` forms, and event_deferred_cb_schedule_.
use libevent_linux.Prelude.{ℕ, ◌+◌, Bool, true, false, ◌||◌, Option, none, some, ltb, if◌then◌else◌}
use libevent_linux.Event.State.{Event, Events, Base, join, put, notify_if}
use libevent_linux.Event.Queues.{
  event_queue_insert_active, event_queue_insert_active_later, event_queue_remove_active_later,
}

-- The result tells whether the callback was in neither queue.
unfoldable pub event_callback_activate_nolock : {Map : Type 0} → Base Map → ℕ → Bool × Base Map
event_callback_activate_nolock b e =
    let flags = (b.event e).ev_flags in
    if flags.finalizing
    then (false, b)
    else if flags.active_later
    then (false, notify_if true (event_queue_insert_active (event_queue_remove_active_later b e) e))
    else if flags.active
    then (false, b)
    else (true, notify_if true (event_queue_insert_active b e))

unfoldable pub event_callback_activate_later_nolock :
    {Map : Type 0} → Base Map → ℕ → Bool × Base Map
event_callback_activate_later_nolock b e =
    let flags = (b.event e).ev_flags in
    if flags.active || flags.active_later
    then (false, b)
    else (true, notify_if true (event_queue_insert_active_later b e))

abbrev pub is_before : ℕ → Option ℕ → Bool
is_before pri none = false
is_before pri (some running) = ltb pri running

-- The fields that are written before the callback is queued.
abbrev pub marked : Event → Events → ℕ → Event
marked ev res ncalls =
    let ev' = record ev { ev_res = if ev.ev_flags.active_later then join ev.ev_res res else res } in
    if ev.ev_events.signal then record ev' { ev_ncalls = ncalls; ev_pncalls = false } else ev'

abbrev pub mark_active : {Map : Type 0} → Base Map → ℕ → Events → ℕ → Base Map
mark_active b e res ncalls =
    let ev = b.event e in
    let b' = put b e (marked ev res ncalls) in
    record b' {
      event_continue =
          if is_before ev.ev_pri b.event_running_priority then true else b.event_continue;
    }

-- An event in both queues would fail an assertion.
unfoldable pub event_active_nolock : {Map : Type 0} → Base Map → ℕ → Events → ℕ → Base Map
unfolding event_callback_activate_nolock
event_active_nolock b e res ncalls =
    let ev = b.event e in
    if ev.ev_flags.finalizing
    then b
    else if ev.ev_flags.active
    then put b e (record ev { ev_res = join ev.ev_res res })
    else (event_callback_activate_nolock (mark_active b e res ncalls) e).1

unfoldable pub event_active_later_nolock : {Map : Type 0} → Base Map → ℕ → Events → Base Map
unfolding event_callback_activate_later_nolock
event_active_later_nolock b e res =
    let ev = b.event e in
    if ev.ev_flags.active || ev.ev_flags.active_later
    then put b e (record ev { ev_res = join ev.ev_res res })
    else (event_callback_activate_later_nolock (put b e (record ev { ev_res = res })) e).1

-- MAX_DEFERREDS_QUEUED is 32.
unfoldable pub event_deferred_cb_schedule : {Map : Type 0} → Base Map → ℕ → Bool × Base Map
unfolding event_callback_activate_nolock event_callback_activate_later_nolock
event_deferred_cb_schedule b e =
    let (queued, b') = event_callback_activate_nolock b e in
    if ltb 32 b.n_deferreds_queued
    then event_callback_activate_later_nolock b e
    else if queued
    then (queued, record b' { n_deferreds_queued = b'.n_deferreds_queued + 1 })
    else (queued, b')
