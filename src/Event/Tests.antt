-- ===== src/Event/Tests.antt =====
-- The operations of event.c on a base with four events.
use libevent_linux.Prelude.{
  ℕ, ◌+◌, ◌≡◌, ◌≢◌, refl, true, false, [], ◌∷◌, ◌++◌, ltb, ◌≤◌, if◌then◌else◌, some, arith,
}
use libevent_linux.Time.{micros, IsNormal, IsWord, Timeval, timer_gt, timeradd}
use libevent_linux.MinHeap.{
  min_heap_reserve, min_heap_size, min_heap_elem_greater, min_heap_elt_is_top, min_heap_push,
  min_heap_top,
}
use libevent_linux.Event.Queues.{
  event_queue_remove_inserted, event_queue_insert_active, event_queue_insert_active_later,
  event_queue_make_later_events_active,
}
use libevent_linux.MinHeap.Invariant.{has}
use libevent_linux.Event.State.{
  Base, failure, ev_timeout_bit, is_common_timeout, event_haveevents, put, timeouts,
}
use libevent_linux.Event.Add.{event_add_nolock, absolute_timeout}
use libevent_linux.Event.Delete.{event_del_nolock}
use libevent_linux.Event.Active.{event_active_nolock}
use libevent_linux.Event.QueueLaws.{insert_active_later-IsBase}
use libevent_linux.Event.Timeouts.{timeout_process, timeout_next, wait, next_run}
use libevent_linux.Event.Persist.{next_run-micros}
use libevent_linux.Event.LaterLaws.{activated_later, of_priority, make_later_events_active-IsBase}
use libevent_linux.Event.NextLaws.{IsWait, timeout_next-IsWait}
use libevent_linux.Event.Invariant.{IsBase, is_common, common_queue, count, flags_of}
use libevent_linux.Event.DeleteLaws.{del-gone}
use libevent_linux.Event.ActiveLaws.{activated_event, active-IsBase}
use libevent_linux.Event.AddLaws.{add-IsBase}
use libevent_linux.Event.Samples.{counting, five_seconds, reader, start, start-IsBase}
use libevent_linux.Event.Expiry.{expired, is_due, timeout_process-Processed}

abbrev three_seconds : Timeval
three_seconds = record { tv_sec = 3; tv_usec = 0 }

-- Event 2 is added at 3 seconds, to time out after 5 more.
abbrev added : Base ℕ
added = (event_add_nolock counting start 2 (some five_seconds) false three_seconds true).1

no_common : is_common_timeout five_seconds 0 ≡ false
unfolding is_common_timeout
no_common = refl

time_fits : IsWord (absolute_timeout five_seconds false false three_seconds)
unfolding absolute_timeout timeradd
time_fits = omega arith

add-IsBase_example : IsBase 4 added
add-IsBase_example =
    add-IsBase counting 4 start 2 (some five_seconds) false three_seconds true (omega arith)
      start-IsBase (no_common, time_fits, omega arith, refl)

-- Without memory for the heap it fails and changes nothing.
add_refused :
    event_add_nolock counting start 2 (some five_seconds) false three_seconds false
    ≡ (failure, start)
unfolding event_add_nolock min_heap_reserve min_heap_size
add_refused = refl

added-IsBase : IsBase 4 added
added-IsBase =
    add-IsBase counting 4 start 2 (some five_seconds) false three_seconds true (omega arith)
      start-IsBase (no_common, time_fits, omega arith, refl)

added-live : (flags_of added 2).finalizing ≡ false
unfolding event_add_nolock min_heap_elem_greater timer_gt min_heap_elt_is_top min_heap_push
added-live = refl

del-gone_example :
    let b' = (event_del_nolock counting added 2 false).1 in
    IsBase 4 b'
    × (has b'.timeheap 2 ≡ false)
    × ((i : ℕ) → count 2 (common_queue b' i) ≡ 0)
    × ((p : ℕ) → count 2 (b'.activequeues p) ≡ 0)
    × (count 2 b'.active_later_queue ≡ 0)
    × ((flags_of b' 2).inserted ≡ false)
    × ((x : ℕ) → x ≢ 2 → b'.event x ≡ added.event x)
del-gone_example = del-gone counting 4 added 2 false added-IsBase added-live

active-IsBase_example :
    let b' = event_active_nolock added 2 ev_timeout_bit 1 in
    IsBase 4 b'
    × (b'.event 2 ≡ activated_event (added.event 2) ev_timeout_bit 1)
    × ((x : ℕ) → x ≢ 2 → b'.event x ≡ added.event x)
active-IsBase_example = active-IsBase 4 added 2 ev_timeout_bit 1 (omega arith) added-IsBase

abbrev nine_seconds : Timeval
nine_seconds = record { tv_sec = 9; tv_usec = 0 }

timeout_process-Processed_example :
    let b' = timeout_process counting added nine_seconds in
    IsBase 4 b'
    × ((x : ℕ)
        → b'.event x
          ≡ (if is_due added nine_seconds x then expired (added.event x) else added.event x))
    × ((x : ℕ) → is_due b' nine_seconds x ≡ false)
timeout_process-Processed_example =
    timeout_process-Processed counting 4 added nine_seconds (omega arith) added-IsBase

-- Event 2 is then in the active queue.
fired : (timeout_process counting added nine_seconds).activequeues 0 ≡ 2 ∷ []
unfolding timeout_process event_add_nolock min_heap_elem_greater timer_gt event_del_nolock
    min_heap_elt_is_top min_heap_push min_heap_top event_active_nolock event_queue_remove_inserted
    event_haveevents event_queue_insert_active
fired = refl

-- After 7 seconds it is not.
waits : (timeout_process counting added (record { tv_sec = 7; tv_usec = 0 })).activequeues 0 ≡ []
unfolding timeout_process event_add_nolock min_heap_elem_greater timer_gt event_del_nolock
    min_heap_elt_is_top min_heap_push min_heap_top
waits = refl

-- Events 1 and 3 are in the queue for later.
abbrev postponed : Base ℕ
postponed = event_queue_insert_active_later (event_queue_insert_active_later start 3) 1

moved_in_order : (event_queue_make_later_events_active postponed).activequeues 0 ≡ 3 ∷ 1 ∷ []
unfolding event_queue_make_later_events_active event_queue_insert_active_later
moved_in_order = refl

postponed-IsBase : IsBase 4 postponed
postponed-IsBase =
    insert_active_later-IsBase (event_queue_insert_active_later start 3) 1 (omega arith)
      (insert_active_later-IsBase start 3 (omega arith) start-IsBase)

make_later_events_active-IsBase_example :
    let b' = event_queue_make_later_events_active postponed in
    IsBase 4 b'
    × (b'.active_later_queue ≡ [])
    × ((x : ℕ) → b'.event x ≡ activated_later (postponed.event x))
    × ((p : ℕ)
        → b'.activequeues p
          ≡ postponed.activequeues p ++ of_priority postponed p postponed.active_later_queue)
make_later_events_active-IsBase_example =
    make_later_events_active-IsBase 4 postponed postponed-IsBase

added-IsNormal : (x : ℕ) → IsNormal (timeouts added x)
unfolding event_add_nolock min_heap_elt_is_top min_heap_push
added-IsNormal x = ground arith

timeout_next-IsWait_example : IsWait added three_seconds (timeout_next added (some three_seconds))
timeout_next-IsWait_example =
    timeout_next-IsWait 4 added three_seconds added-IsBase added-IsNormal (omega arith)

next_five : timeout_next added (some three_seconds) ≡ wait (some five_seconds)
unfolding timeout_next event_add_nolock min_heap_elt_is_top min_heap_push
next_five = refl

-- Event 2, at 8 seconds with an interval of 5, ran for its timeout at 9 seconds.
abbrev repeating : Base ℕ
repeating = put start 2 (record (reader 2) {
  ev_timeout = record { tv_sec = 8; tv_usec = 0 };
  ev_io_timeout = five_seconds;
  ev_res = ev_timeout_bit;
})

repeating-plain : is_common repeating 2 ≡ false
unfolding is_common_timeout
repeating-plain = refl

next_run-micros_example :
    (micros (next_run repeating 2 nine_seconds)
      ≡ (if ltb (8000000 + 5000000) 9000000 then 9000000 + 5000000 else 8000000 + 5000000))
    × (9000000 ≤ micros (next_run repeating 2 nine_seconds))
next_run-micros_example =
    next_run-micros repeating 2 nine_seconds repeating-plain (omega arith) (omega arith)
      (omega arith)
