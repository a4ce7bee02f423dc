-- ===== src/Event/Queues.antt =====
-- The queues and counters of the event base: event_queue_insert_* and event_queue_remove_* of
-- event.c. (event_errx, for a callback that is not in the queue, ends the program: here the base is
-- then as it was.) `memory` is the answer of mm_realloc.
use libevent_linux.Prelude.{
  ℕ, ◌+◌, ◌-◌, max, Bool, true, false, not, ◌||◌, Option, none, some, List, [], ◌∷◌, ◌++◌, ◌==◌,
  if◌then◌else◌,
}
use libevent_linux.Time.{Timeval, timer_ge}
use libevent_linux.MinHeap.{min_heap_push, min_heap_erase}
use libevent_linux.Event.State.{
  Flags, Closure, cb_self, CommonTimeoutList, Base, put_flags, timeouts, is_common_timeout,
  common_timeout_idx,
}

-- TAILQ_REMOVE.
abbrev pub remove : ℕ → List ℕ → List ℕ
remove e [] = []
remove e (x ∷ l) = if e == x then l else x ∷ remove e l

abbrev pub weight : Flags → ℕ
weight flags = if flags.internal then 0 else 1

abbrev pub decr_event_count : {Map : Type 0} → Base Map → Flags → Base Map
decr_event_count b flags = record b { event_count = b.event_count - weight flags }

abbrev pub incr_event_count : {Map : Type 0} → Base Map → Flags → Base Map
incr_event_count b flags =
    let count = b.event_count + weight flags in
    record b { event_count = count; event_count_max = max b.event_count_max count }

-- One more active callback.
abbrev pub incr_active : {Map : Type 0} → Base Map → Base Map
incr_active b =
    let count = b.event_count_active + 1 in
    record b {
      event_count_active = count;
      event_count_active_max = max b.event_count_active_max count;
    }

abbrev pub set_queue : (ℕ → List ℕ) → ℕ → List ℕ → ℕ → List ℕ
set_queue q p l x = if p == x then l else q x

unfoldable pub event_queue_remove_inserted : {Map : Type 0} → Base Map → ℕ → Base Map
event_queue_remove_inserted b e =
    let flags = (b.event e).ev_flags in
    if not flags.inserted
    then b
    else put_flags (decr_event_count b flags) e (record flags { inserted = false })

unfoldable pub event_queue_remove_active : {Map : Type 0} → Base Map → ℕ → Base Map
event_queue_remove_active b e =
    let flags = (b.event e).ev_flags in
    let pri = (b.event e).ev_pri in
    let b' = put_flags (decr_event_count b flags) e (record flags { active = false }) in
    if not flags.active then b else record b' {
      event_count_active = b.event_count_active - 1;
      activequeues = set_queue b.activequeues pri (remove e (b.activequeues pri));
    }

unfoldable pub event_queue_remove_active_later : {Map : Type 0} → Base Map → ℕ → Base Map
event_queue_remove_active_later b e =
    let flags = (b.event e).ev_flags in
    let b' = put_flags (decr_event_count b flags) e (record flags { active_later = false }) in
    if not flags.active_later then b else record b' {
      event_count_active = b.event_count_active - 1;
      active_later_queue = remove e b.active_later_queue;
    }

-- A write to the list of one common timeout.
abbrev pub set_events : (ℕ → CommonTimeoutList) → ℕ → List ℕ → ℕ → CommonTimeoutList
set_events q i l x = if i == x then record (q i) { events = l } else q x

-- The list of the common timeout of an event.
abbrev pub common_events : {Map : Type 0} → Base Map → ℕ → List ℕ
common_events b e = (b.common_timeout_queues (common_timeout_idx (timeouts b e))).events

abbrev pub put_common_events : {Map : Type 0} → Base Map → ℕ → List ℕ → Base Map
put_common_events b e l = record b {
  common_timeout_queues = set_events b.common_timeout_queues (common_timeout_idx (timeouts b e)) l;
}

unfoldable pub event_queue_remove_timeout : {Map : Type 0} → Base Map → ℕ → Base Map
event_queue_remove_timeout b e =
    let flags = (b.event e).ev_flags in
    let b' = put_flags (decr_event_count b flags) e (record flags { timeout = false }) in
    if not flags.timeout
    then b
    else if is_common_timeout (timeouts b' e) b.n_common_timeouts
    then put_common_events b' e (remove e (common_events b' e))
    else record b' { timeheap = (min_heap_erase (timeouts b') b.timeheap e).1 }

-- The search of TAILQ_FOREACH_REVERSE: after the last event that is not later, if there is one.
abbrev pub insert_after_last : (ℕ → Timeval) → ℕ → List ℕ → Option (List ℕ)
insert_after_last timeout e [] = none
insert_after_last timeout e (x ∷ l) = elim (insert_after_last timeout e l) [
  | some l' ↦ some (x ∷ l')
  | none ↦ if timer_ge (timeout e) (timeout x) then some (x ∷ e ∷ l) else none
]

unfoldable pub insert_common_timeout_inorder : (ℕ → Timeval) → List ℕ → ℕ → List ℕ
insert_common_timeout_inorder timeout l e = elim (insert_after_last timeout e l) [
  | some l' ↦ l'
  | none ↦ e ∷ l
]

unfoldable pub event_queue_insert_inserted : {Map : Type 0} → Base Map → ℕ → Base Map
event_queue_insert_inserted b e =
    let flags = (b.event e).ev_flags in
    if flags.inserted
    then b
    else put_flags (incr_event_count b flags) e (record flags { inserted = true })

unfoldable pub event_queue_insert_active : {Map : Type 0} → Base Map → ℕ → Base Map
event_queue_insert_active b e =
    let flags = (b.event e).ev_flags in
    let pri = (b.event e).ev_pri in
    let b' =
      incr_active (put_flags (incr_event_count b flags) e (record flags { active = true })) in
    if flags.active
    then b
    else record b' { activequeues = set_queue b.activequeues pri (b.activequeues pri ++ e ∷ []) }

unfoldable pub event_queue_insert_active_later : {Map : Type 0} → Base Map → ℕ → Base Map
event_queue_insert_active_later b e =
    let flags = (b.event e).ev_flags in
    let b' =
      incr_active (put_flags (incr_event_count b flags) e (record flags { active_later = true })) in
    if flags.active_later || flags.active
    then b
    else record b' { active_later_queue = b.active_later_queue ++ e ∷ [] }

unfoldable pub event_queue_insert_timeout : {Map : Type 0} → Base Map → ℕ → Bool → Base Map
unfolding insert_common_timeout_inorder
event_queue_insert_timeout b e memory =
    let flags = (b.event e).ev_flags in
    let b' = put_flags (incr_event_count b flags) e (record flags { timeout = true }) in
    if flags.timeout
    then b
    else if is_common_timeout (timeouts b' e) b.n_common_timeouts
    then put_common_events b' e (insert_common_timeout_inorder (timeouts b') (common_events b' e) e)
    else record b' { timeheap = (min_heap_push (timeouts b') b.timeheap e memory).1 }

-- Whether a closure is EV_CLOSURE_CB_SELF, as 0 or 1.
abbrev pub is_deferred : Closure → ℕ
is_deferred cb_self = 1
is_deferred _ = 0

-- The body of the loop of event_queue_make_later_events_active.
abbrev pub make_later_active : {Map : Type 0} → Base Map → ℕ → List ℕ → Base Map
make_later_active b e rest =
    let ev = b.event e in
    let b' = put_flags b e (record ev.ev_flags { active_later = false; active = true }) in
    record b' {
      active_later_queue = rest;
      activequeues = set_queue b.activequeues ev.ev_pri (b.activequeues ev.ev_pri ++ e ∷ []);
      n_deferreds_queued = b.n_deferreds_queued + is_deferred ev.ev_closure;
    }

-- The loop, over the callbacks that are left in the queue.
abbrev pub make_later_loop : {Map : Type 0} → Base Map → List ℕ → Base Map
make_later_loop b [] = b
make_later_loop b (e ∷ rest) = make_later_loop (make_later_active b e rest) rest

unfoldable pub event_queue_make_later_events_active : {Map : Type 0} → Base Map → Base Map
event_queue_make_later_events_active b = make_later_loop b b.active_later_queue
