-- ===== src/Event/Loop/Frames.antt =====
-- What the operations of event.c that the loop calls itself leave as it is in the active queues.
use libevent_linux.Prelude.{
  ℕ, ◌≡◌, refl, ◌∙◌, Bool, true, false, not, ◌&&◌, ◌||◌, ◌+◌, some, if◌then◌else◌, ◌||◌, ◌==◌,
  if_elim, arith,
}
use libevent_linux.Time.{Timeval}
use libevent_linux.Event.State.{
  Base, Evmap, put, Event, evthread_notify_base, notify_if, is_common_timeout,
}
use libevent_linux.Event.Queues.{event_queue_remove_inserted, event_queue_remove_timeout}
use libevent_linux.Event.Delete.{abort_loop, del_timeout, del_inserted}
use libevent_linux.Event.Queues.{event_queue_insert_inserted, event_queue_insert_timeout}
use libevent_linux.Event.Add.{
  add_inserted, keep_interval, set_timeout, add_timeout, event_add_nolock, add_step, schedule_once,
}
use libevent_linux.MinHeap.{min_heap_reserve, min_heap_size}
use libevent_linux.Event.Delete.{result, is_success, asks_notify}
use libevent_linux.Event.Timeouts.{persist_reschedule, next_run}
use libevent_linux.Event.State.{Outcome}
use libevent_linux.Event.Invariant.{flags_of}

-- The active queues, the flags that say that a callback is in one or internal, the priorities, the
-- closures and whether to go on with the queue are the same.
pub record SameActive {Map : Type 0} (b b' : Base Map) : Type 0 where
  pub queues : (p : ℕ) → b'.activequeues p ≡ b.activequeues p
  pub active : (x : ℕ) → (flags_of b' x).active ≡ (flags_of b x).active
  pub internal : (x : ℕ) → (flags_of b' x).internal ≡ (flags_of b x).internal
  pub pri : (x : ℕ) → (b'.event x).ev_pri ≡ (b.event x).ev_pri
  pub closure : (x : ℕ) → (b'.event x).ev_closure ≡ (b.event x).ev_closure
  pub continue : b'.event_continue ≡ b.event_continue
  pub common : b'.n_common_timeouts ≡ b.n_common_timeouts

pub SameActive-refl : {Map : Type 0} (b : Base Map) → SameActive b b
SameActive-refl b = record {
  queues = λ p. refl;
  active = λ x. refl;
  internal = λ x. refl;
  pri = λ x. refl;
  closure = λ x. refl;
  continue = refl;
  common = refl;
}

pub SameActive-trans :
    {Map : Type 0} {b b' b'' : Base Map} → SameActive b b' → SameActive b' b'' → SameActive b b''
SameActive-trans s t = record {
  queues = λ p. t.queues p ∙ s.queues p;
  active = λ x. t.active x ∙ s.active x;
  internal = λ x. t.internal x ∙ s.internal x;
  pri = λ x. t.pri x ∙ s.pri x;
  closure = λ x. t.closure x ∙ s.closure x;
  continue = t.continue ∙ s.continue;
  common = t.common ∙ s.common;
}

-- A write to one callback that keeps its place.
pub put-SameActive :
    {Map : Type 0} (b : Base Map) (e : ℕ) (ev : Event)
    → ev.ev_flags.active ≡ (flags_of b e).active
    → ev.ev_flags.internal ≡ (flags_of b e).internal
    → ev.ev_pri ≡ (b.event e).ev_pri
    → ev.ev_closure ≡ (b.event e).ev_closure
    → SameActive b (put b e ev)
put-SameActive b e ev h i j k = record {
  queues = λ p. refl;
  active = λ x. ground arith;
  internal = λ x. ground arith;
  pri = λ x. ground arith;
  closure = λ x. ground arith;
  continue = refl;
  common = refl;
}

pub abort_loop-SameActive : {Map : Type 0} (b : Base Map) (e : ℕ) → SameActive b (abort_loop b e)
abort_loop-SameActive b e = record {
  queues = λ p. ground arith;
  active = λ x. ground arith;
  internal = λ x. ground arith;
  pri = λ x. ground arith;
  closure = λ x. ground arith;
  continue = ground arith;
  common = ground arith;
}

pub remove_timeout-SameActive :
    {Map : Type 0} (b : Base Map) (e : ℕ) → SameActive b (event_queue_remove_timeout b e)
unfolding event_queue_remove_timeout
remove_timeout-SameActive b e = record {
  queues = λ p. ground arith;
  active = λ x. ground arith;
  internal = λ x. ground arith;
  pri = λ x. ground arith;
  closure = λ x. ground arith;
  continue = ground arith;
  common = ground arith;
}

pub remove_inserted-SameActive :
    {Map : Type 0} (b : Base Map) (e : ℕ) → SameActive b (event_queue_remove_inserted b e)
unfolding event_queue_remove_inserted
remove_inserted-SameActive b e = record {
  queues = λ p. ground arith;
  active = λ x. ground arith;
  internal = λ x. ground arith;
  pri = λ x. ground arith;
  closure = λ x. ground arith;
  continue = ground arith;
  common = ground arith;
}

pub del_inserted-SameActive :
    {Map : Type 0} (evmap : Evmap Map) (b : Base Map) (e : ℕ)
    → SameActive b (del_inserted evmap b e).1
unfolding event_queue_remove_inserted evthread_notify_base
del_inserted-SameActive evmap b e = record {
  queues = λ p. ground arith;
  active = λ x. ground arith;
  internal = λ x. ground arith;
  pri = λ x. ground arith;
  closure = λ x. ground arith;
  continue = ground arith;
  common = ground arith;
}

pub del_timeout-SameActive : {Map : Type 0} (b : Base Map) (e : ℕ) → SameActive b (del_timeout b e)
del_timeout-SameActive b e =
    if_elim (SameActive b) (flags_of b e).timeout (λ _. remove_timeout-SameActive b e)
      (λ _. SameActive-refl b)

pub notify_if-SameActive :
    {Map : Type 0} (notify : Bool) (b : Base Map) → SameActive b (notify_if notify b)
unfolding evthread_notify_base
notify_if-SameActive notify b = record {
  queues = λ p. ground arith;
  active = λ x. ground arith;
  internal = λ x. ground arith;
  pri = λ x. ground arith;
  closure = λ x. ground arith;
  continue = ground arith;
  common = ground arith;
}

pub add_inserted-SameActive :
    {Map : Type 0} (evmap : Evmap Map) (b : Base Map) (e : ℕ)
    → SameActive b (add_inserted evmap b e).1
unfolding event_queue_insert_inserted
add_inserted-SameActive evmap b e = record {
  queues = λ p. ground arith;
  active = λ x. ground arith;
  internal = λ x. ground arith;
  pri = λ x. ground arith;
  closure = λ x. ground arith;
  continue = ground arith;
  common = ground arith;
}

pub insert_timeout-SameActive :
    {Map : Type 0} (b : Base Map) (e : ℕ) (memory : Bool)
    → SameActive b (event_queue_insert_timeout b e memory)
unfolding event_queue_insert_timeout
insert_timeout-SameActive b e memory = record {
  queues = λ p. ground arith;
  active = λ x. ground arith;
  internal = λ x. ground arith;
  pri = λ x. ground arith;
  closure = λ x. ground arith;
  continue = ground arith;
  common = ground arith;
}

pub keep_interval-SameActive :
    {Map : Type 0} (b : Base Map) (e : ℕ) (tv : Timeval) (tv_is_absolute : Bool)
    → SameActive b (keep_interval b e tv tv_is_absolute)
keep_interval-SameActive b e tv tv_is_absolute = record {
  queues = λ p. ground arith;
  active = λ x. ground arith;
  internal = λ x. ground arith;
  pri = λ x. ground arith;
  closure = λ x. ground arith;
  continue = ground arith;
  common = ground arith;
}

-- Only the list of a common timeout adds another event, which may be active.
add_timeout-SameActive :
    {Map : Type 0} (schedule : Base Map → ℕ → Timeval → Base Map) (b : Base Map) (e : ℕ)
    (tv : Timeval) (tv_is_absolute : Bool) (now : Timeval) (memory : Bool)
    → (flags_of b e).active ≡ false
    → b.n_common_timeouts ≡ 0
    → SameActive b (add_timeout schedule b e tv tv_is_absolute now memory).1
unfolding is_common_timeout
add_timeout-SameActive {Map} schedule b e tv tv_is_absolute now memory out none_common =
    let b1 = keep_interval b e tv tv_is_absolute in
    let b2 = del_timeout b1 e in
    let s2 : SameActive b b2 =
      SameActive-trans (keep_interval-SameActive b e tv tv_is_absolute)
        (del_timeout-SameActive b1 e) in
    let out' : (flags_of b2 e).active ≡ false = s2.active e ∙ out in
    let b3 = set_timeout b e tv tv_is_absolute now in
    let s3 : SameActive b2 b3 = rw out' (put-SameActive b2 e _ refl refl refl refl) in
    let plain : is_common_timeout tv b.n_common_timeouts ≡ false = ground arith in
    rw plain (SameActive-trans (SameActive-trans s2 s3) (insert_timeout-SameActive b3 e memory))

add_step-SameActive :
    {Map : Type 0} (evmap : Evmap Map) (schedule : Base Map → ℕ → Timeval → Base Map) (b : Base Map)
    (e : ℕ) (tv : Timeval) (tv_is_absolute : Bool) (now : Timeval) (memory : Bool)
    → (flags_of b e).active ≡ false
    → b.n_common_timeouts ≡ 0
    → SameActive b (add_step evmap schedule b e (some tv) tv_is_absolute now memory).1
add_step-SameActive {Map} evmap schedule b e tv tv_is_absolute now memory out none_common =
    let (reserved, heap) = min_heap_reserve b.timeheap (1 + min_heap_size b.timeheap) memory in
    let b1 = if (flags_of b e).timeout then b else record b { timeheap = heap } in
    let s1 : SameActive b b1 =
      if_elim (SameActive b) (flags_of b e).timeout (λ _. SameActive-refl b)
        (λ _. record {
          queues = λ p. refl;
          active = λ x. refl;
          internal = λ x. refl;
          pri = λ x. refl;
          closure = λ x. refl;
          continue = refl;
          common = refl;
        }) in
    let (answer, b2) = add_inserted evmap b1 e in
    let s2 : SameActive b b2 = SameActive-trans s1 (add_inserted-SameActive evmap b1 e) in
    let (notify, b3) = add_timeout schedule b2 e tv tv_is_absolute now memory in
    let s3 : SameActive b b3 = SameActive-trans s2 (
      add_timeout-SameActive schedule b2 e tv tv_is_absolute now memory (s2.active e ∙ out)
        (s2.common ∙ none_common)) in
    let same = λ (r : Outcome × Base Map). SameActive b r.1 in
    if_elim same ((flags_of b e).finalizing || (not (flags_of b e).timeout && not reserved))
      (λ _. SameActive-refl b)
      (λ _.
        if_elim same (is_success (result answer))
          (λ _. SameActive-trans s3 (notify_if-SameActive (asks_notify answer || notify) b3))
          (λ _. s2))

pub persist_reschedule-SameActive :
    {Map : Type 0} (evmap : Evmap Map) (b : Base Map) (e : ℕ) (now : Timeval) (memory : Bool)
    → (flags_of b e).active ≡ false
    → b.n_common_timeouts ≡ 0
    → SameActive b (persist_reschedule evmap b e now memory)
unfolding persist_reschedule event_add_nolock
persist_reschedule-SameActive evmap b e now memory out none_common =
    let interval = (b.event e).ev_io_timeout in
    if_elim (SameActive b) (interval.tv_sec == 0 && interval.tv_usec == 0) (λ _. SameActive-refl b)
      (λ _.
        add_step-SameActive evmap (schedule_once evmap now memory) b e (next_run b e now) true now
          memory out none_common)
