-- ===== src/Event/AddLaws.antt =====
-- event_add_nolock_ of event.c.
use libevent_linux.Prelude.{
  ℕ, ◌+◌, ◌^◌, ◌<◌, ◌≡◌, refl, ap, ◌∙◌, Bool, true, false, not, ◌&&◌, ◌||◌, Option, none, some,
  if◌then◌else◌, if_elim, Bool-cases, ◌≤◌, inl, inr, arith,
}
use libevent_linux.Time.{Timeval, IsWord}
use libevent_linux.MinHeap.{Heap, min_heap_erase, min_heap_reserve, min_heap_size}
use libevent_linux.MinHeap.Invariant.{IsHeap, IsWords, is_some}
use libevent_linux.MinHeap.Methods.{reserve-Reserved}
use libevent_linux.MinHeap.Remove.{erase-Removed}
use libevent_linux.Event.State.{
  Flags, Event, Base, Evmap, Answer, Outcome, put, timeouts, is_common_timeout,
}
use libevent_linux.Event.Queues.{
  event_queue_remove_timeout, event_queue_insert_inserted, event_queue_remove_active,
}
use libevent_linux.Event.Delete.{abort_loop, del_timeout, result, is_success, asks_notify}
use libevent_linux.Event.Add.{
  evmap_add, add_inserted, unschedule, keep_interval, set_timeout, absolute_timeout, add_timeout,
  schedule_once, event_add_nolock,
}
use libevent_linux.Event.Invariant.{flags_of, IsBase, IsHeap-same}
use libevent_linux.Event.QueueLaws.{insert_inserted-IsBase, remove_active-IsBase}
use libevent_linux.Event.TimeoutLaws.{put-IsBase, insert_timeout-IsBase}
use libevent_linux.Event.Effects.{put-Sets, io-IsBase, notify-IsBase}
use libevent_linux.Event.DeleteLaws.{del_timeout-Step, abort_loop-Step}

add_inserted-IsBase :
    {Map : Type 0} (evmap : Evmap Map) (n : ℕ) (b : Base Map) (e : ℕ)
    → e < n
    → IsBase n b
    → IsBase n (add_inserted evmap b e).1
add_inserted-IsBase {Map} evmap n b e below v =
    let (answer, io) = evmap_add evmap b e in
    let b' = record b { io = io } in
    let v' = io-IsBase b io v in
    if_elim (λ (r : Answer × Base Map). IsBase n r.1) _
      (λ _.
        if_elim (IsBase n) (is_success (result answer)) (λ _. insert_inserted-IsBase b' e below v')
          (λ _. v'))
      (λ _. v)

-- The state that event_add_nolock_ keeps for the event: whether it is finalized or has a timeout,
-- what timeouts are common, and no more events in the heap.
abbrev Keeps : {Map : Type 0} → ℕ → Base Map → ℕ → Base Map → Type 0
Keeps n b e b' =
    IsBase n b'
    × ((flags_of b' e).finalizing ≡ (flags_of b e).finalizing)
    × ((flags_of b' e).timeout ≡ true → (flags_of b e).timeout ≡ true)
    × (b'.timeheap.n ≤ b.timeheap.n)
    × (b'.n_common_timeouts ≡ b.n_common_timeouts)

reserve-Keeps :
    {Map : Type 0} (n : ℕ) (b : Base Map) (e : ℕ) (memory : Bool)
    → IsBase n b
    → Keeps n b e (record b {
      timeheap = (min_heap_reserve b.timeheap (1 + min_heap_size b.timeheap) memory).1;
    })
reserve-Keeps n b e memory v =
    let (heap, size, index, room) =
      reserve-Reserved (timeouts b) b.timeheap (1 + min_heap_size b.timeheap) memory v.heap in
    (
      record {
        heap = heap;
        words = v.words;
        in_heap = λ x. ap (λ (f : ℕ → Option ℕ). is_some (f x)) index ∙ v.in_heap x;
        in_common = v.in_common;
        in_active = v.in_active;
        in_later = v.in_later;
        one_queue = v.one_queue;
        finalizing = v.finalizing;
        bound = v.bound;
        counted = v.counted;
        counted_active = v.counted_active;
      },
      refl,
      (λ h. h),
      omega (arith, size),
      refl,
    )

add_inserted-Keeps :
    {Map : Type 0} (evmap : Evmap Map) (n : ℕ) (b : Base Map) (e : ℕ)
    → e < n
    → IsBase n b
    → Keeps n b e (add_inserted evmap b e).1
unfolding event_queue_insert_inserted
add_inserted-Keeps evmap n b e below v = (
  add_inserted-IsBase evmap n b e below v,
  ground arith,
  (λ h. ground arith),
  ground arith,
  ground arith,
)

keep_interval-Keeps :
    {Map : Type 0} (n : ℕ) (b : Base Map) (e : ℕ) (tv : Timeval) (tv_is_absolute : Bool)
    → IsBase n b
    → Keeps n b e (keep_interval b e tv tv_is_absolute)
keep_interval-Keeps n b e tv tv_is_absolute v = (
  if_elim (IsBase n) _
      (λ _.
        put-IsBase b e (record (b.event e) { ev_io_timeout = tv }) refl refl (λ h. refl) (v.words e)
          v)
      (λ _. v),
  ground arith,
  (λ h. ground arith),
  ground arith,
  ground arith,
)

del_timeout-shorter :
    {Map : Type 0} (n : ℕ) (b : Base Map) (e : ℕ)
    → IsBase n b
    → (del_timeout b e).timeheap.n ≤ b.timeheap.n
unfolding event_queue_remove_timeout
del_timeout-shorter {Map} n b e v =
    let new = record (b.event e) { ev_flags = record (flags_of b e) { timeout = false } } in
    let timeout = timeouts (put b e new) in
    let words : IsWords timeout = λ x. ground (arith, v.words x) in
    let heap : IsHeap timeout b.timeheap =
      IsHeap-same (timeouts b) _ b.timeheap v.heap (λ x h. ground arith) in
    let t = min_heap_erase timeout b.timeheap e in
    let (found, kept, removed) = erase-Removed timeout b.timeheap e words heap in
    let less : t.1.n ≤ b.timeheap.n = elim (Bool-cases t.0) [
      | inl is_in ↦ omega (arith, (removed is_in).1)
      | inr is_out ↦ omega (arith, ap (λ (h : Heap). h.n) (kept is_out))
    ] in
    let Shorter : Base Map → Type 0 = λ b'. b'.timeheap.n ≤ b.timeheap.n in
    if_elim Shorter (flags_of b e).timeout
      (λ _.
        if_elim Shorter (not (flags_of b e).timeout) (λ _. omega arith)
          (λ _.
            if_elim Shorter (is_common_timeout (timeout e) b.n_common_timeouts) (λ _. omega arith)
              (λ _. less)))
      (λ _. omega arith)

unschedule-Keeps :
    {Map : Type 0} (n : ℕ) (b : Base Map) (e : ℕ) → IsBase n b → Keeps n b e (unschedule b e)
unfolding event_queue_remove_active
unschedule-Keeps n b e v = (
  if_elim (IsBase n) _ (λ _. remove_active-IsBase (abort_loop b e) e (abort_loop-Step n b e v).0)
      (λ _. v),
  ground arith,
  (λ h. ground arith),
  ground arith,
  ground arith,
)

-- The event just before it is queued: its timeout is set, and it is queued for none.
set_timeout-Keeps :
    {Map : Type 0} (n : ℕ) (b : Base Map) (e : ℕ) (tv : Timeval) (tv_is_absolute : Bool)
    (now : Timeval)
    → IsBase n b
    → IsWord (absolute_timeout tv tv_is_absolute (is_common_timeout tv b.n_common_timeouts) now)
    → let b' = set_timeout b e tv tv_is_absolute now in
      IsBase n b'
      × ((flags_of b' e).finalizing ≡ (flags_of b e).finalizing)
      × (b'.timeheap.n ≤ b.timeheap.n)
      × (b'.n_common_timeouts ≡ b.n_common_timeouts)
set_timeout-Keeps n b e tv tv_is_absolute now v word =
    let b1 = keep_interval b e tv tv_is_absolute in
    let b2 = del_timeout b1 e in
    let b3 = unschedule b2 e in
    let k1 = keep_interval-Keeps n b e tv tv_is_absolute v in
    let (v2, s2) = del_timeout-Step n b1 e k1.0 in
    let less = del_timeout-shorter n b1 e k1.0 in
    let k3 = unschedule-Keeps n b2 e v2 in
    let flags = ap (λ (ev : Event). ev.ev_flags) s2.0 in
    let common = k3.4 ∙ s2.2 ∙ k1.4 in
    let off : (flags_of b2 e).timeout ≡ false = ap (λ (f : Flags). f.timeout) flags in
    let new = record (b3.event e) {
      ev_timeout =
          absolute_timeout tv tv_is_absolute (is_common_timeout tv b3.n_common_timeouts) now;
    } in
    (
      put-IsBase b3 e new refl refl (λ h. absurd (ground (arith, k3.2, off))) (rw common word) k3.0,
      ap (λ (ev : Event). ev.ev_flags.finalizing) (put-Sets b3 e new).0
          ∙ k3.1
          ∙ ap (λ (f : Flags). f.finalizing) flags
          ∙ k1.1,
      omega (arith, k3.3, less, k1.3),
      common,
    )

add_timeout-IsBase :
    {Map : Type 0} (n : ℕ) (b : Base Map) (e : ℕ) (tv : Timeval) (tv_is_absolute : Bool)
    (now : Timeval) (schedule : Base Map → ℕ → Timeval → Base Map)
    → e < n
    → is_common_timeout tv b.n_common_timeouts ≡ false
    → let b' = set_timeout b e tv tv_is_absolute now in
      IsBase n b'
      → (flags_of b' e).finalizing ≡ false
      → b'.timeheap.n + 1 < 2 ^ 31
      → IsBase n (add_timeout schedule b e tv tv_is_absolute now true).1
add_timeout-IsBase n b e tv tv_is_absolute now schedule below plain v live small =
    rw plain (insert_timeout-IsBase (set_timeout b e tv tv_is_absolute now) e below v live small)

-- With a timeout that is not a common one, and memory.
add_some-IsBase :
    {Map : Type 0} (evmap : Evmap Map) (n : ℕ) (b : Base Map) (e : ℕ) (tv : Timeval)
    (tv_is_absolute : Bool) (now : Timeval)
    → e < n
    → IsBase n b
    → is_common_timeout tv b.n_common_timeouts ≡ false
    → IsWord (absolute_timeout tv tv_is_absolute false now)
    → b.timeheap.n + 1 < 2 ^ 31
    → IsBase n (event_add_nolock evmap b e (some tv) tv_is_absolute now true).1
unfolding event_add_nolock
add_some-IsBase {Map} evmap n b e tv tv_is_absolute now below v plain word small =
    let flags = flags_of b e in
    let (reserved, heap) = min_heap_reserve b.timeheap (1 + min_heap_size b.timeheap) true in
    let b1 = if flags.timeout then b else record b { timeheap = heap } in
    let k1 : Keeps n b e b1 =
      if_elim (Keeps n b e) flags.timeout (λ _. (v, refl, (λ h. h), omega arith, refl))
        (λ _. reserve-Keeps n b e true v) in
    let (answer, b2) = add_inserted evmap b1 e in
    let k2 = add_inserted-Keeps evmap n b1 e below k1.0 in
    let common = k2.4 ∙ k1.4 in
    let plain' : is_common_timeout tv b2.n_common_timeouts ≡ false =
      ap (is_common_timeout tv) common ∙ plain in
    let word' : IsWord
        (absolute_timeout tv tv_is_absolute (is_common_timeout tv b2.n_common_timeouts) now) =
      rw plain' word in
    let b3 = set_timeout b2 e tv tv_is_absolute now in
    let k3 = set_timeout-Keeps n b2 e tv tv_is_absolute now k2.0 word' in
    let Good : Outcome × Base Map → Type 0 = λ r. IsBase n r.1 in
    if_elim Good (flags.finalizing || (not flags.timeout && not reserved)) (λ _. v)
      (λ goes.
        if_elim Good (is_success (result answer))
          (λ _. notify-IsBase _ _ (
            add_timeout-IsBase n b2 e tv tv_is_absolute now (schedule_once evmap now true) below
              plain' k3.0 (ground (arith, goes, k1.1, k2.1, k3.1))
              (omega (arith, k3.2, k2.3, k1.3, small))))
          (λ _. k2.0))

add_none-IsBase :
    {Map : Type 0} (evmap : Evmap Map) (n : ℕ) (b : Base Map) (e : ℕ) (tv_is_absolute : Bool)
    (now : Timeval) (memory : Bool)
    → e < n
    → IsBase n b
    → IsBase n (event_add_nolock evmap b e none tv_is_absolute now memory).1
unfolding event_add_nolock
add_none-IsBase {Map} evmap n b e tv_is_absolute now memory below v =
    let (answer, b') = add_inserted evmap b e in
    if_elim (λ (r : Outcome × Base Map). IsBase n r.1) (flags_of b e).finalizing (λ _. v)
      (λ _.
        notify-IsBase b' (is_success (result answer) && asks_notify answer)
          (add_inserted-IsBase evmap n b e below v))

-- What event_add_nolock_ is given for the timeout: none; or one that is not common, at a time that
-- fits its field, with memory and room in the heap for one more.
abbrev pub Schedulable : {Map : Type 0} → Base Map → Option Timeval → Bool → Timeval → Bool → Type 0
Schedulable b none tv_is_absolute now memory = Unit {0}
Schedulable b (some tv) tv_is_absolute now memory =
    (is_common_timeout tv b.n_common_timeouts ≡ false)
    × IsWord (absolute_timeout tv tv_is_absolute false now)
    × (b.timeheap.n + 1 < 2 ^ 31)
    × (memory ≡ true)

-- event_add_nolock_ keeps the invariant of the base, whatever it and evmap.c return: without a
-- timeout, whether there is memory or not; and with a timeout that is not a common one, if there is
-- memory, the heap has room for one more, and the time at which the event is to run fits its field.
pub add-IsBase :
    {Map : Type 0} (evmap : Evmap Map) (n : ℕ) (b : Base Map) (e : ℕ) (tv : Option Timeval)
    (tv_is_absolute : Bool) (now : Timeval) (memory : Bool)
    → e < n
    → IsBase n b
    → Schedulable b tv tv_is_absolute now memory
    → IsBase n (event_add_nolock evmap b e tv tv_is_absolute now memory).1
add-IsBase evmap n b e none tv_is_absolute now memory below v _ =
    add_none-IsBase evmap n b e tv_is_absolute now memory below v
add-IsBase evmap n b e (some tv) tv_is_absolute now memory below v (plain, word, small, granted) =
    rw granted (add_some-IsBase evmap n b e tv tv_is_absolute now below v plain word small)
