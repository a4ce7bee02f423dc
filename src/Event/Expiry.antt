-- ===== src/Event/Expiry.antt =====
-- timeout_process of event.c activates the events whose time has come, and no other.
use libevent_linux.Prelude.{
  ℕ, zero, suc, ◌+◌, ◌^◌, ap₂, ◌≤◌, ◌<◌, ◌≡◌, ◌≢◌, refl, ap, sym, ◌∙◌, Bool, true, false, not, ◌&&◌,
  ◌==◌, if◌then◌else◌, if_true, if_false, Bool-cases, Option-cases, inl, inr, arith,
}
use native.Mathlib.Decide.{ℕ_discrete}
use libevent_linux.Time.{Timeval, timer_gt, timer_gt-rank}
use libevent_linux.MinHeap.{min_heap_top, min_heap_empty}
use libevent_linux.MinHeap.Invariant.{IsHeap, IsWords, has, key}
use libevent_linux.MinHeap.Methods.{top-first}
use libevent_linux.MinHeap.Remove.{erase-Removed}
use libevent_linux.Event.State.{
  Event, Events, Base, Evmap, timeouts, ev_timeout_bit, is_common_timeout, put,
  evthread_notify_base,
}
use libevent_linux.Event.Queues.{
  event_queue_remove_active, event_queue_remove_active_later, event_queue_remove_inserted,
  event_queue_remove_timeout, event_queue_insert_active,
}
use libevent_linux.Event.Delete.{
  abort_loop, del_timeout, del_active, del_inserted, event_del_nolock,
}
use libevent_linux.Event.Active.{event_active_nolock, event_callback_activate_nolock}
use libevent_linux.Event.Timeouts.{expire, timeout_loop, timeout_process}
use libevent_linux.Event.Invariant.{flags_of, is_common, IsBase, IsHeap-same}
use libevent_linux.Event.Effects.{Sets}
use libevent_linux.Event.DeleteLaws.{Step, deleted, del-Step, abort_loop-Step}
use libevent_linux.Event.ActiveLaws.{activated_event, event_active-Step}

-- An event whose time has come, after timeout_process: deleted, and active for EV_TIMEOUT only.
abbrev pub expired : Event → Event
expired ev = activated_event (deleted ev) ev_timeout_bit 1

expire-Step :
    {Map : Type 0} (evmap : Evmap Map) (n : ℕ) (b : Base Map) (e : ℕ)
    → has b.timeheap e ≡ true
    → Step n b e (expired (b.event e)) (expire evmap b e)
expire-Step evmap n b e member v =
    let b' = (event_del_nolock evmap b e false).1 in
    let live : (flags_of b e).finalizing ≡ false = ground (arith, v.in_heap e, v.finalizing e) in
    let below : e < n = ground (arith, v.in_heap e, v.bound e) in
    let (v', set) = del-Step evmap n b e false live v in
    let (v'', set') = event_active-Step n b' e ev_timeout_bit 1 below v' in
    (
      v'',
      (
        set'.0 ∙ ap (λ ev. activated_event ev ev_timeout_bit 1) set.0,
        (λ x ne. set'.1 x ne ∙ set.1 x ne),
        set'.2 ∙ set.2,
      ),
    )

-- Activating moves nothing in the heap.
event_active-heap :
    {Map : Type 0} (b : Base Map) (e : ℕ) (res : Events) (ncalls : ℕ)
    → (event_active_nolock b e res ncalls).timeheap ≡ b.timeheap
unfolding event_active_nolock event_callback_activate_nolock event_queue_insert_active
    event_queue_remove_active_later evthread_notify_base
event_active-heap b e res ncalls = ground arith

del_inserted-heap :
    {Map : Type 0} (evmap : Evmap Map) (b : Base Map) (e : ℕ)
    → (del_inserted evmap b e).1.timeheap ≡ b.timeheap
unfolding event_queue_remove_inserted evthread_notify_base
del_inserted-heap evmap b e = ground arith

del_active-heap : {Map : Type 0} (b : Base Map) (e : ℕ) → (del_active b e).timeheap ≡ b.timeheap
unfolding event_queue_remove_active event_queue_remove_active_later
del_active-heap b e = ground arith

abort_loop-heap : {Map : Type 0} (b : Base Map) (e : ℕ) → (abort_loop b e).timeheap ≡ b.timeheap
abort_loop-heap b e = ground arith

del_timeout-size :
    {Map : Type 0} (n : ℕ) (b : Base Map) (e : ℕ)
    → IsBase n b
    → has b.timeheap e ≡ true
    → (del_timeout b e).timeheap.n + 1 ≡ b.timeheap.n
unfolding event_queue_remove_timeout
del_timeout-size n b e v member =
    let new = record (b.event e) { ev_flags = record (flags_of b e) { timeout = false } } in
    let timeout = timeouts (put b e new) in
    let words : IsWords timeout = λ x. ground (arith, v.words x) in
    let heap : IsHeap timeout b.timeheap =
      IsHeap-same (timeouts b) _ b.timeheap v.heap (λ x h. ground arith) in
    let (done, kept, removed) = erase-Removed timeout b.timeheap e words heap in
    let (valid, size, members) = removed (done ∙ member) in
    let here : (flags_of b e).timeout ≡ true = ground (arith, v.in_heap e) in
    let plain : is_common b e ≡ false = ground (arith, v.in_heap e) in
    let same : timeouts (put b e new) e ≡ timeouts b e = ground arith in rw (here, same, plain) size

expire-size :
    {Map : Type 0} (evmap : Evmap Map) (n : ℕ) (b : Base Map) (e : ℕ)
    → IsBase n b
    → has b.timeheap e ≡ true
    → (expire evmap b e).timeheap.n + 1 ≡ b.timeheap.n
unfolding event_del_nolock
expire-size evmap n b e v member =
    let b1 = abort_loop b e in
    let b2 = del_timeout b1 e in
    let b3 = del_active b2 e in
    let live : (flags_of b e).finalizing ≡ false = ground (arith, v.in_heap e, v.finalizing e) in
    let deletes : event_del_nolock evmap b e false ≡ del_inserted evmap b3 e =
      if_false _ _ _ live in
    let (v1, s1) = abort_loop-Step n b e v in
    let first = abort_loop-heap b e in
    let size = del_timeout-size n b1 e v1 (rw first member) in
    ap (λ h. h.n + 1)
      (event_active-heap (event_del_nolock evmap b e false).1 e ev_timeout_bit 1
        ∙ ap (λ r. r.1.timeheap) deletes
        ∙ del_inserted-heap evmap b3 e
        ∙ del_active-heap b2 e)
    ∙ size
    ∙ ap (λ h. h.n) first

-- The event is in the heap, and its time has come.
abbrev pub is_due : {Map : Type 0} → Base Map → Timeval → ℕ → Bool
is_due b now x = has b.timeheap x && not (timer_gt (timeouts b x) now)

-- The same by the event's fields.
abbrev due : Event → ℕ → Timeval → Bool
due ev n_common_timeouts now =
    (ev.ev_flags.timeout && not (is_common_timeout ev.ev_timeout n_common_timeouts))
    && not (timer_gt ev.ev_timeout now)

due-same :
    {Map : Type 0} (n : ℕ) (b b' : Base Map) (now : Timeval) (x : ℕ)
    → IsBase n b
    → IsBase n b'
    → b'.event x ≡ b.event x
    → b'.n_common_timeouts ≡ b.n_common_timeouts
    → is_due b' now x ≡ is_due b now x
due-same {Map} n b b' now x v v' same frame =
    is_due-due v' ∙ ap₂ (λ ev m. due ev m now) same frame ∙ sym (is_due-due v)
  where
    is_due-due :
        {a : Base Map} → IsBase n a → is_due a now x ≡ due (a.event x) a.n_common_timeouts now
    is_due-due {a} w = ap (λ h. h && not (timer_gt (timeouts a x) now)) (w.in_heap x)

-- The events that are due are expired, and no event is due any more.
abbrev pub Processed : {Map : Type 0} → ℕ → Base Map → Timeval → Base Map → Type 0
Processed n b now b' =
    IsBase n b'
    × ((x : ℕ) → b'.event x ≡ (if is_due b now x then expired (b.event x) else b.event x))
    × ((x : ℕ) → is_due b' now x ≡ false)

nothing_due :
    {Map : Type 0} (n : ℕ) (b : Base Map) (now : Timeval)
    → IsBase n b
    → ((x : ℕ) → is_due b now x ≡ false)
    → Processed n b now b
nothing_due n b now v none_due = (v, (λ x. sym (if_false _ _ _ (none_due x))), none_due)

none_left :
    {Map : Type 0} (n : ℕ) (b : Base Map) (now : Timeval)
    → IsBase n b
    → b.timeheap.n ≡ 0
    → (x : ℕ) → is_due b now x ≡ false
none_left n b now v empty x = elim (Option-cases (b.timeheap.index x)) [
  | inl out ↦ rw out refl
  | inr (i, here) ↦ absurd (ground (arith, v.heap.inverse x i here))
]

first_late :
    {Map : Type 0} (n : ℕ) (b : Base Map) (now : Timeval) (e x : ℕ)
    → IsBase n b
    → now.tv_usec < 2 ^ 64
    → (has b.timeheap x ≡ true → key (timeouts b) e ≤ key (timeouts b) x)
    → timer_gt (timeouts b e) now ≡ true
    → is_due b now x ≡ false
first_late n b now e x v word first late =
    let at_e = timer_gt-rank (timeouts b e) now (v.words e) word in
    let at_x = timer_gt-rank (timeouts b x) now (v.words x) word in
    ground (arith, at_e, at_x, first)

expired-timeout : (ev : Event) → (expired ev).ev_flags.timeout ≡ false
expired-timeout ev = ground arith

-- One event is expired, then the others.
one_due :
    {Map : Type 0} (evmap : Evmap Map) (n : ℕ) (b : Base Map) (now : Timeval) (e : ℕ)
    {b' : Base Map}
    → IsBase n b
    → has b.timeheap e ≡ true
    → timer_gt (timeouts b e) now ≡ false
    → Processed n (expire evmap b e) now b'
    → Processed n b now b'
one_due evmap n b now e {b'} v member late (v', done, none_due) = (
  v',
  (λ x. elim (ℕ_discrete x e) [ yes same ↦ rw same self | no other ↦ others x other ]),
  none_due,
)
  where
    step : IsBase n (expire evmap b e) × Sets b e (expired (b.event e)) (expire evmap b e)
    step = expire-Step evmap n b e member v

    self : b'.event e ≡ (if is_due b now e then expired (b.event e) else b.event e)
    self =
        let off : (flags_of (expire evmap b e) e).timeout ≡ false =
          ap (λ (ev : Event). ev.ev_flags.timeout) step.1.0 ∙ expired-timeout (b.event e) in
        let gone : is_due (expire evmap b e) now e ≡ false = ground (arith, step.0.in_heap e) in
        done e ∙ if_false _ _ _ gone ∙ step.1.0 ∙ sym (if_true (is_due b now e) _ _ (ground arith))

    others :
        (x : ℕ) → x ≢ e → b'.event x ≡ (if is_due b now x then expired (b.event x) else b.event x)
    others x ne =
        let same = step.1.1 x ne in
        done x
        ∙ ap₂ (λ d ev. if d then expired ev else ev)
            (due-same n b (expire evmap b e) now x v step.0 same step.1.2) same

timeout_loop-Processed :
    {Map : Type 0} (evmap : Evmap Map) (n fuel : ℕ) (b : Base Map) (now : Timeval)
    → now.tv_usec < 2 ^ 64
    → IsBase n b
    → b.timeheap.n ≤ fuel
    → Processed n b now (timeout_loop evmap fuel b now)
unfolding timeout_loop
timeout_loop-Processed evmap n zero b now word v enough =
    nothing_due n b now v (none_left n b now v (omega arith))
timeout_loop-Processed evmap n (suc fuel) b now word v enough =
    let (empty, least) = top-first (timeouts b) b.timeheap v.heap in
    elim (Option-cases (min_heap_top b.timeheap)) [
      | inl no_top ↦
          rw (no_top, timeout_loop) (nothing_due n b now v (λ x. rw (empty no_top x) refl))
      | inr (e, top) ↦
          let (member, first) = least e top in
          elim (Bool-cases (timer_gt (timeouts b e) now)) [
            | inl late ↦
                rw (top, late, timeout_loop)
                  (nothing_due n b now v (λ x. first_late n b now e x v word (first x) late))
            | inr due ↦
                rw (top, due, timeout_loop)
                  (one_due evmap n b now e v member due (
                    timeout_loop-Processed evmap n fuel (expire evmap b e) now word
                      (expire-Step evmap n b e member v).0
                      (omega (arith, expire-size evmap n b e v member))))
          ]
    ]

-- With `now` the time, and any base with the invariant, timeout_process deletes exactly the events
-- of the heap whose timeout is not after `now`, and makes them active with the result EV_TIMEOUT;
-- no other event changes. The loop ends with no event due in the heap, and keeps the invariant.
pub timeout_process-Processed :
    {Map : Type 0} (evmap : Evmap Map) (n : ℕ) (b : Base Map) (now : Timeval)
    → now.tv_usec < 2 ^ 64
    → IsBase n b
    → let b' = timeout_process evmap b now in
      IsBase n b'
      × ((x : ℕ) → b'.event x ≡ (if is_due b now x then expired (b.event x) else b.event x))
      × ((x : ℕ) → is_due b' now x ≡ false)
unfolding timeout_process min_heap_empty
timeout_process-Processed evmap n b now word v =
    let all = timeout_loop-Processed evmap n b.timeheap.n b now word v (omega arith) in
    elim (Bool-cases (0 == b.timeheap.n)) [
      | inr some_left ↦ rw some_left all
      | inl empty ↦ rw empty (nothing_due n b now v (none_left n b now v (ground arith)))
    ]
