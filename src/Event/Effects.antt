-- ===== src/Event/Effects.antt =====
-- What the operations on the queues of event.c do to the fields of the callbacks.
use libevent_linux.Prelude.{
  ℕ, ◌≡◌, ◌≢◌, refl, ◌∙◌, Bool, true, false, not, ◌&&◌, ◌==◌, Bool-cases, inl, inr, arith,
}
use libevent_linux.Event.State.{
  Flags, Event, Base, put, timeouts, is_common_timeout, notify_if, evthread_notify_base,
}
use libevent_linux.Event.Queues.{
  event_queue_remove_active, event_queue_remove_active_later, event_queue_remove_inserted,
  event_queue_remove_timeout, event_queue_insert_active, event_queue_insert_inserted,
  event_queue_insert_timeout,
}
use libevent_linux.Event.Invariant.{flags_of, IsBase}

-- One callback gets new fields, the others keep theirs, and no common timeout is added.
abbrev pub Sets : {Map : Type 0} → Base Map → ℕ → Event → Base Map → Type 0
Sets b e new b' =
    (b'.event e ≡ new)
    × ((x : ℕ) → x ≢ e → b'.event x ≡ b.event x)
    × (b'.n_common_timeouts ≡ b.n_common_timeouts)

pub Sets-trans :
    {Map : Type 0} (b b' b'' : Base Map) (e : ℕ) (new new' : Event)
    → Sets b e new b'
    → Sets b' e new' b''
    → Sets b e new' b''
Sets-trans b b' b'' e new new' s t = (t.0, (λ x ne. t.1 x ne ∙ s.1 x ne), t.2 ∙ s.2)

pub put-Sets : {Map : Type 0} (b : Base Map) (e : ℕ) (new : Event) → Sets b e new (put b e new)
put-Sets b e new =
    let same : (e == e) ≡ true = ground arith in
    (rw same refl, (λ x ne. let other : (e == x) ≡ false = ground arith in rw other refl), refl)

abbrev pub with_flags : {Map : Type 0} → Base Map → ℕ → Flags → Event
with_flags b e flags = record (b.event e) { ev_flags = flags }

pub remove_active-Sets :
    {Map : Type 0} (b : Base Map) (e : ℕ)
    → Sets b e
        (with_flags b e (record (flags_of b e) { active = false }))
        (event_queue_remove_active b e)
unfolding event_queue_remove_active
remove_active-Sets b e = elim (Bool-cases (flags_of b e).active) [
  | inr out ↦ rw out (
    (λ i. record (b.event e) { ev_flags = record (flags_of b e) { active = out i } }),
    (λ x ne. refl),
    refl,
  )
  | inl here ↦ rw here (put-Sets b e (with_flags b e (record (flags_of b e) { active = false })))
]

pub remove_active_later-Sets :
    {Map : Type 0} (b : Base Map) (e : ℕ)
    → Sets b e
        (with_flags b e (record (flags_of b e) { active_later = false }))
        (event_queue_remove_active_later b e)
unfolding event_queue_remove_active_later
remove_active_later-Sets b e = elim (Bool-cases (flags_of b e).active_later) [
  | inr out ↦ rw out (
    (λ i. record (b.event e) { ev_flags = record (flags_of b e) { active_later = out i } }),
    (λ x ne. refl),
    refl,
  )
  | inl here ↦
      rw here (put-Sets b e (with_flags b e (record (flags_of b e) { active_later = false })))
]

pub remove_inserted-Sets :
    {Map : Type 0} (b : Base Map) (e : ℕ)
    → Sets b e
        (with_flags b e (record (flags_of b e) { inserted = false }))
        (event_queue_remove_inserted b e)
unfolding event_queue_remove_inserted
remove_inserted-Sets b e = elim (Bool-cases (flags_of b e).inserted) [
  | inr out ↦ rw out (
    (λ i. record (b.event e) { ev_flags = record (flags_of b e) { inserted = out i } }),
    (λ x ne. refl),
    refl,
  )
  | inl here ↦ rw here (put-Sets b e (with_flags b e (record (flags_of b e) { inserted = false })))
]

pub insert_active-Sets :
    {Map : Type 0} (b : Base Map) (e : ℕ)
    → Sets b e
        (with_flags b e (record (flags_of b e) { active = true }))
        (event_queue_insert_active b e)
unfolding event_queue_insert_active
insert_active-Sets b e = elim (Bool-cases (flags_of b e).active) [
  | inl out ↦ rw out (
    (λ i. record (b.event e) { ev_flags = record (flags_of b e) { active = out i } }),
    (λ x ne. refl),
    refl,
  )
  | inr here ↦ rw here (put-Sets b e (with_flags b e (record (flags_of b e) { active = true })))
]

pub insert_inserted-Sets :
    {Map : Type 0} (b : Base Map) (e : ℕ)
    → Sets b e
        (with_flags b e (record (flags_of b e) { inserted = true }))
        (event_queue_insert_inserted b e)
unfolding event_queue_insert_inserted
insert_inserted-Sets b e = elim (Bool-cases (flags_of b e).inserted) [
  | inl out ↦ rw out (
    (λ i. record (b.event e) { ev_flags = record (flags_of b e) { inserted = out i } }),
    (λ x ne. refl),
    refl,
  )
  | inr here ↦ rw here (put-Sets b e (with_flags b e (record (flags_of b e) { inserted = true })))
]

pub remove_timeout-Sets :
    {Map : Type 0} (b : Base Map) (e : ℕ)
    → Sets b e
        (with_flags b e (record (flags_of b e) { timeout = false }))
        (event_queue_remove_timeout b e)
unfolding event_queue_remove_timeout
remove_timeout-Sets b e =
    let new = with_flags b e (record (flags_of b e) { timeout = false }) in
    elim (Bool-cases (flags_of b e).timeout) [
      | inr out ↦ rw out (
        (λ i. record (b.event e) { ev_flags = record (flags_of b e) { timeout = out i } }),
        (λ x ne. refl),
        refl,
      )
      | inl here ↦
          elim (Bool-cases (is_common_timeout (timeouts (put b e new) e) b.n_common_timeouts)) [
            | inl common ↦ rw (here, common) (put-Sets b e new)
            | inr plain ↦ rw (here, plain) (put-Sets b e new)
          ]
    ]

pub insert_timeout-Sets :
    {Map : Type 0} (b : Base Map) (e : ℕ) (memory : Bool)
    → Sets b e
        (with_flags b e (record (flags_of b e) { timeout = true }))
        (event_queue_insert_timeout b e memory)
unfolding event_queue_insert_timeout
insert_timeout-Sets b e memory =
    let new = with_flags b e (record (flags_of b e) { timeout = true }) in
    elim (Bool-cases (flags_of b e).timeout) [
      | inl out ↦ rw out (
        (λ i. record (b.event e) { ev_flags = record (flags_of b e) { timeout = out i } }),
        (λ x ne. refl),
        refl,
      )
      | inr here ↦
          elim (Bool-cases (is_common_timeout (timeouts (put b e new) e) b.n_common_timeouts)) [
            | inl common ↦ rw (here, common) (put-Sets b e new)
            | inr plain ↦ rw (here, plain) (put-Sets b e new)
          ]
    ]

-- Waking the loop concerns no callback and no queue.
pub notify-event :
    {Map : Type 0} (b : Base Map) (notify : Bool)
    → ((notify_if notify b).event ≡ b.event)
      × ((notify_if notify b).n_common_timeouts ≡ b.n_common_timeouts)
      × ((notify_if notify b).timeheap ≡ b.timeheap)
unfolding evthread_notify_base
notify-event b notify = ground arith

-- The map of evmap.c is no part of the invariant.
pub io-IsBase :
    {Map : Type 0} {n : ℕ} (b : Base Map) (io : Map) → IsBase n b → IsBase n (record b { io = io })
io-IsBase b io v = record {
  heap = v.heap;
  words = v.words;
  in_heap = v.in_heap;
  in_common = v.in_common;
  in_active = v.in_active;
  in_later = v.in_later;
  one_queue = v.one_queue;
  finalizing = v.finalizing;
  bound = v.bound;
  counted = v.counted;
  counted_active = v.counted_active;
}

pub notify-IsBase :
    {Map : Type 0} {n : ℕ} (b : Base Map) (notify : Bool)
    → IsBase n b
    → IsBase n (notify_if notify b)
unfolding evthread_notify_base
notify-IsBase b notify v = elim (Bool-cases (notify && b.need_notify)) [
  | inr out ↦ rw out v
  | inl on ↦ rw on (elim (Bool-cases (b.th_notify_fn && not b.is_notify_pending)) [
    | inr out ↦ rw out v
    | inl send ↦ rw send record {
      heap = v.heap;
      words = v.words;
      in_heap = v.in_heap;
      in_common = v.in_common;
      in_active = v.in_active;
      in_later = v.in_later;
      one_queue = v.one_queue;
      finalizing = v.finalizing;
      bound = v.bound;
      counted = v.counted;
      counted_active = v.counted_active;
    }
  ])
]
