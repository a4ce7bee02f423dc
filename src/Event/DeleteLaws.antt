-- ===== src/Event/DeleteLaws.antt =====
-- event_del_nolock_ of event.c.
use libevent_linux.Prelude.{
  ℕ, ◌≡◌, ◌≢◌, refl, ap, ◌∙◌, Bool, false, not, ◌&&◌, ◌||◌, ◌==◌, if◌then◌else◌, Bool-cases, inl,
  inr, arith,
}
use libevent_linux.MinHeap.Invariant.{has}
use libevent_linux.Event.State.{Flags, Event, Base, Evmap, event_haveevents}
use libevent_linux.Event.Queues.{event_queue_remove_inserted}
use libevent_linux.Event.Delete.{
  abort_loop, del_timeout, del_active, del_inserted, evmap_del, result, asks_notify, is_success,
  event_del_nolock,
}
use libevent_linux.Event.Invariant.{flags_of, common_queue, count, IsBase}
use libevent_linux.Event.QueueLaws.{
  remove_active-IsBase, remove_active_later-IsBase, remove_inserted-IsBase,
}
use libevent_linux.Event.TimeoutLaws.{put-IsBase, remove_timeout-IsBase}
use libevent_linux.Event.Effects.{
  Sets, Sets-trans, put-Sets, with_flags, remove_active-Sets, remove_active_later-Sets,
  remove_inserted-Sets, remove_timeout-Sets, notify-event, io-IsBase, notify-IsBase,
}

-- From a base with the invariant, one callback gets new fields, and the invariant is kept.
abbrev pub Step : {Map : Type 0} → ℕ → Base Map → ℕ → Event → Base Map → Type 0
Step n b e new b' = IsBase n b → IsBase n b' × Sets b e new b'

pub Step-trans :
    {Map : Type 0} (n : ℕ) (b b' b'' : Base Map) (e : ℕ) (new new' : Event)
    → Step n b e new b'
    → Step n b' e new' b''
    → Step n b e new' b''
Step-trans n b b' b'' e new new' s t v =
    let (v', set) = s v in let (v'', set') = t v' in (v'', Sets-trans b b' b'' e new new' set set')

pub Step-refl : {Map : Type 0} (n : ℕ) (b : Base Map) (e : ℕ) → Step n b e (b.event e) b
Step-refl n b e v = (v, (refl, (λ x ne. refl), refl))

-- The event after abort_loop.
abbrev pub aborted : Event → Event
aborted ev =
    if ev.ev_events.signal && not (ev.ev_ncalls == 0) && ev.ev_pncalls
    then record ev { calls_left = 0 }
    else ev

pub abort_loop-Step :
    {Map : Type 0} (n : ℕ) (b : Base Map) (e : ℕ)
    → Step n b e (aborted (b.event e)) (abort_loop b e)
abort_loop-Step n b e v =
    let ev = b.event e in
    elim (Bool-cases (ev.ev_events.signal && not (ev.ev_ncalls == 0) && ev.ev_pncalls)) [
      | inr out ↦ rw out (Step-refl n b e v)
      | inl runs ↦ rw runs (
        put-IsBase b e (record ev { calls_left = 0 }) refl refl (λ h. refl) (v.words e) v,
        put-Sets b e (record ev { calls_left = 0 }),
      )
    ]

pub del_timeout-Step :
    {Map : Type 0} (n : ℕ) (b : Base Map) (e : ℕ)
    → Step n b e (with_flags b e (record (flags_of b e) { timeout = false })) (del_timeout b e)
del_timeout-Step n b e v = elim (Bool-cases (flags_of b e).timeout) [
  | inl here ↦ rw here (remove_timeout-IsBase b e v, remove_timeout-Sets b e)
  | inr out ↦ rw out (
    v,
    (
      (λ i. record (b.event e) { ev_flags = record (flags_of b e) { timeout = out i } }),
      (λ x ne. refl),
      refl,
    ),
  )
]

abbrev pub no_queue : Flags → Flags
no_queue flags = record flags { active = false; active_later = false }

pub del_active-Step :
    {Map : Type 0} (n : ℕ) (b : Base Map) (e : ℕ)
    → Step n b e (with_flags b e (no_queue (flags_of b e))) (del_active b e)
del_active-Step n b e v = elim (Bool-cases (flags_of b e).active) [
  | inl here ↦
      let (self, others, frame) = remove_active-Sets b e in
      let out : (flags_of b e).active_later ≡ false = ground (arith, v.one_queue e) in
      rw here (
        remove_active-IsBase b e v,
        (
          self ∙ (λ i. record (b.event e) {
            ev_flags = record (flags_of b e) { active = false; active_later = out i };
          }),
          others,
          frame,
        ),
      )
  | inr idle ↦ elim (Bool-cases (flags_of b e).active_later) [
    | inl here ↦
        let (self, others, frame) = remove_active_later-Sets b e in
        rw (idle, here)
          (
            remove_active_later-IsBase b e v,
            (
              self ∙ (λ i. record (b.event e) {
                ev_flags = record (flags_of b e) { active = idle i; active_later = false };
              }),
              others,
              frame,
            ),
          )
    | inr out ↦
        rw (idle, out)
          (
            v,
            (
              (λ i. record (b.event e) {
                ev_flags = record (flags_of b e) { active = idle i; active_later = out i };
              }),
              (λ x ne. refl),
              refl,
            ),
          )
  ]
]

pub del_inserted-Step :
    {Map : Type 0} (evmap : Evmap Map) (n : ℕ) (b : Base Map) (e : ℕ)
    → Step n b e
        (with_flags b e (record (flags_of b e) { inserted = false }))
        (del_inserted evmap b e).1
del_inserted-Step evmap n b e v = elim (Bool-cases (flags_of b e).inserted) [
  | inr out ↦ rw out (
    v,
    (
      (λ i. record (b.event e) { ev_flags = record (flags_of b e) { inserted = out i } }),
      (λ x ne. refl),
      refl,
    ),
  )
  | inl here ↦
      let (self, others, frame) = remove_inserted-Sets b e in
      let b' = event_queue_remove_inserted b e in
      let (answer, io) = evmap_del evmap b' e in
      let b'' = record b' { io = io } in
      let notify =
        is_success (result answer)
        && (asks_notify answer || (not (event_haveevents b'') && b''.event_count_active == 0)) in
      let same = notify-event b'' notify in
      rw here (
        notify-IsBase b'' notify (io-IsBase b' io (remove_inserted-IsBase b e v)),
        (ap (λ f. f e) same.0 ∙ self, (λ x ne. ap (λ f. f x) same.0 ∙ others x ne), same.1 ∙ frame),
      )
]

-- The event after event_del_nolock_.
abbrev pub deleted : Event → Event
deleted ev = record (aborted ev) {
  ev_flags = record ev.ev_flags {
    timeout = false;
    inserted = false;
    active = false;
    active_later = false;
  };
}

aborted-flags : (ev : Event) → (aborted ev).ev_flags ≡ ev.ev_flags
aborted-flags ev = ground arith

pub del-Step :
    {Map : Type 0} (evmap : Evmap Map) (n : ℕ) (b : Base Map) (e : ℕ) (even_if_finalizing : Bool)
    → (not even_if_finalizing && (flags_of b e).finalizing) ≡ false
    → Step n b e (deleted (b.event e)) (event_del_nolock evmap b e even_if_finalizing).1
unfolding event_del_nolock
del-Step evmap n b e even_if_finalizing goes v =
    let b1 = abort_loop b e in
    let b2 = del_timeout b1 e in
    let b3 = del_active b2 e in
    let (v1, s1) = abort_loop-Step n b e v in
    let (v2, s2) = del_timeout-Step n b1 e v1 in
    let (v3, s3) = del_active-Step n b2 e v2 in
    let (v4, s4) = del_inserted-Step evmap n b3 e v3 in
    let self : b3.event e ≡ record (aborted (b.event e)) {
      ev_flags = no_queue (record (aborted (b.event e)).ev_flags { timeout = false });
    } =
      s3.0
      ∙ ap (λ (ev : Event). record ev { ev_flags = no_queue ev.ev_flags })
          (s2.0
            ∙ ap (λ (ev : Event). record ev { ev_flags = record ev.ev_flags { timeout = false } })
                s1.0) in
    rw goes (
      v4,
      (
        s4.0
            ∙ ap (λ (ev : Event). record ev { ev_flags = record ev.ev_flags { inserted = false } })
                self
            ∙ (λ i. record (aborted (b.event e)) {
              ev_flags = record (aborted-flags (b.event e) i) {
                timeout = false;
                inserted = false;
                active = false;
                active_later = false;
              };
            }),
        (λ x ne. s4.1 x ne ∙ s3.1 x ne ∙ s2.1 x ne ∙ s1.1 x ne),
        s4.2 ∙ s3.2 ∙ s2.2 ∙ s1.2,
      ),
    )

-- After event_del_nolock_ no queue holds the event, unless it is being finalized and that was not
-- to be overridden; the invariant of the base is kept, and no other callback changes.
pub del-gone :
    {Map : Type 0} (evmap : Evmap Map) (n : ℕ) (b : Base Map) (e : ℕ) (even_if_finalizing : Bool)
    → IsBase n b
    → (not even_if_finalizing && (flags_of b e).finalizing) ≡ false
    → let b' = (event_del_nolock evmap b e even_if_finalizing).1 in
      IsBase n b'
      × (has b'.timeheap e ≡ false)
      × ((i : ℕ) → count e (common_queue b' i) ≡ 0)
      × ((p : ℕ) → count e (b'.activequeues p) ≡ 0)
      × (count e b'.active_later_queue ≡ 0)
      × ((flags_of b' e).inserted ≡ false)
      × ((x : ℕ) → x ≢ e → b'.event x ≡ b.event x)
del-gone evmap n b e even_if_finalizing v goes =
    let (v', (self, others, frame)) = del-Step evmap n b e even_if_finalizing goes v in
    let flags = ap (λ (ev : Event). ev.ev_flags) self in
    (
      v',
      v'.in_heap e ∙ rw flags refl,
      (λ i. v'.in_common i e ∙ rw flags refl),
      (λ p. v'.in_active p e ∙ rw flags refl),
      v'.in_later e ∙ rw flags refl,
      rw flags refl,
      others,
    )
