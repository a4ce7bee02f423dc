-- ===== src/Event/ActiveLaws.antt =====
-- event_callback_activate_nolock_ and event_active_nolock_ of event.c.
use mathlib.Core.Path.{subst}
use libevent_linux.Prelude.{
  ℕ, ◌<◌, ◌≡◌, ◌≢◌, refl, ap, ◌∙◌, true, false, ◌||◌, if◌then◌else◌, if_true, if_false, Bool-cases,
  inl, inr, arith,
}
use libevent_linux.Event.State.{Flags, Event, Events, Base, put, join, notify_if}
use libevent_linux.Event.Queues.{event_queue_insert_active, event_queue_remove_active_later}
use libevent_linux.Event.Active.{
  event_callback_activate_nolock, event_active_nolock, mark_active, marked,
}
use libevent_linux.Event.Invariant.{flags_of, IsBase}
use libevent_linux.Event.QueueLaws.{insert_active-IsBase, remove_active_later-IsBase}
use libevent_linux.Event.TimeoutLaws.{put-IsBase}
use libevent_linux.Event.Effects.{
  put-Sets, with_flags, insert_active-Sets, remove_active_later-Sets, notify-event, notify-IsBase,
}
use libevent_linux.Event.DeleteLaws.{Step, Step-refl}

abbrev pub in_active_queue : Flags → Flags
in_active_queue flags = record flags { active = true; active_later = false }

-- Queueing a callback that is in neither queue.
enqueue-Step :
    {Map : Type 0} (n : ℕ) (b : Base Map) (e : ℕ)
    → e < n
    → (flags_of b e).active_later ≡ false
    → Step n b e
        (with_flags b e (in_active_queue (flags_of b e)))
        (notify_if true (event_queue_insert_active b e))
enqueue-Step n b e below idle v =
    let b' = event_queue_insert_active b e in
    let (self, others, frame) = insert_active-Sets b e in
    let same = notify-event b' true in
    (
      notify-IsBase b' true (insert_active-IsBase b e below idle v),
      (
        ap (λ f. f e) same.0 ∙ self ∙ (λ i. record (b.event e) {
          ev_flags = record (flags_of b e) { active = true; active_later = idle i };
        }),
        (λ x ne. ap (λ f. f x) same.0 ∙ others x ne),
        same.1 ∙ frame,
      ),
    )

-- What event_callback_activate_nolock_ does to a callback.
abbrev pub activated : Flags → Flags
activated flags = if flags.finalizing || flags.active then flags else in_active_queue flags

pub activate-Step :
    {Map : Type 0} (n : ℕ) (b : Base Map) (e : ℕ)
    → e < n
    → Step n b e (with_flags b e (activated (flags_of b e))) (event_callback_activate_nolock b e).1
unfolding event_callback_activate_nolock
activate-Step n b e below v =
    let flags = flags_of b e in
    elim (Bool-cases (flags.finalizing || flags.active)) [
      | inl stays ↦
          let same : (event_callback_activate_nolock b e).1 ≡ b = ground (arith, v.one_queue e) in
          rw (same, stays) (Step-refl n b e v)
      | inr goes ↦ elim (Bool-cases flags.active_later) [
        | inl later ↦
            let b' = event_queue_remove_active_later b e in
            let same : (event_callback_activate_nolock b e).1
                ≡ notify_if true (event_queue_insert_active b' e) =
              ground arith in
            let removed = remove_active_later-Sets b e in
            let idle = ap (λ (ev : Event). ev.ev_flags.active_later) removed.0 in
            let step = enqueue-Step n b' e below idle (remove_active_later-IsBase b e v) in
            rw (same, goes)
              (
                step.0,
                (
                  step.1.0
                      ∙ ap (λ (ev : Event). record ev { ev_flags = in_active_queue ev.ev_flags })
                          removed.0,
                  (λ x ne. step.1.1 x ne ∙ removed.1 x ne),
                  step.1.2 ∙ removed.2,
                ),
              )
        | inr soon ↦
            let same : (event_callback_activate_nolock b e).1
                ≡ notify_if true (event_queue_insert_active b e) =
              ground arith in
            rw (same, goes) (enqueue-Step n b e below soon v)
      ]
    ]

-- What event_active_nolock_ does to an event: one that is finalized stays, and one that is active
-- gets more results; any other gets the results, those of a call before that queued it for later
-- kept, the number of calls if it is for a signal, and a place in the active queue.
abbrev pub activated_event : Event → Events → ℕ → Event
activated_event ev res ncalls =
    let flags = ev.ev_flags in
    let signal = ev.ev_events.signal in
    if flags.finalizing
    then ev
    else if flags.active
    then record ev { ev_res = join ev.ev_res res }
    else record ev {
      ev_flags = in_active_queue flags;
      ev_res = if flags.active_later then join ev.ev_res res else res;
      ev_ncalls = if signal then ncalls else ev.ev_ncalls;
      ev_pncalls = if signal then false else ev.ev_pncalls;
    }

-- The same by the steps of the code.
abbrev stepped_event : Event → Events → ℕ → Event
stepped_event ev res ncalls =
    if ev.ev_flags.finalizing
    then ev
    else if ev.ev_flags.active
    then record ev { ev_res = join ev.ev_res res }
    else record (marked ev res ncalls) { ev_flags = in_active_queue ev.ev_flags }

stepped-activated :
    (ev : Event) (res : Events) (ncalls : ℕ)
    → stepped_event ev res ncalls ≡ activated_event ev res ncalls
stepped-activated ev res ncalls = elim (Bool-cases ev.ev_events.signal) [
  | inl signal ↦ rw signal refl
  | inr other ↦ rw other refl
]

marked-flags :
    (ev : Event) (res : Events) (ncalls : ℕ) → (marked ev res ncalls).ev_flags ≡ ev.ev_flags
marked-flags ev res ncalls = ground arith

mark_active-Step :
    {Map : Type 0} (n : ℕ) (b : Base Map) (e : ℕ) (res : Events) (ncalls : ℕ)
    → Step n b e (marked (b.event e) res ncalls) (mark_active b e res ncalls)
mark_active-Step n b e res ncalls v =
    let new = marked (b.event e) res ncalls in
    let v' =
      put-IsBase b e new (ground arith) (ground arith) (λ h. ground arith)
        (ground (arith, v.words e)) v in
    (
      record {
        heap = v'.heap;
        words = v'.words;
        in_heap = v'.in_heap;
        in_common = v'.in_common;
        in_active = v'.in_active;
        in_later = v'.in_later;
        one_queue = v'.one_queue;
        finalizing = v'.finalizing;
        bound = v'.bound;
        counted = v'.counted;
        counted_active = v'.counted_active;
      },
      put-Sets b e new,
    )

event_active-steps :
    {Map : Type 0} (n : ℕ) (b : Base Map) (e : ℕ) (res : Events) (ncalls : ℕ)
    → e < n
    → Step n b e (stepped_event (b.event e) res ncalls) (event_active_nolock b e res ncalls)
unfolding event_active_nolock
event_active-steps n b e res ncalls below v =
    let ev = b.event e in
    elim (Bool-cases ev.ev_flags.finalizing) [
      | inl out ↦
          let same : event_active_nolock b e res ncalls ≡ b = if_true _ _ _ out in
          let new : stepped_event ev res ncalls ≡ ev = if_true _ _ _ out in
          rw (same, new) (Step-refl n b e v)
      | inr live ↦ elim (Bool-cases ev.ev_flags.active) [
        | inl here ↦
            let more = record ev { ev_res = join ev.ev_res res } in
            let same : event_active_nolock b e res ncalls ≡ put b e more =
              if_false _ _ _ live ∙ if_true _ _ _ here in
            let new : stepped_event ev res ncalls ≡ more =
              if_false _ _ _ live ∙ if_true _ _ _ here in
            rw (same, new)
              (put-IsBase b e more refl refl (λ h. refl) (v.words e) v, put-Sets b e more)
        | inr idle ↦
            let b' = mark_active b e res ncalls in
            let same : event_active_nolock b e res ncalls
                ≡ (event_callback_activate_nolock b' e).1 =
              if_false _ _ _ live ∙ if_false _ _ _ idle in
            let queued = record (marked ev res ncalls) { ev_flags = in_active_queue ev.ev_flags } in
            let new : stepped_event ev res ncalls ≡ queued =
              if_false _ _ _ live ∙ if_false _ _ _ idle in
            let (v', set) = mark_active-Step n b e res ncalls v in
            let (v'', set') = activate-Step n b' e below v' in
            let flags : activated (marked ev res ncalls).ev_flags ≡ in_active_queue ev.ev_flags =
              ap activated (marked-flags ev res ncalls)
              ∙ if_false (ev.ev_flags.finalizing || ev.ev_flags.active) _ _ (ground arith) in
            rw (same, new)
              (
                v'',
                (
                  set'.0
                      ∙ ap (λ (x : Event). record x { ev_flags = activated x.ev_flags }) set.0
                      ∙ (λ i. record (marked ev res ncalls) { ev_flags = flags i }),
                  (λ x ne. set'.1 x ne ∙ set.1 x ne),
                  set'.2 ∙ set.2,
                ),
              )
      ]
    ]

pub event_active-Step :
    {Map : Type 0} (n : ℕ) (b : Base Map) (e : ℕ) (res : Events) (ncalls : ℕ)
    → e < n
    → Step n b e (activated_event (b.event e) res ncalls) (event_active_nolock b e res ncalls)
event_active-Step n b e res ncalls below =
    subst (λ ev. Step n b e ev (event_active_nolock b e res ncalls))
      (stepped-activated (b.event e) res ncalls) (event_active-steps n b e res ncalls below)

-- event_active_nolock_ keeps the invariant and changes one event: one that is being finalized
-- stays, one that is active already gets more results, and any other is put in the active queue
-- of its priority, with the results given, to which those of an event that was in the queue for
-- later are added, and, if it is for a signal, with the number of calls given.
pub active-IsBase :
    {Map : Type 0} (n : ℕ) (b : Base Map) (e : ℕ) (res : Events) (ncalls : ℕ)
    → e < n
    → IsBase n b
    → let b' = event_active_nolock b e res ncalls in
      IsBase n b'
      × (b'.event e ≡ activated_event (b.event e) res ncalls)
      × ((x : ℕ) → x ≢ e → b'.event x ≡ b.event x)
active-IsBase n b e res ncalls below v =
    let (v', (self, others, frame)) = event_active-Step n b e res ncalls below v in
    (v', self, others)
