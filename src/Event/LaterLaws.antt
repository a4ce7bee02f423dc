-- ===== src/Event/LaterLaws.antt =====
-- event_queue_make_later_events_active of event.c.
use libevent_linux.Prelude.{
  ℕ, ◌+◌, ◌<◌, ◌≡◌, refl, ap, ap₂, sym, ◌∙◌, true, false, List, [], ◌∷◌, ◌++◌, ◌==◌, if◌then◌else◌,
  if_true, if_false, arith,
}
use native.Mathlib.Decide.{ℕ_discrete}
use mathlib.Core.List.{append_assoc, append-nil}
use libevent_linux.Event.State.{Event, Base, timeouts}
use libevent_linux.Event.Queues.{
  make_later_active, make_later_loop, event_queue_make_later_events_active,
}
use libevent_linux.Event.Invariant.{
  flags_of, IsBase, IsHeap-same, count, count-append, entries, actives, bit,
}
use libevent_linux.Event.QueueLaws.{put-total}
use libevent_linux.Event.Effects.{put-Sets, with_flags}
use libevent_linux.Event.ActiveLaws.{in_active_queue}

-- The first callback of the queue.
first_later :
    {Map : Type 0} {n : ℕ} (b : Base Map) (e : ℕ) (rest : List ℕ)
    → IsBase n b
    → b.active_later_queue ≡ e ∷ rest
    → ((flags_of b e).active_later ≡ true)
      × ((flags_of b e).active ≡ false)
      × (e < n)
      × ((x : ℕ) → (if x == e then 1 else 0) + count x rest ≡ bit (flags_of b x).active_later)
first_later b e rest v first =
    let queue : (x : ℕ) → count x (e ∷ rest) ≡ bit (flags_of b x).active_later =
      λ x. ap (count x) (sym first) ∙ v.in_later x in
    (
      ground (arith, queue e),
      ground (arith, queue e, v.one_queue e),
      ground (arith, queue e, v.bound e),
      λ x. ground (arith, queue x),
    )

make_later_active-IsBase :
    {Map : Type 0} {n : ℕ} (b : Base Map) (e : ℕ) (rest : List ℕ)
    → IsBase n b
    → b.active_later_queue ≡ e ∷ rest
    → IsBase n (make_later_active b e rest)
make_later_active-IsBase {n} b e rest v first =
    let (later, idle, below, queue) = first_later b e rest v first in
    let new = with_flags b e (record (flags_of b e) { active_later = false; active = true }) in
    record {
      heap = IsHeap-same (timeouts b) _ b.timeheap v.heap (λ x h. ground arith);
      words = λ x. ground (arith, v.words x);
      in_heap = λ x. ground (arith, v.in_heap x);
      in_common = λ i x. ground (arith, v.in_common i x);
      in_active =
          λ p x. ground (arith, v.in_active p x, count-append x (b.activequeues p) (e ∷ []), idle);
      in_later = λ x. ground (arith, queue x);
      one_queue = λ x. ground (arith, v.one_queue x);
      finalizing = λ x. ground (arith, v.finalizing x);
      bound = λ x p. ground (arith, v.bound x);
      counted = ground (arith, v.counted, put-total n b e new entries below, later, idle);
      counted_active =
          ground (arith, v.counted_active, put-total n b e new actives below, later, idle);
    }

-- A callback after the queue for later has been emptied.
abbrev pub activated_later : Event → Event
activated_later ev =
    if ev.ev_flags.active_later then record ev { ev_flags = in_active_queue ev.ev_flags } else ev

-- The callbacks of one priority, in their order.
abbrev pub of_priority : {Map : Type 0} → Base Map → ℕ → List ℕ → List ℕ
of_priority b p [] = []
of_priority b p (e ∷ l) =
    if (b.event e).ev_pri == p then e ∷ of_priority b p l else of_priority b p l

abbrev pub Moved : {Map : Type 0} → ℕ → Base Map → List ℕ → Base Map → Type 0
Moved n b l b' =
    IsBase n b'
    × (b'.active_later_queue ≡ [])
    × ((x : ℕ) → b'.event x ≡ activated_later (b.event x))
    × ((p : ℕ) → b'.activequeues p ≡ b.activequeues p ++ of_priority b p l)

of_priority-same :
    {Map : Type 0} (b b' : Base Map) (p : ℕ) (l : List ℕ)
    → ((x : ℕ) → (b'.event x).ev_pri ≡ (b.event x).ev_pri)
    → of_priority b' p l ≡ of_priority b p l
of_priority-same b b' p [] h = refl
of_priority-same b b' p (e ∷ l) h =
    ap₂ (λ pri rest. if pri == p then e ∷ rest else rest) (h e) (of_priority-same b b' p l h)

make_later_loop-Moved :
    {Map : Type 0} (n : ℕ) (b : Base Map) (l : List ℕ)
    → IsBase n b
    → b.active_later_queue ≡ l
    → Moved n b l (make_later_loop b l)
make_later_loop-Moved n b [] v empty = (
  v,
  empty,
  (λ x.
      let off : (flags_of b x).active_later ≡ false =
        ground (arith, sym (ap (count x) empty) ∙ v.in_later x) in
      sym (if_false _ _ _ off)),
  λ p. sym (append-nil (b.activequeues p)),
)
make_later_loop-Moved n b (e ∷ rest) v first =
    let b1 = make_later_active b e rest in
    let v1 = make_later_active-IsBase b e rest v first in
    let (v', empty, event, queue) = make_later_loop-Moved n b1 rest v1 refl in
    let (later, idle, below, count_rest) = first_later b e rest v first in
    let new = with_flags b e (record (flags_of b e) { active_later = false; active = true }) in
    let (self, others, frame) = put-Sets b e new in
    let moved : (x : ℕ) → activated_later (b1.event x) ≡ activated_later (b.event x) = λ x.
      elim (ℕ_discrete x e) [
        | yes same ↦ rw same (ap activated_later self ∙ sym (if_true _ _ _ later))
        | no other ↦ ap activated_later (others x other)
      ] in
    let pri : (x : ℕ) → (b1.event x).ev_pri ≡ (b.event x).ev_pri = λ x. ground arith in
    (
      v',
      empty,
      (λ x. event x ∙ moved x),
      λ p.
          queue p
          ∙ (rw (of_priority-same b b1 p rest pri) (elim (ℕ_discrete (b.event e).ev_pri p) [
            | yes here ↦
                let same : ((b.event e).ev_pri == p) ≡ true = ground arith in
                rw same (
                  append_assoc (b.activequeues (b.event e).ev_pri) (e ∷ []) (of_priority b p rest)
                  ∙ ap (λ q. b.activequeues q ++ e ∷ of_priority b p rest) here)
            | no elsewhere ↦
                let other : ((b.event e).ev_pri == p) ≡ false = ground arith in rw other refl
          ])),
    )

-- event_queue_make_later_events_active keeps the invariant: it empties the queue for later, makes
-- all its callbacks active, and puts them at the ends of the active queues of their priorities, in
-- their order; no other callback changes.
pub make_later_events_active-IsBase :
    {Map : Type 0} (n : ℕ) (b : Base Map)
    → IsBase n b
    → let b' = event_queue_make_later_events_active b in
      IsBase n b'
      × (b'.active_later_queue ≡ [])
      × ((x : ℕ) → b'.event x ≡ activated_later (b.event x))
      × ((p : ℕ) → b'.activequeues p ≡ b.activequeues p ++ of_priority b p b.active_later_queue)
unfolding event_queue_make_later_events_active
make_later_events_active-IsBase n b v = make_later_loop-Moved n b b.active_later_queue v refl
