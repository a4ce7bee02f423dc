-- ===== src/Event/QueueLaws.antt =====
-- The operations on the queues of event.c keep the invariant.
use libevent_linux.Prelude.{
  ℕ, ◌+◌, ◌<◌, ◌≡◌, true, false, ◌||◌, [], ◌∷◌, Bool-cases, inl, inr, arith,
}
use libevent_linux.Event.State.{Flags, Event, Base, put, timeouts}
use libevent_linux.Event.Queues.{
  event_queue_remove_active, event_queue_insert_active, event_queue_remove_active_later,
  event_queue_insert_active_later, event_queue_remove_inserted, event_queue_insert_inserted,
}
use libevent_linux.Event.Invariant.{
  count-append, count-remove, total, total-change, entries, actives, flags_of, IsBase, IsHeap-same,
}

-- The sums after the fields of one callback have changed.
pub put-total :
    {Map : Type 0} (n : ℕ) (b : Base Map) (e : ℕ) (new : Event) (f : Flags → ℕ)
    → e < n
    → total n (λ x. f (flags_of (put b e new) x)) + f (flags_of b e)
      ≡ total n (λ x. f (flags_of b x)) + f new.ev_flags
put-total n b e new f below =
    let change =
      total-change n (λ x. f (flags_of (put b e new) x)) (λ x. f (flags_of b x)) e below
        (λ x ne. ground arith) in
    ground (arith, change)

pub member_below :
    {Map : Type 0} {n : ℕ} (b : Base Map) (e : ℕ)
    → IsBase n b
    → ((flags_of b e).timeout
        || (flags_of b e).inserted
        || (flags_of b e).active
        || (flags_of b e).active_later)
      ≡ true
    → e < n
member_below b e v h = ground (arith, v.bound e)

pub remove_active-IsBase :
    {Map : Type 0} {n : ℕ} (b : Base Map) (e : ℕ)
    → IsBase n b
    → IsBase n (event_queue_remove_active b e)
unfolding event_queue_remove_active
remove_active-IsBase {n} b e v = elim (Bool-cases ((flags_of b e).active)) [
  | inr out ↦ rw out v
  | inl here ↦
      let below = member_below b e v (ground arith) in
      let new = record (b.event e) { ev_flags = record (flags_of b e) { active = false } } in
      rw here record {
        heap = IsHeap-same (timeouts b) _ b.timeheap v.heap (λ x h. ground arith);
        words = λ x. ground (arith, v.words x);
        in_heap = λ x. ground (arith, v.in_heap x);
        in_common = λ i x. ground (arith, v.in_common i x);
        in_active = λ p x. ground (arith, v.in_active p x, count-remove x e (b.activequeues p));
        in_later = λ x. ground (arith, v.in_later x);
        one_queue = λ x. ground (arith, v.one_queue x);
        finalizing = λ x. ground (arith, v.finalizing x);
        bound = λ x p. ground (arith, v.bound x);
        counted = ground (arith, v.counted, put-total n b e new entries below);
        counted_active = ground (arith, v.counted_active, put-total n b e new actives below);
      }
]

pub remove_active_later-IsBase :
    {Map : Type 0} {n : ℕ} (b : Base Map) (e : ℕ)
    → IsBase n b
    → IsBase n (event_queue_remove_active_later b e)
unfolding event_queue_remove_active_later
remove_active_later-IsBase {n} b e v = elim (Bool-cases ((flags_of b e).active_later)) [
  | inr out ↦ rw out v
  | inl here ↦
      let below = member_below b e v (ground arith) in
      let new = record (b.event e) { ev_flags = record (flags_of b e) { active_later = false } } in
      rw here record {
        heap = IsHeap-same (timeouts b) _ b.timeheap v.heap (λ x h. ground arith);
        words = λ x. ground (arith, v.words x);
        in_heap = λ x. ground (arith, v.in_heap x);
        in_common = λ i x. ground (arith, v.in_common i x);
        in_active = λ p x. ground (arith, v.in_active p x);
        in_later = λ x. ground (arith, v.in_later x, count-remove x e b.active_later_queue);
        one_queue = λ x. ground (arith, v.one_queue x);
        finalizing = λ x. ground (arith, v.finalizing x);
        bound = λ x p. ground (arith, v.bound x);
        counted = ground (arith, v.counted, put-total n b e new entries below);
        counted_active = ground (arith, v.counted_active, put-total n b e new actives below);
      }
]

pub remove_inserted-IsBase :
    {Map : Type 0} {n : ℕ} (b : Base Map) (e : ℕ)
    → IsBase n b
    → IsBase n (event_queue_remove_inserted b e)
unfolding event_queue_remove_inserted
remove_inserted-IsBase {n} b e v = elim (Bool-cases ((flags_of b e).inserted)) [
  | inr out ↦ rw out v
  | inl here ↦
      let below = member_below b e v (ground arith) in
      let new = record (b.event e) { ev_flags = record (flags_of b e) { inserted = false } } in
      rw here record {
        heap = IsHeap-same (timeouts b) _ b.timeheap v.heap (λ x h. ground arith);
        words = λ x. ground (arith, v.words x);
        in_heap = λ x. ground (arith, v.in_heap x);
        in_common = λ i x. ground (arith, v.in_common i x);
        in_active = λ p x. ground (arith, v.in_active p x);
        in_later = λ x. ground (arith, v.in_later x);
        one_queue = λ x. ground (arith, v.one_queue x);
        finalizing = λ x. ground (arith, v.finalizing x);
        bound = λ x p. ground (arith, v.bound x);
        counted = ground (arith, v.counted, put-total n b e new entries below);
        counted_active = ground (arith, v.counted_active, put-total n b e new actives below);
      }
]

pub insert_active-IsBase :
    {Map : Type 0} {n : ℕ} (b : Base Map) (e : ℕ)
    → e < n
    → (flags_of b e).active_later ≡ false
    → IsBase n b
    → IsBase n (event_queue_insert_active b e)
unfolding event_queue_insert_active
insert_active-IsBase {n} b e below idle v = elim (Bool-cases ((flags_of b e).active)) [
  | inl out ↦ rw out v
  | inr here ↦
      let new = record (b.event e) { ev_flags = record (flags_of b e) { active = true } } in
      rw here record {
        heap = IsHeap-same (timeouts b) _ b.timeheap v.heap (λ x h. ground arith);
        words = λ x. ground (arith, v.words x);
        in_heap = λ x. ground (arith, v.in_heap x);
        in_common = λ i x. ground (arith, v.in_common i x);
        in_active =
            λ p x. ground (arith, v.in_active p x, count-append x (b.activequeues p) (e ∷ []));
        in_later = λ x. ground (arith, v.in_later x);
        one_queue = λ x. ground (arith, v.one_queue x, idle);
        finalizing = λ x. ground (arith, v.finalizing x);
        bound = λ x p. ground (arith, v.bound x);
        counted = ground (arith, v.counted, put-total n b e new entries below);
        counted_active = ground (arith, v.counted_active, put-total n b e new actives below);
      }
]

pub insert_active_later-IsBase :
    {Map : Type 0} {n : ℕ} (b : Base Map) (e : ℕ)
    → e < n
    → IsBase n b
    → IsBase n (event_queue_insert_active_later b e)
unfolding event_queue_insert_active_later
insert_active_later-IsBase {n} b e below v =
    elim (Bool-cases ((flags_of b e).active_later || (flags_of b e).active)) [
      | inl out ↦ rw out v
      | inr here ↦
          let new = record (b.event e) {
            ev_flags = record (flags_of b e) { active_later = true };
          } in
          rw here record {
            heap = IsHeap-same (timeouts b) _ b.timeheap v.heap (λ x h. ground arith);
            words = λ x. ground (arith, v.words x);
            in_heap = λ x. ground (arith, v.in_heap x);
            in_common = λ i x. ground (arith, v.in_common i x);
            in_active = λ p x. ground (arith, v.in_active p x);
            in_later =
                λ x. ground (arith, v.in_later x, count-append x b.active_later_queue (e ∷ []));
            one_queue = λ x. ground (arith, v.one_queue x);
            finalizing = λ x. ground (arith, v.finalizing x);
            bound = λ x p. ground (arith, v.bound x);
            counted = ground (arith, v.counted, put-total n b e new entries below);
            counted_active = ground (arith, v.counted_active, put-total n b e new actives below);
          }
    ]

pub insert_inserted-IsBase :
    {Map : Type 0} {n : ℕ} (b : Base Map) (e : ℕ)
    → e < n
    → IsBase n b
    → IsBase n (event_queue_insert_inserted b e)
unfolding event_queue_insert_inserted
insert_inserted-IsBase {n} b e below v = elim (Bool-cases ((flags_of b e).inserted)) [
  | inl out ↦ rw out v
  | inr here ↦
      let new = record (b.event e) { ev_flags = record (flags_of b e) { inserted = true } } in
      rw here record {
        heap = IsHeap-same (timeouts b) _ b.timeheap v.heap (λ x h. ground arith);
        words = λ x. ground (arith, v.words x);
        in_heap = λ x. ground (arith, v.in_heap x);
        in_common = λ i x. ground (arith, v.in_common i x);
        in_active = λ p x. ground (arith, v.in_active p x);
        in_later = λ x. ground (arith, v.in_later x);
        one_queue = λ x. ground (arith, v.one_queue x);
        finalizing = λ x. ground (arith, v.finalizing x);
        bound = λ x p. ground (arith, v.bound x);
        counted = ground (arith, v.counted, put-total n b e new entries below);
        counted_active = ground (arith, v.counted_active, put-total n b e new actives below);
      }
]
