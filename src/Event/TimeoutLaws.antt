-- ===== src/Event/TimeoutLaws.antt =====
-- The operations on the timeouts of event.c keep the invariant: the heap, and the lists of the
-- common timeouts.
use libevent_linux.Prelude.{
  ℕ, ◌+◌, ◌^◌, ◌<◌, ◌≡◌, refl, ap, Bool, true, false, Bool-cases, inl, inr, sym, ◌∙◌, arith,
}
use libevent_linux.Time.{IsWord}
use libevent_linux.MinHeap.Invariant.{IsHeap, IsWords}
use libevent_linux.MinHeap.Methods.{push-IsPlaced}
use libevent_linux.MinHeap.Remove.{erase-Removed}
use libevent_linux.Event.State.{Event, Base, put, timeouts}
use libevent_linux.Event.Queues.{event_queue_remove_timeout, event_queue_insert_timeout}
use libevent_linux.Event.Invariant.{
  count-remove, count-insert_common_timeout_inorder, total-same, entries, actives, flags_of,
  is_common, common_queue, IsBase, IsHeap-same,
}
use libevent_linux.Event.QueueLaws.{put-total, member_below}

-- A write to fields that no queue depends on: the timeout may change if the event waits for none.
pub put-IsBase :
    {Map : Type 0} {n : ℕ} (b : Base Map) (e : ℕ) (new : Event)
    → new.ev_flags ≡ flags_of b e
    → new.ev_pri ≡ (b.event e).ev_pri
    → ((flags_of b e).timeout ≡ true → new.ev_timeout ≡ timeouts b e)
    → IsWord new.ev_timeout
    → IsBase n b
    → IsBase n (put b e new)
put-IsBase {n} b e new same_flags same_pri same_timeout word v =
    let f : (x : ℕ) → flags_of (put b e new) x ≡ flags_of b x = λ x. ground (arith, same_flags) in
    let q : (x : ℕ) → ((put b e new).event x).ev_pri ≡ (b.event x).ev_pri =
      λ x. ground (arith, same_pri) in
    let t : (x : ℕ) → (flags_of b x).timeout ≡ true → timeouts (put b e new) x ≡ timeouts b x =
      λ x h. ground (arith, same_timeout) in
    record {
      heap =
          IsHeap-same (timeouts b) _ b.timeheap v.heap (λ x h. t x (ground (arith, v.in_heap x)));
      words = λ x. ground (arith, v.words x, word);
      in_heap = λ x. elim (Bool-cases (flags_of b x).timeout) [
        | inl on ↦ rw (f x, t x on) (v.in_heap x)
        | inr off ↦ rw (f x) (ground (arith, v.in_heap x))
      ];
      in_common = λ i x. elim (Bool-cases (flags_of b x).timeout) [
        | inl on ↦ rw (f x, t x on) (v.in_common i x)
        | inr off ↦ rw (f x) (ground (arith, v.in_common i x))
      ];
      in_active = λ p x. rw (f x, q x) (v.in_active p x);
      in_later = λ x. rw (f x) (v.in_later x);
      one_queue = λ x. rw (f x) (v.one_queue x);
      finalizing = λ x. rw (f x) (v.finalizing x);
      bound = λ x p. rw (f x) (v.bound x p);
      counted = v.counted ∙ total-same n _ _ (λ x p. ap entries (sym (f x)));
      counted_active = v.counted_active ∙ total-same n _ _ (λ x p. ap actives (sym (f x)));
    }

-- The base after EVLIST_TIMEOUT has been cleared, or set.
abbrev with_timeout : {Map : Type 0} → Base Map → ℕ → Bool → Event
with_timeout b e on = record (b.event e) { ev_flags = record (flags_of b e) { timeout = on } }

timeouts-with_timeout :
    {Map : Type 0} (b : Base Map) (e : ℕ) (on : Bool) (x : ℕ)
    → timeouts (put b e (with_timeout b e on)) x ≡ timeouts b x
timeouts-with_timeout b e on x = ground arith

remove_common-IsBase :
    {Map : Type 0} {n : ℕ} (b : Base Map) (e : ℕ)
    → IsBase n b
    → (flags_of b e).timeout ≡ true
    → is_common b e ≡ true
    → IsBase n (event_queue_remove_timeout b e)
unfolding event_queue_remove_timeout
remove_common-IsBase {n} b e v here common =
    let below = member_below b e v (ground arith) in
    let new = with_timeout b e false in
    rw (here, timeouts-with_timeout b e false e, common)
      record {
        heap = IsHeap-same (timeouts b) _ b.timeheap v.heap (λ x h. ground arith);
        words = λ x. ground (arith, v.words x);
        in_heap = λ x. ground (arith, v.in_heap x);
        in_common = λ i x. ground (arith, v.in_common i x, count-remove x e (common_queue b i));
        in_active = λ p x. ground (arith, v.in_active p x);
        in_later = λ x. ground (arith, v.in_later x);
        one_queue = λ x. ground (arith, v.one_queue x);
        finalizing = λ x. ground (arith, v.finalizing x);
        bound = λ x p. ground (arith, v.bound x);
        counted = ground (arith, v.counted, put-total n b e new entries below);
        counted_active = ground (arith, v.counted_active, put-total n b e new actives below);
      }

remove_plain-IsBase :
    {Map : Type 0} {n : ℕ} (b : Base Map) (e : ℕ)
    → IsBase n b
    → (flags_of b e).timeout ≡ true
    → is_common b e ≡ false
    → IsBase n (event_queue_remove_timeout b e)
unfolding event_queue_remove_timeout
remove_plain-IsBase {n} b e v here plain =
    let below = member_below b e v (ground arith) in
    let new = with_timeout b e false in
    let timeout = timeouts (put b e new) in
    let words : IsWords timeout = λ x. ground (arith, v.words x) in
    let heap : IsHeap timeout b.timeheap =
      IsHeap-same (timeouts b) _ b.timeheap v.heap (λ x h. ground arith) in
    let (done, kept, removed) = erase-Removed timeout b.timeheap e words heap in
    let (valid, size, members) = removed (done ∙ ground (arith, v.in_heap e)) in
    rw (here, timeouts-with_timeout b e false e, plain)
      record {
        heap = valid;
        words = λ x. ground (arith, v.words x);
        in_heap = λ x. ground (arith, v.in_heap x, members x);
        in_common = λ i x. ground (arith, v.in_common i x);
        in_active = λ p x. ground (arith, v.in_active p x);
        in_later = λ x. ground (arith, v.in_later x);
        one_queue = λ x. ground (arith, v.one_queue x);
        finalizing = λ x. ground (arith, v.finalizing x);
        bound = λ x p. ground (arith, v.bound x);
        counted = ground (arith, v.counted, put-total n b e new entries below);
        counted_active = ground (arith, v.counted_active, put-total n b e new actives below);
      }

pub remove_timeout-IsBase :
    {Map : Type 0} {n : ℕ} (b : Base Map) (e : ℕ)
    → IsBase n b
    → IsBase n (event_queue_remove_timeout b e)
remove_timeout-IsBase b e v = elim (Bool-cases (flags_of b e).timeout) [
  | inr out ↦ unfold event_queue_remove_timeout in rw out v
  | inl here ↦ elim (Bool-cases (is_common b e)) [
    | inl common ↦ remove_common-IsBase b e v here common
    | inr plain ↦ remove_plain-IsBase b e v here plain
  ]
]

insert_common-IsBase :
    {Map : Type 0} {n : ℕ} (b : Base Map) (e : ℕ) (memory : Bool)
    → e < n
    → IsBase n b
    → (flags_of b e).finalizing ≡ false
    → (flags_of b e).timeout ≡ false
    → is_common b e ≡ true
    → IsBase n (event_queue_insert_timeout b e memory)
unfolding event_queue_insert_timeout
insert_common-IsBase {n} b e memory below v live out common =
    let new = with_timeout b e true in
    let timeout = timeouts (put b e new) in
    rw (out, timeouts-with_timeout b e true e, common)
      record {
        heap = IsHeap-same (timeouts b) _ b.timeheap v.heap (λ x h. ground arith);
        words = λ x. ground (arith, v.words x);
        in_heap = λ x. ground (arith, v.in_heap x);
        in_common = λ i x. ground (
          arith,
          v.in_common i x,
          count-insert_common_timeout_inorder timeout x e (common_queue b i),
        );
        in_active = λ p x. ground (arith, v.in_active p x);
        in_later = λ x. ground (arith, v.in_later x);
        one_queue = λ x. ground (arith, v.one_queue x);
        finalizing = λ x. ground (arith, v.finalizing x, live);
        bound = λ x p. ground (arith, v.bound x);
        counted = ground (arith, v.counted, put-total n b e new entries below);
        counted_active = ground (arith, v.counted_active, put-total n b e new actives below);
      }

insert_plain-IsBase :
    {Map : Type 0} {n : ℕ} (b : Base Map) (e : ℕ)
    → e < n
    → IsBase n b
    → (flags_of b e).finalizing ≡ false
    → b.timeheap.n + 1 < 2 ^ 31
    → (flags_of b e).timeout ≡ false
    → is_common b e ≡ false
    → IsBase n (event_queue_insert_timeout b e true)
unfolding event_queue_insert_timeout
insert_plain-IsBase {n} b e below v live small out plain =
    let new = with_timeout b e true in
    let timeout = timeouts (put b e new) in
    let words : IsWords timeout = λ x. ground (arith, v.words x) in
    let heap : IsHeap timeout b.timeheap =
      IsHeap-same (timeouts b) _ b.timeheap v.heap (λ x h. ground arith) in
    let (given, kept, pushed) =
      push-IsPlaced timeout b.timeheap e true words heap small (ground (arith, v.in_heap e)) in
    let (valid, size, members) = pushed (given refl) in
    rw (out, timeouts-with_timeout b e true e, plain)
      record {
        heap = valid;
        words = λ x. ground (arith, v.words x);
        in_heap = λ x. ground (arith, v.in_heap x, members x);
        in_common = λ i x. ground (arith, v.in_common i x);
        in_active = λ p x. ground (arith, v.in_active p x);
        in_later = λ x. ground (arith, v.in_later x);
        one_queue = λ x. ground (arith, v.one_queue x);
        finalizing = λ x. ground (arith, v.finalizing x, live);
        bound = λ x p. ground (arith, v.bound x);
        counted = ground (arith, v.counted, put-total n b e new entries below);
        counted_active = ground (arith, v.counted_active, put-total n b e new actives below);
      }

pub insert_timeout-IsBase :
    {Map : Type 0} {n : ℕ} (b : Base Map) (e : ℕ)
    → e < n
    → IsBase n b
    → (flags_of b e).finalizing ≡ false
    → b.timeheap.n + 1 < 2 ^ 31
    → IsBase n (event_queue_insert_timeout b e true)
insert_timeout-IsBase b e below v live small = elim (Bool-cases (flags_of b e).timeout) [
  | inl here ↦ unfold event_queue_insert_timeout in rw here v
  | inr out ↦ elim (Bool-cases (is_common b e)) [
    | inl common ↦ insert_common-IsBase b e true below v live out common
    | inr plain ↦ insert_plain-IsBase b e below v live small out plain
  ]
]
