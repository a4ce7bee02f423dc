-- ===== src/MinHeap/Tests.antt =====
-- The operations of minheap-internal.h on a heap of two events.
use libevent_linux.Prelude.{
  ℕ, ◌+◌, ◌≡◌, ◌≤◌, ◌<◌, ◌^◌, ◌≢◌, refl, none, some, true, false, ◌==◌, if◌then◌else◌, arith,
}
use libevent_linux.Time.{Timeval, timer_gt}
use libevent_linux.MinHeap.{
  Heap, min_heap_ctor, min_heap_push, min_heap_top, min_heap_pop, min_heap_erase, min_heap_adjust,
  min_heap_elem_greater,
}
use libevent_linux.MinHeap.Invariant.{IsWords, IsHeap, key, has}
use libevent_linux.MinHeap.Methods.{top-first, push-IsPlaced}
use libevent_linux.MinHeap.Remove.{Removed, erase-Removed, adjust-IsHeap}

-- Event 3 is at 9 seconds, event 5 at 4 seconds, any other at 1.
abbrev deadline : ℕ → Timeval
deadline e = record { tv_sec = if e == 3 then 9 else if e == 5 then 4 else 1; tv_usec = 500 }

-- Event 5 is moved to 20 seconds.
abbrev later : ℕ → Timeval
later e = if e == 5 then record { tv_sec = 20; tv_usec = 0 } else deadline e

deadline-IsWords : IsWords deadline
deadline-IsWords e = omega arith

later-IsWords : IsWords later
later-IsWords e = ground arith

abbrev no_events : Heap
no_events = min_heap_ctor (λ e. none)

no_events-IsHeap : IsHeap deadline no_events
unfolding min_heap_ctor
no_events-IsHeap = record {
  size = omega arith;
  capacity = refl;
  small = omega arith;
  order = λ c p q. absurd (omega arith);
  indexed = λ i p. absurd (omega arith);
  inverse = λ x i p. cc;
}

abbrev one_event : Heap
one_event = (min_heap_push deadline no_events 3 true).1

abbrev two_events : Heap
two_events = (min_heap_push deadline one_event 5 true).1

five_first : min_heap_top two_events ≡ some 5
unfolding min_heap_ctor min_heap_push min_heap_top min_heap_elem_greater timer_gt
five_first = refl

popped : (min_heap_pop deadline two_events).0 ≡ some 5
unfolding min_heap_ctor min_heap_push min_heap_pop min_heap_elem_greater timer_gt
popped = refl

moved_back : min_heap_top (min_heap_adjust later two_events 5 false).1 ≡ some 3
unfolding min_heap_ctor min_heap_push min_heap_adjust min_heap_top min_heap_elem_greater timer_gt
moved_back = refl

push_deadline :
    (s : Heap) (e : ℕ)
    → IsHeap deadline s
    → s.n + 1 < 2 ^ 31
    → has s e ≡ false
    → let t = (min_heap_push deadline s e true).1 in
      IsHeap deadline t × (t.n ≡ s.n + 1) × ((x : ℕ) → has t x ≡ (if e == x then true else has s x))
push_deadline s e v small out =
    let (given, kept, done) = push-IsPlaced deadline s e true deadline-IsWords v small out in
    done (given refl)

one_event-IsHeap : IsHeap deadline one_event
unfolding min_heap_ctor
one_event-IsHeap = (push_deadline no_events 3 no_events-IsHeap (omega arith) refl).0

two_events-IsHeap : IsHeap deadline two_events
unfolding min_heap_ctor min_heap_push
two_events-IsHeap = (push_deadline one_event 5 one_event-IsHeap (omega arith) refl).0

two_events-has_five : has two_events 5 ≡ true
unfolding min_heap_ctor min_heap_push min_heap_elem_greater timer_gt
two_events-has_five = refl

one_event-lacks_five : has one_event 5 ≡ false
unfolding min_heap_ctor min_heap_push
one_event-lacks_five = refl

one_event-small : one_event.n + 1 < 2 ^ 31
unfolding min_heap_ctor min_heap_push
one_event-small = omega arith

top-first_example :
    ((min_heap_top two_events ≡ none) → (x : ℕ) → has two_events x ≡ false)
    × ((e : ℕ)
        → min_heap_top two_events ≡ some e
        → (has two_events e ≡ true)
          × ((x : ℕ) → has two_events x ≡ true → key deadline e ≤ key deadline x))
top-first_example = top-first deadline two_events two_events-IsHeap

push-IsPlaced_example :
    let (done, t) = min_heap_push deadline one_event 5 true in
    (true ≡ true → done ≡ true)
    × (done ≡ false → t ≡ one_event)
    × (done ≡ true
        → IsHeap deadline t
          × (t.n ≡ one_event.n + 1)
          × ((x : ℕ) → has t x ≡ (if 5 == x then true else has one_event x)))
push-IsPlaced_example =
    push-IsPlaced deadline one_event 5 true deadline-IsWords one_event-IsHeap one_event-small
      one_event-lacks_five

erase-Removed_example :
    let (done, t) = min_heap_erase deadline two_events 5 in
    (done ≡ has two_events 5)
    × (done ≡ false → t ≡ two_events)
    × (done ≡ true → Removed deadline two_events 5 t)
erase-Removed_example = erase-Removed deadline two_events 5 deadline-IsWords two_events-IsHeap

later_others : (x : ℕ) → x ≢ 5 → later x ≡ deadline x
later_others x ne = let no : (x == 5) ≡ false = ground arith in rw no refl

adjust-IsHeap_example :
    let (done, t) = min_heap_adjust later two_events 5 false in
    (done ≡ true) × IsHeap later t × (t.n ≡ two_events.n) × ((x : ℕ) → has t x ≡ has two_events x)
adjust-IsHeap_example =
    adjust-IsHeap deadline later two_events 5 false later-IsWords two_events-IsHeap
      two_events-has_five later_others
