-- ===== src/MinHeap/Invariant.antt =====
-- The invariant of the heap of minheap-internal.h, and its form while an element is being placed.
use libevent_linux.Prelude.{
  ℕ, ◌^◌, ◌≤◌, ◌<◌, ◌≡◌, ◌≢◌, refl, Option, none, some, Bool, true, false, length, get_or-set,
  length-set, ltb, ◌==◌, if◌then◌else◌, arith,
}
use libevent_linux.Time.{Timeval, IsWord, rank, timer_gt-rank}
use libevent_linux.MinHeap.{Heap, at, parent, place, min_heap_elem_greater}

abbrev pub IsWords : (ℕ → Timeval) → Type 0
IsWords timeout = (e : ℕ) → IsWord (timeout e)

abbrev pub key : (ℕ → Timeval) → ℕ → ℕ
key timeout e = rank (timeout e)

pub greater-key :
    (timeout : ℕ → Timeval) (a b : ℕ)
    → IsWords timeout
    → min_heap_elem_greater timeout a b ≡ ltb (key timeout b) (key timeout a)
unfolding min_heap_elem_greater
greater-key timeout a b w = timer_gt-rank (timeout a) (timeout b) (w a) (w b)

-- No child is before its parent, the indexes of the events are their places, and the events that
-- are in no place have no index. The array is as long as its capacity says.
pub record IsHeap (timeout : ℕ → Timeval) (s : Heap) : Type 0 where
  pub size : s.n ≤ s.a
  pub capacity : length s.p ≡ s.a
  pub small : s.n < 2 ^ 31
  pub order : (c : ℕ) → 0 < c → c < s.n → key timeout (at s (parent c)) ≤ key timeout (at s c)
  pub indexed : (i : ℕ) → i < s.n → s.index (at s i) ≡ some i
  pub inverse : (x i : ℕ) → s.index x ≡ some i → (i < s.n) × (at s i ≡ x)

-- The same, but for the indexes of the events that are `gone`.
pub record IsHeapBut (timeout : ℕ → Timeval) (gone : ℕ → Bool) (s : Heap) : Type 0 where
  pub size : s.n ≤ s.a
  pub capacity : length s.p ≡ s.a
  pub small : s.n < 2 ^ 31
  pub order : (c : ℕ) → 0 < c → c < s.n → key timeout (at s (parent c)) ≤ key timeout (at s c)
  pub indexed : (i : ℕ) → i < s.n → s.index (at s i) ≡ some i
  pub inverse : (x i : ℕ) → gone x ≡ false → s.index x ≡ some i → (i < s.n) × (at s i ≡ x)
  pub absent : (i : ℕ) → i < s.n → gone (at s i) ≡ false

abbrev pub none_gone : ℕ → Bool
none_gone x = false

pub IsHeapBut-IsHeap :
    (timeout : ℕ → Timeval) {s : Heap} → IsHeapBut timeout none_gone s → IsHeap timeout s
IsHeapBut-IsHeap timeout v = record {
  size = v.size;
  capacity = v.capacity;
  small = v.small;
  order = v.order;
  indexed = v.indexed;
  inverse = λ x i h. v.inverse x i refl h;
}

abbrev pub is_some : Option ℕ → Bool
is_some none = false
is_some (some i) = true

-- The event is in the heap.
abbrev pub has : Heap → ℕ → Bool
has s x = is_some (s.index x)

-- `e` is to be placed, `hole` is the place that is free for it.
pub record HasHole (gone : ℕ → Bool) (s : Heap) (hole e : ℕ) : Type 0 where
  pub size : s.n ≤ s.a
  pub capacity : length s.p ≡ s.a
  pub small : s.n < 2 ^ 31
  pub inside : hole < s.n
  pub indexed : (i : ℕ) → i < s.n → i ≢ hole → s.index (at s i) ≡ some i
  pub inverse :
      (x i : ℕ)
      → gone x ≡ false
      → x ≢ e
      → s.index x ≡ some i
      → (i < s.n) × (i ≢ hole) × (at s i ≡ x)
  pub absent : (i : ℕ) → i < s.n → i ≢ hole → gone (at s i) ≡ false
  pub kept : gone e ≡ false
  pub fresh : (i : ℕ) → i < s.n → i ≢ hole → at s i ≢ e

-- The edges that do not touch the hole are in order, and so are those that pass over it.
pub record IsOrderedAround (timeout : ℕ → Timeval) (s : Heap) (hole : ℕ) : Type 0 where
  pub edges :
      (c : ℕ)
      → 0 < c
      → c < s.n
      → c ≢ hole
      → parent c ≢ hole
      → key timeout (at s (parent c)) ≤ key timeout (at s c)
  pub bridge :
      (c : ℕ)
      → c < s.n
      → parent c ≡ hole
      → 0 < hole
      → key timeout (at s (parent hole)) ≤ key timeout (at s c)

-- The events in `t` are those in `s` and `e`, and the size is that of `s`.
pub record IsPlaced (timeout : ℕ → Timeval) (gone : ℕ → Bool) (s : Heap) (e : ℕ) (t : Heap)
    : Type 0 where
  pub heap : IsHeapBut timeout gone t
  pub members : (x : ℕ) → has t x ≡ (if e == x then true else has s x)
  pub same_size : t.n ≡ s.n

pub at-place :
    (s : Heap) (hole e i : ℕ)
    → hole < s.n
    → s.n ≤ s.a
    → length s.p ≡ s.a
    → at (place s hole e) i ≡ (if hole == i then e else at s i)
at-place s hole e i h size cap = get_or-set s.p hole i e 0 (omega arith)

-- The hole is filled where that breaks no edge.
pub place-IsPlaced :
    (timeout : ℕ → Timeval) {gone : ℕ → Bool} (s : Heap) (hole e : ℕ)
    → HasHole gone s hole e
    → IsOrderedAround timeout s hole
    → (0 < hole → key timeout (at s (parent hole)) ≤ key timeout e)
    → ((c : ℕ) → 0 < c → c < s.n → parent c ≡ hole → key timeout e ≤ key timeout (at s c))
    → IsPlaced timeout gone s e (place s hole e)
place-IsPlaced timeout s hole e h o above below =
    let cell = λ (i : ℕ). at-place s hole e i h.inside h.size h.capacity in
    record {
      heap = record {
        size = h.size;
        capacity = omega (arith, length-set s.p hole e, h.capacity);
        small = h.small;
        order = λ c p q. ground (arith, cell c, cell (parent c), o.edges c, below c, above);
        indexed = λ i p. ground (arith, cell i, h.indexed i, h.fresh i);
        inverse = λ x i g q. ground (arith, cell i, h.inverse x i, h.inside);
        absent = λ i p. ground (arith, cell i, h.absent i, h.kept);
      };
      members = λ x. ground arith;
      same_size = refl;
    }

-- An element moves into the hole, and its own place becomes the hole.
pub place-HasHole :
    {gone : ℕ → Bool} (s : Heap) (hole from e : ℕ)
    → HasHole gone s hole e
    → from < s.n
    → from ≢ hole
    → HasHole gone (place s hole (at s from)) from e
place-HasHole s hole from e h inside ne =
    let x = at s from in
    let cell = λ (i : ℕ). at-place s hole x i h.inside h.size h.capacity in
    record {
      size = h.size;
      capacity = omega (arith, length-set s.p hole x, h.capacity);
      small = h.small;
      inside = inside;
      indexed = λ i p q. ground (arith, cell i, h.indexed i, h.indexed from, h.inside);
      inverse = λ y i g q r. ground (arith, cell i, h.inverse y i, h.indexed from, h.inside);
      absent = λ i p q. ground (arith, cell i, h.absent i, h.absent from);
      kept = h.kept;
      fresh = λ i p q. ground (arith, cell i, h.fresh i, h.fresh from);
    }

-- That keeps the events.
pub members-place :
    {gone : ℕ → Bool} (s : Heap) (hole from e x : ℕ)
    → HasHole gone s hole e
    → from < s.n
    → from ≢ hole
    → has (place s hole (at s from)) x ≡ has s x
members-place s hole from e x h inside ne = ground (arith, h.indexed from)
