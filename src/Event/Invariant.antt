-- ===== src/Event/Invariant.antt =====
-- The invariant of the event base of event.c: each queue holds the callbacks that have its flag,
-- once, and the counters count them.
use libevent_linux.Prelude.{
  ℕ, zero, suc, ◌+◌, ◌-◌, ◌≤◌, ◌<◌, ◌≡◌, ◌≢◌, refl, ap, Bool, true, false, not, ◌&&◌, List, [], ◌∷◌,
  ◌++◌, ◌==◌, if◌then◌else◌, some, Option-cases, inl, inr, sym, arith,
}
use native.Mathlib.Decide.{ℕ_discrete}
use libevent_linux.Time.{Timeval, rank}
use libevent_linux.MinHeap.{Heap, at, parent}
use libevent_linux.MinHeap.Invariant.{IsHeap, IsWords, has, key}
use libevent_linux.Event.State.{Flags, Base, timeouts, is_common_timeout, common_timeout_idx}
use libevent_linux.Event.Queues.{remove, insert_after_last, insert_common_timeout_inorder}

abbrev pub count : ℕ → List ℕ → ℕ
count x [] = 0
count x (y ∷ l) = if x == y then suc (count x l) else count x l

pub count-append : (x : ℕ) (l m : List ℕ) → count x (l ++ m) ≡ count x l + count x m
count-append x [] m = omega arith
count-append x (y ∷ l) m = ground (arith, count-append x l m)

pub count-remove :
    (x e : ℕ) (l : List ℕ) → count x (remove e l) ≡ count x l - (if x == e then 1 else 0)
count-remove x e [] = ground arith
count-remove x e (y ∷ l) = ground (arith, count-remove x e l)

count-insert_after_last :
    (timeout : ℕ → Timeval) (x e : ℕ) (l : List ℕ)
    → (m : List ℕ) → insert_after_last timeout e l ≡ some m
    → count x m ≡ count x l + (if x == e then 1 else 0)
count-insert_after_last timeout x e [] m h = cc
count-insert_after_last timeout x e (y ∷ l) m h =
    elim (Option-cases (insert_after_last timeout e l)) [
      | inl out ↦ ground (arith, out)
      | inr (m', found) ↦ ground (arith, found, count-insert_after_last timeout x e l m')
    ]

pub count-insert_common_timeout_inorder :
    (timeout : ℕ → Timeval) (x e : ℕ) (l : List ℕ)
    → count x (insert_common_timeout_inorder timeout l e) ≡ count x l + (if x == e then 1 else 0)
unfolding insert_common_timeout_inorder
count-insert_common_timeout_inorder timeout x e l =
    elim (Option-cases (insert_after_last timeout e l)) [
      | inl out ↦ rw (out, insert_common_timeout_inorder) (ground arith)
      | inr (m, found) ↦
          rw (found, insert_common_timeout_inorder) (count-insert_after_last timeout x e l m found)
    ]

abbrev pub total : ℕ → (ℕ → ℕ) → ℕ
total zero f = 0
total (suc n) f = f n + total n f

pub total-same : (n : ℕ) (f g : ℕ → ℕ) → ((x : ℕ) → x < n → f x ≡ g x) → total n f ≡ total n g
total-same zero f g h = refl
total-same (suc n) f g h =
    omega (arith, h n (omega arith), total-same n f g (λ x p. h x (omega arith)))

-- Two sums that differ in one place.
pub total-change :
    (n : ℕ) (f g : ℕ → ℕ) (e : ℕ)
    → e < n
    → ((x : ℕ) → x ≢ e → f x ≡ g x)
    → total n f + g e ≡ total n g + f e
total-change zero f g e p h = absurd (omega arith)
total-change (suc n) f g e p h = elim (ℕ_discrete e n) [
  | yes last ↦
      let same = total-same n f g (λ x q. h x (omega arith)) in rw last (omega (arith, same))
  | no before ↦ omega (arith, h n (λ q. before (sym q)), total-change n f g e (omega arith) h)
]

abbrev pub bit : Bool → ℕ
bit b = if b then 1 else 0

-- How often a callback is counted.
abbrev pub entries : Flags → ℕ
entries flags =
    if flags.internal
    then 0
    else bit flags.timeout + bit flags.inserted + bit flags.active + bit flags.active_later

abbrev pub actives : Flags → ℕ
actives flags = bit flags.active + bit flags.active_later

abbrev pub flags_of : {Map : Type 0} → Base Map → ℕ → Flags
flags_of b x = (b.event x).ev_flags

abbrev pub is_common : {Map : Type 0} → Base Map → ℕ → Bool
is_common b x = is_common_timeout (timeouts b x) b.n_common_timeouts

abbrev pub common_queue : {Map : Type 0} → Base Map → ℕ → List ℕ
common_queue b i = (b.common_timeout_queues i).events

-- All callbacks are below `n`.
pub record IsBase {Map : Type 0} (n : ℕ) (b : Base Map) : Type 0 where
  pub heap : IsHeap (timeouts b) b.timeheap
  pub words : IsWords (timeouts b)
  pub in_heap : (x : ℕ) → has b.timeheap x ≡ ((flags_of b x).timeout && not (is_common b x))
  pub in_common :
      (i x : ℕ)
      → count x (common_queue b i)
        ≡ bit ((flags_of b x).timeout && (is_common b x && common_timeout_idx (timeouts b x) == i))
  pub in_active :
      (p x : ℕ)
      → count x (b.activequeues p) ≡ bit ((flags_of b x).active && (b.event x).ev_pri == p)
  pub in_later : (x : ℕ) → count x b.active_later_queue ≡ bit (flags_of b x).active_later
  pub one_queue : (x : ℕ) → ((flags_of b x).active && (flags_of b x).active_later) ≡ false
  pub finalizing : (x : ℕ) → ((flags_of b x).finalizing && (flags_of b x).timeout) ≡ false
  pub bound :
      (x : ℕ)
      → n ≤ x
      → ((flags_of b x).timeout ≡ false)
        × ((flags_of b x).inserted ≡ false)
        × ((flags_of b x).active ≡ false)
        × ((flags_of b x).active_later ≡ false)
  pub counted : b.event_count ≡ total n (λ x. entries (flags_of b x))
  pub counted_active : b.event_count_active ≡ total n (λ x. actives (flags_of b x))

-- The heap stays valid if the timeouts of its events stay.
pub IsHeap-same :
    (old new : ℕ → Timeval) (s : Heap)
    → IsHeap old s
    → ((x : ℕ) → has s x ≡ true → new x ≡ old x)
    → IsHeap new s
IsHeap-same old new s v h =
    let same : (i : ℕ) → i < s.n → key new (at s i) ≡ key old (at s i) =
      λ i p. ap rank (h (at s i) (ground (arith, v.indexed i))) in
    record {
      size = v.size;
      capacity = v.capacity;
      small = v.small;
      order = λ c p q. omega (arith, same c q, same (parent c) (omega arith), v.order c p q);
      indexed = v.indexed;
      inverse = v.inverse;
    }
