-- ===== src/Event/Loop/Dequeue.antt =====
-- Taking a callback out of its active queue before it is run, in
-- event_process_active_single_queue of event.c.
use libevent_linux.Prelude.{
  ℕ, ◌≡◌, ◌≢◌, refl, ◌∙◌, true, false, not, ◌&&◌, ◌||◌, List, ◌∷◌, ◌==◌, if_elim, if_false, sym,
  arith,
}
use mathlib.Core.Path.{subst}
use libevent_linux.Event.State.{Base, Evmap}
use libevent_linux.Event.Queues.{event_queue_remove_active}
use libevent_linux.Event.Delete.{
  abort_loop, del_timeout, del_active, del_inserted, event_del_nolock,
}
use libevent_linux.Event.Loop.Program.{Program}
use libevent_linux.Event.Loop.Closures.{dequeue}
use libevent_linux.Event.Invariant.{flags_of, count, bit}
use libevent_linux.Event.Loop.Frames.{
  SameActive, SameActive-trans, abort_loop-SameActive, del_timeout-SameActive,
  del_inserted-SameActive,
}

-- The active queue of a priority is `l`, and holds the active callbacks of that priority, once.
abbrev pub Ready : {Map : Type 0} → ℕ → Base Map → List ℕ → Type 0
Ready p b l =
    (b.activequeues p ≡ l)
    × ((x : ℕ) → count x l ≡ bit ((flags_of b x).active && (b.event x).ev_pri == p))

pub SameActive-Ready :
    {Map : Type 0} {b b' : Base Map} (p : ℕ) (l : List ℕ)
    → SameActive b b'
    → Ready p b l
    → Ready p b' l
SameActive-Ready p l same (queue, members) =
    (same.queues p ∙ queue, λ x. ground (arith, same.active x, same.pri x, members x))

-- The callback is in no active queue any more, and the base is otherwise as it was for the loop.
pub record Dequeued {Map : Type 0} (e : ℕ) (b b' : Base Map) : Type 0 where
  pub out : (flags_of b' e).active ≡ false
  pub internal : (x : ℕ) → (flags_of b' x).internal ≡ (flags_of b x).internal
  pub closure : (x : ℕ) → (b'.event x).ev_closure ≡ (b.event x).ev_closure
  pub continue : b'.event_continue ≡ b.event_continue
  pub common : b'.n_common_timeouts ≡ b.n_common_timeouts
  pub others : (q : ℕ) → (b.event e).ev_pri ≢ q → b'.activequeues q ≡ b.activequeues q
  pub ready : (p : ℕ) (l : List ℕ) → Ready p b (e ∷ l) → Ready p b' l

remove_active-Ready :
    {Map : Type 0} (p : ℕ) (b : Base Map) (e : ℕ) (l : List ℕ)
    → Ready p b (e ∷ l)
    → Ready p (event_queue_remove_active b e) l
unfolding event_queue_remove_active
remove_active-Ready p b e l (queue, members) =
    let here : (flags_of b e).active ≡ true = ground (arith, members e) in
    let at : (b.event e).ev_pri ≡ p = ground (arith, members e) in
    rw (here, at, queue) (ground arith, λ x. ground (arith, members x, members e))

remove_active-fields :
    {Map : Type 0} (b : Base Map) (e : ℕ)
    → let b' = event_queue_remove_active b e in
      ((flags_of b' e).active ≡ false)
      × ((x : ℕ) → (flags_of b' x).internal ≡ (flags_of b x).internal)
      × ((x : ℕ) → (b'.event x).ev_closure ≡ (b.event x).ev_closure)
      × (b'.event_continue ≡ b.event_continue)
      × (b'.n_common_timeouts ≡ b.n_common_timeouts)
      × ((q : ℕ) → (b.event e).ev_pri ≢ q → b'.activequeues q ≡ b.activequeues q)
unfolding event_queue_remove_active
remove_active-fields b e = (
  ground arith,
  (λ x. ground arith),
  (λ x. ground arith),
  ground arith,
  ground arith,
  λ q ne. ground arith,
)

remove_active-Dequeued :
    {Map : Type 0} (b : Base Map) (e : ℕ) → Dequeued e b (event_queue_remove_active b e)
remove_active-Dequeued b e =
    let (out, internal, closure, continue, common, others) = remove_active-fields b e in
    record {
      out = out;
      internal = internal;
      closure = closure;
      continue = continue;
      common = common;
      others = others;
      ready = λ p l. remove_active-Ready p b e l;
    }

SameActive-Dequeued :
    {Map : Type 0} {b b' b'' : Base Map} (e : ℕ)
    → SameActive b b'
    → Dequeued e b' b''
    → Dequeued e b b''
SameActive-Dequeued e s d = record {
  out = d.out;
  internal = λ x. d.internal x ∙ s.internal x;
  closure = λ x. d.closure x ∙ s.closure x;
  continue = d.continue ∙ s.continue;
  common = d.common ∙ s.common;
  others = λ q ne. d.others q (λ h. ne (sym (s.pri e) ∙ h)) ∙ s.queues q;
  ready = λ p l r. d.ready p l (SameActive-Ready p (e ∷ l) s r);
}

Dequeued-SameActive :
    {Map : Type 0} {b b' b'' : Base Map} (e : ℕ)
    → Dequeued e b b'
    → SameActive b' b''
    → Dequeued e b b''
Dequeued-SameActive e d s = record {
  out = s.active e ∙ d.out;
  internal = λ x. s.internal x ∙ d.internal x;
  closure = λ x. s.closure x ∙ d.closure x;
  continue = s.continue ∙ d.continue;
  common = s.common ∙ d.common;
  others = λ q ne. s.queues q ∙ d.others q ne;
  ready = λ p l r. SameActive-Ready p l s (d.ready p l r);
}

del_active-active :
    {Map : Type 0} (b : Base Map) (e : ℕ)
    → (flags_of b e).active ≡ true
    → event_queue_remove_active b e ≡ del_active b e
del_active-active b e here = rw here refl

del-deletes :
    {Map : Type 0} (evmap : Evmap Map) (b : Base Map) (e : ℕ)
    → (flags_of b e).finalizing ≡ false
    → event_del_nolock evmap b e false
      ≡ del_inserted evmap (del_active (del_timeout (abort_loop b e) e) e) e
unfolding event_del_nolock
del-deletes evmap b e live = if_false _ _ _ live

del-Dequeued :
    {Map : Type 0} (evmap : Evmap Map) (b : Base Map) (e : ℕ)
    → (flags_of b e).active ≡ true
    → (flags_of b e).finalizing ≡ false
    → Dequeued e b (event_del_nolock evmap b e false).1
del-Dequeued evmap b e here live =
    let b1 = abort_loop b e in
    let b2 = del_timeout b1 e in
    let before : SameActive b b2 =
      SameActive-trans (abort_loop-SameActive b e) (del_timeout-SameActive b1 e) in
    let here' : (flags_of b2 e).active ≡ true = before.active e ∙ here in
    let removed : Dequeued e b2 (del_active b2 e) =
      subst (Dequeued e b2) (del_active-active b2 e here') (remove_active-Dequeued b2 e) in
    subst (λ r. Dequeued e b r.1) (sym (del-deletes evmap b e live))
      (Dequeued-SameActive e (SameActive-Dequeued e before removed)
        (del_inserted-SameActive evmap (del_active b2 e) e))

pub dequeue-Dequeued :
    {Map World : Type 0} (program : Program Map World) (b : Base Map) (e : ℕ)
    → (flags_of b e).active ≡ true
    → Dequeued e b (dequeue program b e)
unfolding dequeue
dequeue-Dequeued program b e here =
    let ev = b.event e in
    let deletes = ev.ev_flags.init && not (ev.ev_events.persist || ev.ev_flags.finalizing) in
    if_elim (Dequeued e b) deletes (λ h. del-Dequeued program.evmap b e here (ground (arith, h)))
      (λ _. remove_active-Dequeued b e)
