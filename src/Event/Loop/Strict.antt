-- ===== src/Event/Loop/Strict.antt =====
-- event_process_active of event.c with callbacks that make no callback active and take none out.
use libevent_linux.Prelude.{
  ℕ, Option, zero, suc, ◌+◌, ◌^◌, ◌-◌, ◌<◌, ◌≤◌, ◌≡◌, ◌≢◌, refl, ap, sym, ◌∙◌, true, false, ◌&&◌,
  some, none, List, [], ◌∷◌, ◌++◌, length, ltb, leb, ◌==◌, if◌then◌else◌, if_false, arith,
}
use native.Mathlib.Decide.{ℕ_discrete}
use mathlib.Core.List.{append_assoc, append-nil}
use libevent_linux.Time.{Timeval}
use libevent_linux.Event.State.{Base, event_signal}
use libevent_linux.Event.Queues.{weight}
use libevent_linux.Event.Invariant.{IsBase, flags_of}
use libevent_linux.Event.Loop.Program.{Loop, Program, Processed, ran}
use libevent_linux.Event.Loop.Closures.{dequeue, run_callback}
use libevent_linux.Event.Loop.Process.{
  single_queue, priorities, event_process_active, set_running_priority,
}
use libevent_linux.Event.Loop.Dequeue.{Ready, SameActive-Ready, dequeue-Dequeued}
use libevent_linux.Event.Loop.Calm.{Calm, Logs, run_closure-Undisturbed, run_closure-seen}

-- The callbacks of a list, one after the other.
abbrev pub run_all :
    {Map World : Type 0} → Program Map World → Loop Map World → List ℕ → Loop Map World
run_all program s [] = s
run_all program s (e ∷ l) = run_all program (run_callback program s e) l

-- How many of a list are not internal.
abbrev pub externals : {Map : Type 0} → Base Map → List ℕ → ℕ
externals b [] = 0
externals b (e ∷ l) = weight (flags_of b e) + externals b l

-- None of a list is the callback of a signal.
abbrev pub NoSignals : {Map : Type 0} → Base Map → List ℕ → Type 0
NoSignals b [] = Unit {0}
NoSignals b (e ∷ l) = ((b.event e).ev_closure ≢ event_signal) × NoSignals b l

module _ {Map World : Type 0} (program : Program Map World) (calm : Calm program) where
  -- What is true before each callback: those of the list are in the queue.
  record Waiting (p : ℕ) (b : Base Map) (s : Loop Map World) (l : List ℕ) : Type 0 where
    pub ready : Ready p s.base l
    pub no_break : s.event_break ≡ false
    pub no_continue : s.base.event_continue ≡ false
    pub none_common : s.base.n_common_timeouts ≡ 0
    pub others : (q : ℕ) → q ≢ p → s.base.activequeues q ≡ b.activequeues q
    pub internal : (x : ℕ) → (flags_of s.base x).internal ≡ (flags_of b x).internal
    pub closure : (x : ℕ) → (s.base.event x).ev_closure ≡ (b.event x).ev_closure

  run_callback-Waiting :
      (p : ℕ) (b : Base Map) (s : Loop Map World) (e : ℕ) (l : List ℕ)
      → Waiting p b s (e ∷ l)
      → Waiting p b (run_callback program s e) l
  unfolding run_callback
  run_callback-Waiting p b s e l w =
      let b' = dequeue program s.base e in
      let s' = record s { base = b'; current_event = some e } in
      let here : (flags_of s.base e).active ≡ true = ground (arith, w.ready.1 e) in
      let gone = dequeue-Dequeued program s.base e here in
      let at : (s.base.event e).ev_pri ≡ p = ground (arith, w.ready.1 e) in
      let run =
        run_closure-Undisturbed program calm (b'.event e).ev_closure s' e gone.out
          (gone.common ∙ w.none_common) in
      record {
        ready = SameActive-Ready p l run.same (gone.ready p l w.ready);
        no_break = run.break ∙ w.no_break;
        no_continue = run.same.continue ∙ gone.continue ∙ w.no_continue;
        none_common = run.same.common ∙ gone.common ∙ w.none_common;
        others = λ q ne. run.same.queues q ∙ gone.others q (λ h. ne (sym h ∙ at)) ∙ w.others q ne;
        internal = λ x. run.same.internal x ∙ gone.internal x ∙ w.internal x;
        closure = λ x. run.same.closure x ∙ gone.closure x ∙ w.closure x;
      }

  -- Each callback of the list is called once, and in order.
  run_all-seen :
      (seen : World → List ℕ) (p : ℕ) (b : Base Map) (s : Loop Map World) (l : List ℕ)
      → Logs program seen
      → NoSignals b l
      → Waiting p b s l
      → seen (run_all program s l).world ≡ seen s.world ++ l
  unfolding run_callback
  run_all-seen seen p b s [] logs none_signal w = sym (append-nil (seen s.world))
  run_all-seen seen p b s (e ∷ l) logs (not_signal, none_signal) w =
      let b' = dequeue program s.base e in
      let s' = record s { base = b'; current_event = some e } in
      let here : (flags_of s.base e).active ≡ true = ground (arith, w.ready.1 e) in
      let same = (dequeue-Dequeued program s.base e here).closure e ∙ w.closure e in
      let called =
        run_closure-seen program seen logs (b'.event e).ev_closure s' e
          (λ h. not_signal (sym same ∙ h)) in
      run_all-seen seen p b (run_callback program s e) l logs none_signal
        (run_callback-Waiting p b s e l w)
      ∙ ap (λ xs. xs ++ l) called
      ∙ append_assoc (seen s.world) (e ∷ []) l

  -- The whole queue, if the limits are not met.
  single_queue-all :
      (fuel p max_to_process count : ℕ) (b : Base Map) (s : Loop Map World) (l : List ℕ)
      → Waiting p b s l
      → length l < fuel
      → count + length l < max_to_process
      → Waiting p b (run_all program s l) []
        × (single_queue program fuel s p max_to_process none count
            ≡ some (ran (count + externals b l), run_all program s l))
  unfolding single_queue
  single_queue-all zero p max_to_process count b s l w enough below = absurd (omega arith)
  single_queue-all (suc fuel) p max_to_process count b s [] w enough below =
      let empty : (count + 0) ≡ count = omega arith in (w, rw (w.ready.0, single_queue, empty) refl)
  single_queue-all (suc fuel) p max_to_process count b s (e ∷ l) w enough below =
      let s' = run_callback program s e in
      let w' = run_callback-Waiting p b s e l w in
      let here : (flags_of s.base e).active ≡ true = ground (arith, w.ready.1 e) in
      let internal = (dequeue-Dequeued program s.base e here).internal e ∙ w.internal e in
      let weight_same : weight ((dequeue program s.base e).event e).ev_flags
          ≡ weight (flags_of b e) =
        ap (λ i. if i then 0 else 1) internal in
      let count' = count + weight (flags_of b e) in
      let small : weight (flags_of b e) ≤ 1 = ground arith in
      let (done, rest) =
        single_queue-all fuel p max_to_process count' b s' l w' (omega arith)
          (omega (arith, small)) in
      let not_full : leb max_to_process count' ≡ false = ground arith in
      let sum : count + (weight (flags_of b e) + externals b l) ≡ count' + externals b l =
        omega arith in
      (
        done,
        rw (w.ready.0, single_queue, weight_same)
            (if_false _ _ _ w'.no_break
              ∙ if_false _ _ _ not_full
              ∙ if_false _ _ _ w'.no_continue
              ∙ rest
              ∙ ap (λ c. some (ran c, run_all program s' l)) (sym sum)),
      )

  -- Empty queues are passed over, and the first that is not is run.
  priorities-first :
      (fuel left j i c maxcb : ℕ) (s s' : Loop Map World)
      → maxcb ≡ 2 ^ 31 - 1
      → ((q : ℕ) → q < i → s.base.activequeues q ≡ [])
      → s.base.activequeues i ≢ []
      → j ≤ i
      → i < j + left
      → single_queue program fuel (set_running_priority s (some i)) i (2 ^ 31 - 1) none 0
        ≡ some (ran (suc c), s')
      → priorities program fuel left j s maxcb s.limit_callbacks_after_prio none
        ≡ some (ran (suc c), s')
  unfolding priorities
  priorities-first fuel zero j i c maxcb s s' no_max empty some_first below above runs =
      absurd (omega arith)
  priorities-first fuel (suc left) j i c maxcb s s' no_max empty some_first below above runs =
      elim (ℕ_discrete j i) [
        | yes here ↦ rw here (run_here (s.base.activequeues i) refl)
        | no other ↦
            rw (empty j (omega arith), priorities)
              (priorities-first fuel left (suc j) i c maxcb s s' no_max empty some_first
                (omega arith) (omega arith) runs)
      ]
    where
      run_here :
          (l : List ℕ)
          → s.base.activequeues i ≡ l
          → priorities program fuel (suc left) i s maxcb s.limit_callbacks_after_prio none
            ≡ some (ran (suc c), s')
      run_here [] none_here = absurd (some_first none_here)
      run_here (e ∷ l) queue =
          let unlimited : Option Timeval = none in
          let limit : (if ltb i s.limit_callbacks_after_prio then 2 ^ 31 - 1 else maxcb)
              ≡ 2 ^ 31 - 1 =
            ground (arith, no_max) in
          let until : (if ltb i s.limit_callbacks_after_prio then unlimited else unlimited)
              ≡ unlimited =
            ground arith in
          simp (priorities, queue, limit, until, runs)

process_active-unlimited :
    {Map World : Type 0} (program : Program Map World) (fuel : ℕ) (s s' : Loop Map World)
    (result : Processed)
    → s.max_dispatch_time ≡ none
    → priorities program fuel s.base.nactivequeues 0 s s.max_dispatch_callbacks
        s.limit_callbacks_after_prio none
      ≡ some (result, s')
    → event_process_active program fuel s ≡ some (result, set_running_priority s' none)
unfolding event_process_active
process_active-unlimited program fuel s s' result no_time runs =
    simp (event_process_active, no_time, runs)

-- The callbacks of the program neither make a callback active nor stop one or the loop nor change a
-- closure, each writes down that it was called, no common timeout is in use, and no callback of the
-- first queue that is not empty is for a signal. Then event_process_active, without a limit on the callbacks or the
-- time, calls all callbacks of that queue, in their order and each once, if one of them is not internal; it returns how many are not. That queue is then empty, no callback
-- of its priority is active, and the queues of all other priorities are as they were. The length
-- of the queue is enough fuel.
pub process_active-strict :
    {Map World : Type 0} (program : Program Map World) (seen : World → List ℕ) (n fuel i : ℕ)
    (s : Loop Map World)
    → Calm program
    → Logs program seen
    → NoSignals s.base (s.base.activequeues i)
    → IsBase n s.base
    → s.base.n_common_timeouts ≡ 0
    → s.event_break ≡ false
    → s.base.event_continue ≡ false
    → s.max_dispatch_time ≡ none
    → s.max_dispatch_callbacks ≡ 2 ^ 31 - 1
    → i < s.base.nactivequeues
    → ((q : ℕ) → q < i → s.base.activequeues q ≡ [])
    → 0 < externals s.base (s.base.activequeues i)
    → length (s.base.activequeues i) < fuel
    → length (s.base.activequeues i) < 2 ^ 31 - 1
    → (s' : Loop Map World) × (event_process_active program fuel s
        ≡ some (ran (externals s.base (s.base.activequeues i)), s'))
      × (seen s'.world ≡ seen s.world ++ s.base.activequeues i)
      × (s'.base.activequeues i ≡ [])
      × ((x : ℕ) → ((flags_of s'.base x).active && (s'.base.event x).ev_pri == i) ≡ false)
      × ((q : ℕ) → q ≢ i → s'.base.activequeues q ≡ s.base.activequeues q)
unfolding event_process_active
process_active-strict program seen n fuel i s calm logs none_signal v none_common no_break
      no_continue no_time no_max below empty real enough small =
    let l = s.base.activequeues i in
    let s1 = set_running_priority s (some i) in
    let waiting : Waiting program calm i s.base s1 l = record {
      ready = (refl, λ x. v.in_active i x);
      no_break = no_break;
      no_continue = no_continue;
      none_common = none_common;
      others = λ q ne. refl;
      internal = λ x. refl;
      closure = λ x. refl;
    } in
    let (w, runs) =
      single_queue-all program calm fuel i (2 ^ 31 - 1) 0 s.base s1 l waiting enough
        (omega (arith, small)) in
    let counted : externals s.base l ≡ suc (externals s.base l - 1) = omega arith in
    let some_first : l ≢ [] = λ h. absurd (ground (arith, ap (externals s.base) h)) in
    let first =
      priorities-first program calm fuel s.base.nactivequeues 0 i (externals s.base l - 1)
        s.max_dispatch_callbacks s (run_all program s1 l) no_max empty some_first (omega arith)
        (omega arith) (runs ∙ ap (λ c. some (ran c, run_all program s1 l)) (omega arith)) in
    (
      set_running_priority (run_all program s1 l) none,
      process_active-unlimited program fuel s (run_all program s1 l) _ no_time first
          ∙ ap (λ c. some (ran c, set_running_priority (run_all program s1 l) none)) (sym counted),
      run_all-seen program calm seen i s.base s1 l logs none_signal waiting,
      w.ready.0,
      (λ x. ground (arith, w.ready.1 x)),
      w.others,
    )
