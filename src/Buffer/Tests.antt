-- ===== src/Buffer/Tests.antt =====
-- Buffers of buffer.c at concrete values.
use libevent_linux.Prelude.{
  none, ◌-◌, ◌^◌, ◌<◌, ◌≡◌, refl, true, false, some, [], ◌∷◌, ◌++◌, take, arith, if◌then◌else◌,
}
use libevent_linux.Buffer.Chain.{Bytes, Chain, evbuffer_chain_new}
use libevent_linux.Buffer.State.{
  Evbuffer, contents, bytes_of_first, evbuffer_new, evbuffer_invoke_callbacks,
  evbuffer_run_callbacks, evbuffer_free_trailing_empty_chains,
}
use libevent_linux.Buffer.Invariant.{Represents}
use libevent_linux.Buffer.Add.{evbuffer_add, evbuffer_prepend}
use libevent_linux.Buffer.Remove.{EvbufferPtr, evbuffer_copyout_from, evbuffer_remove, to_int}
use libevent_linux.Buffer.Move.{evbuffer_add_buffer}
use libevent_linux.Buffer.AddLaws.{add-Represents}
use libevent_linux.Buffer.AddSuccess.{add-appends, prepend-prepends}
use libevent_linux.Buffer.PrependLaws.{Prepends, prepend-Represents}
use libevent_linux.Buffer.RemoveLaws.{IsPtr, copyout_from-take, remove-Represents}
use libevent_linux.Buffer.Pullup.{evbuffer_pullup}
use libevent_linux.Buffer.PullupLaws.{pullup-take}
use libevent_linux.Buffer.Split.{advance_last_with_data, evbuffer_remove_buffer}
use libevent_linux.Buffer.SplitLaws.{remove_buffer-Represents}
use libevent_linux.Buffer.MoveLaws.{add_buffer-Represents}

-- Two bytes of space before three bytes of data, and one behind.
abbrev middle : Chain
middle = record {
  buffer = 0 ∷ 0 ∷ 1 ∷ 2 ∷ 3 ∷ 0 ∷ [];
  buffer_len = 6;
  misalign = 2;
  off = 3;
  immutable = false;
}

abbrev full : Chain
full = record { buffer = 4 ∷ 5 ∷ []; buffer_len = 2; misalign = 0; off = 2; immutable = false }

abbrev empty : Chain
empty = record { buffer = 0 ∷ 0 ∷ []; buffer_len = 2; misalign = 0; off = 0; immutable = false }

-- The data is in two chains; an empty one is behind them.
abbrev two_chains : Evbuffer
two_chains = record evbuffer_new {
  chains = middle ∷ full ∷ empty ∷ [];
  last_with_datap = 1;
  total_len = 5;
  has_callbacks = true;
}

abbrev five : Bytes
five = 1 ∷ 2 ∷ 3 ∷ 4 ∷ 5 ∷ []

two_chains-Represents : Represents two_chains five
two_chains-Represents = record {
  valid = (
    record { within = omega arith; bounded = omega arith; sized = refl },
    (
      record { within = omega arith; bounded = omega arith; sized = refl },
      (record { within = omega arith; bounded = omega arith; sized = refl }, tt),
    ),
  );
  behind = (refl, tt);
  full = λ _. omega arith;
  held = refl;
  counted = refl;
  small = omega arith;
}

abbrev other : Evbuffer
other = record evbuffer_new { chains = full ∷ []; total_len = 2 }

other-Represents : Represents other (4 ∷ 5 ∷ [])
other-Represents = record {
  valid = (record { within = omega arith; bounded = omega arith; sized = refl }, tt);
  behind = tt;
  full = λ _. omega arith;
  held = refl;
  counted = refl;
  small = omega arith;
}

-- The fourth byte, in the second chain.
abbrev second : EvbufferPtr
second = record { pos = 4; chain = 1; pos_in_chain = 1 }

second-IsPtr : IsPtr two_chains second
second-IsPtr = record { at = refl; within = omega arith }

add-appends_example :
    (let r = evbuffer_add two_chains (6 ∷ 7 ∷ []) true true in
      (r.0 ≡ true) × Represents r.1 (1 ∷ 2 ∷ 3 ∷ 4 ∷ 5 ∷ 6 ∷ 7 ∷ []))
add-appends_example =
    add-appends two_chains five (6 ∷ 7 ∷ []) two_chains-Represents refl (omega arith) (omega arith)

-- No memory for the new chain.
add-Represents_example :
    (let r = evbuffer_add two_chains (6 ∷ 7 ∷ []) true false in
      Represents r.1 (if r.0 then five ++ 6 ∷ 7 ∷ [] else five))
add-Represents_example =
    add-Represents two_chains five (6 ∷ 7 ∷ []) true false two_chains-Represents

prepend-prepends_example :
    (let r = evbuffer_prepend two_chains (6 ∷ 7 ∷ 8 ∷ []) true true in
      (r.0 ≡ true) × Represents r.1 (6 ∷ 7 ∷ 8 ∷ 1 ∷ 2 ∷ 3 ∷ 4 ∷ 5 ∷ []))
prepend-prepends_example =
    prepend-prepends two_chains five (6 ∷ 7 ∷ 8 ∷ []) two_chains-Represents refl (omega arith)
      (omega arith)

prepend-Represents_example :
    Prepends five (6 ∷ 7 ∷ 8 ∷ []) (evbuffer_prepend two_chains (6 ∷ 7 ∷ 8 ∷ []) true false)
prepend-Represents_example =
    prepend-Represents two_chains five (6 ∷ 7 ∷ 8 ∷ []) true false two_chains-Represents

-- A call that fails has put two of the three bytes.
prepend_part :
    (let r = evbuffer_prepend two_chains (6 ∷ 7 ∷ 8 ∷ []) true false in
      (r.0 ≡ false) × (contents r.1 ≡ 7 ∷ 8 ∷ 1 ∷ 2 ∷ 3 ∷ 4 ∷ 5 ∷ []))
unfolding evbuffer_prepend evbuffer_chain_new
prepend_part = (refl, refl)

remove-Represents_example :
    (let r = evbuffer_remove two_chains 4 in
      (r.0 ≡ 4)
      × ((r.1.0 ≡ some (1 ∷ 2 ∷ 3 ∷ 4 ∷ [])) × Represents r.1.1 (5 ∷ []))
      × (4 < 2 ^ 31 → r.0 ≡ 4)
      × (4 ≡ 2 ^ 32 - 1 → r.0 ≡ to_int none))
remove-Represents_example = remove-Represents two_chains five 4 two_chains-Represents refl

copyout_from-take_example : evbuffer_copyout_from two_chains (some second) 3 ≡ some (5 ∷ [])
copyout_from-take_example =
    copyout_from-take two_chains five second 3 two_chains-Represents second-IsPtr refl (omega arith)

add_buffer-Represents_example :
    (let r = evbuffer_add_buffer two_chains other in
      (r.0 ≡ true) × (Represents r.1.0 [] × Represents r.1.1 (1 ∷ 2 ∷ 3 ∷ 4 ∷ 5 ∷ 4 ∷ 5 ∷ [])))
add_buffer-Represents_example =
    add_buffer-Represents two_chains other five (4 ∷ 5 ∷ []) two_chains-Represents other-Represents
      (omega arith) refl refl

pullup-take_example :
    (let r = evbuffer_pullup two_chains (some 4) true in
      (r.0 ≡ true)
      × (Represents r.1 five × (take 4 (bytes_of_first r.1.chains) ≡ 1 ∷ 2 ∷ 3 ∷ 4 ∷ [])))
pullup-take_example =
    pullup-take two_chains five 4 two_chains-Represents (omega arith) (omega arith) (omega arith)

remove_buffer-Represents_example :
    (let r = evbuffer_remove_buffer two_chains other 4 true true in
      (Represents r.1.0 (5 ∷ []) × Represents r.1.1 (4 ∷ 5 ∷ 1 ∷ 2 ∷ 3 ∷ 4 ∷ []))
      × (r.0 ≡ 4)
      × (4 < 2 ^ 31 → r.0 ≡ 4)
      × (4 ≡ 2 ^ 32 - 1 → r.0 ≡ to_int none))
remove_buffer-Represents_example =
    remove_buffer-Represents two_chains other five (4 ∷ 5 ∷ []) two_chains-Represents
      other-Represents (omega arith) 4 refl refl

abbrev tight : Evbuffer
tight = record evbuffer_new { chains = full ∷ full ∷ []; last_with_datap = 1; total_len = 4 }

-- The third byte is in no buffer when there is no memory for it.
remove_buffer_lost :
    (let r = evbuffer_remove_buffer tight other 3 true false in
      (r.0 ≡ 3) × ((contents r.1.0 ≡ 5 ∷ []) × (contents r.1.1 ≡ 4 ∷ 5 ∷ 4 ∷ 5 ∷ [])))
unfolding evbuffer_remove_buffer evbuffer_invoke_callbacks evbuffer_run_callbacks evbuffer_add
    advance_last_with_data evbuffer_free_trailing_empty_chains evbuffer_chain_new
remove_buffer_lost = (refl, (refl, refl))
