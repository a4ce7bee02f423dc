-- ===== src/Buffer/LineTests.antt =====
-- Lines in a buffer of buffer.c whose CR and LF are in two chains.
use libevent_linux.Prelude.{◌≡◌, refl, true, false, none, some, [], ◌∷◌, arith}
use libevent_linux.Buffer.Chain.{Bytes, Chain}
use libevent_linux.Buffer.State.{Evbuffer, evbuffer_new}
use libevent_linux.Buffer.Invariant.{Represents}
use libevent_linux.Buffer.Search.{
  eol_any, eol_crlf, eol_lf, find_eol_loop, find_eol_char, evbuffer_strchr, evbuffer_find_eol_char,
  evbuffer_strspn, evbuffer_getchr, ptr_add, evbuffer_ptr_set, evbuffer_ptr_subtract, search_from,
  evbuffer_search_eol, evbuffer_readln,
}
use libevent_linux.Buffer.ReadLines.{readln-line}

abbrev two_bytes : Chain
two_bytes = record {
  buffer = 97 ∷ 13 ∷ [];
  buffer_len = 2;
  misalign = 0;
  off = 2;
  immutable = false;
}

abbrev three_bytes : Chain
three_bytes = record {
  buffer = 10 ∷ 10 ∷ 98 ∷ [];
  buffer_len = 3;
  misalign = 0;
  off = 3;
  immutable = false;
}

abbrev lines : Evbuffer
lines = record evbuffer_new {
  chains = two_bytes ∷ three_bytes ∷ [];
  last_with_datap = 1;
  total_len = 5;
}

abbrev text : Bytes
text = 97 ∷ 13 ∷ 10 ∷ 10 ∷ 98 ∷ []

lines-Represents : Represents lines text
lines-Represents = record {
  valid = (
    record { within = omega arith; bounded = omega arith; sized = refl },
    (record { within = omega arith; bounded = omega arith; sized = refl }, tt),
  );
  behind = tt;
  full = λ _. omega arith;
  held = refl;
  counted = refl;
  small = omega arith;
}

readln-line_example :
    ((evbuffer_readln lines eol_crlf true).0 ≡ some (97 ∷ []))
    × Represents (evbuffer_readln lines eol_crlf true).1 (10 ∷ 98 ∷ [])
readln-line_example = readln-line lines text eol_crlf lines-Represents refl

-- The CR and both LFs end the line.
any_line :
    (evbuffer_search_eol lines none eol_any)
    ≡ some (record { pos = 1; chain = 0; pos_in_chain = 1 }, 3)
unfolding evbuffer_search_eol search_from evbuffer_find_eol_char find_eol_char find_eol_loop
    evbuffer_strspn
any_line = refl

-- The CR belongs to the line.
lf_line :
    (evbuffer_search_eol lines none eol_lf)
    ≡ some (record { pos = 2; chain = 1; pos_in_chain = 0 }, 1)
unfolding evbuffer_search_eol search_from evbuffer_strchr
lf_line = refl

crlf_line :
    (evbuffer_search_eol lines none eol_crlf)
    ≡ some (record { pos = 1; chain = 0; pos_in_chain = 1 }, 2)
unfolding evbuffer_search_eol search_from evbuffer_strchr evbuffer_ptr_subtract evbuffer_ptr_set
    evbuffer_getchr
crlf_line = refl

-- Three bytes on from the CR, in the other chain.
advanced :
    evbuffer_ptr_set lines (record { pos = 1; chain = 0; pos_in_chain = 1 }) 3 ptr_add
    ≡ some (record { pos = 4; chain = 1; pos_in_chain = 2 })
unfolding evbuffer_ptr_set
advanced = refl

-- The end is a place, and there is none behind it.
advanced_to_end :
    evbuffer_ptr_set lines (record { pos = 4; chain = 1; pos_in_chain = 2 }) 1 ptr_add
    ≡ some (record { pos = 5; chain = 2; pos_in_chain = 0 })
unfolding evbuffer_ptr_set
advanced_to_end = refl

advanced_too_far :
    evbuffer_ptr_set lines (record { pos = 4; chain = 1; pos_in_chain = 2 }) 2 ptr_add ≡ none
unfolding evbuffer_ptr_set
advanced_too_far = refl
