-- ===== src/Tagging/Record.antt =====
-- event_tagging.c: a tag, the length of the payload and the payload. Output arguments are results;
-- the evbuffer that a call leaves, also on an error, is part of its outcome.
use libevent_linux.Prelude.{
  ℕ, ◌+◌, ◌-◌, ◌%◌, ◌^◌, ◌||◌, Option, none, some, [], ◌++◌, length, take, drop, ltb, leb, ◌==◌,
  not, if◌then◌else◌,
}
use libevent_linux.Time.{Timeval}
use libevent_linux.Tagging.{
  Bytes, Outcome, ok, error, fault, ◌>>=◌, encode_int_internal, evtag_encode_int, evtag_encode_tag,
  evtag_decode_tag, evtag_decode_int, evtag_peek, decode_int_internal,
}

-- `return (len)` of a uint32_t as an int, and its conversion to size_t: the sign is extended.
abbrev pub size_of_int : ℕ → ℕ
size_of_int len = if ltb len (2 ^ 31) then len else 2 ^ 64 - 2 ^ 32 + len

unfoldable pub evtag_marshal : Bytes → ℕ → Bytes → Bytes
unfolding evtag_encode_tag evtag_encode_int
evtag_marshal evbuf tag payload =
    evtag_encode_int (evtag_encode_tag evbuf tag).0 (length payload) ++ payload

-- The buffer `payload` is emptied: `evbuffer_add_buffer` moves its bytes.
unfoldable pub evtag_marshal_buffer : Bytes → ℕ → Bytes → Bytes × Bytes
unfolding evtag_encode_tag evtag_encode_int
evtag_marshal_buffer evbuf tag payload =
    (evtag_encode_int (evtag_encode_tag evbuf tag).0 (length payload % 2 ^ 32) ++ payload, [])

unfoldable pub evtag_marshal_int : Bytes → ℕ → ℕ → Bytes
unfolding encode_int_internal evtag_encode_tag evtag_encode_int
evtag_marshal_int evbuf tag integer =
    let (code, len) = encode_int_internal 4 integer in
    evtag_encode_int (evtag_encode_tag evbuf tag).0 len ++ take len code

unfoldable pub evtag_marshal_int64 : Bytes → ℕ → ℕ → Bytes
unfolding encode_int_internal evtag_encode_tag evtag_encode_int
evtag_marshal_int64 evbuf tag integer =
    let (code, len) = encode_int_internal 8 integer in
    evtag_encode_int (evtag_encode_tag evbuf tag).0 len ++ take len code

-- The characters of the string, without the NUL.
unfoldable pub evtag_marshal_string : Bytes → ℕ → Bytes → Bytes
unfolding evtag_marshal
evtag_marshal_string buf tag string = evtag_marshal buf tag string

-- The second number is encoded behind the first in the array.
unfoldable pub evtag_marshal_timeval : Bytes → ℕ → Timeval → Bytes
unfolding encode_int_internal evtag_marshal
evtag_marshal_timeval evbuf tag tv =
    let (sec, sec_len) = encode_int_internal 4 (tv.tv_sec % 2 ^ 32) in
    let (usec, usec_len) = encode_int_internal 4 (tv.tv_usec % 2 ^ 32) in
    evtag_marshal evbuf tag (take sec_len sec ++ take usec_len usec)

-- The tag and the length. A length of 2^32 - 1 is -1 as an int, the value for an error.
unfoldable pub evtag_unmarshal_header : Bytes → Outcome (ℕ × ℕ)
unfolding evtag_decode_tag evtag_decode_int
evtag_unmarshal_header evbuf = evtag_decode_tag evbuf >>= λ tag buf.
    evtag_decode_int buf >>= λ len buf'.
    if ltb (length buf') len || (len == 2 ^ 32 - 1) then error buf' else ok (tag.0, len) buf'

unfoldable pub evtag_consume : Bytes → Outcome (Unit {0})
unfolding evtag_unmarshal_header
evtag_consume evbuf =
    evtag_unmarshal_header evbuf >>= λ header buf. ok tt (drop (size_of_int header.1) buf)

-- The payload goes to the end of `dst`, which is part of the result. A payload of 2 GB or more has
-- a negative length as an int, and is a fault here.
unfoldable pub evtag_unmarshal : Bytes → Bytes → Outcome (ℕ × ℕ × Bytes)
unfolding evtag_unmarshal_header
evtag_unmarshal src dst = evtag_unmarshal_header src >>= λ header buf.
    if ltb header.1 (2 ^ 31)
    then ok (header.0, header.1, dst ++ take header.1 buf) (drop header.1 buf)
    else fault

-- The length of the whole record, with its tag and length, and that of the payload.
unfoldable pub evtag_peek_length : Bytes → Outcome ℕ
unfolding evtag_peek decode_int_internal
evtag_peek_length evbuf = evtag_peek evbuf >>= λ tag buf.
    elim (decode_int_internal 32 8 buf tag.1) [
      | none ↦ error buf
      | some (len, res) ↦ ok ((len + (res + tag.1)) % 2 ^ 32) buf
    ]

unfoldable pub evtag_payload_length : Bytes → Outcome ℕ
unfolding evtag_peek decode_int_internal
evtag_payload_length evbuf = evtag_peek evbuf >>= λ tag buf.
    elim (decode_int_internal 32 8 buf tag.1) [ none ↦ error buf | some (len, res) ↦ ok len buf ]

-- evtag_unmarshal_int and its 64-bit twin: they read the number, then drain the payload.
unfoldable pub unmarshal_number : ℕ → ℕ → Bytes → ℕ → Outcome (ℕ × ℕ)
unfolding evtag_decode_tag evtag_decode_int decode_int_internal
unmarshal_number width maxnibbles evbuf need_tag = evtag_decode_tag evbuf >>= λ tag buf.
    if not (need_tag == tag.0)
    then error buf
    else (evtag_decode_int buf >>= λ len buf'.
        if ltb (length buf') len
        then error buf'
        else elim (decode_int_internal width maxnibbles buf' 0) [
          | none ↦ error (drop len buf')
          | some (number, res) ↦
              if ltb len res then error (drop len buf') else ok (number, res) (drop len buf')
        ])

unfoldable pub evtag_unmarshal_int : Bytes → ℕ → Outcome (ℕ × ℕ)
unfolding unmarshal_number
evtag_unmarshal_int evbuf need_tag = unmarshal_number 32 8 evbuf need_tag

unfoldable pub evtag_unmarshal_int64 : Bytes → ℕ → Outcome (ℕ × ℕ)
unfolding unmarshal_number
evtag_unmarshal_int64 evbuf need_tag = unmarshal_number 64 16 evbuf need_tag

-- `(size_t)tag_len != len` is tested before `data` is written.
unfoldable pub evtag_unmarshal_fixed : Bytes → ℕ → ℕ → Outcome Bytes
unfolding evtag_unmarshal_header
evtag_unmarshal_fixed src need_tag len = evtag_unmarshal_header src >>= λ header buf.
    if leb (2 ^ 31) header.1 || not (header.0 == need_tag)
    then error buf
    else if not (header.1 == len)
    then error buf
    else ok (take len buf) (drop len buf)

-- The characters of the string; the NUL that ends it in memory is left out. A length of 2 GB or
-- more is negative, and writes before the string: a fault.
unfoldable pub evtag_unmarshal_string : Bytes → ℕ → Outcome Bytes
unfolding evtag_unmarshal_header
evtag_unmarshal_string evbuf need_tag = evtag_unmarshal_header evbuf >>= λ header buf.
    if not (header.0 == need_tag)
    then error buf
    else if ltb header.1 (2 ^ 31)
    then ok (take header.1 buf) (drop header.1 buf)
    else fault

-- The two numbers, or an error; the payload is drained on every path.
unfoldable pub timeval_numbers : Bytes → ℕ → Option Timeval
unfolding decode_int_internal
timeval_numbers buf len = elim (decode_int_internal 32 8 buf 0) [
  | none ↦ none
  | some (sec, offset) ↦ elim (decode_int_internal 32 8 buf offset) [
    | none ↦ none
    | some (usec, offset2) ↦
        if ltb len (offset + offset2) then none else some (record { tv_sec = sec; tv_usec = usec })
  ]
]

unfoldable pub timeval_result : Option Timeval → Bytes → Outcome Timeval
timeval_result none buf = error buf
timeval_result (some tv) buf = ok tv buf

-- `offset + offset2 > len` compares ints: a length of 2 GB or more is negative there.
unfoldable pub evtag_unmarshal_timeval : Bytes → ℕ → Outcome Timeval
unfolding evtag_unmarshal_header timeval_numbers timeval_result
evtag_unmarshal_timeval evbuf need_tag = evtag_unmarshal_header evbuf >>= λ header buf.
    let rest = drop (size_of_int header.1) buf in
    if not (header.0 == need_tag)
    then error rest
    else timeval_result (timeval_numbers buf (if ltb header.1 (2 ^ 31) then header.1 else 0)) rest
