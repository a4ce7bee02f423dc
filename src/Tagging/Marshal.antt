-- ===== src/Tagging/Marshal.antt =====
-- The records of event_tagging.c: what is marshalled is read back, and no more is taken.
use mathlib.Core.List.{append_assoc}
use native.Mathlib.Nat.{mod-eq_of_lt}
use libevent_linux.Prelude.{
  ℕ, ◌+◌, ◌-◌, ◌%◌, ◌^◌, ◌≤◌, ◌<◌, ◌≡◌, refl, ap, sym, ◌∙◌, some, [], ◌++◌, length, take, drop,
  take-append, drop-append, length-append, length-take, arith,
}
use libevent_linux.Time.{Timeval}
use libevent_linux.Tagging.{
  Bytes, ok, encode_int_internal, evtag_encode_int, evtag_encode_int64, evtag_encode_tag,
  encode_tag_loop, evtag_decode_tag, evtag_decode_int, evtag_decode_int64, evtag_peek,
  decode_int_internal,
}
use libevent_linux.Tagging.IntCode.{IsCode, encode_int_internal-IsCode, decode_int-IsCode}
use libevent_linux.Tagging.TagCode.{decode_tag_internal-encode}
use libevent_linux.Tagging.Record.{
  evtag_marshal, evtag_marshal_int, evtag_marshal_int64, evtag_marshal_timeval,
  evtag_unmarshal_header, evtag_unmarshal, evtag_consume, evtag_peek_length, evtag_payload_length,
  unmarshal_number, evtag_unmarshal_int, evtag_unmarshal_int64, evtag_unmarshal_timeval,
  timeval_numbers, timeval_result, size_of_int,
}

code32 : (number : ℕ) → number < 2 ^ 32 → IsCode number 8 (encode_int_internal 4 number)
code32 number small = encode_int_internal-IsCode 4 number (omega arith) (omega arith) small

code64 : (number : ℕ) → number < 2 ^ 64 → IsCode number 16 (encode_int_internal 8 number)
code64 number small = encode_int_internal-IsCode 8 number (omega arith) (omega arith) small

drop-code :
    {number room : ℕ} (out : Bytes × ℕ) (rest : Bytes)
    → IsCode number room out
    → drop out.1 (take out.1 out.0 ++ rest) ≡ rest
drop-code out rest c =
    let size : length (take out.1 out.0) ≡ out.1 =
      omega (arith, length-take out.1 out.0, c.inside) in
    ap (λ n. drop n (take out.1 out.0 ++ rest)) (sym size) ∙ drop-append (take out.1 out.0) rest

-- A 32-bit number encoded by evtag_encode_int, at the front of any bytes, is decoded by
-- evtag_decode_int, which takes exactly the bytes of the code.
pub decode_int-encode_int :
    (number : ℕ) (rest : Bytes)
    → number < 2 ^ 32
    → evtag_decode_int (evtag_encode_int [] number ++ rest) ≡ ok number rest
unfolding evtag_decode_int evtag_encode_int
decode_int-encode_int number rest small =
    let c = code32 number small in
    rw (decode_int-IsCode 32 8 number _ rest (omega arith) c, drop-code _ rest c) refl

-- A 64-bit number encoded by evtag_encode_int64, at the front of any bytes, is decoded by
-- evtag_decode_int64, which takes exactly the bytes of the code.
pub decode_int64-encode_int64 :
    (number : ℕ) (rest : Bytes)
    → number < 2 ^ 64
    → evtag_decode_int64 (evtag_encode_int64 [] number ++ rest) ≡ ok number rest
unfolding evtag_decode_int64 evtag_encode_int64
decode_int64-encode_int64 number rest small =
    let c = code64 number small in
    rw (decode_int-IsCode 64 16 number _ rest (omega arith) c, drop-code _ rest c) refl

-- A 32-bit tag encoded by evtag_encode_tag, at the front of any bytes, is decoded by
-- evtag_decode_tag with the length that encoding returned, and exactly its bytes are drained.
pub decode_tag-encode_tag :
    (tag : ℕ) (rest : Bytes)
    → tag < 2 ^ 32
    → let (code, bytes) = evtag_encode_tag [] tag in
      evtag_decode_tag (code ++ rest) ≡ ok (tag, bytes) rest
unfolding evtag_encode_tag evtag_decode_tag
decode_tag-encode_tag tag rest small =
    rw (decode_tag_internal-encode tag rest small, drop-append (encode_tag_loop tag tag) rest) refl

peek-encode_tag :
    (tag : ℕ) (rest : Bytes)
    → tag < 2 ^ 32
    → let (code, bytes) = evtag_encode_tag [] tag in
      evtag_peek (code ++ rest) ≡ ok (tag, bytes) (code ++ rest)
unfolding evtag_encode_tag evtag_peek
peek-encode_tag tag rest small = rw (decode_tag_internal-encode tag rest small) refl

-- The parts of a record in their order.
marshal-parts :
    (tag : ℕ) (payload rest : Bytes)
    → evtag_marshal [] tag payload ++ rest
      ≡ (evtag_encode_tag [] tag).0 ++ (evtag_encode_int [] (length payload) ++ (payload ++ rest))
unfolding evtag_marshal
marshal-parts tag payload rest = simp append_assoc

-- The header of a record gives its tag and its length, and leaves the payload.
pub header-marshal :
    (tag : ℕ) (payload rest : Bytes)
    → tag < 2 ^ 32
    → length payload < 2 ^ 32 - 1
    → evtag_unmarshal_header (evtag_marshal [] tag payload ++ rest)
      ≡ ok (tag, length payload) (payload ++ rest)
unfolding evtag_unmarshal_header
header-marshal tag payload rest small short =
    rw
      (
        marshal-parts,
        decode_tag-encode_tag tag (evtag_encode_int [] (length payload) ++ (payload ++ rest)) small,
        decode_int-encode_int (length payload) (payload ++ rest) (omega arith),
      )
      (ground (arith, length-append payload rest))

-- A record whose payload is shorter than 2 GB is read back by evtag_unmarshal: the result is the
-- tag and the length, the payload goes to the end of the other buffer, and what follows the record
-- stays.
pub unmarshal-marshal :
    (tag : ℕ) (payload rest dst : Bytes)
    → tag < 2 ^ 32
    → length payload < 2 ^ 31
    → evtag_unmarshal (evtag_marshal [] tag payload ++ rest) dst
      ≡ ok (tag, length payload, dst ++ payload) rest
unfolding evtag_unmarshal
unmarshal-marshal tag payload rest dst small short =
    rw
      (
        header-marshal tag payload rest small (omega arith),
        take-append payload rest,
        drop-append payload rest,
      )
      (ground arith)

-- evtag_consume drops exactly one record whose payload is shorter than 2 GB.
pub consume-marshal :
    (tag : ℕ) (payload rest : Bytes)
    → tag < 2 ^ 32
    → length payload < 2 ^ 31
    → evtag_consume (evtag_marshal [] tag payload ++ rest) ≡ ok tt rest
unfolding evtag_consume
consume-marshal tag payload rest small short =
    let size : size_of_int (length payload) ≡ length payload = ground arith in
    rw (header-marshal tag payload rest small (omega arith), size, drop-append payload rest) refl

-- Decoding at an offset is decoding what stands there.
decode_int_internal-drop :
    (width maxnibbles : ℕ) (before rest : Bytes)
    → decode_int_internal width maxnibbles (before ++ rest) (length before)
      ≡ decode_int_internal width maxnibbles rest 0
unfolding decode_int_internal
decode_int_internal-drop width maxnibbles before rest = rw (drop-append before rest) refl

bytes-encode_tag : (tag : ℕ) → (evtag_encode_tag [] tag).1 ≡ length (evtag_encode_tag [] tag).0
unfolding evtag_encode_tag
bytes-encode_tag tag = refl

decode_length :
    (tag : ℕ) (payload rest : Bytes)
    → length payload < 2 ^ 32
    → let (code, bytes) = evtag_encode_tag [] tag in
      let lencode = evtag_encode_int [] (length payload) in
      decode_int_internal 32 8 (code ++ (lencode ++ (payload ++ rest))) bytes
      ≡ some (length payload, length lencode)
unfolding evtag_encode_int
decode_length tag payload rest short =
    let c = code32 (length payload) short in
    let out = encode_int_internal 4 (length payload) in
    let size : length (take out.1 out.0) ≡ out.1 =
      omega (arith, length-take out.1 out.0, c.inside) in
    rw
      (
        bytes-encode_tag tag,
        decode_int_internal-drop 32 8 (evtag_encode_tag [] tag).0
            (take out.1 out.0 ++ (payload ++ rest)),
        decode_int-IsCode 32 8 (length payload) out (payload ++ rest) (omega arith) c,
        size,
      )
      refl

length-marshal :
    (tag : ℕ) (payload : Bytes)
    → length (evtag_marshal [] tag payload)
      ≡ length payload
        + (length (evtag_encode_int [] (length payload)) + (evtag_encode_tag [] tag).1)
length-marshal tag payload =
    let code = (evtag_encode_tag [] tag).0 in
    let lencode = evtag_encode_int [] (length payload) in
    omega (
      arith,
      ap length (marshal-parts tag payload []),
      length-append (evtag_marshal [] tag payload) [],
      length-append code (lencode ++ (payload ++ [])),
      length-append lencode (payload ++ []),
      length-append payload [],
      bytes-encode_tag tag,
    )

-- evtag_payload_length gives the length of the payload and evtag_peek_length that of the whole
-- record, if it is below 2^32; both leave the buffer as it was.
pub lengths-marshal :
    (tag : ℕ) (payload rest : Bytes)
    → tag < 2 ^ 32
    → length (evtag_marshal [] tag payload) < 2 ^ 32
    → let buf = evtag_marshal [] tag payload ++ rest in
      (evtag_payload_length buf ≡ ok (length payload) buf)
      × (evtag_peek_length buf ≡ ok (length (evtag_marshal [] tag payload)) buf)
unfolding evtag_payload_length evtag_peek_length
lengths-marshal tag payload rest small short =
    let lencode = evtag_encode_int [] (length payload) in
    let size = length-marshal tag payload in
    rw (marshal-parts tag payload rest, peek-encode_tag tag (lencode ++ (payload ++ rest)) small)
      (ground (arith, decode_length tag payload rest (omega (arith, size)), size))

-- Both integer records: a tag, the length of the code and the code.
unmarshal_number-code :
    (width room tag integer : ℕ) (rest : Bytes) (out : Bytes × ℕ)
    → tag < 2 ^ 32
    → 16 ^ room ≤ 2 ^ width
    → room ≤ 16
    → IsCode integer room out
    → unmarshal_number width room
        ((evtag_encode_tag [] tag).0 ++ (evtag_encode_int [] out.1 ++ (take out.1 out.0 ++ rest)))
        tag
      ≡ ok (integer, out.1) rest
unfolding unmarshal_number
unmarshal_number-code width room tag integer rest out small wide narrow c =
    rw
      (
        decode_tag-encode_tag tag (evtag_encode_int [] out.1 ++ (take out.1 out.0 ++ rest)) small,
        decode_int-encode_int out.1 (take out.1 out.0 ++ rest) (omega (arith, c.used, c.fits)),
        decode_int-IsCode width room integer out rest wide c,
        drop-code out rest c,
      )
      (ground (arith, length-append (take out.1 out.0) rest, length-take out.1 out.0, c.inside))

marshal_int-parts :
    (tag integer : ℕ) (rest : Bytes)
    → let out = encode_int_internal 4 integer in
      evtag_marshal_int [] tag integer ++ rest
      ≡ (evtag_encode_tag [] tag).0 ++ (evtag_encode_int [] out.1 ++ (take out.1 out.0 ++ rest))
unfolding evtag_marshal_int
marshal_int-parts tag integer rest = simp append_assoc

marshal_int64-parts :
    (tag integer : ℕ) (rest : Bytes)
    → let out = encode_int_internal 8 integer in
      evtag_marshal_int64 [] tag integer ++ rest
      ≡ (evtag_encode_tag [] tag).0 ++ (evtag_encode_int [] out.1 ++ (take out.1 out.0 ++ rest))
unfolding evtag_marshal_int64
marshal_int64-parts tag integer rest = simp append_assoc

unmarshal_int_lem :
    (buf : Bytes) (tag : ℕ) → evtag_unmarshal_int buf tag ≡ unmarshal_number 32 8 buf tag
unfolding evtag_unmarshal_int
unmarshal_int_lem buf tag = refl

unmarshal_int64_lem :
    (buf : Bytes) (tag : ℕ) → evtag_unmarshal_int64 buf tag ≡ unmarshal_number 64 16 buf tag
unfolding evtag_unmarshal_int64
unmarshal_int64_lem buf tag = refl

-- A 32-bit number marshalled under a tag is read back by evtag_unmarshal_int with that tag, and
-- exactly the record is drained.
pub unmarshal_int-marshal_int :
    (tag integer : ℕ) (rest : Bytes)
    → tag < 2 ^ 32
    → integer < 2 ^ 32
    → evtag_unmarshal_int (evtag_marshal_int [] tag integer ++ rest) tag
      ≡ ok (integer, (encode_int_internal 4 integer).1) rest
unmarshal_int-marshal_int tag integer rest small fits =
    let c = code32 integer fits in
    rw (unmarshal_int_lem, marshal_int-parts tag integer rest)
      (unmarshal_number-code 32 8 tag integer rest (encode_int_internal 4 integer) small
        (omega arith) (omega arith) c)

-- A 64-bit number marshalled under a tag is read back by evtag_unmarshal_int64 with that tag, and
-- exactly the record is drained.
pub unmarshal_int64-marshal_int64 :
    (tag integer : ℕ) (rest : Bytes)
    → tag < 2 ^ 32
    → integer < 2 ^ 64
    → evtag_unmarshal_int64 (evtag_marshal_int64 [] tag integer ++ rest) tag
      ≡ ok (integer, (encode_int_internal 8 integer).1) rest
unmarshal_int64-marshal_int64 tag integer rest small fits =
    let c = code64 integer fits in
    rw (unmarshal_int64_lem, marshal_int64-parts tag integer rest)
      (unmarshal_number-code 64 16 tag integer rest (encode_int_internal 8 integer) small
        (omega arith) (omega arith) c)

timeval_payload : Timeval → Bytes
timeval_payload tv =
    let sec = encode_int_internal 4 tv.tv_sec in
    let usec = encode_int_internal 4 tv.tv_usec in take sec.1 sec.0 ++ take usec.1 usec.0

timeval_marshalled :
    (tag : ℕ) (tv : Timeval)
    → evtag_marshal_timeval [] tag tv
      ≡ evtag_marshal [] tag
          (timeval_payload (record { tv_sec = tv.tv_sec % 2 ^ 32; tv_usec = tv.tv_usec % 2 ^ 32 }))
unfolding evtag_marshal_timeval timeval_payload
timeval_marshalled tag tv = refl

code_length :
    {number room : ℕ} (out : Bytes × ℕ) → IsCode number room out → length (take out.1 out.0) ≡ out.1
code_length out c = omega (arith, length-take out.1 out.0, c.inside)

length-timeval_payload :
    (tv : Timeval)
    → tv.tv_sec < 2 ^ 32
    → tv.tv_usec < 2 ^ 32
    → length (timeval_payload tv)
      ≡ (encode_int_internal 4 tv.tv_sec).1 + (encode_int_internal 4 tv.tv_usec).1
unfolding timeval_payload
length-timeval_payload tv secs usecs =
    let sec = encode_int_internal 4 tv.tv_sec in
    let usec = encode_int_internal 4 tv.tv_usec in
    omega (
      arith,
      length-append (take sec.1 sec.0) (take usec.1 usec.0),
      code_length sec (code32 tv.tv_sec secs),
      code_length usec (code32 tv.tv_usec usecs),
    )

numbers-timeval_payload :
    (tv : Timeval) (rest : Bytes)
    → tv.tv_sec < 2 ^ 32
    → tv.tv_usec < 2 ^ 32
    → timeval_numbers (timeval_payload tv ++ rest) (length (timeval_payload tv)) ≡ some tv
unfolding timeval_numbers timeval_payload
numbers-timeval_payload tv rest secs usecs =
    let sec = encode_int_internal 4 tv.tv_sec in
    let usec = encode_int_internal 4 tv.tv_usec in
    let c = code32 tv.tv_sec secs in
    let d = code32 tv.tv_usec usecs in
    let a = take sec.1 sec.0 in
    let b = take usec.1 usec.0 in
    let first = decode_int-IsCode 32 8 tv.tv_sec sec (b ++ rest) (omega arith) c in
    let second =
      ap (decode_int_internal 32 8 (a ++ (b ++ rest))) (sym (code_length sec c))
      ∙ decode_int_internal-drop 32 8 a (b ++ rest)
      ∙ decode_int-IsCode 32 8 tv.tv_usec usec rest (omega arith) d in
    rw (append_assoc a b rest) (ground (arith, first, second, length-timeval_payload tv secs usecs))

-- A timeval whose fields fit 32 bits, marshalled under a tag, is read back by
-- evtag_unmarshal_timeval with that tag, and exactly the record is drained.
pub unmarshal_timeval-marshal_timeval :
    (tag : ℕ) (tv : Timeval) (rest : Bytes)
    → tag < 2 ^ 32
    → tv.tv_sec < 2 ^ 32
    → tv.tv_usec < 2 ^ 32
    → evtag_unmarshal_timeval (evtag_marshal_timeval [] tag tv ++ rest) tag ≡ ok tv rest
unfolding evtag_unmarshal_timeval timeval_result
unmarshal_timeval-marshal_timeval tag tv rest small secs usecs =
    let payload = timeval_payload tv in
    let size = length-timeval_payload tv secs usecs in
    let c = code32 tv.tv_sec secs in
    let d = code32 tv.tv_usec usecs in
    let short : length payload < 2 ^ 31 = omega (arith, size, c.used, c.fits, d.used, d.fits) in
    rw
      (
        timeval_marshalled tag tv,
        mod-eq_of_lt secs,
        mod-eq_of_lt usecs,
        header-marshal tag payload rest small (omega arith),
      )
      (ground (arith, numbers-timeval_payload tv rest secs usecs, drop-append payload rest))
