-- ===== src/Tagging/Tests.antt =====
-- The codes of event_tagging.c at concrete values.
use libevent_linux.Prelude.{◌≡◌, ◌↔◌, refl, [], ◌∷◌, ◌++◌, arith}
use libevent_linux.Time.{Timeval}
use libevent_linux.Tagging.{
  Bytes, overread, ok, error, evtag_encode_int, evtag_encode_tag, evtag_decode_int,
  evtag_decode_tag, decode_tag_internal,
}
use libevent_linux.Tagging.TagCode.{IsOverlong, decode_tag_internal-overread}
use libevent_linux.Tagging.Record.{
  evtag_marshal, evtag_unmarshal, evtag_unmarshal_fixed, evtag_unmarshal_string,
}
use libevent_linux.Tagging.Marshal.{decode_int-encode_int, decode_tag-encode_tag, unmarshal-marshal}

-- Seven bits a byte, the lowest first: the tag 0x166 takes two bytes.
tag_0x166 : evtag_encode_tag [] 0x166 ≡ (0xe6 ∷ 0x02 ∷ [], 2)
unfolding evtag_encode_tag
tag_0x166 = refl

int_0x1234 : evtag_encode_int [] 0x1234 ≡ 0x34 ∷ 0x32 ∷ 0x10 ∷ []
unfolding evtag_encode_int
int_0x1234 = refl

decode_0x1234 : evtag_decode_int (0x34 ∷ 0x32 ∷ 0x10 ∷ 9 ∷ []) ≡ ok 0x1234 (9 ∷ [])
unfolding evtag_decode_int
decode_0x1234 = refl

truncated_int : evtag_decode_int (0x34 ∷ 0x23 ∷ []) ≡ error (0x34 ∷ 0x23 ∷ [])
unfolding evtag_decode_int
truncated_int = refl

wrong_length : evtag_unmarshal_fixed (evtag_marshal [] 7 (1 ∷ 2 ∷ [])) 7 3 ≡ error (1 ∷ 2 ∷ [])
unfolding evtag_unmarshal_fixed evtag_marshal
wrong_length = refl

string_hi :
    evtag_unmarshal_string (evtag_marshal [] 7 (104 ∷ 105 ∷ []) ++ 1 ∷ []) 7
    ≡ ok (104 ∷ 105 ∷ []) (1 ∷ [])
unfolding evtag_unmarshal_string evtag_marshal
string_hi = refl

abbrev after : Bytes
after = 1 ∷ 2 ∷ []

abbrev overlong : Bytes
overlong = 0x80 ∷ 0x80 ∷ 0x80 ∷ 0x80 ∷ 0x8f ∷ 0x01 ∷ []

decode_int-encode_int_example :
    evtag_decode_int (evtag_encode_int [] 0xabcde ++ after) ≡ ok 0xabcde after
decode_int-encode_int_example = decode_int-encode_int 0xabcde after (omega arith)

decode_tag-encode_tag_example :
    let (code, bytes) = evtag_encode_tag [] 0x166 in
    evtag_decode_tag (code ++ after) ≡ ok (0x166, bytes) after
decode_tag-encode_tag_example = decode_tag-encode_tag 0x166 after (omega arith)

decode_tag_internal-overread_example :
    (decode_tag_internal overlong ≡ overread) ↔ IsOverlong overlong
decode_tag_internal-overread_example = decode_tag_internal-overread overlong

unmarshal-marshal_example :
    evtag_unmarshal (evtag_marshal [] 300 (5 ∷ 6 ∷ []) ++ after) (9 ∷ [])
    ≡ ok (300, 2, 9 ∷ 5 ∷ 6 ∷ []) after
unmarshal-marshal_example =
    unmarshal-marshal 300 (5 ∷ 6 ∷ []) after (9 ∷ []) (omega arith) (omega arith)

abbrev noon : Timeval
noon = record { tv_sec = 43200; tv_usec = 250000 }
