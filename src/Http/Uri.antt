-- ===== src/Http/Uri.antt =====
-- evhttp_uriencode and evhttp_decode_uri_internal of http.c. A string is the list of its bytes; the
-- evbuffer in which evhttp_uriencode collects its result is the list of its bytes, and memory is
-- given.
use libevent_linux.Prelude.{
  ℕ, ◌+◌, ◌-◌, ◌*◌, ◌/◌, ◌%◌, ◌^◌, Bool, true, false, ◌&&◌, ◌||◌, Option, none, some, List, [], ◌∷◌,
  ◌++◌, length, take, ltb, leb, ◌==◌, if◌then◌else◌,
}

abbrev pub Text : Type 0
Text = List ℕ

-- The ones of the table `uri_chars`: - . 0-9 A-Z _ a-z ~.
abbrev pub char_is_unreserved : ℕ → Bool
char_is_unreserved c =
    c == 45
    || c == 46
    || leb 48 c && leb c 57
    || leb 65 c && leb c 90
    || c == 95
    || leb 97 c && leb c 122
    || c == 126

-- A digit of `%02X`.
abbrev pub hex_digit : ℕ → ℕ
hex_digit n = if ltb n 10 then 48 + n else 55 + n

-- What one round of evhttp_uriencode adds.
unfoldable pub encode_char : Bool → ℕ → Text
encode_char space_as_plus c =
    if char_is_unreserved c
    then c ∷ []
    else if c == 32 && space_as_plus
    then 43 ∷ []
    else 37 ∷ hex_digit (c / 16) ∷ hex_digit (c % 16) ∷ []

abbrev pub encode_loop : Bool → Text → Text → Text
encode_loop space_as_plus [] buf = buf
encode_loop space_as_plus (c ∷ s) buf =
    encode_loop space_as_plus s (buf ++ encode_char space_as_plus c)

-- The bytes before the first NUL.
abbrev pub c_string : Text → Text
c_string [] = []
c_string (c ∷ s) = if c == 0 then [] else c ∷ c_string s

-- `len` is `none` for a negative number. The NUL behind the result is left out.
unfoldable pub evhttp_uriencode : Text → Option ℕ → Bool → Text
evhttp_uriencode uri none space_as_plus = encode_loop space_as_plus (c_string uri) []
evhttp_uriencode uri (some len) space_as_plus = encode_loop space_as_plus (take len uri) []

-- `decode_plus_ctl`: 0, 1, or a negative number.
pub data DecodePlus : Type 0 where
  no_plus : DecodePlus
  all_plus : DecodePlus
  after_question_mark : DecodePlus

abbrev pub is_all : DecodePlus → Bool
is_all all_plus = true
is_all _ = false

abbrev pub is_after : DecodePlus → Bool
is_after after_question_mark = true
is_after _ = false

-- EVUTIL_ISXDIGIT_.
abbrev pub isxdigit : ℕ → Bool
isxdigit c = leb 48 c && leb c 57 || leb 65 c && leb c 70 || leb 97 c && leb c 102

-- The value that strtol gives to a digit in base 16.
abbrev pub hex_value : ℕ → ℕ
hex_value c = if leb c 57 then c - 48 else if leb c 70 then c - 55 else c - 87

-- A byte that is not the start of an escape, and `decode_plus` after it.
abbrev pub plain : DecodePlus → Bool → ℕ → ℕ × Bool
plain ctl decode_plus c =
    if c == 63
    then (c, is_after ctl || decode_plus)
    else if c == 43 && decode_plus
    then (32, decode_plus)
    else (c, decode_plus)

-- The loop of evhttp_decode_uri_internal; what it reads is the rest of the string.
abbrev pub decode_loop : DecodePlus → Bool → Text → Text
decode_loop ctl decode_plus [] = []
decode_loop ctl decode_plus (c ∷ []) = (plain ctl decode_plus c).0 ∷ []
decode_loop ctl decode_plus (c ∷ a ∷ []) =
    let (c', next) = plain ctl decode_plus c in c' ∷ decode_loop ctl next (a ∷ [])
decode_loop ctl decode_plus (c ∷ a ∷ b ∷ s) =
    let (c', next) = plain ctl decode_plus c in
    let one = decode_loop ctl next (a ∷ b ∷ s) in
    let three = decode_loop ctl decode_plus s in
    if c == 37 && isxdigit a && isxdigit b
    then (hex_value a * 16 + hex_value b) ∷ three
    else c' ∷ one

-- The bytes that are written to `ret`, but for the NUL; their number is the result. `none` is an
-- overflow: the counter `i` is an `unsigned`, so that `i + 2` or `i` itself wraps around in a longer
-- string, and the counter `j` of what is written an `int`.
unfoldable pub evhttp_decode_uri_internal : Text → DecodePlus → Option Text
evhttp_decode_uri_internal uri decode_plus_ctl =
    let ret = decode_loop decode_plus_ctl (is_all decode_plus_ctl) uri in
    if ltb (2 ^ 32 - 2) (length uri) || ltb (2 ^ 31 - 1) (length ret) then none else some ret
