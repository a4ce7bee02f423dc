-- ===== src/Http/Tests.antt =====
-- Texts of http.c at concrete values.
use libevent_linux.Prelude.{◌≡◌, refl, true, none, some, [], ◌∷◌, arith, length, ◌++◌, ◌+◌}
use libevent_linux.Http.Uri.{
  Text, encode_char, evhttp_uriencode, evhttp_decode_uri_internal, all_plus, after_question_mark,
}
use libevent_linux.Http.UriLaws.{decode-uriencode}
use libevent_linux.Http.Html.{evhttp_htmlescape, Escapes, IsSafe, htmlescape-escaped}

-- `a b?`, a byte 255, NUL and `c`.
abbrev text : Text
text = 97 ∷ 32 ∷ 98 ∷ 63 ∷ 255 ∷ 0 ∷ 99 ∷ []

-- `a+b%3F%FF`.
encode_text : evhttp_uriencode text none true ≡ 97 ∷ 43 ∷ 98 ∷ 37 ∷ 51 ∷ 70 ∷ 37 ∷ 70 ∷ 70 ∷ []
unfolding evhttp_uriencode encode_char
encode_text = refl

-- `+?+%4g` is read as `+? %4g`.
decode_plus :
    evhttp_decode_uri_internal (43 ∷ 63 ∷ 43 ∷ 37 ∷ 52 ∷ 103 ∷ []) after_question_mark
    ≡ some (43 ∷ 63 ∷ 32 ∷ 37 ∷ 52 ∷ 103 ∷ [])
unfolding evhttp_decode_uri_internal
decode_plus = refl

decode-uriencode_example :
    evhttp_decode_uri_internal (evhttp_uriencode text none true) all_plus
    ≡ some (97 ∷ 32 ∷ 98 ∷ 63 ∷ 255 ∷ [])
decode-uriencode_example =
    decode-uriencode text none true all_plus
      (
        omega arith,
        (
          omega arith,
          (omega arith, (omega arith, (omega arith, (omega arith, (omega arith, tt))))),
        ),
      )
      (λ _. refl) (omega arith)

-- `a<b&`.
abbrev html : Text
html = 97 ∷ 60 ∷ 98 ∷ 38 ∷ []

escaped_html :
    evhttp_htmlescape html true
    ≡ some (12, 97 ∷ 38 ∷ 108 ∷ 116 ∷ 59 ∷ 98 ∷ 38 ∷ 97 ∷ 109 ∷ 112 ∷ 59 ∷ 0 ∷ [])
unfolding evhttp_htmlescape
escaped_html = refl

htmlescape-escaped_example :
    (t : Text) × (evhttp_htmlescape html true ≡ some (length t + 1, t ++ 0 ∷ []))
    × Escapes html t
    × IsSafe t
htmlescape-escaped_example = htmlescape-escaped html (omega arith)
