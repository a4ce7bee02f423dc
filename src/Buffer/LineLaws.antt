-- ===== src/Buffer/LineLaws.antt =====
-- Where lines end in a buffer (buffer.c), against the ends of lines in its list of bytes.
use mathlib.Core.Path.{subst}
use libevent_linux.Prelude.{
  ℕ, zero, suc, ◌+◌, ◌-◌, ◌≤◌, ◌<◌, ◌≡◌, refl, sym, ap, ◌∙◌, Bool, false, ◌&&◌, Option, none, some,
  length, get_elem?, take, drop, ltb, leb, ◌==◌, if◌then◌else◌, if_true, if_false, Bool-cases,
  Option-cases, inl, inr, arith,
}
use libevent_linux.Buffer.Chain.{Bytes}
use libevent_linux.Buffer.State.{Evbuffer, contents_of}
use libevent_linux.Buffer.Invariant.{IsChains, off_at}
use libevent_linux.Buffer.Remove.{EvbufferPtr}
use libevent_linux.Buffer.RemoveLaws.{IsChains-drop}
use libevent_linux.Buffer.Search.{
  EolStyle, eol_any, eol_crlf, eol_lf, eol_nul, is_eol, find_index, span, find_eol_char,
  evbuffer_strchr, evbuffer_find_eol_char, evbuffer_strspn, ptr_set, evbuffer_ptr_set,
  evbuffer_ptr_subtract, before_lf, search_from, evbuffer_search_eol,
}
use libevent_linux.Buffer.SearchLaws.{
  Found, missing, found, find_eol_char-index, search_chains-Found, find_index-below,
}
use libevent_linux.Buffer.PlaceLaws.{
  IsPlace, getchr-contents, place-drop, walk-IsPlace, strspn-span,
}

-- Whether the byte before the line feed at an index is a carriage return.
abbrev pub cr_before : Bytes → ℕ → Bool
cr_before bs zero = false
cr_before bs (suc k) = elim (get_elem? bs k) [ none ↦ false | some c ↦ c == 13 ]

-- Where a line ends, and how many bytes end it: CRs and LFs; LF with or without CR; LF; NUL.
abbrev pub line_end : EolStyle → Bytes → Option (ℕ × ℕ)
line_end eol_any bs = elim (find_index is_eol bs) [
  | none ↦ none
  | some k ↦ some (k, span is_eol (drop k bs))
]
line_end eol_crlf bs = elim (find_index (λ c. c == 10) bs) [
  | none ↦ none
  | some k ↦ some (if cr_before bs k then (k - 1, 2) else (k, 1))
]
line_end eol_lf bs = elim (find_index (λ c. c == 10) bs) [ none ↦ none | some k ↦ some (k, 1) ]
line_end eol_nul bs = elim (find_index (λ c. c == 0) bs) [ none ↦ none | some k ↦ some (k, 1) ]

-- The position and the length that a search gives.
abbrev pub positions : Option (EvbufferPtr × ℕ) → Option (ℕ × ℕ)
positions none = none
positions (some (it, extra_drain)) = some (it.pos, extra_drain)

abbrev start : EvbufferPtr
start = record { pos = 0; chain = 0; pos_in_chain = 0 }

module _ (buf : Evbuffer) (v : IsChains buf.chains) where
  abbrev bs : Bytes
  bs = contents_of buf.chains

  byte_search : (chr : ℕ) → Found (λ c. c == chr) buf.chains 0 0 (evbuffer_strchr buf start chr)
  unfolding evbuffer_strchr
  byte_search chr =
      search_chains-Found (find_index (λ c. c == chr)) (λ c. c == chr) buf.chains 0 0 (λ s. refl) v

  eol_search : Found is_eol buf.chains 0 0 (evbuffer_find_eol_char buf start)
  unfolding evbuffer_find_eol_char
  eol_search = search_chains-Found find_eol_char is_eol buf.chains 0 0 find_eol_char-index v

  one_byte :
      (p : ℕ → Bool) (r : Option EvbufferPtr)
      → Found p buf.chains 0 0 r
      → positions (elim r [ none ↦ none | some it ↦ some (it, 1) ])
        ≡ elim (find_index p bs) as (λ _. Option (ℕ × ℕ)) [ none ↦ none | some k ↦ some (k, 1) ]
  one_byte p none (missing nowhere) = rw nowhere refl
  one_byte p (some it) (found _ k j here at_pos at_chain index inside) =
      let same : it.pos ≡ k = omega (arith, at_pos) in rw (here, same) refl

  found-IsPlace :
      (it : EvbufferPtr) (k j : ℕ)
      → it.chain ≡ 0 + j
      → k ≡ length (contents_of (take j buf.chains)) + it.pos_in_chain
      → it.pos_in_chain < off_at (drop j buf.chains) 0
      → IsPlace buf.chains k it.chain it.pos_in_chain
  found-IsPlace it k j at_chain index inside =
      subst (λ chain. IsPlace buf.chains k chain it.pos_in_chain) (omega (arith, at_chain))
        (record { at = index; within = inside })

  any_length :
      (it : EvbufferPtr) (k : ℕ)
      → IsPlace buf.chains k it.chain it.pos_in_chain
      → evbuffer_strspn buf it is_eol ≡ span is_eol (drop k bs)
  unfolding evbuffer_strspn
  any_length it k place =
      strspn-span is_eol (drop it.chain buf.chains) it.pos_in_chain
        (IsChains-drop it.chain buf.chains v) (omega (arith, place.within))
      ∙ ap (span is_eol) (sym (place-drop buf.chains k it.chain it.pos_in_chain place))

  -- One byte back from a place is the place of the byte before.
  subtract-IsPlace :
      (it : EvbufferPtr) (k : ℕ)
      → it.pos ≡ suc k
      → suc k < length bs
      → IsPlace buf.chains (suc k) it.chain it.pos_in_chain
      → (it2 : EvbufferPtr) × (evbuffer_ptr_subtract buf it 1 ≡ some it2)
        × (it2.pos ≡ k)
        × IsPlace buf.chains k it2.chain it2.pos_in_chain
  unfolding evbuffer_ptr_subtract evbuffer_ptr_set
  subtract-IsPlace it k at_pos below place =
      let far : ltb it.pos 1 ≡ false = ground (arith, at_pos) in
      let near = ltb it.chain (length buf.chains) && leb 1 it.pos_in_chain in
      elim (Bool-cases near) [
        | inl same_chain ↦
            let some_bytes : 1 ≤ it.pos_in_chain = ground (arith, same_chain) in
            (
              record it { pos = it.pos - 1; pos_in_chain = it.pos_in_chain - 1 },
              if_false _ _ _ far ∙ if_true _ _ _ same_chain,
              omega (arith, at_pos),
              record {
                at = omega (arith, place.at, some_bytes);
                within = omega (arith, place.within);
              },
            )
        | inr other_chain ↦
            let (it2, chain, walked, same, number, place2) =
              walk-IsPlace buf.chains 0 k k v (omega (arith, below)) in
            let back : it.pos - 1 ≡ k = omega (arith, at_pos) in
            (
              it2,
              if_false _ _ _ far
                  ∙ if_false _ _ _ other_chain
                  ∙ ap (λ n. evbuffer_ptr_set buf it n ptr_set) back
                  ∙ walked,
              same,
              subst (λ c. IsPlace buf.chains k c it2.pos_in_chain) (omega (arith, number)) place2,
            )
      ]

  first_line_feed :
      (it : EvbufferPtr) → it.pos ≡ 0 → positions (some (before_lf buf 0 it)) ≡ some (0, 1)
  first_line_feed it at_pos = rw at_pos refl

  crlf_length :
      (it : EvbufferPtr) (k : ℕ)
      → it.pos ≡ k
      → k < length bs
      → IsPlace buf.chains k it.chain it.pos_in_chain
      → positions (some (before_lf buf 0 it)) ≡ some (if cr_before bs k then (k - 1, 2) else (k, 1))
  crlf_length it zero at_pos below place = first_line_feed it at_pos
  crlf_length it (suc k) at_pos below place =
      let (it2, back, at_pos2, place2) = subtract-IsPlace it k at_pos below place in
      let char = getchr-contents buf it2 k v place2 in
      let not_first : (it.pos == 0) ≡ false = ground (arith, at_pos) in
      let one_less : k ≡ suc k - 1 = omega arith in
      elim (Option-cases (get_elem? bs k)) [
        | inl out ↦ rw (not_first, back, char ∙ out, cr_before, out) (ap (λ n. some (n, 1)) at_pos)
        | inr (c, here) ↦ elim (Bool-cases (c == 13)) [
          | inl cr ↦
              rw (not_first, back, char ∙ here, cr_before, here, cr)
                (ap (λ n. some (n, 2)) (at_pos2 ∙ one_less))
          | inr other ↦
              rw (not_first, back, char ∙ here, cr_before, here, other)
                (ap (λ n. some (n, 1)) at_pos)
        ]
      ]

  crlf_search :
      (r : Option EvbufferPtr)
      → Found (λ c. c == 10) buf.chains 0 0 r
      → positions (elim r [ none ↦ none | some it ↦ some (before_lf buf 0 it) ])
        ≡ line_end eol_crlf bs
  crlf_search none (missing nowhere) = rw (nowhere, line_end) refl
  crlf_search (some it) (found _ k j here at_pos at_chain index inside) =
      let below = find_index-below (λ c. c == 10) bs k here in
      crlf_length it k (omega (arith, at_pos)) below (found-IsPlace it k j at_chain index inside)
      ∙ sym (rw (here, line_end) refl)

  any_search :
      (r : Option EvbufferPtr)
      → Found is_eol buf.chains 0 0 r
      → positions (elim r [ none ↦ none | some it ↦ some (it, evbuffer_strspn buf it is_eol) ])
        ≡ line_end eol_any bs
  any_search none (missing nowhere) = rw (nowhere, line_end) refl
  any_search (some it) (found _ k j here at_pos at_chain index inside) =
      let same : it.pos ≡ k = omega (arith, at_pos) in
      let ended = any_length it k (found-IsPlace it k j at_chain index inside) in
      rw (ended, here, same, line_end) refl

  pub search_eol-line_end :
      (eol_style : EolStyle)
      → positions (evbuffer_search_eol buf none eol_style) ≡ line_end eol_style bs
  unfolding evbuffer_search_eol search_from
  search_eol-line_end eol_any = any_search (evbuffer_find_eol_char buf start) eol_search
  search_eol-line_end eol_crlf = crlf_search (evbuffer_strchr buf start 10) (byte_search 10)
  search_eol-line_end eol_lf =
      one_byte (λ c. c == 10) (evbuffer_strchr buf start 10) (byte_search 10)
  search_eol-line_end eol_nul = one_byte (λ c. c == 0) (evbuffer_strchr buf start 0) (byte_search 0)
