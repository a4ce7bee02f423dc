-- ===== src/Buffer/Search.antt =====
-- Lines in a buffer: evbuffer_strchr, evbuffer_find_eol_char, evbuffer_strspn, evbuffer_getchr,
-- evbuffer_ptr_set, evbuffer_ptr_subtract, evbuffer_search_eol and evbuffer_readln of buffer.c. A
-- pointer whose chain is NULL has the number of all chains. EVBUFFER_EOL_CRLF_STRICT, which calls
-- evbuffer_search, is left out.
use libevent_linux.Prelude.{
  ℕ, zero, suc, ◌+◌, ◌-◌, ◌^◌, Bool, not, ◌&&◌, ◌||◌, Option, none, some, List, [], ◌∷◌, length,
  get_elem?, take, drop, ltb, leb, ◌==◌, if◌then◌else◌,
}
use libevent_linux.Buffer.Chain.{Bytes, Chain, bytes}
use libevent_linux.Buffer.State.{Evbuffer}
use libevent_linux.Buffer.Remove.{EvbufferPtr, evbuffer_remove, evbuffer_drain}

-- enum evbuffer_eol_style.
pub data EolStyle : Type 0 where
  eol_any : EolStyle
  eol_crlf : EolStyle
  eol_lf : EolStyle
  eol_nul : EolStyle

abbrev pub is_eol : ℕ → Bool
is_eol c = c == 13 || c == 10

-- The index of the first byte with a property. memchr is that of a byte.
abbrev pub find_index : (ℕ → Bool) → Bytes → Option ℕ
find_index p [] = none
find_index p (c ∷ s) =
    let rest : Option ℕ = elim (find_index p s) [ none ↦ none | some k ↦ some (suc k) ] in
    if p c then some 0 else rest

abbrev pub memchr : ℕ → Bytes → Option ℕ
memchr chr s = find_index (λ c. c == chr) s

-- The earlier one of the first CR and the first LF of a chunk.
abbrev pub earlier : Option ℕ → Option ℕ → Option ℕ
earlier none lf = lf
earlier (some cr) none = some cr
earlier (some cr) (some lf) = if ltb lf cr then some lf else some cr

-- What one round gives: a place in its chunk, or what is found later.
abbrev pub chunk_or : ℕ → Option ℕ → Option ℕ → Option ℕ
chunk_or done none rest = rest
chunk_or done (some k) rest = some (done + k)

-- CHUNK_SZ is 128. Each round takes a chunk, so that the length is enough fuel.
unfoldable pub find_eol_loop : ℕ → Bytes → ℕ → Option ℕ
find_eol_loop zero s done = none
find_eol_loop (suc fuel) s done =
    let rest = find_eol_loop fuel (drop 128 s) (done + 128) in
    if length s == 0
    then none
    else chunk_or done (earlier (memchr 13 (take 128 s)) (memchr 10 (take 128 s))) rest

unfoldable pub find_eol_char : Bytes → Option ℕ
unfolding find_eol_loop
find_eol_char s = find_eol_loop (length s) s 0

-- The loop of evbuffer_strchr and of evbuffer_find_eol_char, over the chains from number `chain`
-- on; `search` is memchr or find_eol_char.
abbrev pub search_chains : (Bytes → Option ℕ) → List Chain → ℕ → ℕ → ℕ → Option EvbufferPtr
search_chains search [] chain i pos = none
search_chains search (c ∷ cs) chain i pos = elim (search (drop i (bytes c))) [
  | some k ↦ some (record { pos = pos + k; chain = chain; pos_in_chain = i + k })
  | none ↦ search_chains search cs (suc chain) 0 (pos + (c.off - i))
]

unfoldable pub evbuffer_strchr : Evbuffer → EvbufferPtr → ℕ → Option EvbufferPtr
evbuffer_strchr buf it chr =
    search_chains (memchr chr) (drop it.chain buf.chains) it.chain it.pos_in_chain it.pos

unfoldable pub evbuffer_find_eol_char : Evbuffer → EvbufferPtr → Option EvbufferPtr
unfolding find_eol_char
evbuffer_find_eol_char buf it =
    search_chains find_eol_char (drop it.chain buf.chains) it.chain it.pos_in_chain it.pos

-- How many bytes at the front have a property.
abbrev pub span : (ℕ → Bool) → Bytes → ℕ
span p [] = 0
span p (c ∷ s) = if p c then suc (span p s) else 0

abbrev pub strspn_chains : (ℕ → Bool) → List Chain → ℕ → ℕ
strspn_chains p [] i = 0
strspn_chains p (c ∷ cs) i =
    let n = span p (drop i (bytes c)) in if ltb (i + n) c.off then n else n + strspn_chains p cs 0

-- The set of characters is a property of bytes. Only the number is used.
unfoldable pub evbuffer_strspn : Evbuffer → EvbufferPtr → (ℕ → Bool) → ℕ
evbuffer_strspn buf it p = strspn_chains p (drop it.chain buf.chains) it.pos_in_chain

-- `none` is -1.
unfoldable pub evbuffer_getchr : Evbuffer → EvbufferPtr → Option ℕ
evbuffer_getchr buf it = elim (get_elem? buf.chains it.chain) [
  | none ↦ none
  | some c ↦ get_elem? c.buffer (c.misalign + it.pos_in_chain)
]

-- The loop of evbuffer_ptr_set, from the start of a chain.
abbrev pub walk : List Chain → ℕ → ℕ → ℕ → Option EvbufferPtr
walk [] chain left pos =
    if left == 0 then some (record { pos = pos; chain = chain; pos_in_chain = 0 }) else none
walk (c ∷ cs) chain left pos =
    let rest = walk cs (suc chain) (left - c.off) pos in
    if leb c.off left then rest else some (record { pos = pos; chain = chain; pos_in_chain = left })

-- enum evbuffer_ptr_how.
pub data EvbufferPtrHow : Type 0 where
  ptr_set : EvbufferPtrHow
  ptr_add : EvbufferPtrHow

-- The loop from inside a chain, whose number is `chain`: its first round, and then the others.
abbrev walk_from : List Chain → ℕ → ℕ → ℕ → ℕ → Option EvbufferPtr
walk_from [] chain position left pos = walk [] chain left pos
walk_from (c ∷ cs) chain position left pos =
    if leb c.off (position + left)
    then walk cs (suc chain) (left - (c.off - position)) pos
    else some (record { pos = pos; chain = chain; pos_in_chain = position + left })

-- `it` is a pointer that was found: its position is not -1. `none` is -1.
unfoldable pub evbuffer_ptr_set : Evbuffer → EvbufferPtr → ℕ → EvbufferPtrHow → Option EvbufferPtr
evbuffer_ptr_set buf it position ptr_set = walk buf.chains 0 position position
evbuffer_ptr_set buf it position ptr_add =
    if ltb (2 ^ 64 - 1 - position) it.pos
    then none
    else walk_from (drop it.chain buf.chains) it.chain it.pos_in_chain position (it.pos + position)

unfoldable pub evbuffer_ptr_subtract : Evbuffer → EvbufferPtr → ℕ → Option EvbufferPtr
unfolding evbuffer_ptr_set
evbuffer_ptr_subtract buf it howfar =
    let near = record it { pos = it.pos - howfar; pos_in_chain = it.pos_in_chain - howfar } in
    if ltb it.pos howfar
    then none
    else if ltb it.chain (length buf.chains) && leb howfar it.pos_in_chain
    then some near
    else evbuffer_ptr_set buf it (it.pos - howfar) ptr_set

-- The `case` of EVBUFFER_EOL_CRLF behind the search: the line feed at `it`, and a CR before it.
abbrev pub before_lf : Evbuffer → ℕ → EvbufferPtr → EvbufferPtr × ℕ
before_lf buf start_pos it =
    let backed : EvbufferPtr × ℕ = elim (evbuffer_ptr_subtract buf it 1) [
      | none ↦ (it, 1)
      | some it2 ↦ elim (evbuffer_getchr buf it2) [
        | none ↦ (it, 1)
        | some c ↦ if c == 13 then (it2, 2) else (it, 1)
      ]
    ] in
    if it.pos == start_pos then (it, 1) else backed

-- The `switch` of evbuffer_search_eol.
unfoldable pub search_from : Evbuffer → EvbufferPtr → EolStyle → Option (EvbufferPtr × ℕ)
search_from buf it eol_any = elim (evbuffer_find_eol_char buf it) [
  | none ↦ none
  | some it' ↦ some (it', evbuffer_strspn buf it' is_eol)
]
search_from buf it eol_crlf = elim (evbuffer_strchr buf it 10) [
  | none ↦ none
  | some it' ↦ some (before_lf buf it.pos it')
]
search_from buf it eol_lf = elim (evbuffer_strchr buf it 10) [
  | none ↦ none
  | some it' ↦ some (it', 1)
]
search_from buf it eol_nul = elim (evbuffer_strchr buf it 0) [
  | none ↦ none
  | some it' ↦ some (it', 1)
]

-- Where the line ends, and how many bytes end it; `start` is `none` for NULL. A start whose chain
-- is NULL finds nothing.
unfoldable pub evbuffer_search_eol :
    Evbuffer → Option EvbufferPtr → EolStyle → Option (EvbufferPtr × ℕ)
unfolding search_from
evbuffer_search_eol buf none eol_style =
    search_from buf (record { pos = 0; chain = 0; pos_in_chain = 0 }) eol_style
evbuffer_search_eol buf (some start) eol_style =
    if ltb start.chain (length buf.chains) then search_from buf start eol_style else none

-- The line, `none` for NULL; `memory` is the answer of mm_malloc. Its length is `*n_read_out`.
unfoldable pub evbuffer_readln : Evbuffer → EolStyle → Bool → Option Bytes × Evbuffer
unfolding evbuffer_search_eol evbuffer_remove evbuffer_drain
evbuffer_readln buf eol_style memory = elim (evbuffer_search_eol buf none eol_style) [
  | none ↦ (none, buf)
  | some (it, extra_drain) ↦
      let (n, (line, buf')) = evbuffer_remove buf it.pos in
      if buf.freeze_start || not memory
      then (none, buf)
      else (line, (evbuffer_drain buf' extra_drain).1)
]
