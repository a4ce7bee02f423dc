-- ===== src/Buffer/Split.antt =====
-- evbuffer_remove_buffer of buffer.c: the first bytes of one buffer are moved to the end of
-- another, by whole chains as far as they go. The two buffers are different: of a buffer and itself
-- the C function changes nothing and returns 0.
use libevent_linux.Prelude.{
  ℕ, ◌+◌, ◌-◌, Bool, ◌||◌, none, some, List, [], ◌∷◌, ◌++◌, length, drop, take, leb, ◌==◌,
  if◌then◌else◌,
}
use libevent_linux.Buffer.Chain.{Chain, take_start}
use libevent_linux.Buffer.State.{
  Evbuffer, evbuffer_invoke_callbacks, evbuffer_free_trailing_empty_chains, bytes_of_first,
}
use libevent_linux.Buffer.Add.{grown, evbuffer_add}
use libevent_linux.Buffer.Remove.{shrunk, to_int}
use libevent_linux.Buffer.Move.{evbuffer_add_buffer}

-- The loop over the chains that are moved as a whole: those, the others, and `last_with_datap`
-- counted from the others.
abbrev pub split_chains : ℕ → List Chain → ℕ → List Chain × (List Chain × ℕ)
split_chains datlen [] last = ([], ([], last))
split_chains datlen (chain ∷ chains) last =
    let (taken, left) = split_chains (datlen - chain.off) chains (last - 1) in
    if leb chain.off datlen then (chain ∷ taken, left) else ([], (chain ∷ chains, last))

-- `nread` after that loop.
abbrev pub total_off : List Chain → ℕ
total_off [] = 0
total_off (chain ∷ chains) = chain.off + total_off chains

-- The loop of advance_last_with_data: the number of the last chain with data, of those from number
-- `i` on, or else `best`.
abbrev pub furthest : ℕ → ℕ → List Chain → ℕ
furthest i best [] = best
furthest i best (chain ∷ chains) = furthest (i + 1) (if chain.off == 0 then best else i) chains

unfoldable pub advance_last_with_data : Evbuffer → Evbuffer
advance_last_with_data buf =
    let next = buf.last_with_datap + 1 in
    if leb (length buf.chains) buf.last_with_datap
    then buf
    else record buf { last_with_datap = furthest next buf.last_with_datap (drop next buf.chains) }

abbrev pub link_chains : Evbuffer → List Chain → Evbuffer
link_chains dst [] = dst
link_chains dst (chain ∷ taken) =
    let kept = evbuffer_free_trailing_empty_chains dst in
    grown (advance_last_with_data (record dst { chains = kept ++ chain ∷ taken }))
      (total_off (chain ∷ taken))

-- The first chain that stays gives `datlen` bytes.
abbrev pub cut_first : ℕ → List Chain → List Chain
cut_first datlen [] = []
cut_first datlen (chain ∷ chains) = take_start datlen chain ∷ chains

-- The result as a 32-bit word, to which `(int)datlen` cuts it, and the two buffers, `src` the first.
unfoldable pub evbuffer_remove_buffer :
    Evbuffer → Evbuffer → ℕ → Bool → Bool → ℕ × (Evbuffer × Evbuffer)
evbuffer_remove_buffer src dst datlen memory memory' =
    let (taken, (left, last)) = split_chains datlen src.chains src.last_with_datap in
    let rest = datlen - total_off taken in
    let (added, dst') =
      evbuffer_add (link_chains dst taken) (take rest (bytes_of_first left)) memory memory' in
    let src' = record src {
      chains = cut_first rest left;
      last_with_datap = last;
      total_len = src.total_len - datlen;
    } in
    if datlen == 0
    then (0, (src, dst))
    else if dst.freeze_end || src.freeze_start
    then (to_int none, (src, dst))
    else if leb src.total_len datlen
    then (to_int (some src.total_len), (evbuffer_add_buffer dst src).1)
    else (
      to_int (some datlen),
      (evbuffer_invoke_callbacks (shrunk src' datlen), evbuffer_invoke_callbacks dst'),
    )
