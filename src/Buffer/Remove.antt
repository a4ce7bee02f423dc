-- ===== src/Buffer/Remove.antt =====
-- evbuffer_drain, evbuffer_copyout_from and evbuffer_remove of buffer.c.
use libevent_linux.Prelude.{
  ℕ, ◌+◌, ◌-◌, ◌%◌, ◌^◌, min, Bool, true, false, Option, none, some, List, [], ◌∷◌, ◌++◌, length,
  take, drop, ltb, leb, ◌==◌, if◌then◌else◌,
}
use libevent_linux.Buffer.Chain.{Bytes, Chain, take_start}
use libevent_linux.Buffer.State.{Evbuffer, evbuffer_invoke_callbacks, zero_chain}

abbrev pub shrunk : Evbuffer → ℕ → Evbuffer
shrunk buf n = record buf { n_del_for_cb = (buf.n_del_for_cb + n) % 2 ^ 64 }

-- The loop of evbuffer_drain, with `last_with_datap` counted from the chain that it looks at. The C
-- code never reaches the end of the chains.
abbrev pub drain_chains : ℕ → List Chain → ℕ → List Chain × ℕ
drain_chains remaining [] last = ([], last)
drain_chains remaining (chain ∷ chains) last =
    let rest = drain_chains (remaining - chain.off) chains (last - 1) in
    if leb chain.off remaining then rest else (take_start remaining chain ∷ chains, last)

unfoldable pub evbuffer_drain : Evbuffer → ℕ → Bool × Evbuffer
evbuffer_drain buf len =
    let (chains, last) = drain_chains len buf.chains buf.last_with_datap in
    let drained = record buf {
      chains = chains;
      last_with_datap = last;
      total_len = buf.total_len - len;
    } in
    if buf.total_len == 0
    then (true, buf)
    else if buf.freeze_start
    then (false, buf)
    else if leb buf.total_len len
    then (true, evbuffer_invoke_callbacks (shrunk (zero_chain buf) buf.total_len))
    else (true, evbuffer_invoke_callbacks (shrunk drained len))

-- struct evbuffer_ptr: a position in the data, and the number of its chain and the place there.
pub record EvbufferPtr : Type 0 where
  pub pos : ℕ
  pub chain : ℕ
  pub pos_in_chain : ℕ

abbrev pub copy_chains : ℕ → ℕ → List Chain → Bytes
copy_chains datlen pos_in_chain [] = []
copy_chains datlen pos_in_chain (chain ∷ chains) =
    let copylen = chain.off - pos_in_chain in
    let data_out = drop (chain.misalign + pos_in_chain) chain.buffer in
    let rest = copy_chains (datlen - copylen) 0 chains in
    if datlen == 0
    then []
    else if leb copylen datlen
    then take copylen data_out ++ rest
    else take datlen data_out

-- The bytes written to `data_out`, whose number is the result; `none` is the result -1.
abbrev pub copyout_at : Evbuffer → ℕ → ℕ → List Chain → Option Bytes
copyout_at buf datlen pos_in_chain chains =
    if datlen == 0
    then some []
    else if buf.freeze_start
    then none
    else some (copy_chains datlen pos_in_chain chains)

unfoldable pub evbuffer_copyout_from : Evbuffer → Option EvbufferPtr → ℕ → Option Bytes
evbuffer_copyout_from buf none datlen = copyout_at buf (min datlen buf.total_len) 0 buf.chains
evbuffer_copyout_from buf (some p) datlen =
    if ltb (2 ^ 63 - 1 - p.pos) datlen
    then none
    else copyout_at buf
        (if ltb buf.total_len (datlen + p.pos) then buf.total_len - p.pos else datlen)
        p.pos_in_chain (drop p.chain buf.chains)

unfoldable pub evbuffer_copyout : Evbuffer → ℕ → Option Bytes
unfolding evbuffer_copyout_from
evbuffer_copyout buf datlen = evbuffer_copyout_from buf none datlen

-- The copy and the drain of evbuffer_remove: the bytes written, `none` for -1, and the buffer.
unfoldable pub remove_bytes : Evbuffer → ℕ → Option Bytes × Evbuffer
remove_bytes buf datlen = elim (evbuffer_copyout_from buf none datlen) [
  | none ↦ (none, buf)
  | some data_out ↦
      let (done, buf') = evbuffer_drain buf (length data_out) in
      if length data_out == 0
      then (some [], buf)
      else if done
      then (some data_out, buf')
      else (none, buf')
]

-- A conversion to `int`, as a word of 32 bits: 2 ^ 32 - 1 is -1.
abbrev pub to_int : Option ℕ → ℕ
to_int none = 2 ^ 32 - 1
to_int (some n) = n % 2 ^ 32

abbrev pub length_or_none : Option Bytes → Option ℕ
length_or_none none = none
length_or_none (some data_out) = some (length data_out)

-- The result, the bytes written to `data_out`, and the buffer. `return (int)n` cuts the number.
unfoldable pub evbuffer_remove : Evbuffer → ℕ → ℕ × (Option Bytes × Evbuffer)
unfolding remove_bytes
evbuffer_remove buf datlen = let r = remove_bytes buf datlen in (to_int (length_or_none r.0), r)
