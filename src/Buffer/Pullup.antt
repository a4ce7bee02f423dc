-- ===== src/Buffer/Pullup.antt =====
-- evbuffer_remove_buffer and evbuffer_pullup of buffer.c: a part of a buffer is moved to another,
-- and the start of a buffer is brought into one chain.
use libevent_linux.Prelude.{
  ℕ, suc, ◌+◌, ◌-◌, Bool, true, false, ◌&&◌, ◌||◌, Option, none, some, List, [], ◌∷◌, ◌++◌, take,
  ltb, leb, ◌==◌, if◌then◌else◌,
}
use libevent_linux.Buffer.Chain.{Bytes, Chain, bytes, evbuffer_chain_new, put_end, take_start}
use libevent_linux.Buffer.State.{Evbuffer, off_of_first}

-- The loop of evbuffer_pullup over the chains that are pulled into one: what it copies, the chains
-- that are left, and the number of those that it frees.
abbrev pub pull_chains : ℕ → List Chain → Bytes × (List Chain × ℕ)
pull_chains size [] = ([], ([], 0))
pull_chains size (chain ∷ chains) =
    let (copied, (left, freed)) = pull_chains (size - chain.off) chains in
    if leb chain.off size
    then (bytes chain ++ copied, (left, suc freed))
    else (take size (bytes chain), (take_start size chain ∷ chains, 0))

-- `last_with_datap` after that loop. The loop frees the chains from number `from` (0 when a new
-- chain takes their place, 1 when the first is used) on; `left` are those behind the first after it.
abbrev pub pulled_last : ℕ → ℕ → ℕ → List Chain → ℕ
pulled_last last from freed left =
    if ltb last from
    then last
    else if ltb last (from + freed)
    then 0
    else if last == from + freed && ltb 0 freed
    then (if off_of_first left == 0 then 0 else 1)
    else last - (from + freed) + 1

abbrev pub pulled : Evbuffer → Chain → ℕ → ℕ → List Chain → Evbuffer
pulled buf tmp size from chains =
    let (copied, (left, freed)) = pull_chains size chains in
    record buf {
      chains = put_end copied tmp ∷ left;
      last_with_datap = pulled_last buf.last_with_datap from freed left;
    }

-- The result tells whether the pointer is not NULL; it then points at the data of the first chain.
-- `size` is `none` for a negative number.
abbrev pub pullup_chains : Evbuffer → ℕ → List Chain → Bool → Bool × Evbuffer
pullup_chains buf size [] memory = (false, buf)
pullup_chains buf size (chain ∷ chains) memory =
    if leb size chain.off
    then (true, buf)
    else if leb size (chain.buffer_len - chain.misalign)
    then (true, pulled buf chain (size - chain.off) 1 chains)
    else elim (evbuffer_chain_new size memory) [
      | none ↦ (false, buf)
      | some tmp ↦ (true, pulled buf tmp size 0 (chain ∷ chains))
    ]

abbrev pub asked : Option ℕ → ℕ → ℕ
asked none total_len = total_len
asked (some size) total_len = size

unfoldable pub evbuffer_pullup : Evbuffer → Option ℕ → Bool → Bool × Evbuffer
evbuffer_pullup buf size memory =
    let n = asked size buf.total_len in
    if n == 0 || ltb buf.total_len n then (false, buf) else pullup_chains buf n buf.chains memory
