-- ===== src/Buffer/Add.antt =====
-- evbuffer_add and evbuffer_prepend of buffer.c. The result tells whether the C function returns 0.
-- `memory` and `memory'` are the answers to the two calls of mm_malloc, as far as they happen.
use libevent_linux.Prelude.{
  ℕ, suc, ◌+◌, ◌-◌, ◌*◌, ◌%◌, ◌^◌, max, Bool, true, false, not, ◌&&◌, ◌||◌, none, some, ◌∷◌, length,
  get_elem?, take, drop, ltb, leb, ◌==◌, if◌then◌else◌,
}
use libevent_linux.Buffer.Chain.{
  Bytes, Chain, chain_space_len, evbuffer_chain_new, evbuffer_chain_align,
  evbuffer_chain_should_realign, put_end, put_start,
}
use libevent_linux.Buffer.State.{Evbuffer, modify, evbuffer_invoke_callbacks, evbuffer_chain_insert}

-- `total_len` and `n_add_for_cb` with so many more bytes.
abbrev pub counted : Evbuffer → ℕ → Evbuffer
counted buf n = record buf { n_add_for_cb = (buf.n_add_for_cb + n) % 2 ^ 64 }

abbrev pub grown : Evbuffer → ℕ → Evbuffer
grown buf n = record (counted buf n) { total_len = buf.total_len + n }

-- The number of `*buf->last_with_datap`, or of `buf->last`.
abbrev pub writable : Evbuffer → ℕ
writable buf =
    if ltb buf.last_with_datap (length buf.chains)
    then buf.last_with_datap
    else length buf.chains - 1

-- EVBUFFER_CHAIN_MAX_AUTO_SIZE is 4096.
abbrev pub next_size : ℕ → ℕ → ℕ
next_size buffer_len datlen =
    max (if leb buffer_len 2048 then buffer_len * 2 else buffer_len) datlen

abbrev pub update : Evbuffer → ℕ → (Chain → Chain) → Evbuffer
update buf i f = record buf { chains = modify i f buf.chains }

-- What fits goes into the chain, the rest into a new one.
unfoldable pub add_chain : Evbuffer → ℕ → Chain → Bytes → Bool → Bool × Evbuffer
add_chain buf i chain data_in memory =
    let remain = chain_space_len chain in
    let filled =
      grown (update buf i (put_end (take remain data_in))) (length (take remain data_in)) in
    elim (evbuffer_chain_new (next_size chain.buffer_len (length data_in)) memory) [
      | none ↦ (false, buf)
      | some tmp ↦ (
        true,
        evbuffer_invoke_callbacks (
            counted (evbuffer_chain_insert filled (put_end (drop remain data_in) tmp))
              (length (drop remain data_in))),
      )
    ]

unfoldable pub add_to : Evbuffer → ℕ → Chain → Bytes → Bool → Bool × Evbuffer
unfolding add_chain
add_to buf i chain data_in memory =
    if not chain.immutable && leb (length data_in) (chain_space_len chain)
    then (true, evbuffer_invoke_callbacks (grown (update buf i (put_end data_in)) (length data_in)))
    else if not chain.immutable && evbuffer_chain_should_realign chain (length data_in)
    then (
      true,
      evbuffer_invoke_callbacks
          (grown (update buf i (λ c. put_end data_in (evbuffer_chain_align c))) (length data_in)),
    )
    else add_chain buf i chain data_in memory

unfoldable pub evbuffer_add : Evbuffer → Bytes → Bool → Bool → Bool × Evbuffer
unfolding add_to
evbuffer_add buf data_in memory memory' =
    if buf.freeze_end || ltb (2 ^ 64 - 1 - buf.total_len) (length data_in)
    then (false, buf)
    else elim (get_elem? buf.chains (writable buf)) [
      | some chain ↦ add_to buf (writable buf) chain data_in memory'
      | none ↦ elim (evbuffer_chain_new (length data_in) memory) [
        | none ↦ (false, buf)
        | some chain ↦ add_to (evbuffer_chain_insert buf chain) 0 chain data_in memory'
      ]
    ]

-- An empty chain is empty at the beginning.
abbrev pub at_end : Chain → Chain
at_end chain = if chain.off == 0 then record chain { misalign = chain.buffer_len } else chain

-- A new chain before `chain`, the first one.
unfoldable pub prepend_chain : Evbuffer → Chain → Bytes → Bool → Bool × Evbuffer
prepend_chain buf chain data_in memory =
    let last = if buf.last_with_datap == 0 && chain.off == 0 then 0 else suc buf.last_with_datap in
    elim (evbuffer_chain_new (length data_in) memory) [
      | none ↦ (false, buf)
      | some tmp ↦
          let filled = put_start data_in (record tmp { misalign = tmp.buffer_len }) in
          (
            true,
            evbuffer_invoke_callbacks (
                grown (record buf { chains = filled ∷ buf.chains; last_with_datap = last })
                  (length data_in)),
          )
    ]

unfoldable pub prepend_to : Evbuffer → Chain → Bytes → Bool → Bool × Evbuffer
unfolding prepend_chain
prepend_to buf chain data_in memory =
    let free = (at_end chain).misalign in
    let kept = length data_in - free in
    let partly = put_start (drop kept data_in) (at_end chain) in
    if chain.immutable
    then prepend_chain buf chain data_in memory
    else if leb (length data_in) free
    then (
      true,
      evbuffer_invoke_callbacks
          (grown (update buf 0 (λ c. put_start data_in (at_end c))) (length data_in)),
    )
    else prepend_chain (grown (update buf 0 (λ c. put_start (drop kept data_in) (at_end c))) free)
        partly (take kept data_in) memory

unfoldable pub evbuffer_prepend : Evbuffer → Bytes → Bool → Bool → Bool × Evbuffer
unfolding prepend_to
evbuffer_prepend buf data_in memory memory' =
    if length data_in == 0
    then (true, buf)
    else if buf.freeze_start || ltb (2 ^ 64 - 1 - buf.total_len) (length data_in)
    then (false, buf)
    else elim (get_elem? buf.chains 0) [
      | some chain ↦ prepend_to buf chain data_in memory'
      | none ↦ elim (evbuffer_chain_new (length data_in) memory) [
        | none ↦ (false, buf)
        | some chain ↦ prepend_to (evbuffer_chain_insert buf chain) chain data_in memory'
      ]
    ]
