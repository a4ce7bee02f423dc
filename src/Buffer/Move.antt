-- ===== src/Buffer/Move.antt =====
-- The functions of buffer.c that move chains from one buffer to another, and evbuffer_pullup. The
-- two buffers are different: of a buffer and itself the C functions change nothing.
use libevent_linux.Prelude.{ℕ, ◌+◌, Bool, true, false, ◌||◌, ◌++◌, length, leb, ◌==◌, if◌then◌else◌}
use libevent_linux.Buffer.State.{
  Evbuffer, evbuffer_invoke_callbacks, evbuffer_free_trailing_empty_chains, zero_chain,
}
use libevent_linux.Buffer.Add.{counted}
use libevent_linux.Buffer.Remove.{shrunk}

-- COPY_CHAIN.
abbrev pub copy_chain : Evbuffer → Evbuffer → Evbuffer
copy_chain dst src = record dst {
  chains = src.chains;
  last_with_datap = src.last_with_datap;
  total_len = src.total_len;
}

-- APPEND_CHAIN.
unfoldable pub append_chain : Evbuffer → Evbuffer → Evbuffer
append_chain dst src =
    let kept = evbuffer_free_trailing_empty_chains dst in
    record dst {
      chains = kept ++ src.chains;
      last_with_datap = length kept + src.last_with_datap;
      total_len = dst.total_len + src.total_len;
    }

-- PREPEND_CHAIN.
unfoldable pub prepend_chains : Evbuffer → Evbuffer → Evbuffer
prepend_chains dst src = record dst {
  chains = src.chains ++ dst.chains;
  last_with_datap =
      if leb (length dst.chains) dst.last_with_datap
      then src.last_with_datap
      else length src.chains + dst.last_with_datap;
  total_len = dst.total_len + src.total_len;
}

-- What is left of the two buffers (`inbuf` the first) after the chains have been moved.
abbrev pub moved : Evbuffer → Evbuffer → ℕ → Evbuffer × Evbuffer
moved inbuf outbuf n = (
  evbuffer_invoke_callbacks (shrunk (zero_chain inbuf) n),
  evbuffer_invoke_callbacks (counted outbuf n),
)

unfoldable pub evbuffer_add_buffer : Evbuffer → Evbuffer → Bool × (Evbuffer × Evbuffer)
unfolding append_chain
evbuffer_add_buffer outbuf inbuf =
    if inbuf.total_len == 0
    then (true, (inbuf, outbuf))
    else if outbuf.freeze_end || inbuf.freeze_start
    then (false, (inbuf, outbuf))
    else (
      true,
      moved inbuf
          (if outbuf.total_len == 0 then copy_chain outbuf inbuf else append_chain outbuf inbuf)
          inbuf.total_len,
    )

unfoldable pub evbuffer_prepend_buffer : Evbuffer → Evbuffer → Bool × (Evbuffer × Evbuffer)
unfolding prepend_chains
evbuffer_prepend_buffer outbuf inbuf =
    if inbuf.total_len == 0
    then (true, (inbuf, outbuf))
    else if outbuf.freeze_start || inbuf.freeze_start
    then (false, (inbuf, outbuf))
    else (
      true,
      moved inbuf
          (if outbuf.total_len == 0 then copy_chain outbuf inbuf else prepend_chains outbuf inbuf)
          inbuf.total_len,
    )
