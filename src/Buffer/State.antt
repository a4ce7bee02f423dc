-- ===== src/Buffer/State.antt =====
-- struct evbuffer of evbuffer-internal.h and the helpers of buffer.c on its list of chains.
-- `last_with_datap` points at a pointer to a chain: it is the number of the chains before that
-- pointer, 0 for `&buf->first`. `last` is the last chain of the list. The lock is held.
use libevent_linux.Prelude.{
  ℕ, zero, suc, ◌+◌, ◌-◌, ◌%◌, ◌^◌, Bool, true, false, not, ◌&&◌, none, some, List, [], ◌∷◌, ◌++◌,
  length, get_elem?, leb, ◌==◌, if◌then◌else◌,
}
use libevent_linux.Buffer.Chain.{Bytes, Chain, bytes}

-- struct evbuffer_cb_info.
pub record CallbackInfo : Type 0 where
  pub orig_size : ℕ
  pub n_added : ℕ
  pub n_deleted : ℕ

-- `has_callbacks` tells whether the list of callbacks has any; `calls` are the infos with which
-- they were run, the newest first (when callbacks are deferred, those that are run at once).
pub record Evbuffer : Type 0 where
  pub chains : List Chain
  pub last_with_datap : ℕ
  pub total_len : ℕ
  pub n_add_for_cb : ℕ
  pub n_del_for_cb : ℕ
  pub freeze_start : Bool
  pub freeze_end : Bool
  pub has_callbacks : Bool
  pub deferred_cbs : Bool
  pub calls : List CallbackInfo

-- The number of bytes in the first chain, and the bytes.
abbrev pub off_of_first : List Chain → ℕ
off_of_first [] = 0
off_of_first (chain ∷ chains) = chain.off

abbrev pub bytes_of_first : List Chain → Bytes
bytes_of_first [] = []
bytes_of_first (chain ∷ chains) = bytes chain

abbrev pub contents_of : List Chain → Bytes
contents_of [] = []
contents_of (chain ∷ chains) = bytes chain ++ contents_of chains

-- The bytes of a buffer.
abbrev pub contents : Evbuffer → Bytes
contents buf = contents_of buf.chains

abbrev pub info_of : Evbuffer → CallbackInfo
info_of buf = record {
  orig_size = (buf.total_len + buf.n_del_for_cb + 2 ^ 64 - buf.n_add_for_cb) % 2 ^ 64;
  n_added = buf.n_add_for_cb;
  n_deleted = buf.n_del_for_cb;
}

-- evbuffer_run_callbacks out of evbuffer_invoke_callbacks_: deferred callbacks keep the counters.
-- That deferred callbacks are scheduled
-- is left out, and the callbacks themselves are the user's.
unfoldable pub evbuffer_run_callbacks : Evbuffer → Evbuffer
evbuffer_run_callbacks buf =
    let called = record buf { calls = info_of buf ∷ buf.calls } in
    if buf.n_add_for_cb == 0 && buf.n_del_for_cb == 0
    then buf
    else if buf.deferred_cbs
    then called
    else record called { n_add_for_cb = 0; n_del_for_cb = 0 }

unfoldable pub evbuffer_invoke_callbacks : Evbuffer → Evbuffer
unfolding evbuffer_run_callbacks
evbuffer_invoke_callbacks buf =
    if not buf.has_callbacks
    then record buf { n_add_for_cb = 0; n_del_for_cb = 0 }
    else evbuffer_run_callbacks buf

-- From a number of chains on, the first empty chain is freed with all after it.
abbrev pub free_trailing_from : ℕ → List Chain → List Chain
free_trailing_from i [] = []
free_trailing_from zero (chain ∷ chains) =
    if chain.off == 0 then [] else chain ∷ free_trailing_from zero chains
free_trailing_from (suc i) (chain ∷ chains) = chain ∷ free_trailing_from i chains

-- The chains that are left. The result of the C function is the pointer after the last of them.
unfoldable pub evbuffer_free_trailing_empty_chains : Evbuffer → List Chain
evbuffer_free_trailing_empty_chains buf = free_trailing_from buf.last_with_datap buf.chains

unfoldable pub evbuffer_chain_insert : Evbuffer → Chain → Evbuffer
unfolding evbuffer_free_trailing_empty_chains
evbuffer_chain_insert buf chain =
    let kept = evbuffer_free_trailing_empty_chains buf in
    let buf' = record buf { total_len = buf.total_len + chain.off } in
    if leb (length buf.chains) buf.last_with_datap
    then record buf' { chains = chain ∷ [] }
    else record buf' {
      chains = kept ++ chain ∷ [];
      last_with_datap = if chain.off == 0 then buf.last_with_datap else length kept;
    }

-- A change of the chain with a number.
abbrev pub modify : ℕ → (Chain → Chain) → List Chain → List Chain
modify i f [] = []
modify zero f (chain ∷ chains) = f chain ∷ chains
modify (suc i) f (chain ∷ chains) = chain ∷ modify i f chains

-- ZERO_CHAIN.
abbrev pub zero_chain : Evbuffer → Evbuffer
zero_chain buf = record buf { chains = []; last_with_datap = 0; total_len = 0 }

abbrev pub evbuffer_new : Evbuffer
evbuffer_new = record {
  chains = [];
  last_with_datap = 0;
  total_len = 0;
  n_add_for_cb = 0;
  n_del_for_cb = 0;
  freeze_start = false;
  freeze_end = false;
  has_callbacks = false;
  deferred_cbs = false;
  calls = [];
}

unfoldable pub evbuffer_get_length : Evbuffer → ℕ
evbuffer_get_length buf = buf.total_len

unfoldable pub evbuffer_get_contiguous_space : Evbuffer → ℕ
evbuffer_get_contiguous_space buf = elim (get_elem? buf.chains 0) [
  | none ↦ 0
  | some chain ↦ chain.off
]

-- `at_front` for the argument `start`.
unfoldable pub evbuffer_freeze : Evbuffer → Bool → Evbuffer
evbuffer_freeze buf at_front =
    if at_front then record buf { freeze_start = true } else record buf { freeze_end = true }

unfoldable pub evbuffer_unfreeze : Evbuffer → Bool → Evbuffer
evbuffer_unfreeze buf at_front =
    if at_front then record buf { freeze_start = false } else record buf { freeze_end = false }
