-- ===== src/Lib.antt =====
-- libevent: verified models of its event base and loop, timeouts' heap, buffers, token buckets, tagged
-- data and DNS names.
--
-- The files and the code that they model (paths from the repository's root):
--   Prelude.antt, Prelude/: names of the libraries that all share, Boolean tests, lists measured by
--     the native numbers, bits of a number.
--   Time.antt: struct timeval and evutil_timercmp of include/event2/util.h.
--   MinHeap.antt: minheap-internal.h. The array is a list, an event a number; the fields min_heap_idx
--     of all events are a function. min_heap_push_ is min_heap_push, and so on; the loops of
--     min_heap_shift_up_ and min_heap_shift_down_ are shift_up_loop and shift_down_loop, on fuel: the
--     index of the hole, and the size, are enough, since each move halves or increases the index.
--     MinHeap/Invariant has the invariant, Up and Down the loops, Methods and Remove the operations.
--   Event/State.antt: struct event and struct event_base (include/event2/event_struct.h,
--     event-internal.h). A set of flags is a record of Booleans; all callbacks are a function from
--     numbers, so that the same event is shared by all queues.
--   Event/Queues.antt: event_queue_insert_* and event_queue_remove_* of event.c and the counters.
--   Event/Active.antt, Delete.antt, Add.antt, Timeouts.antt: event_active_nolock_, event_del_nolock_,
--     event_add_nolock_, timeout_process with their helpers. event_add_nolock_ works on the heap of
--     MinHeap; the loop of timeout_process is on fuel, and the number of events in the heap is enough,
--     since each round deletes one.
--   Event/Invariant, QueueLaws, TimeoutLaws, Effects, DeleteLaws, ActiveLaws, AddLaws, Expiry: the
--     invariant of the base, that each operation keeps it, and what each does to the events.
--   Event/LaterLaws, NextLaws, Persist: event_queue_make_later_events_active, timeout_next, and the
--     rescheduling in event_persist_closure.
--   Event/Loop.antt, Event/Loop/: the loop of event.c. Program.antt has the rest of struct event_base,
--     the cached time and, as the record Program, the code that the loop calls; Closures.antt the
--     closures, event_signal_closure and event_persist_closure, and what is done with one callback;
--     Process.antt event_process_active_single_queue and event_process_active; Run.antt
--     event_base_loop. The lock is held but while a callback runs: that callback is a function on the
--     whole state, so that it stands also for what other threads do in the meantime. The loop over a
--     queue is on fuel: without internal callbacks its limit is enough, and without new ones its
--     length. event_base_loop need not end; its fuel is a number of rounds. Frames, Dequeue, Internal
--     and InternalRun say what its steps leave as it is; Calm, Strict, Limits and Exits have the laws.
--   Evmap.antt, Evmap/: evmap.c. Slots.antt has the arrays of slots, Io.antt the operations for
--     descriptors, Signal.antt those for signals and evmap_of, which is the record Evmap that the
--     event base takes. The loop that doubles the number of slots is on fuel, and the slot is enough.
--     SlotLaws and IoLaws relate the counters, the events and the backend. The law of a
--     backend, IsOp, is that of epoll_nochangelist_add and _del of epoll.c: what it asks for follows
--     from the old events that it is given and the change.
--   Buffer.antt, Buffer/: buffer.c and evbuffer-internal.h. Buffer/Chain.antt has struct
--     evbuffer_chain, with its memory as a list of bytes, and what is done to one chain; State.antt has
--     struct evbuffer, a list of chains, with last_with_datap as the number of the chains before the
--     pointer that it points at. Add.antt, Remove.antt, Move.antt, Pullup.antt and Split.antt have the
--     operations, and Search.antt the lines: evbuffer_readln and evbuffer_search_eol with their helpers.
--     The loop that doubles a size is on fuel, and the size is enough; so is that of find_eol_char,
--     and the number of bytes that it looks at is enough. Buffer/Invariant
--     says which bytes a buffer represents; ChainLaws, AddLaws, AddSuccess, PrependLaws, RemoveLaws,
--     MoveLaws, PullChains, PullupLaws, SplitChains, SplitLaws, SearchLaws, PlaceLaws, LineLaws and
--     ReadLines compare the operations with those of lists of bytes.
--   RateLimit.antt, RateLimit/: the token buckets of bufferevent_ratelim.c, a signed limit as its
--     64-bit word.
--   Monotonic.antt: adjust_monotonic_time of evutil_time.c.
--   Evdns.antt, Evdns/: names in the packets of evdns.c. Labels.antt has dnsname_to_labels, whose
--     loop is on fuel, and the length of the name is enough; Names.antt has name_parse, whose loop is
--     on fuel, and the length of the packet and the size of the memory are enough together. What it
--     reads and writes is checked: an access outside is a result of its own, which never occurs.
--     dnsname_to_labels gives what it has written also with an error. Wire.antt
--     describes names as RFC 1035 does; ParseLaws, ReadLaws, TableLaws, Endings, LabelLaws, RoundTrip
--     and Bounds compare the two functions with it.
--   Tagging.antt, Tagging/: event_tagging.c. An evbuffer is the list of its bytes.
--   Http.antt, Http/: the encoding and decoding of URIs and evhttp_htmlescape of http.c. Where the counters
--     of evhttp_decode_uri_internal overflow it has no result.
--
-- What other code gives is an argument: the answers of mm_malloc and mm_realloc, the time that gettime
-- gives, what a backend does (EventOp in Evmap/Slots), the callbacks of the users (Program in
-- Event/Loop/Program), and, as the record Evmap, the functions of evmap.c for the event base. The
-- counters `int` of the base are numbers without a bound.
--
-- Not modelled: locks and waiting for another thread, the setting up of finalizers, event_base_once,
-- the setting up of bases and events and the other parts of event.c; in buffer.c expanding and
-- reserving space, references, the search for a string (evbuffer_search and
-- EVBUFFER_EOL_CRLF_STRICT), file segments and I/O; in evmap.c the changelist and the loops over all slots; epoll.c, signal.c, bufferevents, the parsers and connections of http.c, the
-- requests and servers of evdns.c, evrpc.c, listener.c, the rest of evutil*.c and log.c, which are I/O
-- or not yet reached; the samples.
mod Prelude
pub mod Time
pub mod Event
pub mod MinHeap
pub mod Tagging
pub mod Http
pub mod RateLimit
pub mod Monotonic
pub mod Buffer
pub mod Evmap
pub mod Evdns
