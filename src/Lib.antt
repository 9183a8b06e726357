-- ===== src/Lib.antt =====
-- Verification of the FRIB E2SAR workflow programs: e2sarwf, which sends NSCLDAQ ring items over
-- E2SAR and writes what it receives in time order, and evbfilter and tsvalidate, which work on
-- the data behind it.
--
-- Parts, and the files that model them:
--   Base           lists, Boolean tests, results with error values, 64-bit words.
--   RingItem       `itemSize`, `nextItem` and `countRingItems` of e2sarwf/BufferedSink.cpp.
--   BufferedSink   e2sarwf/BufferedSink.h and BufferedSink.cpp: the input queue, the sorted queue
--                  and the output. `insert_buffer` is `insertBuffer`, `drain_and_sort` is
--                  `drainAndSort`, `emit_from_window` is `emitFromWindow`, `output_data` is
--                  `outputData`, `stop_threads` is `stopThreads`, `destroy` the destructor.
--                  Poll is a round of the loop in `poll`, and Threads lets such rounds and calls
--                  of `addData` come in any order, as steps on a `System`. Spec is what such steps
--                  come to for a reader of the output, and Refinement compares the two.
--                  Settling has the rounds in a row. Contents is about the bytes in the sink.
--   Sender         e2sarwf/Sender.cpp: `pack`, `send_round` and `send_loop` are the loops of
--                  `operator()`, `send_buffer` is `sendBuffer`, `get_first_timestamp` is
--                  `getFirstTimestamp`. Ending has the loop on a source that is a file, and
--                  Naming, Events and Stamps its events with their two kinds of numbers.
--                  Pooled is the loop with the BufferPool: `release_to_pool` is
--                  `senderCallback` with `releaseToPool`, and Oversize and Idle are about what
--                  it wastes. Layout has the bytes that `getFirstTimestamp` reads. Session
--                  is the life of a Sender: `construct` is its constructor, `operate` the start
--                  in `operator()`, `shutdown` its `shutdown`.
--   EvbFilter      utils/evbfilter/evbfilter.cpp: `filter_item` is `filterItem`, with `strip` for
--                  a physics event, and `filter_loop` is the event loop of `main`, which
--                  is in Program.
--   TsValidate     utils/tsvalidate/tsvalidate.cpp: `tokenize`, `make_exclusion_list`,
--                  `process_item` and `dump_loop`, the loop of `main`; Source has its
--                  `makeDataSource`, beside that of the sender in Sender/Source, and Program
--                  has `main`, `mapVersion` and `makeSourceString`.
--   Receiver       e2sarwf/Receiver.cpp: `configure_sink` is the sink part of the constructor,
--                  `make_sink_uri` is `makeSinkUri`, `receive_loop` is `receiveEvents`,
--                  `prepare_to_receive` is `prepareToReceive`; `make_data_sink` is
--                  `BufferedSink::makeDataSink`. Life has the constructor, `operate` for the start
--                  in `operator()`, `shutdown`, `ctrl_c_handler`, and `close` for the destructor;
--                  Stats has `statsThread`.
--   Pipeline       the way from a file through a Sender and the network into the `BufferedSink` of
--                  a Receiver; Delivery has it with the rounds of the output thread that follow,
--                  and Stamped with timestamps as event numbers.
--   DataSources    e2sarwf/FdDataSource.cpp, RingDataSource.cpp and StreamDataSource.cpp: `getItem`.
--   BufferPool     e2sarwf/BufferPool.cpp: `pop`, `push` and `destroy`, the destructor.
--   Utils          e2sarwf/FribE2sarUtils.cpp: `dump_buffer` is `dumpBuffer`, `get_uri` is
--                  `getUri`, `map_version` is `mapVersion`, with the flags read from a file.
--   Workflow       e2sarwf/e2sarwf.cpp: `options` and `checks` are those of `main`,
--                  `check_options` is its second block, `main_exit` the whole.
--   Sinks          e2sarwf/RingDataSink.cpp and FileDataSink.cpp: the opening, `put`, `putItem`,
--                  `putV`, `flush` and the destructor.
--
-- The dequeue threads of Receiver call `add_data` of BufferedSink, which is the step `arrive` of
-- its Threads; its output goes to a `DataSink`, of which Sinks has the two kinds. A Sender takes
-- its buffers from a BufferPool: the model of the send loop counts those that are held, and its
-- child Pooled has the loop with the pool, as rounds and callbacks that come in any order.
--
-- Conventions. A byte is a number and a pointer is the list of the bytes from it on; reading
-- behind the end is the error `out_of_bounds`. An exception is an error value, and the state after
-- it is not modelled. The fields of a ring item header are read by a `RingFormat`, so that the
-- layout is a parameter. A 64-bit number wraps where the source can wrap, with the exceptions of
-- the bytes in an event buffer, which are as many as fit in memory, and of the time plus the sleep
-- in the send loop, which is taken to fit. The 32-bit count of tsvalidate is kept by its bits, and
-- the window of the receiver is rounded as a `double` is. Memory for an event buffer is there,
-- except where Pooled has the BufferPool. What lies in other libraries is an interface with the
-- laws that the source relies on: the lock-free queue (`Fifo`), the sink (`DataSink`), the source
-- of ring items (`DataSource`), the E2SAR `Segmenter`, standard input (`Input`). Queue operations are atomic. Messages are left out, except that a `BufferedSink`
-- keeps the late buffers that it warned of, and the buffers that it freed, as ghost state.
--
-- Fuel. `count_ring_items` and `get_first_timestamp` give one round more than there are bytes,
-- which is enough for items that are not empty; `pack` has one round more than the buffer has
-- bytes, as have `tokenize` and `dump_buffer`. The loops over a queue, `release_input` and
-- `release_queue`, and the dump loop of tsvalidate take their fuel as an argument, for which one
-- round more than there are buffers or items is enough. The event loop of evbfilter and the send
-- loop have no bound of their own, so their fuel is a number of rounds.
--
-- Not modelled: what E2SAR and NSCLDAQ do behind their interfaces, the parser of command lines,
-- printing but for the reports of `statsThread`, the sleeps and the rate that sets them,
-- checkdefaults/checkdefaults.cpp, which prints the defaults of E2SAR, and the scripts.
pub mod Base
pub mod RingItem
pub mod BufferedSink
pub mod EvbFilter
pub mod Sender
pub mod BufferPool
pub mod DataSources
pub mod Pipeline
pub mod Receiver
pub mod Sinks
pub mod TsValidate
pub mod Utils
pub mod Workflow
