-- ===== src/Receiver/Life.antt =====
-- The life of a `Receiver`: its constructor, the start of the threads in `operator()`, `shutdown`,
-- which the signal handler calls, and the destructor.
pub mod Closing
pub mod Interrupt
mod Tests
use frib_e2sar.Base.{
  ℕ, ◌≡◌, List, [], ◌∷◌, ◌++◌, Option, none, some, Bool, true, false, not, Error, Result, ok, err,
  ◌>>=◌, ◌==◌, if◌then◌else◌, guard_that,
}
use frib_e2sar.RingItem.{RingFormat}
use frib_e2sar.BufferedSink.{Buffer, Fifo, DataSink, BufferedSink, init, destroy}
use frib_e2sar.BufferedSink as Sink
use frib_e2sar.Sender.{ExitCode}
use frib_e2sar.Utils.{UriFactory, ReassemblerFlags, get_uri, get_reassembler_flags_from_file}
use frib_e2sar.Receiver.{
  SinkOptions, SinkNames, SinkKind, Url, configure_sink, make_sink_uri, make_data_sink,
}
use frib_e2sar.Receiver.Session.{Worker, prepare_to_receive}

-- What the constructor takes from the variables map.
pub record ReceiverOptions : Type 0 where
  pub names : SinkNames
  pub sink_options : SinkOptions
  pub ini : Option (List ℕ)
  pub cwd : List ℕ
  pub uri : List ℕ

-- "/reassembler_config.ini".
abbrev reassembler_ini : List ℕ
reassembler_ini =
    47 ∷ 114 ∷ 101 ∷ 97 ∷ 115 ∷ 115 ∷ 101 ∷ 109 ∷ 98 ∷ 108 ∷ 101 ∷ 114 ∷ 95 ∷ 99 ∷ 111 ∷ 110 ∷ 102
    ∷ 105 ∷ 103 ∷ 46 ∷ 105 ∷ 110 ∷ 105 ∷ []

abbrev ini_name : ReceiverOptions → List ℕ
ini_name o = elim o.ini [ none ↦ o.cwd ++ reassembler_ini | some name ↦ name ]

module _ {Q S U F : Type 0} ⦃url : Url⦄ ⦃uris : UriFactory U⦄ ⦃flags : ReassemblerFlags F⦄ where
  -- The constructor: the sink and the flags of the Reassembler. `instance_free` tells that there is
  -- no other `Receiver`, `open_sink` is the construction of the sink for a kind, and `makes` tells
  -- whether neither `make_address` nor the constructor of the Reassembler throws.
  unfoldable pub construct :
      Bool
      → (SinkKind → Result S)
      → (U → F → Bool)
      → Q
      → ReceiverOptions
      → Result (BufferedSink Q S × F)
  construct instance_free open_sink makes q o = do
    one ← guard_that instance_free Error.runtime_error
    sink_uri ← make_sink_uri o.names
    kind ← make_data_sink sink_uri
    sink ← open_sink kind
    configured ← configure_sink o.sink_options (init q sink o.sink_options.use_ct)
    f ← get_reassembler_flags_from_file (ini_name o)
    uri ← get_uri o.uri false
    made ← guard_that (makes uri f) Error.e2sar_exception
    ok (configured, f)

-- `m_pReassembler`, `m_pSink` and `m_threadsRunning`.
pub record Receiver (R Q S : Type 0) : Type 0 where
  pub reassembler : R
  pub sink : BufferedSink Q S
  pub threads_running : Bool

module _ {R Q S : Type 0} ⦃worker : Worker R⦄ where
  -- `operator()` up to the start of the dequeue threads. With all threads joined it returns
  -- EXIT_SUCCESS.
  unfoldable pub operate : Receiver R Q S → Result ExitCode × Receiver R Q S
  operate s =
      let (failed, r) = prepare_to_receive s.reassembler in
      let t : Receiver R Q S = record s { reassembler = r; threads_running = true } in
      if failed == 0 then (ok ExitCode.exit_success, t) else (err Error.runtime_error, t)

  module _ ⦃fifo : Fifo Q Buffer⦄ ⦃dev : DataSink S⦄ ⦃fmt : RingFormat⦄ where
    -- `shutdown`, with the buffers that it wrote; an error of `deregisterWorker` is only reported.
    unfoldable pub shutdown : Receiver R Q S → Result (List Buffer × Receiver R Q S)
    shutdown s = do
      r ← Sink.stop_threads s.sink
      ok (
        r.0,
        record {
          reassembler = worker.stop_threads (worker.deregister_worker s.reassembler).1;
          sink = r.1;
          threads_running = false;
        },
      )

    -- The destructor, and after it that of the sink.
    unfoldable pub close : ℕ → Receiver R Q S → Result (List Buffer × Receiver R Q S)
    close fuel s = do
      a ← shutdown s
      b ← destroy fuel a.1.sink
      ok (a.0 ++ b.0, record (a.1) { sink = b.1 })

    -- `ctrlCHandler`, with the exit code and what it wrote. The process ends in `std::exit`, without
    -- the destructors.
    unfoldable pub ctrl_c_handler :
        Option (Receiver R Q S) → Result (ℕ × List Buffer × Option (Receiver R Q S))
    ctrl_c_handler none = ok (0, [], none)
    ctrl_c_handler (some s) = shutdown s >>= λ r. ok (0, r.0, some r.1)
