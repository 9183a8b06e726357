-- ===== src/Receiver/Life/Closing.antt =====
-- What the end of a `Receiver` writes, and what it loses.
use mathlib.Core.List.{Perm, append_assoc}
use mathlib.Core.Path.{subst, ap₂}
use frib_e2sar.Base.{
  ℕ, ◌+◌, ◌<◌, ◌≡◌, refl, ap, ◌∙◌, List, [], ◌++◌, true, false, ok, length, length-drop, drop,
  drop_add, arith,
}
use frib_e2sar.RingItem.{RingFormat}
use frib_e2sar.BufferedSink.{Buffer, Fifo, DataSink, Puts, batch_size}
use frib_e2sar.BufferedSink.Poll.Invariant.{Valid}
use frib_e2sar.BufferedSink.Stop.{stop_threads-Flushes, destroy-drops}
use frib_e2sar.Receiver.Session.{Worker}
use frib_e2sar.Receiver.Life.{Receiver, shutdown, close}

module _ {R : Type 0} ⦃worker : Worker R⦄ where
  -- The Reassembler is stopped, and the worker is deregistered if that goes through.
  abbrev pub IsReleased : R → R → Type 0
  IsReleased r r' =
      (worker.is_open r' ≡ false)
      × ((worker.deregister_worker r).0 ≡ true → worker.is_registered r' ≡ false)

  pub released : (r : R) → IsReleased r (worker.stop_threads (worker.deregister_worker r).1)
  released r = (
    worker.stop_done (worker.deregister_worker r).1,
    λ done. worker.stop_registered (worker.deregister_worker r).1 ∙ worker.deregister_done r done,
  )

module _ {R Q S : Type 0} ⦃worker : Worker R⦄ ⦃fifo : Fifo Q Buffer⦄ ⦃dev : DataSink S⦄
    ⦃fmt : RingFormat⦄ where
  -- The destructor of a receiver, with fuel for one round more than there are buffers in the
  -- input queue of its sink, whose invariant holds and that takes its data, stops the
  -- Reassembler, deregisters the worker if E2SAR does, and writes the sorted queue and the
  -- first two batches of the input queue. The buffers behind them are the only ones that are
  -- lost.
  pub close-drops :
      Puts dev
      → (fuel : ℕ) (s : Receiver R Q S) {written arrived : List Buffer}
      → Valid s.sink written arrived
      → length (fifo.contents s.sink.input_queue) < fuel
      → let unwritten = drop (batch_size + batch_size) (fifo.contents s.sink.input_queue) in
        (out : List Buffer) × (t : Receiver R Q S) × (close fuel s ≡ ok (out, t))
        × (t.sink.sorted_queue ≡ [])
        × (fifo.contents t.sink.input_queue ≡ [])
        × Perm ((written ++ out) ++ unwritten) arrived
        × IsReleased s.reassembler t.reassembler
  unfolding close shutdown
  close-drops puts fuel s {written} {arrived} v enough =
      let input = fifo.contents s.sink.input_queue in
      let (out, t, run, empty, left, gone, u) = stop_threads-Flushes puts s.sink v in
      let (out', t', run', empty', none_left, _, perm) =
        destroy-drops puts fuel t u
          (rw left (omega (arith, length-drop batch_size input, enough))) in
      (
        out ++ out',
        record {
          reassembler = worker.stop_threads (worker.deregister_worker s.reassembler).1;
          sink = t';
          threads_running = false;
        },
        rw (run, run') refl,
        empty',
        none_left,
        subst (λ (z : List Buffer). Perm z arrived)
            (ap₂ ◌++◌ (append_assoc written out out')
              (ap (drop batch_size) left ∙ drop_add batch_size batch_size _ input refl))
            perm,
        released s.reassembler,
      )
