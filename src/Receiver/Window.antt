-- ===== src/Receiver/Window.antt =====
-- The window that the receiver sets, in the test of the output thread.
use frib_e2sar.Base.{
  ℕ, ◌*◌, ◌^◌, ◌<◌, ◌≡◌, ◌↔◌, refl, Option, none, some, Bool, true, ok, lt→ltb, arith,
}
use frib_e2sar.BufferedSink.{BufferedSink, set_window, set_timeout, emit_from_window}
use frib_e2sar.BufferedSink.Sorted.{IsSorted}
use frib_e2sar.BufferedSink.Window.{InRange, Spans, emit_from_window-iff_Spans}
use frib_e2sar.Receiver.{to_double, window_ns, configure_sink, configure_window, configure_timeout}

to_double-exact : (n : ℕ) → n < 2 ^ 53 → to_double n ≡ n
unfolding to_double
to_double-exact n small = rw (lt→ltb n (2 ^ 53) small) refl

window_ns-exact : (given : ℕ) → given * 10 ^ 6 < 2 ^ 53 → window_ns given ≡ ok (given * 10 ^ 6)
unfolding window_ns
window_ns-exact given small =
    rw
      (
        to_double-exact given (omega (arith, small)),
        to_double-exact (given * 10 ^ 6) small,
        lt→ltb (given * 10 ^ 6) (2 ^ 64) (omega (arith, small)),
      )
      refl

-- With a window of `given` in its options, whose product with 1e6 is below 2^53 and so exact, the
-- constructor sets up a sink that is ready to emit exactly when the back of its queue, in time
-- order with times of 64 bits, is later than the front by more than 1e6 times `given`, and that
-- also where the event counter is used, when times are numbers of buffers.
pub configure_sink-emit_from_window :
    {Q S : Type 0} (use_ct : Bool) (ms : Option ℕ) (given : ℕ) (s : BufferedSink Q S)
    → given * 10 ^ 6 < 2 ^ 53
    → IsSorted s.sorted_queue
    → InRange s.sorted_queue
    → (t : BufferedSink Q S) × (configure_sink
          (record { use_ct = use_ct; sink_timeout = ms; sink_window = some given })
          s
        ≡ ok t)
      × ((emit_from_window t ≡ true) ↔ Spans (given * 10 ^ 6) s.sorted_queue)
unfolding configure_sink configure_window configure_timeout set_window set_timeout
configure_sink-emit_from_window use_ct none given s small sorted range =
    let t = set_window (given * 10 ^ 6) s in
    (t, rw (window_ns-exact given small) refl, emit_from_window-iff_Spans t sorted range)
configure_sink-emit_from_window use_ct (some ms) given s small sorted range =
    let t = set_window (given * 10 ^ 6) (set_timeout ms s) in
    (t, rw (window_ns-exact given small) refl, emit_from_window-iff_Spans t sorted range)
