-- ===== src/BufferedSink/Poll.antt =====
-- `BufferedSink::poll`, the loop of the output thread, a round at a time.
pub mod Invariant
pub mod Progress
use frib_e2sar.Base.{
  ℕ, ◌-◌, ◌*◌, ◌^◌, List, [], Bool, true, false, not, ◌&&◌, ◌||◌, Result, ok, ◌>>=◌, ltb,
  if◌then◌else◌,
}
use frib_e2sar.RingItem.{RingFormat}
use frib_e2sar.BufferedSink.{
  Buffer, Fifo, DataSink, BufferedSink, drain_and_sort, emit_from_window, have_sorted_data,
  output_data,
}

-- The state and the local `lastDataTime`, in nanoseconds.
pub record Polling (Q S : Type 0) : Type 0 where
  pub state : BufferedSink Q S
  pub last_data_time : ℕ

-- Whether the last data lies back by more than the timeout.
unfoldable pub timed_out : {Q S : Type 0} → ℕ → BufferedSink Q S → Bool
timed_out elapsed s = ltb (s.timeout_ms * 10 ^ 6) elapsed

module _ {Q S : Type 0} ⦃fifo : Fifo Q Buffer⦄ ⦃dev : DataSink S⦄ ⦃fmt : RingFormat⦄ where
  -- The part of a round behind `drainAndSort`. The result has the buffers that were written and
  -- whether the thread goes on to wait.
  unfoldable pub emit_round : ℕ → ℕ → BufferedSink Q S → Result (List Buffer × Polling Q S × Bool)
  emit_round now since s =
      let window_ready = emit_from_window s in
      let timeout_flush = timed_out (now - since) s && have_sorted_data s in
      let flush = not window_ready && timeout_flush in
      let emit : Result (List Buffer × Polling Q S × Bool) =
        (output_data flush s >>= λ r.
        ok (r.0, record { state = r.1; last_data_time = since }, false)) in
      if window_ready || timeout_flush
      then emit
      else ok ([], record { state = s; last_data_time = since }, true)

  -- A round whose clock reads `drained_at` after data has come and `now` at the timeout check.
  unfoldable pub poll_round : ℕ → ℕ → Polling Q S → Result (List Buffer × Polling Q S × Bool)
  poll_round drained_at now p =
      let (s, avail) = drain_and_sort p.state in
      emit_round now (if avail then drained_at else p.last_data_time) s
