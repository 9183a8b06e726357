-- ===== src/Receiver/Life/Tests.antt =====
-- A receiver with two buffers in its input queue, and its constructor on a list of flags.
use mathlib.Core.List.{Perm}
use frib_e2sar.Base.{ℕ, ◌+◌, ◌≡◌, List, [], ◌++◌, Bool, true, ok, drop, arith}
use frib_e2sar.RingItem.Sample.{little_endian}
use frib_e2sar.BufferedSink.{Buffer, batch_size, init, add_data}
use frib_e2sar.BufferedSink.Sample.{
  list_fifo, list_sink, list_sink-Puts, two_arrived, waiting, waiting-Valid,
}
use frib_e2sar.Receiver.Sample.{willing}
use frib_e2sar.Receiver.Life.{Receiver, close}
use frib_e2sar.Receiver.Life.Closing.{IsReleased, close-drops}
use frib_e2sar.Receiver.Life.Interrupt.{Interrupted, ctrl_c_handler-Interrupted}

abbrev receiving : Receiver (Bool × Bool) (List Buffer) (List ℕ)
receiving = record { reassembler = (true, true); sink = waiting; threads_running = true }

close-drops_example :
    let unwritten = drop (batch_size + batch_size) waiting.input_queue in
    (out : List Buffer) × (t : Receiver (Bool × Bool) (List Buffer) (List ℕ)) × (close 3 receiving
      ≡ ok (out, t))
    × (t.sink.sorted_queue ≡ [])
    × (t.sink.input_queue ≡ [])
    × Perm (([] ++ out) ++ unwritten) two_arrived.arrived
    × IsReleased (true, true) t.reassembler
unfolding add_data init
close-drops_example = close-drops list_sink-Puts 3 receiving waiting-Valid (omega arith)

ctrl_c_handler-Interrupted_example : Interrupted 3 receiving [] two_arrived.arrived
unfolding add_data init
ctrl_c_handler-Interrupted_example =
    ctrl_c_handler-Interrupted list_sink-Puts 3 receiving waiting-Valid (omega arith)
