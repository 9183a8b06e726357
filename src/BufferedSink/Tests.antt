-- ===== src/BufferedSink/Tests.antt =====
-- The sink on concrete data, with lists for the lock-free queue and for what the sink holds, and
-- the theorems at such inputs.
use mathlib.Core.List.{Perm}
use frib_e2sar.Base.{
  ℕ, ◌*◌, ◌^◌, ◌+◌, ◌<◌, ◌≡◌, ◌↔◌, refl, List, [], ◌∷◌, ◌++◌, Bool, true, false, ok, ◌>>=◌, drop,
  All, arith,
}
use frib_e2sar.Base.Words.{sub_u64}
use frib_e2sar.RingItem.{count_ring_items, count_loop, item_size, next_item, advance, item_iovs}
use frib_e2sar.RingItem.Sample.{little_endian}
use frib_e2sar.BufferedSink.{
  Buffer, BufferedSink, init, batch_size, seek, insert_queue, insert_buffer, insert_all,
  have_sorted_data, window_test, emit_from_window, drain_batch, add_data, sort_batch,
  drain_and_sort, take_until, collect_iovs, finish_output, output_until, output_queue, output_data,
  destroy,
}
use frib_e2sar.BufferedSink.Sample.{
  list_fifo, list_sink, list_sink-Puts, one_item, one_item-IsFilled, two_arrived, two_arrived-Reach,
  waiting, waiting-Valid,
}
use frib_e2sar.BufferedSink.Sorted.{IsSorted}
use frib_e2sar.BufferedSink.Insert.{place, insert_queue-place}
use frib_e2sar.BufferedSink.Window.{emit_from_window-iff_Spans}
use frib_e2sar.BufferedSink.Output.{IsFilled}
use frib_e2sar.BufferedSink.Emission.{Emission, emitted_state, output_data-Emission}
use frib_e2sar.BufferedSink.Poll.{Polling, timed_out, emit_round, poll_round}
use frib_e2sar.BufferedSink.Threads.{next, round, Reach-in_order, Reach-conserved, after_round}
use frib_e2sar.BufferedSink.Refinement.{Simulates, Step-Simulates}
use frib_e2sar.BufferedSink.Settling.{Settled, Reach-Settled}
use frib_e2sar.BufferedSink.Stop.{destroy-drops}

-- Half a second after the last data the round flushes, in time order.
Reach-in_order_example : IsSorted (one_item 3 ∷ one_item 5 ∷ [])
unfolding poll_round drain_and_sort drain_batch sort_batch insert_all insert_buffer insert_queue
    seek emit_round emit_from_window window_test timed_out have_sorted_data output_data output_queue
    output_until take_until collect_iovs finish_output count_ring_items count_loop item_size
    next_item advance item_iovs sub_u64 init add_data
Reach-in_order_example =
    Reach-in_order refl (next two_arrived-Reach (round 1 1_000_000_000 refl)) refl

Reach-conserved_example : Perm (one_item 5 ∷ one_item 3 ∷ []) (one_item 5 ∷ one_item 3 ∷ [])
unfolding init add_data
Reach-conserved_example = Reach-conserved refl two_arrived-Reach

-- The sink after that round.
abbrev flushed : List Buffer × Polling (List Buffer) (List ℕ) × Bool
flushed = (
  one_item 3 ∷ one_item 5 ∷ [],
  record {
    state = record (two_arrived.polling.state) {
      input_queue = [];
      sorted_queue = [];
      last_emitted = 5;
      sink = (one_item 3).payload ++ (one_item 5).payload;
      freed = one_item 3 ∷ one_item 5 ∷ [];
    };
    last_data_time = 1;
  },
  false,
)

Step-Simulates_example : Simulates two_arrived (after_round two_arrived flushed)
unfolding poll_round drain_and_sort drain_batch sort_batch insert_all insert_buffer insert_queue
    seek emit_round emit_from_window window_test timed_out have_sorted_data output_data output_queue
    output_until take_until collect_iovs finish_output count_ring_items count_loop item_size
    next_item advance item_iovs sub_u64 init add_data
Step-Simulates_example =
    Step-Simulates refl two_arrived-Reach (round 1 1_000_000_000 {r = flushed} refl)

destroy-drops_example :
    (out : List Buffer) × (t : BufferedSink (List Buffer) (List ℕ)) × (destroy 3 waiting
      ≡ ok (out, t))
    × (t.sorted_queue ≡ [])
    × (t.input_queue ≡ [])
    × (t.freed ≡ drop batch_size waiting.input_queue ++ out ++ waiting.freed)
    × Perm (([] ++ out) ++ drop batch_size waiting.input_queue) two_arrived.arrived
unfolding add_data init
destroy-drops_example = destroy-drops list_sink-Puts 3 waiting waiting-Valid (omega arith)

-- Three buffers in the sorted queue, the first behind the window of the last.
abbrev sorted_three : BufferedSink (List Buffer) (List ℕ)
sorted_three = record {
  timeout_ms = 500;
  window = 10;
  last_emitted = 0;
  shutdown = false;
  queue_capacity = 10240;
  input_queue = one_item 4 ∷ [];
  sorted_queue = one_item 3 ∷ one_item 9 ∷ one_item 15 ∷ [];
  sink = [];
  late = [];
  freed = [];
}

sorted_three-IsFilled : All IsFilled sorted_three.sorted_queue
sorted_three-IsFilled = (one_item-IsFilled 3, (one_item-IsFilled 9, (one_item-IsFilled 15, tt)))

output_data-Emission_example :
    (e : Emission 5 sorted_three.sorted_queue) × (output_data false sorted_three
      ≡ (list_sink.put_v e.iovs [] >>= λ k. ok (e.first ∷ e.more, emitted_state sorted_three e k)))
output_data-Emission_example =
    output_data-Emission false sorted_three (omega arith) (omega arith) sorted_three-IsFilled
      (omega arith)

insert_queue-place_example :
    insert_queue (one_item 9) (one_item 3 ∷ one_item 9 ∷ one_item 15 ∷ [])
    ≡ place (one_item 9) (one_item 3 ∷ one_item 9 ∷ one_item 15 ∷ [])
insert_queue-place_example = insert_queue-place (one_item 9) sorted_three.sorted_queue (omega arith)

emit_from_window-iff_Spans_example : (emit_from_window sorted_three ≡ true) ↔ (3 + 10 < 15)
emit_from_window-iff_Spans_example =
    emit_from_window-iff_Spans sorted_three (omega arith) (omega arith)

-- A clock that stands still at 2 s, with all data at 1 ns.
abbrev late_clock : ℕ → ℕ × ℕ
late_clock j = (1, 2 * 10 ^ 9)

Reach-Settled_example : Settled late_clock 3 0 two_arrived
unfolding add_data init
Reach-Settled_example =
    Reach-Settled refl two_arrived-Reach list_sink-Puts late_clock 1 1 2 (λ j h. omega arith)
      (λ j h. omega arith) (omega arith) (omega arith) (omega arith)
