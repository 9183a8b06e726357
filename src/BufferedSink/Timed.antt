-- ===== src/BufferedSink/Timed.antt =====
-- Two events with timestamps that arrive in the wrong order, and the round that writes them.
use frib_e2sar.Base.{ℕ, ◌≡◌, refl, List, [], ◌∷◌, ◌++◌, Bool, false, ok, arith}
use frib_e2sar.Base.Words.{sub_u64}
use frib_e2sar.RingItem.{count_ring_items, count_loop, item_size, next_item, advance, item_iovs}
use frib_e2sar.RingItem.Sample.{little_endian, item}
use frib_e2sar.BufferedSink.{
  Buffer, init, add_data, drain_and_sort, drain_batch, sort_batch, insert_all, insert_buffer,
  insert_queue, seek, emit_from_window, window_test, have_sorted_data, output_data, output_queue,
  output_until, take_until, collect_iovs, finish_output,
}
use frib_e2sar.BufferedSink.Output.{IsFilled}
use frib_e2sar.BufferedSink.Poll.{Polling, timed_out, emit_round, poll_round}
use frib_e2sar.BufferedSink.Sample.{list_fifo, list_sink}
use frib_e2sar.BufferedSink.Threads.{
  System, start, arrival, after_round, Reach, here, next, arrive, round,
}

abbrev pub timed_item : ℕ → List ℕ
timed_item t = item 30 (20 ∷ 0 ∷ 0 ∷ 0 ∷ t ∷ [])

abbrev pub timed_event : ℕ → Buffer
timed_event t = record { s_time = t; payload = timed_item t; s_size = 13 }

timed_event-IsFilled : (t : ℕ) → IsFilled (timed_event t)
timed_event-IsFilled t = (
  timed_item t ∷ [],
  record {
    items = ((omega arith, refl), tt);
    payload_eq = refl;
    size_eq = refl;
    small = omega arith;
  },
)

abbrev pub timed : System (List Buffer) (List ℕ)
timed = arrival (timed_event 77) (arrival (timed_event 99) (start [] [] false 0))

pub timed-Reach : Reach [] [] false 0 timed
timed-Reach =
    next (next here (arrive (timed_event 99) (omega arith) (timed_event-IsFilled 99)))
      (arrive (timed_event 77) (omega arith) (timed_event-IsFilled 77))

-- The round that takes timed and writes them when half a second has passed.
abbrev pub timed_written : List Buffer × Polling (List Buffer) (List ℕ) × Bool
timed_written = (
  (timed_event 77) ∷ (timed_event 99) ∷ [],
  record {
    state = record (timed.polling.state) {
      input_queue = [];
      sorted_queue = [];
      last_emitted = 99;
      sink = (timed_event 77).payload ++ (timed_event 99).payload;
      freed = (timed_event 77) ∷ (timed_event 99) ∷ [];
    };
    last_data_time = 1;
  },
  false,
)

pub timed-round : poll_round 1 1_000_000_000 timed.polling ≡ ok timed_written
unfolding poll_round drain_and_sort drain_batch sort_batch insert_all insert_buffer insert_queue
    seek emit_round emit_from_window window_test timed_out have_sorted_data output_data output_queue
    output_until take_until collect_iovs finish_output count_ring_items count_loop item_size
    next_item advance item_iovs sub_u64 init add_data
timed-round = refl

pub timed_written-Reach : Reach [] [] false 0 (after_round timed timed_written)
timed_written-Reach = next timed-Reach (round 1 1_000_000_000 timed-round)
