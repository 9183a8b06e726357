-- ===== src/BufferedSink/Pair.antt =====
-- Two events that arrive in the wrong order, and the round that writes them in time order.
use frib_e2sar.Base.{ℕ, ◌≡◌, refl, List, [], ◌∷◌, ◌++◌, Bool, true, false, ok, arith}
use frib_e2sar.Base.Words.{sub_u64}
use frib_e2sar.RingItem.{count_ring_items, count_loop, item_size, next_item, advance, item_iovs}
use frib_e2sar.RingItem.Sample.{little_endian, item}
use frib_e2sar.BufferedSink.{
  Buffer, init, add_data, drain_and_sort, drain_batch, sort_batch, insert_all, insert_buffer,
  insert_queue, seek, emit_from_window, window_test, have_sorted_data, output_data, output_queue,
  output_until, take_until, collect_iovs, finish_output,
}
use frib_e2sar.BufferedSink.Output.{IsFilled}
use frib_e2sar.BufferedSink.Poll.{Polling, timed_out, emit_round, poll_round}
use frib_e2sar.BufferedSink.Sample.{list_fifo, list_sink}
use frib_e2sar.BufferedSink.Threads.{
  System, start, arrival, after_round, Reach, here, next, arrive, round,
}

abbrev pub first_event : Buffer
first_event = record { s_time = 0; payload = item 30 (1 ∷ []) ++ item 30 (2 ∷ 3 ∷ []); s_size = 19 }

abbrev pub second_event : Buffer
second_event = record { s_time = 1; payload = item 30 (4 ∷ []); s_size = 9 }

first_event-IsFilled : IsFilled first_event
first_event-IsFilled = (
  item 30 (1 ∷ []) ∷ item 30 (2 ∷ 3 ∷ []) ∷ [],
  record {
    items = ((omega arith, refl), ((omega arith, refl), tt));
    payload_eq = refl;
    size_eq = refl;
    small = omega arith;
  },
)

second_event-IsFilled : IsFilled second_event
second_event-IsFilled = (
  item 30 (4 ∷ []) ∷ [],
  record {
    items = ((omega arith, refl), tt);
    payload_eq = refl;
    size_eq = refl;
    small = omega arith;
  },
)

abbrev pub both : System (List Buffer) (List ℕ)
both = arrival first_event (arrival second_event (start [] [] true 0))

pub both-Reach : Reach [] [] true 0 both
both-Reach =
    next (next here (arrive second_event (omega arith) second_event-IsFilled))
      (arrive first_event (omega arith) first_event-IsFilled)

-- The round that takes both and writes them when half a second has passed.
abbrev pub written : List Buffer × Polling (List Buffer) (List ℕ) × Bool
written = (
  first_event ∷ second_event ∷ [],
  record {
    state = record (both.polling.state) {
      input_queue = [];
      sorted_queue = [];
      last_emitted = 1;
      sink = first_event.payload ++ second_event.payload;
      freed = first_event ∷ second_event ∷ [];
    };
    last_data_time = 1;
  },
  false,
)

pub both-round : poll_round 1 1_000_000_000 both.polling ≡ ok written
unfolding poll_round drain_and_sort drain_batch sort_batch insert_all insert_buffer insert_queue
    seek emit_round emit_from_window window_test timed_out have_sorted_data output_data output_queue
    output_until take_until collect_iovs finish_output count_ring_items count_loop item_size
    next_item advance item_iovs sub_u64 init add_data
both-round = refl

pub written-Reach : Reach [] [] true 0 (after_round both written)
written-Reach = next both-Reach (round 1 1_000_000_000 both-round)
