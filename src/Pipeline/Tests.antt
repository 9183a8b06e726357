-- ===== src/Pipeline/Tests.antt =====
-- The way of a file of three items: it makes two events, which arrive in reverse order.
use mathlib.Core.List.Perm
use frib_e2sar.Base.{refl, [], flatten, arith, ℕ, ◌≡◌, List, ok, false, ◌∷◌, ◌++◌, ge→ltb, length}
use frib_e2sar.Base.Words.{add_u64, sub_u64}
use frib_e2sar.RingItem.Sample.{little_endian}
use frib_e2sar.BufferedSink.{init, add_data, Buffer}
use frib_e2sar.BufferedSink.Sample.{list_fifo, list_sink, list_sink-Bytes, list_sink-Puts}
use frib_e2sar.BufferedSink.Pair.{
  first_event, second_event, both, both-Reach, written, written-Reach,
}
use frib_e2sar.BufferedSink.Threads.{after_round, System}
use frib_e2sar.Sender.{next_item as next_to_pack}
use frib_e2sar.Sender.{
  send_loop, send_round, pack, send_buffer, event_number, queue_buffer, Config, Sender, send_start,
}
use frib_e2sar.Sender.Sample.{
  list_source, list_segmenter, list_segmenter-Queues, small_times, list_file, whole_file, ready,
}
use frib_e2sar.Pipeline.Delivery.{send_loop-Delivered}
use frib_e2sar.BufferedSink.Settling.{poll_rounds}
use frib_e2sar.Pipeline.Stamped.{Written, send_loop-Written}
use frib_e2sar.Sender.Stamps.{IsStamped}
use frib_e2sar.Sender.Timestamp.{physics_timestamp, read_byte, get_first_timestamp, timestamp_loop}
use frib_e2sar.RingItem.{advance, item_size, next_item}
use frib_e2sar.BufferedSink.Timed.{
  timed_item, timed_event, timed, timed_written, timed_written-Reach,
}
use frib_e2sar.Pipeline.{Copied, send_loop-Copied}

send_loop-Copied_example :
    Copied list_file list_sink-Bytes whole_file
      (send_loop 4 whole_file (λ i. i) 0 ready)
      (flatten (list_file.remaining ready.source))
      []
      (after_round both written)
unfolding init add_data send_loop send_round pack next_to_pack send_buffer event_number queue_buffer
    add_u64
send_loop-Copied_example =
    send_loop-Copied list_file list_sink-Bytes whole_file list_segmenter-Queues refl refl
      (omega arith) (λ i. i) 4 ready.source [] (omega arith)
      ((omega arith, refl), ((omega arith, refl), ((omega arith, refl), tt))) (omega arith)
      (λ e. cc) (omega arith) refl written-Reach (Perm.swap first_event second_event []) refl refl
      refl

-- Both events have arrived, and half a second passes between the rounds.
send_loop-Delivered_example :
    (v : System (List Buffer) (List ℕ)) × (poll_rounds (λ j. (1, 1_000_000_000)) 3 0 both ≡ ok v)
    × Copied list_file list_sink-Bytes whole_file
        (send_loop 4 whole_file (λ i. i) 0 ready)
        (flatten (list_file.remaining ready.source))
        []
        v
unfolding init add_data send_loop send_round pack next_to_pack send_buffer event_number queue_buffer
    add_u64
send_loop-Delivered_example =
    send_loop-Delivered list_file list_sink-Bytes whole_file list_segmenter-Queues refl refl
      (omega arith) (λ i. i) 4 ready.source [] (omega arith)
      ((omega arith, refl), ((omega arith, refl), ((omega arith, refl), tt))) (omega arith)
      (λ e. cc) (omega arith) list_sink-Puts refl both-Reach (Perm.swap first_event second_event [])
      (omega arith) refl refl (λ j. (1, 1_000_000_000)) 1 2 (λ j h. omega arith)
      (λ j h. omega arith) (omega arith) (omega arith)

-- Two items with timestamps, one to an event.
abbrev by_time : Config
by_time = record whole_file { use_ct = false }

abbrev bodies : List (List ℕ)
bodies = (20 ∷ 0 ∷ 0 ∷ 0 ∷ 77 ∷ []) ∷ (20 ∷ 0 ∷ 0 ∷ 0 ∷ 99 ∷ []) ∷ []

abbrev by_time_ready : Sender (List (List ℕ)) (List ℕ)
by_time_ready = send_start bodies []

timed_item-IsStamped : (t : ℕ) → IsStamped false (timed_item t)
unfolding advance physics_timestamp read_byte
timed_item-IsStamped t = (
  (omega arith, refl),
  λ e rest. (t, rw (ge→ltb (length (timed_item t ++ rest)) 8 (omega arith)) refl),
)

send_loop-Written_example :
    Written list_file list_sink-Bytes by_time
      (send_loop 3 by_time (λ i. i) 0 by_time_ready)
      (flatten (list_file.remaining bodies))
      []
      (after_round timed timed_written)
unfolding init add_data send_loop send_round pack next_to_pack send_buffer event_number queue_buffer
    add_u64 get_first_timestamp timestamp_loop physics_timestamp read_byte advance item_size
    next_item sub_u64
send_loop-Written_example =
    send_loop-Written list_file list_sink-Bytes by_time list_segmenter-Queues refl refl
      (omega arith) (λ i. i) 3 bodies [] (omega arith)
      (timed_item-IsStamped 77, (timed_item-IsStamped 99, tt)) (omega arith) (λ e. cc) (omega arith)
      (omega arith) refl timed_written-Reach (Perm.swap (timed_event 77) (timed_event 99) []) refl
      refl refl
